-- ===== src/Typesupport/Inside.antt =====
-- The objects in a raw message are inside its block.
use rws.Base.{ℕ, ◌+◌, ◌≤◌, true, false, List, [], ◌∷◌, All, All-append, arith}
use rws.Typesupport.{
  Made, Layout, last, member, MemberType, ros_string, ros_wstring, ros_message, other, made_string,
  made_wstring, allocate_string_members, allocate_member, allocate_message,
}

module _ (sizes : Made → ℕ) where
  -- The members are inside a message of `n` bytes, and the members of a message in it are inside that
  -- one.
  unfoldable mutual
    pub FitsIn : ℕ → Layout → Type 0
    FitsIn n last = Unit {0}
    FitsIn n (member offset t rest) = FitsMember n offset t × FitsIn n rest

    pub FitsMember : ℕ → ℕ → MemberType → Type 0
    FitsMember n offset (ros_string is_array) = offset + sizes (made_string is_array) ≤ n
    FitsMember n offset (ros_wstring is_array) = offset + sizes (made_wstring is_array) ≤ n
    FitsMember n offset (ros_message sub true) = Unit {0}
    FitsMember n offset (ros_message sub false) = (size : ℕ) × (offset + size ≤ n) × FitsIn size sub
    FitsMember n offset (other size) = offset + size ≤ n

  abbrev pub Inside : ℕ → ℕ × Made → Type 0
  Inside n o = o.0 + sizes o.1 ≤ n

  wider : (m n : ℕ) (os : List (ℕ × Made)) → m ≤ n → All (Inside m) os → All (Inside n) os
  wider m n [] h a = tt
  wider m n (o ∷ os) h a = (omega (arith, a.0, h), wider m n os h a.1)

  mutual
    unfolding allocate_string_members FitsIn

    members-Inside :
        (n : ℕ) (members : Layout) (buf : ℕ)
        → FitsIn n members
        → All (Inside (buf + n)) (allocate_string_members members buf)
    members-Inside n last buf f = tt
    members-Inside n (member offset t rest) buf f =
        All-append (Inside (buf + n)) (allocate_member offset t buf)
          (allocate_string_members rest buf) (member-Inside n offset t buf f.0)
          (members-Inside n rest buf f.1)

    member-Inside :
        (n offset : ℕ) (t : MemberType) (buf : ℕ)
        → FitsMember n offset t
        → All (Inside (buf + n)) (allocate_member offset t buf)
    member-Inside n offset (ros_string is_array) buf f = (omega (arith, f), tt)
    member-Inside n offset (ros_wstring is_array) buf f = (omega (arith, f), tt)
    member-Inside n offset (ros_message sub true) buf f = tt
    member-Inside n offset (ros_message sub false) buf f =
        wider (buf + f.0) (buf + n) _ (omega (arith, f.1)) (members-Inside f.0 sub buf f.2)
    member-Inside n offset (other size) buf f = tt

  -- The string objects that allocate_message makes for a message whose members, and the members of
  -- the messages in it, are inside of what they are members of: each is inside the block.
  pub allocate_message-Inside :
      (size_of : ℕ) (members : Layout)
      → FitsIn size_of members
      → All
          (Inside (allocate_message size_of members).size)
          (allocate_message size_of members).objects
  unfolding allocate_message
  allocate_message-Inside size_of members f =
      wider (0 + size_of) (size_of + 1024) _ (omega arith) (members-Inside size_of members 0 f)
