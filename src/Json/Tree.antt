-- ===== src/Json/Tree.antt =====
-- JSON values as trees: an instance of the operations, and the proof that it obeys the laws.
pub mod Laws
use rws.Base.{
  ℕ, zero, suc, ◌+◌, ◌*◌, ◌%◌, ◌^◌, ◌≤◌, ◌<◌, ◌≡◌, ◌≢◌, refl, sym, ap, ◌∙◌, Bool, true, false, ◌||◌,
  none, some, Option, List, [], ◌∷◌, map, if◌then◌else◌, All, arith,
}
use rws.Base.Result.{Result, ok, err, fault, json_error}
use rws.Base.Text.{Text, text_eq, text_eq_refl, text_eq→eq}
use rws.Cdr.Host.{Width, one_byte, two_bytes, four_bytes, eight_bytes, modulus, Fits, Host}
use rws.Cdr.Ser as Ser
use rws.Cdr.Deser.Reads.{shape_of}
use rws.Cdr.Deser.{Shape}
use rws.Members.{TypeId, type_shape}
use rws.Json.{Json, JsonLaws, HasType, HasShape, InRange}

mutual
  pub data Tree : Type 0 where
    nothing : Tree
    boolean : Bool → Tree
    number : ℕ → Tree
    text : List ℕ → Tree
    array : Items → Tree
    object : Fields → Tree

  pub data Items : Type 0 where
    last : Items
    item : Tree → Items → Items

  pub data Fields : Type 0 where
    done : Fields
    field : Text → Tree → Fields → Fields

unfoldable pub count : Items → ℕ
count last = 0
count (item x xs) = suc (count xs)

unfoldable pub nth : ℕ → Items → Tree
nth i last = nothing
nth zero (item x xs) = x
nth (suc i) (item x xs) = nth i xs

unfoldable pub put : ℕ → Tree → Items → Items
put zero v last = item v last
put zero v (item x xs) = item v xs
put (suc i) v last = item nothing (put i v last)
put (suc i) v (item x xs) = item x (put i v xs)

unfoldable pub lookup : Text → Fields → Option Tree
lookup k done = none
lookup k (field n v rest) = if text_eq n k then some v else lookup k rest

unfoldable pub count_members : Fields → ℕ
count_members done = 0
count_members (field n v rest) = suc (count_members rest)

abbrev pub members_of : Tree → Fields
members_of (object fs) = fs
members_of _ = done

abbrev pub items_of : Tree → Items
items_of (array xs) = xs
items_of _ = last

abbrev pub nth_item : ℕ → Tree → Result Tree
nth_item i (array xs) = ok (nth i xs)
nth_item i nothing = ok nothing
nth_item i _ = err json_error

abbrev pub size_of : Tree → ℕ
size_of nothing = 0
size_of (array xs) = count xs
size_of (object fs) = count_members fs
size_of _ = 1

abbrev pub is_null_tree : Tree → Bool
is_null_tree nothing = true
is_null_tree _ = false

abbrev pub is_object_tree : Tree → Bool
is_object_tree (object fs) = true
is_object_tree _ = false

abbrev pub is_array_tree : Tree → Bool
is_array_tree (array xs) = true
is_array_tree _ = false

abbrev pub to_tree : Ser.Value → Tree
to_tree (Ser.boolean b) = boolean b
to_tree (Ser.scalar w x) = number x
to_tree (Ser.text x) = text x
to_tree (Ser.wide_text x) = text x

-- A number is taken modulo the type it is read as.
abbrev pub of_tree : Host → Option Shape → Tree → Result Ser.Value
of_tree h (some Shape.boolean) (boolean b) = ok (Ser.boolean b)
of_tree h (some (Shape.scalar w)) (number x) = ok (Ser.scalar w (x % modulus w))
of_tree h (some Shape.text) (text x) = ok (Ser.text x)
of_tree h (some Shape.wide_text) (text x) = ok (Ser.wide_text (map (λ u. u % modulus h.wchar) x))
of_tree h _ _ = err json_error

abbrev pub text_of : Tree → Result Text
text_of (text x) = ok x
text_of _ = err json_error

abbrev pub number_of : Tree → ℕ
number_of (number x) = x
number_of _ = 0

abbrev pub flag_of : Tree → Bool
flag_of (boolean b) = b
flag_of _ = false

abbrev pub is_text : Tree → Bool
is_text (text x) = true
is_text _ = false

abbrev pub is_number_tree : Tree → Bool
is_number_tree (number x) = true
is_number_tree _ = false

abbrev pub is_flag : Tree → Bool
is_flag (boolean b) = true
is_flag _ = false

abbrev pub or_nothing : Option Tree → Tree
or_nothing none = nothing
or_nothing (some x) = x

abbrev pub is_there : Option Tree → Bool
is_there none = false
is_there (some x) = true

abbrev pub tree : Host → Json
tree h = record {
  Value = Tree;
  contains = λ k v. is_there (lookup k (members_of v));
  at = λ k v. or_nothing (lookup k (members_of v));
  set = λ k x v. object (field k x (members_of v));
  is_string = is_text;
  is_number = is_number_tree;
  is_boolean = is_flag;
  get_string = text_of;
  get_number = number_of;
  get_bool = flag_of;
  of_text = text;
  of_bool = boolean;
  null = nothing;
  is_null = is_null_tree;
  is_object = is_object_tree;
  is_array = is_array_tree;
  size = size_of;
  find_member = λ k v. lookup k (members_of v);
  empty_array = array last;
  item = nth_item;
  set_item = λ i v x. array (put i v (items_of x));
  to_json = λ t v. to_tree v;
  get = λ t v. of_tree h (type_shape t) v;
}

pub nth_behind : (i : ℕ) (xs : Items) → count xs ≤ i → nth i xs ≡ nothing
unfolding nth count
nth_behind i last l = refl
nth_behind zero (item x xs) l = absurd (omega arith)
nth_behind (suc i) (item x xs) l = nth_behind i xs (omega arith)

pub put_end :
    (n : ℕ) (v : Tree) (xs : Items)
    → count xs ≡ n
    → (count (put n v xs) ≡ suc n) × (nth n (put n v xs) ≡ v)
unfolding nth count put
put_end zero v last e = (refl, refl)
put_end (suc n) v last e = absurd (omega arith)
put_end zero v (item x xs) e = absurd (omega arith)
put_end (suc n) v (item x xs) e = let r = put_end n v xs (omega arith) in (ap suc r.0, r.1)

pub nth-put :
    (i n : ℕ) (v : Tree) (xs : Items) → count xs ≡ n → i < n → nth i (put n v xs) ≡ nth i xs
unfolding nth count put
nth-put i zero v xs e l = absurd (omega arith)
nth-put i (suc n) v last e l = absurd (omega arith)
nth-put zero (suc n) v (item x xs) e l = refl
nth-put (suc i) (suc n) v (item x xs) e l = nth-put i n v xs (omega arith) (omega arith)
