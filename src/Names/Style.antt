-- ===== src/Names/Style.antt =====
-- message_type_to_ros2_style and message_type_to_ros1_style against each other.
use rws.Base.{
  ℕ, ◌+◌, ◌≡◌, ◌↔◌, refl, sym, ap, ◌∙◌, none, some, [], ◌∷◌, ◌++◌, length, take, drop, take-append,
  drop-append, drop-drop, Option-cases, inl, inr,
}
use rws.Base.Result.{ok, err, out_of_range}
use rws.Base.Text.{Text}
use rws.Names.{
  find_text, slash, msg, replace, message_type_to_ros2_style, message_type_to_ros1_style,
}
use rws.Names.Find.{find_text-slash, find_text-msg, find_text_no_slash}

-- "/msg/" put in for a slash and taken out again.
replaced_back :
    (s : Text) (i : ℕ)
    → find_text (slash ∷ []) s ≡ some i
    → replace i 5 (slash ∷ []) (replace i 1 msg s) ≡ s
replaced_back s i e =
    let at = find_text-slash s i e in
    let tail : Text = drop (i + 1) s in
    let front : i ≡ length (take i s) = sym at.0 in
    let behind : drop (i + 5) (take i s ++ (msg ++ tail)) ≡ tail =
      drop-drop i 5 (i + 5) _ refl ∙ ap (drop 5) (drop-append i (take i s) (msg ++ tail) front) in
    rw (take-append i (take i s) (msg ++ tail) front, behind) at.1

message_type_to_ros2_style_old :
    (s : Text) (i : ℕ) → find_text msg s ≡ some i → message_type_to_ros2_style s ≡ ok s
unfolding message_type_to_ros2_style
message_type_to_ros2_style_old s i e = rw (e, message_type_to_ros2_style) refl

message_type_to_ros2_style_new :
    (s : Text) (i : ℕ)
    → find_text msg s ≡ none
    → find_text (slash ∷ []) s ≡ some i
    → message_type_to_ros2_style s ≡ ok (replace i 1 msg s)
unfolding message_type_to_ros2_style
message_type_to_ros2_style_new s i old e = rw (old, e, message_type_to_ros2_style) refl

message_type_to_ros2_style-none :
    (s : Text) → find_text (slash ∷ []) s ≡ none → message_type_to_ros2_style s ≡ err out_of_range
unfolding message_type_to_ros2_style
message_type_to_ros2_style-none s e =
    rw (find_text_no_slash s e, e, message_type_to_ros2_style) refl

ok_inj : (s t : Text) → ok s ≡ ok t → s ≡ t
ok_inj s t e = cc e

-- A type name without "/msg/" that message_type_to_ros2_style turns into the style of ROS 2 is
-- turned back into itself by message_type_to_ros1_style.
pub message_type_to_ros1_style-message_type_to_ros2_style :
    (s t : Text)
    → find_text msg s ≡ none
    → message_type_to_ros2_style s ≡ ok t
    → message_type_to_ros1_style t ≡ s
unfolding message_type_to_ros1_style
message_type_to_ros1_style-message_type_to_ros2_style s t old e =
    elim (Option-cases (find_text (slash ∷ []) s)) [
      | inl gone ↦ absurd (cc (e, message_type_to_ros2_style-none s gone))
      | inr (i, got) ↦
          let new : t ≡ replace i 1 msg s =
            ok_inj _ _ (sym e ∙ message_type_to_ros2_style_new s i old got) in
          rw new (rw (find_text-msg s i got, message_type_to_ros1_style) (replaced_back s i got))
    ]

-- What message_type_to_ros2_style returns, it returns again when it is called on it.
pub message_type_to_ros2_style-message_type_to_ros2_style :
    (s t : Text) → message_type_to_ros2_style s ≡ ok t → message_type_to_ros2_style t ≡ ok t
message_type_to_ros2_style-message_type_to_ros2_style s t e =
    elim (Option-cases (find_text msg s)) [
      | inr (k, got) ↦
          let same : s ≡ t = ok_inj _ _ (sym (message_type_to_ros2_style_old s k got) ∙ e) in
          ap message_type_to_ros2_style (sym same) ∙ e
      | inl old ↦ elim (Option-cases (find_text (slash ∷ []) s)) [
        | inl gone ↦ absurd (cc (e, message_type_to_ros2_style-none s gone))
        | inr (i, got) ↦
            let new : replace i 1 msg s ≡ t =
              ok_inj _ _ (sym (message_type_to_ros2_style_new s i old got) ∙ e) in
            message_type_to_ros2_style_old t i
              (ap (find_text msg) (sym new) ∙ find_text-msg s i got)
      ]
    ]

-- message_type_to_ros2_style throws std::out_of_range exactly on the names without a slash.
pub message_type_to_ros2_style_throws :
    (s : Text)
    → (message_type_to_ros2_style s ≡ err out_of_range) ↔ (find_text (slash ∷ []) s ≡ none)
message_type_to_ros2_style_throws s = (thrown, message_type_to_ros2_style-none s)
  where
    thrown : message_type_to_ros2_style s ≡ err out_of_range → find_text (slash ∷ []) s ≡ none
    thrown e = elim (Option-cases (find_text (slash ∷ []) s)) [
      | inl gone ↦ gone
      | inr (i, got) ↦ elim (Option-cases (find_text msg s)) [
        | inl old ↦ absurd (cc (e, message_type_to_ros2_style_new s i old got))
        | inr (k, there) ↦ absurd (cc (e, message_type_to_ros2_style_old s k there))
      ]
    ]
