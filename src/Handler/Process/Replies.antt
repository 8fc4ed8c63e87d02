-- ===== src/Handler/Process/Replies.antt =====
-- The objects that a client gets as replies: each keeps the id of the request.
pub mod Topics
pub mod Services
pub mod Calls
use rws.Base.{
  ◌≡◌, ◌≢◌, ap, sym, ◌∙◌, Bool, true, false, ◌||◌, Option, none, some, List, [], ◌∷◌, if◌then◌else◌,
}
use rws.Base.{arith}
use rws.Base.Result.{Result, ok, err, fault, ◌>>=◌}
use rws.Base.Text.{Text, bytes, text_eq, text_eq_refl}
use rws.Cdr.Host.{Host}
use rws.Json.{Json, JsonLaws}

pub differs : (j k : Text) → text_eq j k ≡ false → j ≢ k
differs j k e same =
    let alike : text_eq j j ≡ text_eq j k = ap (text_eq j) same in cc (alike, e, text_eq_refl j)

module _ (json : Json) (host : Host) (laws : JsonLaws json host) where
  open json use {Value, set, is_null, is_object, find_member}

  -- An object with this id.
  abbrev pub IsReply : Value → Value → Type 0
  IsReply id response = (is_object response ≡ true) × (find_member (bytes "id") response ≡ some id)

  pub set-IsReply :
      (id : Value) (k : Text) (v response : Value)
      → text_eq (bytes "id") k ≡ false
      → IsReply id response
      → IsReply id (set k v response)
  set-IsReply id k v response ne (obj, there) =
      let either : (is_null response || is_object response) ≡ true = ground arith in
      (
        laws.set-object k v response either,
        laws.find_member-set_ne (bytes "id") k v response either (differs (bytes "id") k ne)
            ∙ there,
      )
