-- ===== src/ServiceClient.antt =====
-- Class GenericClient of include/rws/generic_client.hpp: its constructor, and the requests that it has
-- sent and not yet had an answer to. Each call holds the mutex while it changes the table, so the
-- table changes in calls that follow one another; handle_response calls the callback behind its last
-- change. An int64_t number of a request is a number; a promise is its number in the order of
-- creation.
mod Tests
pub mod Answers
use rws.Base.{
  ℕ, suc, Bool, true, false, not, ◌||◌, Option, none, some, List, [], ◌∷◌, ◌++◌, ltb, if◌then◌else◌,
}
use rws.Base.Maps.{find, insert, erase}
use rws.Base.Result.{Result, ok, err, fault, rcl_failed, no_library, ◌>>=◌, ◌>>◌}
use rws.Base.Run.{and_then}
use rws.Base.Text.{Text, bytes, text_eq}
use rws.Names.{service_symbol, get_type_from_message_members}
use rws.Members.{Members, ServiceMembers, end, plain, nested}
use rws.Translate.{placeholder}

-- What srv_ts_hdl_->data describes: the names and the members of the request and of the response.
pub record ServiceType : Type 0 where
  pub request_namespace : Text
  pub request_name : Text
  pub response_namespace : Text
  pub response_name : Text
  pub members : ServiceMembers

abbrev pub member_count : Members → ℕ
member_count end = 0
member_count (plain name t a rest) = suc (member_count rest)
member_count (nested name namespace msg_name sub a rest) = suc (member_count rest)

-- `members_[0].name_`
abbrev pub first_name : Members → Result Text
first_name end = fault
first_name (plain name t a rest) = ok name
first_name (nested name namespace msg_name sub a rest) = ok name

-- What rcl_client_init returns, as far as it is told apart.
pub data RclRet : Type 0 where
  rcl_ok service_name_invalid rcl_error : RclRet

-- What the code calls of rclcpp, rcpputils, rmw and rcl. `allocated` is the message that
-- allocate_message makes, and `symbol` what a library has under a name.
pub record Middleware (World Serialized : Type 0) : Type 1 where
  pub Message : Type 0
  pub Library : Type 0
  pub load_library : Text → World → World × Result Library
  pub symbol : Library → Text → Option ServiceType
  pub message_handle : Text → Library → Result (Unit {0})
  pub rcl_client_init : Text → ServiceType → World → World × RclRet
  pub expand_topic_or_service_name : Text → Result (Unit {0})
  pub allocated : Members → Message
  pub rmw_serialize : ServiceType → Message → World → World × Option Serialized
  pub rmw_deserialize : ServiceType → Serialized → Message → Result Message
  pub rcl_send_request : ServiceType → Message → World → World × Result ℕ

abbrev pub ts_identifier : Text
ts_identifier = bytes "rosidl_typesupport_introspection_cpp"

module _ {World Serialized : Type 0} (middleware : Middleware World Serialized) where
  open middleware use {
    Message, Library, load_library, symbol, message_handle, rcl_client_init,
    expand_topic_or_service_name, allocated, rmw_serialize, rmw_deserialize, rcl_send_request,
  }

  pub record Request : Type 0 where
    pub promise : ℕ
    pub callback : Serialized → World → World × Result (Unit {0})

  -- `values` are the calls of set_value, oldest first.
  pub record GenericClient : Type 0 where
    pub type_support : ServiceType
    pub pending_requests : List (ℕ × Request)
    pub next_promise : ℕ
    pub values : List (ℕ × Serialized)

  -- get_service_typesupport_handle; a symbol that is missing is reported as a missing library.
  unfoldable pub get_service_typesupport_handle : Text → Library → Result ServiceType
  get_service_typesupport_handle type library = do
    symbol_name ← service_symbol ts_identifier type
    elim (symbol library symbol_name) [ none ↦ err no_library | some t ↦ ok t ]

  -- The library and the handle of a request's or a response's type.
  abbrev pub load_message_type : Text → Text → World → World × Result (Unit {0})
  load_message_type namespace name w =
      and_then (w, get_type_from_message_members namespace name)
        λ type w. and_then (load_library type w) λ library w. (w, message_handle type library)

  abbrev pub check_init : Text → RclRet → Result (Unit {0})
  check_init service_name rcl_ok = ok tt
  check_init service_name service_name_invalid =
      expand_topic_or_service_name service_name >> err rcl_failed
  check_init service_name rcl_error = err rcl_failed

  abbrev pub opened : ServiceType → GenericClient
  opened t = record { type_support = t; pending_requests = []; next_promise = 0; values = [] }

  abbrev pub with_ret : {A : Type 0} → (RclRet → Result A) → World × RclRet → World × Result A
  with_ret check (w, ret) = (w, check ret)

  -- The constructor.
  unfoldable pub generic_client : Text → Text → World → World × Result GenericClient
  generic_client service_name service_type w = and_then (load_library service_type w) λ library w.
      and_then (w, get_service_typesupport_handle service_type library)
        λ t w. and_then (load_message_type t.request_namespace t.request_name w) λ _ w.
          and_then (load_message_type t.response_namespace t.response_name w) λ _ w.
            with_ret (λ ret. check_init service_name ret >> ok (opened t))
              (rcl_client_init service_name t w)

  -- A type without members of its own has a placeholder, which is not deserialized.
  unfoldable pub load_request : ServiceType → Serialized → Result Message
  load_request t request =
      let req_members = t.members.request_members in
      let loaded = rmw_deserialize t request (allocated req_members) in
      if ltb 1 (member_count req_members)
      then loaded
      else first_name req_members >>= λ name.
          if text_eq name placeholder then ok (allocated req_members) else loaded

  -- pending_requests_[sequence_number] = ..., with the future as the promise's number.
  abbrev pub add_request :
      (Serialized → World → World × Result (Unit {0}))
      → GenericClient
      → World × Result ℕ
      → GenericClient × World × Result ℕ
  add_request cb s (w, ok sequence_number) = (
    record s {
      pending_requests =
          insert sequence_number (record { promise = s.next_promise; callback = cb })
            s.pending_requests;
      next_promise = suc s.next_promise;
    },
    w,
    ok s.next_promise,
  )
  add_request cb s (w, err e) = (s, w, err e)
  add_request cb s (w, fault) = (s, w, fault)

  unfoldable pub async_send_request :
      Serialized
      → (Serialized → World → World × Result (Unit {0}))
      → GenericClient
      → World
      → GenericClient × World × Result ℕ
  async_send_request request cb s w = elim (load_request s.type_support request) [
    | ok buf ↦ add_request cb s (rcl_send_request s.type_support buf w)
    | err e ↦ (s, w, err e)
    | fault ↦ (s, w, fault)
  ]

  -- The branches of handle_response behind the serialization.
  abbrev pub answer_request :
      ℕ
      → Option Request
      → GenericClient
      → World × Option Serialized
      → GenericClient × World × Result (Unit {0})
  answer_request number pending s (w, none) = (s, w, ok tt)
  answer_request number none s (w, some response) = (s, w, ok tt)
  answer_request number (some request) s (w, some response) = (
    record s {
      pending_requests = erase number s.pending_requests;
      values = s.values ++ (request.promise, response) ∷ [];
    },
    (request.callback response w).0,
    (request.callback response w).1,
  )

  unfoldable pub handle_response :
      ℕ → Message → GenericClient → World → GenericClient × World × Result (Unit {0})
  handle_response sequence_number response s w =
      answer_request sequence_number (find sequence_number s.pending_requests) s
        (rmw_serialize s.type_support response w)
