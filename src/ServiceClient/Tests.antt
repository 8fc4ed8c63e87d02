-- ===== src/ServiceClient/Tests.antt =====
-- A service whose requests are numbered by the world.
use rws.Base.{ℕ, ◌+◌, ◌≡◌, refl, true, false, some, [], ◌∷◌}
use rws.Base.Result.{ok}
use rws.Base.Text.{Text, bytes}
use rws.Members.{ros_int32, Arity, plain, end}
use rws.ServiceClient.{Middleware, ServiceType, rcl_ok, GenericClient, handle_response}
use rws.ServiceClient.Answers.{handle_response-handle_response}

abbrev single : Arity
single = record { is_array = false; array_size = 0; is_upper_bound = false; get_function = true }

abbrev setting : ServiceType
setting = record {
  request_namespace = bytes "p::srv";
  request_name = bytes "Set_Request";
  response_namespace = bytes "p::srv";
  response_name = bytes "Set_Response";
  members = record {
    request_members = plain (bytes "data") ros_int32 single end;
    response_members = plain (bytes "data") ros_int32 single end;
  };
}

abbrev numbered : Middleware ℕ ℕ
numbered = record {
  Message = ℕ;
  Library = Text;
  load_library = λ type w. (w, ok type);
  symbol = λ library name. some setting;
  message_handle = λ type library. ok tt;
  rcl_client_init = λ service type w. (w + 1, rcl_ok);
  expand_topic_or_service_name = λ name. ok tt;
  allocated = λ members. 0;
  rmw_serialize = λ t m w. (w, some (m + 1));
  rmw_deserialize = λ t s m. ok s;
  rcl_send_request = λ t m w. (w + 1, ok w);
}

abbrev waiting : GenericClient numbered
waiting = record {
  type_support = setting;
  pending_requests = (4, record { promise = 0; callback = λ m w. (w + m, ok tt) }) ∷ [];
  next_promise = 1;
  values = [];
}

handle_response-handle_response_example :
    (handle_response numbered 4 9 (handle_response numbered 4 8 waiting 5).0 6).0
    ≡ (handle_response numbered 4 8 waiting 5).0
handle_response-handle_response_example =
    handle_response-handle_response numbered 4 8 9 waiting 5 5 6 9 refl
