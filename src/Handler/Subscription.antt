-- ===== src/Handler/Subscription.antt =====
-- ClientHandler::subscription_callback: a message of a topic, as a client gets it.
pub mod Stamp
pub mod Sent
pub mod Delivery
mod Tests
use rws.Base.{ℕ, ◌+◌, ◌-◌, ◌*◌, ◌%◌, ◌^◌, Bool, Option, none, some, List, if◌then◌else◌}
use rws.Base.Result.{Result, ok, err, fault, ◌>>=◌}
use rws.Base.Text.{Text, bytes, text_eq}
use rws.Cdr.Host.{Host}
use rws.Params.{TopicParams}
use rws.Ros.{Ros}
use rws.Members.{Members}
use rws.Json.{Json}
use rws.Translate.{to_json_message}

-- `node_->now().seconds()` as a uint32_t, and then the nanoseconds of a second call: the product is a
-- uint32_t, the difference an int64_t, which is cut to a uint32_t.
abbrev pub nsecs_of : ℕ → ℕ → ℕ
nsecs_of secs nanoseconds = (nanoseconds + 2 ^ 32 - secs * 1000000000 % 2 ^ 32) % 2 ^ 32

module _ (ros : Ros) (json : Json) (Message : Type 0) where
  open ros use {Duration, Time, World, now}
  open json use {Value, set, null, of_text}

  -- What the code asks of rclcpp::Time, of rclcpp::SerializedMessage, of the type support and of the
  -- encoders of nlohmann::json; `time_seconds` is the double as a uint32_t. The two functions that
  -- send are those of the constructor, if they are set.
  pub record Sending : Type 0 where
    pub time_seconds : Time → ℕ
    pub time_nanoseconds : Time → ℕ
    pub buffer : Message → List ℕ
    pub members_of_type : Text → Result Members
    pub of_number : ℕ → Value
    pub binary : List ℕ → Value
    pub dump : Value → Result Text
    pub to_cbor : Value → Result (List ℕ)
    pub to_bson : Value → Result (List ℕ)
    pub to_msgpack : Value → Result (List ℕ)
    pub to_ubjson : Value → Result (List ℕ)
    pub to_bjdata : Value → Result (List ℕ)
    pub callback : Option (Text → World → World)
    pub binary_callback : Option (List ℕ → World → World)

  module _ (sending : Sending) (host : Host) where
    open sending use {
      time_seconds, time_nanoseconds, buffer, members_of_type, of_number, binary, dump, to_cbor,
      to_bson, to_msgpack, to_ubjson, to_bjdata, callback, binary_callback,
    }

    abbrev pub Sent : Type 0
    Sent = World × Result (Unit {0})

    -- send_message, on what has been encoded.
    abbrev pub send_message : Option (List ℕ → World → World) → Result (List ℕ) → World → Sent
    send_message none (ok msg) w = (w, ok tt)
    send_message (some send) (ok msg) w = (send msg w, ok tt)
    send_message to (err e) w = (w, err e)
    send_message to fault w = (w, fault)

    -- m with the member "msg".
    abbrev pub with_msg : Value → Value → Value
    with_msg msg m = set (bytes "msg") msg m

    abbrev pub raw_msg : ℕ → ℕ → Message → Value
    raw_msg secs nsecs message =
        set (bytes "bytes") (binary (buffer message))
          (set (bytes "nsecs") (of_number nsecs) (set (bytes "secs") (of_number secs) null))

    -- serialized_message_to_json.
    abbrev pub json_of : Text → Message → Result Value
    json_of sub_type message = do
      members ← members_of_type sub_type
      to_json_message json host members (buffer message)

    abbrev pub published_json : TopicParams Duration → Value
    published_json params =
        set (bytes "topic") (of_text params.topic)
          (set (bytes "op") (of_text (bytes "publish")) null)

    unfoldable pub subscription_callback : TopicParams Duration → Message → World → Sent
    subscription_callback params message w =
        let (first, w₁) = now w in
        let (second, w₂) = now w₁ in
        let secs = time_seconds first in
        let nsecs = nsecs_of secs (time_nanoseconds second) in
        let m = published_json params in
        let read : Result Value = json_of params.type message >>= λ msg. ok (with_msg msg m) in
        let is : Text → Bool = text_eq params.compression in
        if is (bytes "cbor-raw")
        then send_message binary_callback (to_cbor (with_msg (raw_msg secs nsecs message) m)) w₂
        else if is (bytes "cbor")
        then send_message binary_callback (read >>= to_cbor) w₂
        else if is (bytes "bson")
        then send_message binary_callback (read >>= to_bson) w₂
        else if is (bytes "msgpack")
        then send_message binary_callback (read >>= to_msgpack) w₂
        else if is (bytes "ubjson")
        then send_message binary_callback (read >>= to_ubjson) w₂
        else if is (bytes "bjdata")
        then send_message binary_callback (read >>= to_bjdata) w₂
        else send_message callback (read >>= dump) w₂
