-- ===== src/Handler/Subscription/Delivery.antt =====
-- What a client gets of the JSON that another host has published.
use rws.Base.{ℕ, Option, [], ◌∷◌, ◌+◌, ◌^◌, ◌<◌, ◌≡◌, refl, sym, ap, ◌∙◌, false, List, length}
use rws.Base.Result.{Result, ok, ◌>>=◌}
use rws.Base.Text.{Text, bytes, text_eq}
use rws.Cdr.Host.{Host}
use rws.Cdr.Ser as Ser
use rws.Cdr.Ser.Layout.{layout_all}
use rws.Params.{TopicParams}
use rws.Ros.{Ros}
use rws.Members.{Members}
use rws.Json.{Json, JsonLaws}
use rws.Json.Objects.{Holds, set-Holds, set-Holds_first}
use rws.Translate.{to_json_message, to_serialized_message}
use rws.Translate.Values.{message_values}
use rws.Translate.Reads.{Fit}
use rws.Translate.Sound.{IsSound}
use rws.Translate.RoundTrip.{to_json_message-to_serialized_message}
use rws.Handler.Subscription.Sent.{IsSent, send_message-IsSent}
use rws.Handler.Subscription.{Sending, send_message, subscription_callback}

-- None of the compressions.
pub record IsPlain (compression : Text) : Type 0 where
  pub not_cbor_raw : text_eq compression (bytes "cbor-raw") ≡ false
  pub not_cbor : text_eq compression (bytes "cbor") ≡ false
  pub not_bson : text_eq compression (bytes "bson") ≡ false
  pub not_msgpack : text_eq compression (bytes "msgpack") ≡ false
  pub not_ubjson : text_eq compression (bytes "ubjson") ≡ false
  pub not_bjdata : text_eq compression (bytes "bjdata") ≡ false

-- What a client asks for with its compression; cbor-raw has no JSON of the message.
pub data Format : Type 0 where
  text cbor bson msgpack ubjson bjdata : Format

abbrev pub Asks : Format → Text → Type 0
Asks text c = IsPlain c
Asks cbor c = c ≡ bytes "cbor"
Asks bson c = c ≡ bytes "bson"
Asks msgpack c = c ≡ bytes "msgpack"
Asks ubjson c = c ≡ bytes "ubjson"
Asks bjdata c = c ≡ bytes "bjdata"

module _ (ros : Ros) (json : Json) (Message : Type 0) (sending : Sending ros json Message) where
  -- The encoder of a format, and the function that sends what it makes.
  abbrev pub encoder : Format → json.Value → Result (List ℕ)
  encoder text = sending.dump
  encoder cbor = sending.to_cbor
  encoder bson = sending.to_bson
  encoder msgpack = sending.to_msgpack
  encoder ubjson = sending.to_ubjson
  encoder bjdata = sending.to_bjdata

  abbrev pub sender : Format → Option (List ℕ → ros.World → ros.World)
  sender text = sending.callback
  sender _ = sending.binary_callback

module _ (ros : Ros) (json : Json) (Message : Type 0) (sending : Sending ros json Message)
    (h k : Host) (same : h.wchar ≡ k.wchar) (laws : JsonLaws json k) where
  open json use {Value, set, null, of_text}

  abbrev made : TopicParams ros.Duration → Value → Value
  made params msg = set (bytes "msg") msg (
      set (bytes "topic") (of_text params.topic)
        (set (bytes "op") (of_text (bytes "publish")) null))

  -- What a published object holds.
  abbrev pub IsPublished : TopicParams ros.Duration → Value → Value → Type 0
  IsPublished params msg m =
      Holds json k laws
        ((bytes "msg", msg)
          ∷ (bytes "topic", of_text params.topic)
          ∷ (bytes "op", of_text (bytes "publish"))
          ∷ [])
        m

  made-IsPublished :
      (params : TopicParams ros.Duration) (msg : Value) → IsPublished params msg (made params msg)
  made-IsPublished params msg = set-Holds json k laws (bytes "msg") msg _ _ (
      set-Holds json k laws (bytes "topic") (of_text params.topic) _ _
        (set-Holds_first json k laws (bytes "op") (of_text (bytes "publish"))))

  -- A message with JSON is sent in the format.
  delivers :
      (params : TopicParams ros.Duration) (ms : Members) (msg : Value) (message : Message)
      (w : ros.World) (f : Format)
      → Asks f params.compression
      → sending.members_of_type params.type ≡ ok ms
      → to_json_message json h ms (sending.buffer message) ≡ ok msg
      → subscription_callback ros json Message sending h params message w
        ≡ send_message ros json Message sending h
            (sender ros json Message sending f)
            (encoder ros json Message sending f (made params msg))
            (ros.now (ros.now w).1).1
  unfolding subscription_callback text_eq
  delivers params ms msg message w text p known got =
      rw
        (
          p.not_cbor_raw, p.not_cbor, p.not_bson, p.not_msgpack, p.not_ubjson, p.not_bjdata, known,
          got,
        )
        refl
  delivers params ms msg message w cbor p known got = rw (p, known, got) refl
  delivers params ms msg message w bson p known got = rw (p, known, got) refl
  delivers params ms msg message w msgpack p known got = rw (p, known, got) refl
  delivers params ms msg message w ubjson p known got = rw (p, known, got) refl
  delivers params ms msg message w bjdata p known got = rw (p, known, got) refl

  -- For JSON values that behave as JsonLaws says: a message whose bytes to_serialized_message has
  -- made from JSON on another host with the same sizeof(wchar_t), of a type that IsSound describes
  -- and with values that Fit describes, in less than 2 ^ 63 bytes, and a client that has asked for
  -- cbor, bson, msgpack, ubjson, bjdata, or none of the six compressions: subscription_callback
  -- encodes in this format one JSON object that holds exactly op publish, the topic, and as msg
  -- JSON that is written as the bytes of the message again; it sends what the encoder makes, or
  -- passes on its exception.
  pub subscription_callback-to_serialized_message :
      (params : TopicParams ros.Duration) (f : Format) (ms : Members) (j : Value)
      (vs : List Ser.Value) (message : Message) (w : ros.World)
      → Asks f params.compression
      → sending.members_of_type params.type ≡ ok ms
      → IsSound ms
      → message_values json k ms j ≡ ok vs
      → Fit h k same vs
      → length (layout_all k vs 0) + 4 < 2 ^ 63
      → to_serialized_message json k ms j ≡ ok (sending.buffer message)
      → (j' : Value) × (m : Value) × IsPublished params j' m
        × IsSent
            (sender ros json Message sending f)
            (encoder ros json Message sending f m)
            (ros.now (ros.now w).1).1
            (subscription_callback ros json Message sending h params message w)
        × (to_serialized_message json k ms j' ≡ ok (sending.buffer message))
  subscription_callback-to_serialized_message params f ms j vs message w p known sound gives fit
        small written =
      let (j', read, again) =
        to_json_message-to_serialized_message json h k same laws ms j vs sound gives fit small in
      let got : to_json_message json h ms (sending.buffer message) ≡ ok j' =
        ap (λ m. m >>= to_json_message json h ms) (sym written) ∙ read in
      let sent = delivers params ms j' message w f p known got in
      (
        j',
        made params j',
        made-IsPublished params j',
        rw sent (send_message-IsSent ros json Message sending h _ _ _),
        again ∙ written,
      )
