-- ===== src/Translate/RoundTrip.antt =====
-- Whole buffers: to_serialized_message on one host and to_json_message on another.
use rws.Base.{ℕ, ◌+◌, ◌^◌, ◌<◌, ◌≡◌, refl, sym, ap, ◌∙◌, List, [], ◌++◌, length, append-nil, arith}
use rws.Base.Result.{ok, err, fault, ◌>>=◌}
use rws.Cdr.Host.{Host}
use rws.Cdr.Ser as Ser
use rws.Cdr.Ser.{cycser}
use rws.Cdr.Ser.Layout.{layout_all, extended}
use rws.Cdr.Swap.{unlike}
use rws.Cdr.Deser.{Cycdeser}
use rws.Cdr.Deser.At.{IsAt}
use rws.Cdr.RoundTrip.{encode, encode-layout_all, cycdeser-header}
use rws.Members.{Members}
use rws.Json.{Json, JsonLaws}
use rws.Translate.{to_json_message, to_serialized_message}
use rws.Translate.Values.{Values, message_values}
use rws.Translate.Writes.{json_to_serialized_message-Writes}
use rws.Translate.Reads.{Fit}
use rws.Translate.Sound.{IsSound}
use rws.Translate.ReadBack.{message-Restores, fresh-Restores}

-- On every message type and JSON value, writing the message is listing the values of its members in
-- their order (the default for what is missing or null, a length in front of what has no fixed one,
-- nothing for the member that stands for an empty message) and then writing them one behind the
-- other: the bytes are the same, and so is the exception.
pub to_serialized_message-encode :
    (json : Json) (k : Host) (ms : Members) (j : json.Value)
    → to_serialized_message json k ms j ≡ (message_values json k ms j >>= encode k)
unfolding to_serialized_message encode cycser
to_serialized_message-encode json k ms j =
    rw (json_to_serialized_message-Writes json k ms j (cycser k []) refl)
      (finish (message_values json k ms j))
  where
    finish :
        (m : Values)
        → ((m >>= λ vs. ok (extended (cycser k []) (layout_all k vs 0))) >>= λ s. ok s.dst)
          ≡ (m >>= encode k)
    finish (ok vs) = sym (encode-layout_all k vs)
    finish (err e) = refl
    finish fault = refl

-- For JSON values that behave as JsonLaws says, and one that a message type turns into values,
-- where the type has distinct names, known types, no member that stands for an empty message and no
-- empty message in it, and a get_function for each array of messages; where a uint32_t counts the
-- values and the format carries them, wide texts only between hosts of the same byte order; written
-- on one host and read on another with the same sizeof(wchar_t), in a buffer below 2 ^ 63 bytes:
-- the reader returns JSON, and this JSON is written as the same bytes again.
pub to_json_message-to_serialized_message :
    (json : Json) (h k : Host) (same : h.wchar ≡ k.wchar) (laws : JsonLaws json k) (ms : Members)
    (j : json.Value) (vs : List Ser.Value)
    → IsSound ms
    → message_values json k ms j ≡ ok vs
    → Fit h k same vs
    → length (layout_all k vs 0) + 4 < 2 ^ 63
    → (j' : json.Value) × ((to_serialized_message json k ms j >>= to_json_message json h ms)
        ≡ ok j')
      × (to_serialized_message json k ms j' ≡ to_serialized_message json k ms j)
unfolding to_json_message
to_json_message-to_serialized_message json h k same laws ms j vs sound gives fit small =
    let body : List ℕ = layout_all k vs 0 in
    let d : Cycdeser = record {
      bytes = body;
      pos = 0;
      lim = length body;
      swap_bytes = unlike h k;
    } in
    let start : IsAt d [] (body ++ []) = record {
      split = sym (append-nil body);
      here = refl;
      whole = omega (arith, ap length (append-nil body));
      bounded = omega arith;
    } in
    let written =
      to_serialized_message-encode json k ms j
      ∙ ap (λ m. m >>= encode k) gives
      ∙ encode-layout_all k vs in
    let (j', read, again) =
      fresh-Restores json h k same laws ms (message-Restores json h k same laws ms sound) j vs gives
        fit in
    (
      j',
      rw written (rw (cycdeser-header h k body small) (rw (read d [] [] refl start) refl)),
      to_serialized_message-encode json k ms j'
          ∙ ap (λ m. m >>= encode k) (again ∙ sym gives)
          ∙ sym (to_serialized_message-encode json k ms j),
    )
