-- ===== src/Cdr/Tests.antt =====
-- Runs of the serializer and the deserializer on two hosts.
use rws.Base.{ℕ, ◌+◌, ◌≡◌, ◌≢◌, ◌<◌, ◌^◌, refl, true, false, List, [], ◌∷◌, map, All, length, arith}
use rws.Base.Result.{ok, fault, ◌>>=◌}
use rws.Base.Text.{bytes}
use rws.Cdr.Host.{two_bytes, four_bytes, eight_bytes, Host, low_bytes, to_memory}
use rws.Cdr.Ser.{
  Value, to_memories, Cycser, insert_all, serialize, serialize_array, serialize_each, insert_vector,
}
use rws.Cdr.Ser.Layout.{layout, layout_all, extended, insert_all-layout_all}
use rws.Cdr.Ser.Arrays.{serialize_array-serialize_each, insert_vector-insert_all}
use rws.Cdr.Deser.{Shape, Cycdeser, deserialize, deserialize_array, deserialize_each}
use rws.Cdr.Deser.Reads.{shape_of, received, IsCarried}
use rws.Cdr.Deser.Arrays.{deserialize_array-deserialize_each}
use rws.Cdr.RoundTrip.{
  encode, decode, Survives, decode-encode, decode-encode-received, decode-ne-fault, decode_short,
}

abbrev little : Host
little = record { little_endian = true; wchar = four_bytes }

abbrev big : Host
big = record { little_endian = false; wchar = four_bytes }

abbrev sample : List Value
sample =
    Value.boolean true
    ∷ Value.scalar eight_bytes 0x0102030405060708
    ∷ Value.text (bytes "ab")
    ∷ Value.scalar two_bytes 513
    ∷ []

abbrev wide : List ℕ
wide = 65 ∷ 66 ∷ []

abbrev sample_carried : All (IsCarried big) sample
sample_carried = (tt, (omega arith, (omega arith, (omega arith, tt))))

abbrev sample_survives : All (Survives big little) sample
sample_survives = (tt, (tt, (tt, (tt, tt))))

sample_small : length (layout_all little sample 0) + 4 < 2 ^ 63
unfolding layout_all layout to_memory low_bytes
sample_small = omega arith

decode-encode_example : (encode little sample >>= decode big (map shape_of sample)) ≡ ok (sample, 0)
decode-encode_example =
    decode-encode big little sample refl sample_carried sample_survives sample_small

decode-encode-received_example :
    (encode little sample >>= decode big (map shape_of sample))
    ≡ ok (map (received big little) sample, 0)
decode-encode-received_example =
    decode-encode-received big little sample refl sample_carried sample_small

wide_small : length (layout_all little (Value.wide_text wide ∷ []) 0) + 4 < 2 ^ 63
unfolding layout_all layout to_memory to_memories low_bytes
wide_small = omega arith

abbrev noise : List ℕ
noise = 0 ∷ 1 ∷ 0 ∷ 0 ∷ 255 ∷ 255 ∷ 255 ∷ 255 ∷ 7 ∷ []

decode-ne-fault_example : decode little (Shape.text ∷ Shape.scalar four_bytes ∷ []) noise ≢ fault
decode-ne-fault_example =
    decode-ne-fault little (Shape.text ∷ Shape.scalar four_bytes ∷ []) noise (omega arith)
      (omega arith)

decode_short_example : decode little (Shape.scalar two_bytes ∷ []) (0 ∷ 1 ∷ []) ≡ fault
decode_short_example = decode_short little two_bytes [] (0 ∷ 1 ∷ []) (omega arith)

abbrev fresh : Cycser
fresh = record { dst = 0 ∷ 1 ∷ 0 ∷ 0 ∷ []; off = 0 }

insert_all-layout_all_example :
    insert_all little sample fresh ≡ ok (extended fresh (layout_all little sample 0))
insert_all-layout_all_example = insert_all-layout_all little sample fresh refl

serialize_array-serialize_each_example :
    serialize_array little two_bytes (1 ∷ 2 ∷ []) fresh
    ≡ serialize_each (serialize little two_bytes) (1 ∷ 2 ∷ []) fresh
serialize_array-serialize_each_example =
    serialize_array-serialize_each little two_bytes (1 ∷ 2 ∷ []) fresh refl

abbrev reader : Cycdeser
reader = record { bytes = 9 ∷ 0 ∷ 1 ∷ 0 ∷ 2 ∷ 0 ∷ []; pos = 1; lim = 6; swap_bytes = true }

deserialize_array-deserialize_each_example :
    deserialize_array little two_bytes 2 reader
    ≡ deserialize_each (deserialize little two_bytes) 2 reader
deserialize_array-deserialize_each_example =
    deserialize_array-deserialize_each little two_bytes 2 reader
      (record { ends = refl; inside = omega arith; bounded = omega arith })

insert_vector-insert_all_example :
    insert_vector little two_bytes (1 ∷ 2 ∷ []) fresh
    ≡ insert_all little
        (Value.scalar four_bytes 2 ∷ Value.scalar two_bytes 1 ∷ Value.scalar two_bytes 2 ∷ [])
        fresh
insert_vector-insert_all_example = insert_vector-insert_all little two_bytes (1 ∷ 2 ∷ []) fresh refl
