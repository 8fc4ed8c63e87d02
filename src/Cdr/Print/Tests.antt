-- ===== src/Cdr/Print/Tests.antt =====
-- Small memories and buffers.
use rws.Base.{ℕ, ◌≡◌, ◌≢◌, refl, none, List, [], ◌∷◌, length, true, false, arith}
use rws.Base.Result.{ok, fault, ◌>>=◌}
use rws.Base.Text.{Text, bytes}
use rws.Cdr.Host.{four_bytes, two_bytes, Host}
use rws.Cdr.Print.{
  Printf, Out, Cycprint, cycprint, one, vector, string, directive, unsigned, print_all,
}
use rws.Cdr.Print.Cut.{prtf_all, Written, prtf_all-Written}
use rws.Cdr.Print.Bounds.{print_all-ne-fault}

-- Every number is shown as one digit.
abbrev digits : Printf
digits = record {
  number = λ t x. bytes "7";
  wide = λ us. none;
  left = λ n. [];
  left_le = λ n. omega arith;
}

abbrev host : Host
host = record { little_endian = true; wchar = four_bytes }

abbrev two_texts : List Text
two_texts = bytes "ab" ∷ bytes "cd" ∷ []

prtf_all-Written_example :
    (end : Out) × (prtf_all digits two_texts
        (record { memory = 1 ∷ 1 ∷ 1 ∷ 1 ∷ []; buf = 0; bufsize = 4 })
      ≡ ok end)
    × (length end.memory ≡ 4)
    × Written 4 (bytes "abcd") end
prtf_all-Written_example =
    prtf_all-Written digits 4 (bytes "ab") (bytes "cd" ∷ []) (1 ∷ 1 ∷ 1 ∷ 1 ∷ []) (omega arith) refl
      (omega arith, (omega arith, tt))

abbrev buffer : List ℕ
buffer = 0 ∷ 1 ∷ 0 ∷ 0 ∷ 2 ∷ 0 ∷ 0 ∷ 0 ∷ 65 ∷ 0 ∷ []

print_all-ne-fault_example :
    (cycprint host 2 (0 ∷ 0 ∷ []) buffer
      >>= print_all digits host (one string ∷ vector (directive (unsigned two_bytes)) 1 ∷ []))
    ≢ fault
print_all-ne-fault_example =
    print_all-ne-fault digits host (one string ∷ vector (directive (unsigned two_bytes)) 1 ∷ [])
      (0 ∷ 0 ∷ []) buffer (tt, (omega arith, tt)) (omega arith) (omega arith)

abbrev start : Cycprint
start = record {
  reader = record { bytes = 2 ∷ 0 ∷ 0 ∷ 0 ∷ 65 ∷ 0 ∷ []; pos = 0; lim = 6; swap_bytes = false };
  out = record { memory = 0 ∷ 0 ∷ []; buf = 0; bufsize = 2 };
}
