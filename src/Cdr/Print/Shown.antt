-- ===== src/Cdr/Print/Shown.antt =====
-- cycprint shows the values that cycdeser reads.
use rws.Base.{ℕ, ◌+◌, ◌-◌, Option, none, some, List, [], ◌==◌, if◌then◌else◌, length}
use rws.Base.Result.{Result, ok, ◌>>=◌, ◌>>◌}
use rws.Base.Text.{Text}
use rws.Cdr.Host.{one_byte, Host}
use rws.Cdr.Ser as Ser
use rws.Cdr.Deser.{Cycdeser, Shape, load, validate_str}
use rws.Cdr.Print.{
  unsigned, Printf, Out, Cycprint, prtf, with_out, sizeof_directive, text_length, quoted,
  quoted_wide, zero_terminated, Kind, boolean, string, wstring, directive,
}

module _ (printf : Printf) where
  -- The type that cycdeser reads; a bool is printed as its byte.
  abbrev pub shape_of_kind : Kind → Shape
  shape_of_kind boolean = Shape.scalar one_byte
  shape_of_kind string = Shape.text
  shape_of_kind wstring = Shape.wide_text
  shape_of_kind (directive t) = Shape.scalar (sizeof_directive printf t)

  abbrev pub shown : Kind → Ser.Value → Option Text
  shown boolean (Ser.scalar w x) = some (printf.number (unsigned one_byte) x)
  shown (directive t) (Ser.scalar w x) = some (printf.number t x)
  shown string (Ser.text x) = some (quoted printf (length x) x)
  shown wstring (Ser.wide_text x) = quoted_wide printf (printf.wide (zero_terminated x))
  shown _ _ = none

  abbrev pub show_value : Kind → Out → Ser.Value × Cycdeser → Result Cycprint
  show_value k out r = with_out printf r.1 (prtf printf (shown k r.0) out)

  module _ (out : Out) where
    shows_text : List ℕ × Cycdeser → Result Cycprint
    shows_text x = show_value string out (Ser.text x.0, x.1)

    after : ℕ → Cycdeser → Cycdeser
    after sz e = record e { pos = e.pos + sz }

    -- Behind the length, in the two classes.
    printed : ℕ → Cycdeser → Result Cycprint
    printed sz e =
        validate_str sz e
        >> (load e.bytes e.pos (text_length printf sz) >>= λ bs.
            with_out printf (after sz e)
              (prtf printf (some (quoted printf (text_length printf sz) bs)) out))

    read : ℕ → Cycdeser → Result (List ℕ × Cycdeser)
    read sz e =
        if sz == 0
        then ok ([], after sz e)
        else (validate_str sz e >> (load e.bytes e.pos (sz - 1) >>= λ x. ok (x, after sz e)))
