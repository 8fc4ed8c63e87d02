-- ===== src/Cdr/Print/Bounds.antt =====
-- cycprint on any buffer that holds the header: it stays inside the buffer and inside the memory.
use rws.Base.{
  ℕ, zero, suc, ◌+◌, ◌-◌, ◌*◌, ◌^◌, ◌≤◌, ◌<◌, ◌≡◌, ◌≢◌, ap, Bool, true, false, Option, none, some,
  List, [], ◌∷◌, ◌++◌, ◌==◌, ltb, if◌then◌else◌, length, take, drop, All, length-append,
  length-take, length-drop, arith,
}
use rws.Base.Result.{Result, ok, fault, ◌>>=◌}
use rws.Base.Text.{Text, bytes}
use rws.Cdr.Host.{one_byte, sizeof, Host}
use rws.Cdr.Deser.{Cycdeser, cycdeser, load, deserialize, deserialize_len, validate_str}
use rws.Cdr.Deser.Safety.{
  Safe, Safe->>=, Safe-ne-fault, Safe-if, IsSane, moved, deserialize-Reads, deserialize_len-Safe,
  validate_str-Safe, load-Safe, cycdeser-Safe,
}
use rws.Cdr.Print.Cut.{take_le}
use rws.Cdr.Print.{
  Directive, unsigned, Printf, Out, Cycprint, cycprint, store, counted, write, prtf, with_out,
  print_constant, sizeof_directive, print_number, text_length, print_string, print_wstring,
  print_others, print_elements, print_each, print_vector, print_array, Kind, boolean, string,
  wstring, directive, print, Item, one, vector, array, print_item, print_all,
}

-- The bytes from buf on that may be written to are in the memory.
abbrev pub HasRoom : Out → Type 0
HasRoom out = out.buf + out.bufsize ≤ length out.memory

pub record IsFine (p : Cycprint) : Type 0 where
  pub sane : IsSane p.reader
  pub room : HasRoom p.out

-- A write inside the memory keeps its size.
store-Safe :
    (pos : ℕ) (bs memory : List ℕ)
    → pos + length bs ≤ length memory
    → Safe (λ m. length m ≡ length memory) (store pos bs memory)
unfolding store
store-Safe pos bs memory h = ground (
  arith,
  length-append (take pos memory) (bs ++ drop (pos + length bs) memory),
  length-append bs (drop (pos + length bs) memory),
  length-take pos memory,
  length-drop (pos + length bs) memory,
)

module _ (printf : Printf) where
  write-Safe :
      (t : Option Text) (out : Out)
      → 0 < out.bufsize
      → HasRoom out
      → Safe HasRoom (write printf t out)
  write-Safe none out pos room =
      Safe->>= _ _ (store out.buf (printf.left out.bufsize) out.memory) _
        (store-Safe out.buf (printf.left out.bufsize) out.memory
          (omega (arith, room, printf.left_le out.bufsize)))
        λ spoilt _ same.
          Safe->>= _ _ (store out.buf (0 ∷ []) spoilt) _
            (store-Safe out.buf (0 ∷ []) spoilt (omega (arith, same, room, pos)))
            λ m _ same'. omega (arith, room, same, same')
  write-Safe (some t) out pos room =
      let cut = take (out.bufsize - 1) t ++ 0 ∷ [] in
      Safe->>= _ _ (store out.buf cut out.memory) _
        (store-Safe out.buf cut out.memory (
          omega (
            arith,
            room,
            pos,
            take_le (out.bufsize - 1) t,
            length-append (take (out.bufsize - 1) t) (0 ∷ []),
          )))
        λ m _ same. ground (arith, room, same)

  prtf-Safe : (t : Option Text) (out : Out) → HasRoom out → Safe HasRoom (prtf printf t out)
  unfolding prtf
  prtf-Safe t out room =
      Safe-if HasRoom (out.bufsize == 0) _ _ (λ _. room)
        λ some_left. write-Safe (counted t) out (ground (arith, some_left)) room

  with_out-Safe :
      (reader : Cycdeser) (t : Option Text) (out : Out)
      → IsSane reader
      → HasRoom out
      → Safe IsFine (with_out printf reader (prtf printf t out))
  with_out-Safe reader t out s room =
      Safe->>= _ _ (prtf printf t out) _ (prtf-Safe t out room)
        λ o _ r. record { sane = s; room = r }

  print_constant-Safe :
      (x : Text) (p : Cycprint) → IsFine p → Safe IsFine (print_constant printf x p)
  unfolding print_constant
  print_constant-Safe x p f = with_out-Safe p.reader (some x) p.out f.sane f.room

  print_number-Safe :
      (h : Host) (t : Directive) (p : Cycprint) → IsFine p → Safe IsFine (print_number printf h t p)
  unfolding print_number
  print_number-Safe h t p f =
      Safe->>= _ _ (deserialize h (sizeof_directive printf t) p.reader) _
        (deserialize-Reads h (sizeof_directive printf t) p.reader f.sane)
        λ r _ after. with_out-Safe r.1 _ p.out after.sane f.room

  text_length_le : (sz : ℕ) → text_length printf sz ≤ sz
  text_length_le sz = ground arith

  print_string-Safe : (h : Host) (p : Cycprint) → IsFine p → Safe IsFine (print_string printf h p)
  unfolding print_string
  print_string-Safe h p f =
      Safe->>= _ _ (deserialize_len h one_byte p.reader) _
        (deserialize_len-Safe h one_byte p.reader f.sane)
        λ r _ q.
          let room : r.1.pos + r.0 ≤ length r.1.bytes =
            omega (arith, q.1, ap length q.0.same_bytes) in
          Safe->>= _ _ (validate_str r.0 r.1) _ (validate_str-Safe r.0 r.1 room) λ _ _ _.
            Safe->>= _ _ (load r.1.bytes r.1.pos (text_length printf r.0)) _
              (load-Safe r.1.bytes r.1.pos (text_length printf r.0)
                (omega (arith, room, text_length_le r.0)))
              λ bs _ _.
                with_out-Safe (record r.1 { pos = r.1.pos + r.0 }) _ p.out
                  (moved r.1 r.0 q.0.sane room).sane f.room

  print_wstring-Safe : (h : Host) (p : Cycprint) → IsFine p → Safe IsFine (print_wstring printf h p)
  unfolding print_wstring
  print_wstring-Safe h p f =
      Safe->>= _ _ (deserialize_len h h.wchar p.reader) _
        (deserialize_len-Safe h h.wchar p.reader f.sane)
        λ r _ q.
          let size = r.0 * sizeof h.wchar in
          let room : r.1.pos + size ≤ length r.1.bytes =
            omega (arith, q.1, ap length q.0.same_bytes) in
          Safe->>= _ _ (load r.1.bytes r.1.pos size) _ (load-Safe r.1.bytes r.1.pos size room)
            λ bs _ _.
              with_out-Safe (record r.1 { pos = r.1.pos + size }) _ p.out
                (moved r.1 size q.0.sane room).sane f.room

  pub print-Safe :
      (h : Host) (k : Kind) (p : Cycprint) → IsFine p → Safe IsFine (print printf h k p)
  unfolding print
  print-Safe h boolean p f = print_number-Safe h (unsigned one_byte) p f
  print-Safe h string p f = print_string-Safe h p f
  print-Safe h wstring p f = print_wstring-Safe h p f
  print-Safe h (directive t) p f = print_number-Safe h t p f

  module _ (element : Cycprint → Result Cycprint)
      (safe : (p : Cycprint) → IsFine p → Safe IsFine (element p)) where
    print_others-Safe :
        (n : ℕ) (p : Cycprint) → IsFine p → Safe IsFine (print_others printf element n p)
    unfolding print_others
    print_others-Safe zero p f = f
    print_others-Safe (suc n) p f =
        Safe->>= _ _ (print_constant printf (bytes ",") p) _ (print_constant-Safe (bytes ",") p f)
          λ q _ g. Safe->>= _ _ (element q) _ (safe q g) λ r _ k. print_others-Safe n r k

    print_elements-Safe :
        (n : ℕ) (p : Cycprint) → IsFine p → Safe IsFine (print_elements printf element n p)
    unfolding print_elements
    print_elements-Safe zero p f = f
    print_elements-Safe (suc n) p f =
        Safe->>= _ _ (element p) _ (safe p f) λ q _ g. print_others-Safe n q g

    print_each-Safe :
        (has_first : Bool) (cnt : ℕ) (p : Cycprint)
        → ((cnt == 0) ≡ false → has_first ≡ true)
        → IsFine p
        → Safe IsFine (print_each printf element has_first cnt p)
    unfolding print_each
    print_each-Safe has_first cnt p there f =
        Safe->>= _ _ (print_constant printf (bytes "{") p) _ (print_constant-Safe (bytes "{") p f)
          λ q _ g.
            Safe->>= _ _
              (if cnt == 0
                then ok q
                else if has_first
                then print_elements printf element cnt q
                else fault)
              _
              (Safe-if IsFine (cnt == 0) _ _ (λ _. g)
                λ more.
                  Safe-if IsFine has_first _ _ (λ _. print_elements-Safe cnt q g)
                    λ e. absurd (cc (e, there more)))
              λ r _ k. print_constant-Safe (bytes "}") r k

    print_vector-Safe :
        (h : Host) (size : ℕ) (p : Cycprint)
        → 0 < size
        → IsFine p
        → Safe IsFine (print_vector printf h element size p)
    unfolding print_vector
    print_vector-Safe h size p some_size f =
        Safe->>= _ _ (deserialize_len h one_byte p.reader) _
          (deserialize_len-Safe h one_byte p.reader f.sane)
          λ r _ q.
            print_each-Safe (ltb 0 size) r.0 (record p { reader = r.1 })
              (λ _. ground (arith, some_size)) (record { sane = q.0.sane; room = f.room })

    print_array-Safe :
        (size : ℕ) (p : Cycprint) → IsFine p → Safe IsFine (print_array printf element size p)
    unfolding print_array
    print_array-Safe size p f = print_each-Safe (ltb 0 size) size p (λ more. ground (arith, more)) f

  -- A vector has an element that the printed ones can be read into.
  abbrev pub HasFirst : Item → Type 0
  HasFirst (one k) = Unit {0}
  HasFirst (vector k size) = 0 < size
  HasFirst (array k size) = Unit {0}

  print_item-Safe :
      (h : Host) (i : Item) (p : Cycprint)
      → HasFirst i
      → IsFine p
      → Safe IsFine (print_item printf h i p)
  unfolding print_item
  print_item-Safe h (one k) p e f = print-Safe h k p f
  print_item-Safe h (vector k size) p e f =
      print_vector-Safe (print printf h k) (print-Safe h k) h size p e f
  print_item-Safe h (array k size) p e f =
      print_array-Safe (print printf h k) (print-Safe h k) size p f

  print_all-Safe :
      (h : Host) (is : List Item) (p : Cycprint)
      → All HasFirst is
      → IsFine p
      → Safe IsFine (print_all printf h is p)
  unfolding print_all
  print_all-Safe h [] p e f = f
  print_all-Safe h (i ∷ is) p e f =
      Safe->>= _ _ (print_item printf h i p) _ (print_item-Safe h i p e.0 f)
        λ q _ g. print_all-Safe h is q e.1 g

  -- A cycprint on any buffer of at least four and less than 2 ^ 63 bytes, with memory of any size,
  -- and any sequence of `>>` into values, arrays, and vectors that are not empty: nothing is read
  -- outside the buffer and nothing is written outside the memory.
  pub print_all-ne-fault :
      (h : Host) (is : List Item) (memory buffer : List ℕ)
      → All HasFirst is
      → 4 ≤ length buffer
      → length buffer < 2 ^ 63
      → (cycprint h (length memory) memory buffer >>= print_all printf h is) ≢ fault
  unfolding cycprint
  print_all-ne-fault h is memory buffer e lo hi =
      let made : Safe IsFine (cycprint h (length memory) memory buffer) =
        Safe->>= _ _ (cycdeser h buffer) _ (cycdeser-Safe h buffer lo hi)
          λ d _ q. record { sane = q.0; room = omega arith } in
      Safe-ne-fault IsFine _ (
        Safe->>= _ _ (cycprint h (length memory) memory buffer) _ made
          λ p _ f. print_all-Safe h is p e f)
