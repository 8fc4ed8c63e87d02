-- ===== src/Base/Result.antt =====
-- What a C++ function that may throw returns: a value, an exception that a handler can see, or
-- undefined behaviour, such as a read outside a buffer or through a null pointer.
use mathlib.Core.Path.{◌≡◌, refl}
use mathlib.Core.Logic.{◌⊎◌, inl, inr}
use mathlib.Core.Bool.{Bool, true, false}
use rws.Base.Tests.{if◌then◌else◌}

-- The exceptions that the program throws or that the library functions it calls throw.
pub data Error : Type 0 where
  invalid_align invalid_size not_null_terminated : Error
  out_of_range not_a_type_name not_a_node_name : Error
  unknown_type null_get_function json_error bad_function_call rcl_failed no_library : Error
  -- No exception of the program: a loop that the bound on its rounds has cut short.
  out_of_rounds : Error

pub data Result {ℓ} (A : Type ℓ) : Type ℓ where
  ok : A → Result A
  err : Error → Result A
  fault : Result A

infixl 5 ◌>>=◌ ◌>>◌
abbrev pub ◌>>=◌ {ℓ κ} : {X : Type ℓ} {Y : Type κ} → Result X → (X → Result Y) → Result Y
fault >>= next = fault
err e >>= next = err e
ok x >>= next = next x

abbrev pub ◌>>◌ {ℓ} : {Y : Type ℓ} → Result (Unit {0}) → Result Y → Result Y
check >> rest = check >>= λ _. rest

-- Inversion of a bind that succeeds.
pub >>=-eq-ok {ℓ κ} :
    {X : Type ℓ} {Y : Type κ} (r : Result X) (next : X → Result Y) {y : Y}
    → (r >>= next) ≡ ok y
    → (x : X) × (r ≡ ok x) × (next x ≡ ok y)
>>=-eq-ok fault next e = cc
>>=-eq-ok (err x) next e = cc
>>=-eq-ok (ok x) next e = (x, refl, e)

-- A bind of two parts that never fault does not fault.
pub >>=-ne-fault {ℓ κ} :
    {A : Type ℓ} {B : Type κ} (m : Result A) (f : A → Result B)
    → ¬ (m ≡ fault)
    → ((a : A) → m ≡ ok a → ¬ (f a ≡ fault))
    → ¬ ((m >>= f) ≡ fault)
>>=-ne-fault (ok a) f h k = k a refl
>>=-ne-fault (err e) f h k = λ p. cc
>>=-ne-fault fault f h k = absurd (h refl)

pub Result-cases {ℓ} :
    {A : Type ℓ} (m : Result A)
    → ((a : A) × (m ≡ ok a)) ⊎ (((e : Error) × (m ≡ err e)) ⊎ (m ≡ fault))
Result-cases (ok a) = inl (a, refl)
Result-cases (err e) = inr (inl (e, refl))
Result-cases fault = inr (inr refl)

pub >>=_assoc {ℓ κ ι} :
    {X : Type ℓ} {Y : Type κ} {Z : Type ι} (r : Result X) (f : X → Result Y) (g : Y → Result Z)
    → (r >>= λ x. f x >>= g) ≡ (r >>= f >>= g)
>>=_assoc (ok x) f g = refl
>>=_assoc (err e) f g = refl
>>=_assoc fault f g = refl

-- A predicate of the value that is returned, if one is.
abbrev pub OkAnd {ℓ κ} : {A : Type ℓ} → (A → Type κ) → Result A → Type κ
OkAnd P (ok a) = P a
OkAnd P (err e) = Unit
OkAnd P fault = Unit

pub >>=-OkAnd {ℓ κ ι υ} :
    {A : Type ℓ} {B : Type κ} (Q : A → Type υ) (P : B → Type ι) (m : Result A) (f : A → Result B)
    → OkAnd Q m
    → ((a : A) → Q a → OkAnd P (f a))
    → OkAnd P (m >>= f)
>>=-OkAnd Q P (ok a) f q h = h a q
>>=-OkAnd Q P (err e) f q h = tt
>>=-OkAnd Q P fault f q h = tt

-- Nothing is known of the first value.
abbrev pub Any {ℓ} : {A : Type ℓ} → A → Type 0
Any a = Unit {0}

pub OkAnd-Any {ℓ} : {A : Type ℓ} (m : Result A) → OkAnd Any m
OkAnd-Any (ok a) = tt
OkAnd-Any (err e) = tt
OkAnd-Any fault = tt

pub if-holds {ℓ κ} :
    {A : Type ℓ} (P : A → Type κ) (b : Bool) {x y : A} → P x → P y → P (if b then x else y)
if-holds P true p q = p
if-holds P false p q = q
