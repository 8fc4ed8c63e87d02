-- ===== src/Base/Run.antt =====
-- Calls that read and change the world around them, and may throw.
use rws.Base.Result.{Result, ok, err, fault}

module _ {W : Type 0} where
  -- The next call, unless an exception has ended the calls before.
  abbrev pub and_then {ℓ κ} :
      {A : Type ℓ} {B : Type κ} → W × Result A → (A → W → W × Result B) → W × Result B
  and_then (w, ok a) next = next a w
  and_then (w, err e) next = (w, err e)
  and_then (w, fault) next = (w, fault)
