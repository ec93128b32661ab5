-- ===== src/UtilsList/Heap/Returns.antt =====
-- Total correctness of a command: no fault, enough fuel, and a postcondition.
use esp_qcloud.Prelude.{◌≡◌}
use mathlib.Core.Path.{subst}
use esp_qcloud.UtilsList.Heap.{Memory, Run, done, fault, out_of_fuel, Cmd, and_then}

pub data Returns {A : Type 0} (P : A → Memory → Type 0) : Run A → Type 0 where
  returns : {a : A} {m : Memory} → P a m → Returns P (done a m)

module _ {A : Type 0} {P : A → Memory → Type 0} where
  pub bind :
      {B : Type 0} {Q : B → Memory → Type 0} {r : Run A} {k : A → Cmd B}
      → Returns P r
      → ((a : A) (m : Memory) → P a m → Returns Q (k a m))
      → Returns Q (and_then r k)
  bind (returns p) next = next _ _ p

  pub mono :
      {Q : A → Memory → Type 0} {r : Run A}
      → Returns P r
      → ((a : A) (m : Memory) → P a m → Q a m)
      → Returns Q r
  mono (returns p) weaken = returns (weaken _ _ p)

OfResult : {A : Type 0} → (A → Memory → Type 0) → Run A → Type 0
OfResult P (done a m) = P a m
OfResult P fault = Unit {0}
OfResult P out_of_fuel = Unit {0}

module _ {A : Type 0} {P : A → Memory → Type 0} where
  of_Returns : {r : Run A} → Returns P r → OfResult P r
  unfolding OfResult
  of_Returns (returns p) = p

  -- What was returned has the postcondition.
  pub returned : {r : Run A} {a : A} {m : Memory} → Returns P r → r ≡ done a m → P a m
  unfolding OfResult
  returned p e = subst (OfResult P) e (of_Returns p)
