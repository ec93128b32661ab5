-- ===== src/Prelude/Bits.antt =====
-- Masks and shifts on bytes, each law a table that is checked by evaluation.
use Prim.Native.Nat.{ℕ, zero, suc, ◌+◌, ◌*◌, ◌/◌, ◌%◌, ◌<◌, bit_and, bit_or}
use mathlib.Core.Path.{◌≡◌, refl}
use mathlib.Core.Bool.{Bool, true, ◌&&◌}
use native.Mathlib.Omega.{arith}
use esp_qcloud.Prelude.Tests.{◌==◌, ==_iff}

unfoldable pub holds_below : ℕ → (ℕ → Bool) → Bool
holds_below zero p = true
holds_below (suc n) p = p n && holds_below n p

pub holds_below-at : (n : ℕ) (p : ℕ → Bool) (x : ℕ) → holds_below n p ≡ true → x < n → p x ≡ true
unfolding holds_below
holds_below-at zero p x h lt = absurd (omega arith)
holds_below-at (suc n) p x h lt = ground (arith, holds_below-at n p x)

module _ (f g : ℕ → ℕ) where
  abbrev pub same_below : ℕ → Bool
  same_below n = holds_below n (λ x. f x == g x)

  pub same_below-eq : (n : ℕ) → same_below n ≡ true → (x : ℕ) → x < n → f x ≡ g x
  same_below-eq n h x lt = (==_iff _ _).0 (holds_below-at n _ x h lt)

pub low_seven : (c : ℕ) → c < 256 → bit_and c 127 ≡ c % 128
unfolding holds_below
low_seven = same_below-eq _ _ 256 refl

pub top_bit : (c : ℕ) → c < 256 → bit_and c 128 ≡ c / 128 * 128
unfolding holds_below
top_bit = same_below-eq _ _ 256 refl

pub set_top_bit : (c : ℕ) → c < 128 → bit_or c 128 ≡ c + 128
unfolding holds_below
set_top_bit = same_below-eq _ _ 128 refl

-- Two parts of a byte that do not meet.
pub join_nibbles : (a b : ℕ) → a < 16 → b < 16 → bit_or (a * 16) b ≡ a * 16 + b
unfolding holds_below
join_nibbles a b ha hb =
    let high : (a * 16 + b) / 16 * 16 ≡ a * 16 = omega arith in
    let low : (a * 16 + b) % 16 ≡ b = omega arith in
    let joined : bit_or ((a * 16 + b) / 16 * 16) ((a * 16 + b) % 16) ≡ a * 16 + b =
      same_below-eq (λ x. bit_or (x / 16 * 16) (x % 16)) (λ x. x) 256 refl (a * 16 + b)
        (omega arith) in
    cc (high, low, joined)

pub join_code : (a b : ℕ) → a < 8 → b < 32 → bit_or (a * 32) b ≡ a * 32 + b
unfolding holds_below
join_code a b ha hb =
    let high : (a * 32 + b) / 32 * 32 ≡ a * 32 = omega arith in
    let low : (a * 32 + b) % 32 ≡ b = omega arith in
    let joined : bit_or ((a * 32 + b) / 32 * 32) ((a * 32 + b) % 32) ≡ a * 32 + b =
      same_below-eq (λ x. bit_or (x / 32 * 32) (x % 32)) (λ x. x) 256 refl (a * 32 + b)
        (omega arith) in
    cc (high, low, joined)

pub join_version : (t : ℕ) → t < 4 → bit_or 64 (t * 16) ≡ (4 + t) * 16
unfolding holds_below
join_version = same_below-eq (λ t. bit_or 64 (t * 16)) (λ t. (4 + t) * 16) 4 refl
