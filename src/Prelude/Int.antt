-- ===== src/Prelude/Int.antt =====
-- Signed integers over the native numbers, as far as the source's `int` needs them.
use Prim.Native.Nat.{ℕ, zero, suc}
use mathlib.Core.Path.{◌≡◌, refl}

-- `negsuc n` is -(n + 1).
pub data ℤ : Type 0 where
  pos : ℕ → ℤ
  negsuc : ℕ → ℤ

-- -n and -z
abbrev pub neg_ℕ : ℕ → ℤ
neg_ℕ zero = pos 0
neg_ℕ (suc n) = negsuc n

abbrev pub -ℤ◌ : ℤ → ℤ
-ℤ◌ (pos n) = neg_ℕ n
-ℤ◌ (negsuc n) = pos (suc n)

pub neg-neg_ℕ : (n : ℕ) → -ℤ◌ (neg_ℕ n) ≡ pos n
neg-neg_ℕ zero = refl
neg-neg_ℕ (suc n) = refl
