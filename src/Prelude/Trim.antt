-- ===== src/Prelude/Trim.antt =====
-- What is trimmed is trimmed.
use Prim.Native.Nat.{ℕ}
use mathlib.Core.Path.{◌≡◌, refl}
use mathlib.Core.Logic.{inl, inr}
use mathlib.Core.Bool.{false}
use mathlib.Core.List.{[], ◌∷◌, ◌++◌, reverse, reverse-append, reverse-reverse}
use go_dblog.Prelude.Tests.{Bool-cases}
use go_dblog.Prelude.Text.{Bytes, is_space, trim_left, trim_space}

trim_left_idem : (s : Bytes) → trim_left (trim_left s) ≡ trim_left s
unfolding trim_left
trim_left_idem [] = refl
trim_left_idem (c ∷ s) = elim (Bool-cases (is_space c)) [
  | inl blank ↦ rw blank (trim_left_idem s)
  | inr full ↦ rw (full, trim_left, full) refl
]

-- The last byte stays where it is no blank.
trim_left-last :
    (s : Bytes) (c : ℕ) → is_space c ≡ false → (t : Bytes) × (trim_left (s ++ c ∷ []) ≡ t ++ c ∷ [])
unfolding trim_left
trim_left-last [] c full = ([], rw full refl)
trim_left-last (d ∷ s) c full = elim (Bool-cases (is_space d)) [
  | inl blank ↦ let (t, e) = trim_left-last s c full in (t, rw blank e)
  | inr other ↦ (d ∷ s, rw other refl)
]

-- What is left of a text begins with no blank.
data Begins : Bytes → Type 0 where
  empty : Begins []
  full : (c : ℕ) (s : Bytes) → is_space c ≡ false → Begins (c ∷ s)

Begins-trim_left : (s : Bytes) → Begins (trim_left s)
unfolding trim_left
Begins-trim_left [] = empty
Begins-trim_left (c ∷ s) = elim (Bool-cases (is_space c)) [
  | inl blank ↦ rw blank (Begins-trim_left s)
  | inr other ↦ rw other (full c s other)
]

trimmed-Begins : (t : Bytes) → Begins t → Begins (reverse (trim_left (reverse t)))
unfolding trim_left
trimmed-Begins [] empty = empty
trimmed-Begins (c ∷ s) (full _ _ h) =
    let (t, e) = trim_left-last (reverse s) c h in
    rw (reverse-append (c ∷ []) s, e, reverse-append t (c ∷ [])) (full c (reverse t) h)

Begins-same : (t : Bytes) → Begins t → trim_left t ≡ t
unfolding trim_left
Begins-same [] empty = refl
Begins-same (c ∷ s) (full _ _ h) = rw h refl

pub trim_space_idem : (s : Bytes) → trim_space (trim_space s) ≡ trim_space s
unfolding trim_space
trim_space_idem s =
    let t : Bytes = trim_left s in
    rw
      (
        Begins-same (reverse (trim_left (reverse (trim_left s))))
            (trimmed-Begins (trim_left s) (Begins-trim_left s)),
        reverse-reverse (trim_left (reverse (trim_left s))),
        trim_left_idem (reverse (trim_left s)),
      )
      refl
