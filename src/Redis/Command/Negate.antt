-- ===== src/Redis/Command/Negate.antt =====
-- `negateNumericDelta` on a decimal integer.
use go_dblog.Prelude.{
  ℕ, ◌≡◌, true, Option, none, some, [], ◌∷◌, ◌==◌, arith, if◌then◌else◌, Bool-cases, Option-cases,
  inl, inr,
}
use go_dblog.Prelude.Int.{ℤ, pos, neg_ℕ, -ℤ◌, neg-neg_ℕ}
use go_dblog.Prelude.Text.{Bytes}
use go_dblog.Prelude.Decimal.{digits_value, is_digit}
use go_dblog.Redis.Command.{negate_numeric_delta}

-- The value of a decimal integer of any size: an optional sign, and one digit at least.
unfoldable pub magnitude : Bytes → Option ℕ
magnitude [] = none
magnitude (c ∷ cs) = digits_value 0 (c ∷ cs)

unfoldable pub integer_value : Bytes → Option ℤ
unfolding magnitude
integer_value [] = none
integer_value (c ∷ cs) =
    if c == b'-'
    then elim (magnitude cs) [ none ↦ none | some n ↦ some (neg_ℕ n) ]
    else if c == b'+'
    then elim (magnitude cs) [ none ↦ none | some n ↦ some (pos n) ]
    else elim (magnitude (c ∷ cs)) [ none ↦ none | some n ↦ some (pos n) ]

sign_of_digit :
    (c : ℕ) (cs : Bytes) (n : ℕ) → digits_value 0 (c ∷ cs) ≡ some n → (is_digit c ≡ true)
unfolding digits_value
sign_of_digit c cs n h = ground arith

-- The negated text of a decimal integer is a decimal integer, of the negated value.
pub negate_numeric_delta_value :
    (s : Bytes) (v : ℤ)
    → integer_value s ≡ some v
    → (t : Bytes) × (negate_numeric_delta s ≡ some t) × (integer_value t ≡ some (-ℤ◌ v))
unfolding negate_numeric_delta integer_value
negate_numeric_delta_value [] v h = absurd (ground arith)
negate_numeric_delta_value (c ∷ []) v h =
    (b'-' ∷ c ∷ [], ground arith, unfold digits_value in ground arith)
negate_numeric_delta_value (c ∷ d ∷ s) v h = elim (Option-cases (digits_value 0 (d ∷ s))) [
  | inl bad ↦ elim (Bool-cases (c == b'-')) [
    | inl minus ↦ absurd (ground arith)
    | inr no_minus ↦ elim (Bool-cases (c == b'+')) [
      | inl plus ↦ absurd (ground arith)
      | inr no_plus ↦ (b'-' ∷ c ∷ d ∷ s, ground arith, ground arith)
    ]
  ]
  | inr (n, value) ↦ elim (Bool-cases (c == b'-')) [
    | inl minus ↦
        (d ∷ s, ground arith, ground (arith, value, sign_of_digit d s n value, neg-neg_ℕ n))
    | inr no_minus ↦ elim (Bool-cases (c == b'+')) [
      | inl plus ↦ (b'-' ∷ d ∷ s, ground arith, ground (arith, value))
      | inr no_plus ↦ (b'-' ∷ c ∷ d ∷ s, ground arith, ground arith)
    ]
  ]
]
