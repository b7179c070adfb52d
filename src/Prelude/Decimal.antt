-- ===== src/Prelude/Decimal.antt =====
-- `strconv.Itoa`, `strconv.Atoi` and `strconv.ParseInt(s, 10, 64)`: decimals and 64-bit integers.
use Prim.Native.Nat.{ℕ, zero, suc, ◌+◌, ◌-◌, ◌*◌, ◌/◌, ◌%◌, ◌^◌, ◌≤◌, ◌<◌}
use mathlib.Core.Path.{◌≡◌, refl, ap, ◌∙◌}
use mathlib.Core.Logic.{inl, inr}
use mathlib.Core.Bool.{Bool, ◌&&◌}
use mathlib.Core.Option.{Option, none, some}
use mathlib.Core.List.{[], ◌∷◌}
use native.Mathlib.Omega.{arith}
use go_dblog.Prelude.Tests.{ltb, leb, ◌==◌, if◌then◌else◌, Bool-cases, lt→ltb, ltb→lt}
use go_dblog.Prelude.Lists.{All}
use go_dblog.Prelude.Text.{Bytes}
use go_dblog.Prelude.Int.{ℤ, pos, neg_ℕ}

abbrev pub is_digit : ℕ → Bool
is_digit c = leb b'0' c && leb c b'9'

-- The digits of `n` in front of `acc`; `f` digits at most.
unfoldable pub render : ℕ → ℕ → Bytes → Bytes
render zero n acc = acc
render (suc f) n acc =
    let rest = render f (n / 10) ((48 + n % 10) ∷ acc) in if ltb n 10 then (48 + n) ∷ acc else rest

-- `strconv.Itoa` at a number that is not negative; a 64-bit integer has 19 digits at most.
unfoldable pub itoa : ℕ → Bytes
unfolding render
itoa n = render 20 n []

-- The value of a run of digits behind digits of value `v`.
unfoldable pub digits_value : ℕ → Bytes → Option ℕ
digits_value v [] = some v
digits_value v (c ∷ cs) = if is_digit c then digits_value (v * 10 + (c - 48)) cs else none

abbrev pub max_int : ℕ
max_int = 2 ^ 63

-- At least one digit, and a value below `bound`.
unfoldable pub parse_uint : ℕ → Bytes → Option ℕ
unfolding digits_value
parse_uint bound [] = none
parse_uint bound (c ∷ cs) = elim (digits_value 0 (c ∷ cs)) [
  | none ↦ none
  | some v ↦ if ltb v bound then some v else none
]

abbrev negated : Option ℕ → Option ℤ
negated none = none
negated (some n) = some (neg_ℕ n)

abbrev positive : Option ℕ → Option ℤ
positive none = none
positive (some n) = some (pos n)

-- `strconv.Atoi`; `none` is a syntax or a range error.
unfoldable pub atoi : Bytes → Option ℤ
unfolding parse_uint
atoi [] = none
atoi (c ∷ cs) =
    if c == b'-'
    then negated (parse_uint (max_int + 1) cs)
    else if c == b'+'
    then positive (parse_uint max_int cs)
    else positive (parse_uint max_int (c ∷ cs))

digits_value_digit :
    (v d : ℕ) (acc : Bytes)
    → d < 10
    → digits_value v ((48 + d) ∷ acc) ≡ digits_value (v * 10 + d) acc
unfolding digits_value
digits_value_digit v d acc h = ground arith

digit_zero : (n : ℕ) (acc : Bytes) → n < 10 → digits_value 0 ((48 + n) ∷ acc) ≡ digits_value n acc
digit_zero n acc h = digits_value_digit 0 n acc h ∙ ap (λ (k : ℕ). digits_value k acc) (omega arith)

-- Reading the digits that were written gives the number, with what follows still to read.
pub digits_value-render :
    (f n : ℕ) (acc : Bytes)
    → n < 10 ^ f
    → 0 < f
    → digits_value 0 (render f n acc) ≡ digits_value n acc
unfolding render
digits_value-render zero n acc h p = absurd (omega arith)
digits_value-render (suc zero) n acc h p =
    rw (lt→ltb n 10 (omega arith)) (digit_zero n acc (omega arith))
digits_value-render (suc (suc f)) n acc h p = elim (Bool-cases (ltb n 10)) [
  | inl small ↦ rw small (digit_zero n acc (ltb→lt n 10 small))
  | inr large ↦ rw large (
      digits_value-render (suc f) (n / 10) ((48 + n % 10) ∷ acc) (omega arith) (omega arith)
      ∙ digits_value_digit (n / 10) (n % 10) acc (omega arith)
      ∙ ap (λ (k : ℕ). digits_value k acc) (omega arith))
]

-- A rendering starts with a digit.
pub render_head :
    (f n : ℕ) (acc : Bytes)
    → 0 < f
    → (d : ℕ) × (cs : Bytes) × (render f n acc ≡ d ∷ cs) × (b'0' ≤ d) × (d ≤ b'9')
unfolding render
render_head zero n acc p = absurd (omega arith)
render_head (suc zero) n acc p = elim (Bool-cases (ltb n 10)) [
  | inl small ↦ (48 + n, acc, rw small, omega arith, omega (arith, ltb→lt n 10 small))
  | inr large ↦ (48 + n % 10, acc, rw large, omega arith, omega arith)
]
render_head (suc (suc f)) n acc p = elim (Bool-cases (ltb n 10)) [
  | inl small ↦ (48 + n, acc, rw small, omega arith, omega (arith, ltb→lt n 10 small))
  | inr large ↦ rw large (render_head (suc f) (n / 10) ((48 + n % 10) ∷ acc) (omega arith))
]

parse_uint-some :
    (bound v d : ℕ) (cs t : Bytes)
    → t ≡ d ∷ cs
    → digits_value 0 t ≡ some v
    → v < bound
    → parse_uint bound t ≡ some v
unfolding parse_uint
parse_uint-some bound v d cs t e value h = ground arith

atoi-some :
    (v d : ℕ) (cs t : Bytes)
    → t ≡ d ∷ cs
    → b'0' ≤ d
    → parse_uint max_int t ≡ some v
    → atoi t ≡ some (pos v)
unfolding atoi
atoi-some v d cs t e h value = ground arith

parse_uint-itoa : (bound n : ℕ) → n < bound → n < 10 ^ 20 → parse_uint bound (itoa n) ≡ some n
unfolding itoa
parse_uint-itoa bound n h fits =
    let (d, cs, e, lo, hi) = render_head 20 n [] (omega arith) in
    let value : digits_value 0 (render 20 n []) ≡ some n =
      digits_value-render 20 n [] fits (omega arith) ∙ unfold digits_value in refl in
    parse_uint-some bound n d cs (render 20 n []) e value h

pub itoa_head : (n : ℕ) → (d : ℕ) × (cs : Bytes) × (itoa n ≡ d ∷ cs) × (b'0' ≤ d) × (d ≤ b'9')
unfolding itoa
itoa_head n = render_head 20 n [] (omega arith)

-- `Atoi(Itoa(n))` is `n`, over the range of a Go `int` that is not negative.
pub atoi-itoa : (n : ℕ) → n < max_int → atoi (itoa n) ≡ some (pos n)
atoi-itoa n h =
    let (d, cs, e, lo, hi) = itoa_head n in
    atoi-some n d cs (itoa n) e lo (parse_uint-itoa max_int n h (omega arith))

-- A decimal has what its digits have.
pub render-All :
    (P : ℕ → Type 0) (digit : (d : ℕ) → d < 10 → P (48 + d)) (f n : ℕ) (acc : Bytes)
    → All P acc
    → All P (render f n acc)
unfolding render
render-All P digit zero n acc h = h
render-All P digit (suc f) n acc h = elim (Bool-cases (ltb n 10)) [
  | inl small ↦ rw small (digit n (ltb→lt n 10 small), h)
  | inr large ↦
      rw large
        (render-All P digit f (n / 10) ((48 + n % 10) ∷ acc) (digit (n % 10) (omega arith), h))
]

-- A decimal has no byte below the digits: no line end, no blank, no sign.
pub itoa-All : (n : ℕ) → All (λ c. b'0' ≤ c) (itoa n)
unfolding itoa
itoa-All n = render-All (λ c. b'0' ≤ c) (λ d h. omega arith) 20 n [] tt

-- A decimal has no byte above the digits, such as a colon.
pub itoa-All_below : (n : ℕ) → All (λ c. c < 58) (itoa n)
unfolding itoa
itoa-All_below n = render-All (λ c. c < 58) (λ d h. omega (arith, h)) 20 n [] tt
