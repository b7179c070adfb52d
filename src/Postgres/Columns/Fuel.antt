-- ===== src/Postgres/Columns/Fuel.antt =====
-- `parseColumns` ends on every text.
use go_dblog.Prelude.{
  ℕ, zero, suc, ◌≤◌, ◌<◌, ◌≡◌, ◌≢◌, refl, ap, Bool, true, false, Option, none, some, List, [], ◌∷◌,
  ◌==◌, arith, if◌then◌else◌, Option-cases, inl, inr, length,
}
use go_dblog.Prelude.Text.{Bytes}
use go_dblog.Prelude.Result.{Result, ok, panic, ◌>>=◌, view, is_ok, is_err, is_panic}
use go_dblog.Postgres.Types.{Value, Column}
use go_dblog.Postgres.Columns.{
  LineError, Quoted, scan_quoted, until, parse_column_value, column_tail, column_body, parse_column,
  skip_blanks, columns_loop, parse_columns, quoted_value, unquoted_value,
}

until_le : (b : ℕ) (s : Bytes) → length (until b s).1 ≤ length s
unfolding until
until_le b [] = omega arith
until_le b (c ∷ s) = ground (arith, until_le b s)

scan_quoted_le : (s : Bytes) (q : Quoted) → scan_quoted s ≡ some q → length q.rest ≤ length s
unfolding scan_quoted
scan_quoted_le [] q h = cc
scan_quoted_le (c ∷ []) q h = ground arith
scan_quoted_le (c ∷ d ∷ s) q h = elim (Option-cases (scan_quoted s)) [
  | inl e ↦ elim (Option-cases (scan_quoted (d ∷ s))) [
    | inl e' ↦ ground arith
    | inr (q', e') ↦ ground (arith, scan_quoted_le (d ∷ s) q' e')
  ]
  | inr (p, e) ↦ elim (Option-cases (scan_quoted (d ∷ s))) [
    | inl e' ↦ ground (arith, scan_quoted_le s p e)
    | inr (q', e') ↦ ground (arith, scan_quoted_le s p e, scan_quoted_le (d ∷ s) q' e')
  ]
]

skip_blanks_le : (s : Bytes) → length (skip_blanks s) ≤ length s
unfolding skip_blanks
skip_blanks_le [] = omega arith
skip_blanks_le (c ∷ s) = ground (arith, skip_blanks_le s)

module _ {F : Type 0} (parse_float : Bytes → Option F) where
  value_le :
      (s : Bytes) (p : Bytes × Value F × Bytes)
      → parse_column_value parse_float s ≡ ok p
      → length p.2 ≤ length s
  unfolding parse_column_value
  value_le [] p h = ground arith
  value_le (c ∷ s) p h = elim (Option-cases (scan_quoted s)) [
    | inl e ↦ ground (arith, until_le b' ' (c ∷ s))
    | inr (q, e) ↦ ground (arith, until_le b' ' (c ∷ s), scan_quoted_le s q e)
  ]

  tail_lt :
      (name typ s : Bytes) (p : Column F × Bytes)
      → column_tail parse_float name typ s ≡ ok p
      → length p.1 < length s
  unfolding column_tail
  tail_lt name typ [] p h = cc
  tail_lt name typ (b ∷ []) p h = cc
  tail_lt name typ (b ∷ c ∷ s) p h = elim (view (parse_column_value parse_float s)) [
    | is_ok q e ↦ ground (arith, value_le s q e)
    | is_err x e ↦ absurd (ground arith)
    | is_panic e ↦ absurd (ground arith)
  ]

  body_lt :
      (name s : Bytes) (p : Column F × Bytes)
      → column_body parse_float name s ≡ ok p
      → length p.1 < length s
  unfolding column_body
  body_lt name [] p h = cc
  body_lt name (b ∷ s) p h =
      ground (arith, until_le b']' s, tail_lt name (until b']' s).0 (until b']' s).1 p)

  -- A column takes a byte at least.
  pub parse_column_lt :
      (s : Bytes) (p : Column F × Bytes) → parse_column parse_float s ≡ ok p → length p.1 < length s
  unfolding parse_column
  parse_column_lt s p h =
      ground (arith, until_le b'[' s, body_lt (until b'[' s).0 (until b'[' s).1 p)

  -- No panic in the pieces.
  quoted_value-ne-panic : (quote : ℕ) (q : Option Quoted) → quoted_value parse_float quote q ≢ panic
  unfolding quoted_value
  quoted_value-ne-panic quote none h = cc
  quoted_value-ne-panic quote (some q) h = cc

  unquoted_value-ne-panic : (p : Bytes × Bytes) → unquoted_value parse_float p ≢ panic
  unfolding unquoted_value
  unquoted_value-ne-panic p h = cc

  if-ne-panic :
      {A : Type 0} (b : Bool) {x y : Result LineError A}
      → x ≢ panic
      → y ≢ panic
      → (if b then x else y) ≢ panic
  if-ne-panic true p q = p
  if-ne-panic false p q = q

  parse_column_value-ne-panic : (s : Bytes) → parse_column_value parse_float s ≢ panic
  unfolding parse_column_value
  parse_column_value-ne-panic [] = unquoted_value-ne-panic ([], [])
  parse_column_value-ne-panic (c ∷ s) =
      if-ne-panic (c == b'\'') (quoted_value-ne-panic c (scan_quoted s))
        (unquoted_value-ne-panic (until b' ' (c ∷ s)))

  tail-ne-panic : (name typ s : Bytes) → column_tail parse_float name typ s ≢ panic
  unfolding column_tail
  tail-ne-panic name typ [] h = cc
  tail-ne-panic name typ (b ∷ []) h = cc
  tail-ne-panic name typ (b ∷ c ∷ s) h = ground (arith, parse_column_value-ne-panic s)

  body-ne-panic : (name s : Bytes) → column_body parse_float name s ≢ panic
  unfolding column_body
  body-ne-panic name [] h = cc
  body-ne-panic name (b ∷ s) h = tail-ne-panic name (until b']' s).0 (until b']' s).1 h

  parse_column-ne-panic : (s : Bytes) → parse_column parse_float s ≢ panic
  unfolding parse_column
  parse_column-ne-panic s h = body-ne-panic (until b'[' s).0 (until b'[' s).1 h

  -- One round of the loop.
  abbrev pub round : ℕ → Bytes → Result LineError (List (Column F))
  round fuel t = do
    (column, rest) ← parse_column parse_float t
    columns ← columns_loop parse_float fuel rest
    ok (column ∷ columns)

  pub columns_loop_end :
      (fuel : ℕ) (s : Bytes) → skip_blanks s ≡ [] → columns_loop parse_float (suc fuel) s ≡ ok []
  unfolding columns_loop
  columns_loop_end fuel s e = rw (e, columns_loop)

  pub columns_loop-round :
      (fuel c : ℕ) (s t : Bytes)
      → skip_blanks s ≡ c ∷ t
      → columns_loop parse_float (suc fuel) s ≡ round fuel (c ∷ t)
  columns_loop-round fuel c s t e = unfold columns_loop in rw (e, columns_loop)

  round-ne-panic :
      (fuel : ℕ) (t : Bytes)
      → ((r : Bytes) → length r < length t → columns_loop parse_float fuel r ≢ panic)
      → round fuel t ≢ panic
  round-ne-panic fuel t ih h = elim (view (parse_column parse_float t)) [
    | is_ok p e ↦ elim (view (columns_loop parse_float fuel p.1)) [
      | is_ok cs e' ↦ ground arith
      | is_err x e' ↦ ground arith
      | is_panic e' ↦ ih p.1 (parse_column_lt t p e) e'
    ]
    | is_err x e ↦ ground arith
    | is_panic e ↦ parse_column-ne-panic t e
  ]

  pub columns_loop-ne-panic :
      (fuel : ℕ) (s : Bytes) → length s < fuel → columns_loop parse_float fuel s ≢ panic
  columns_loop-ne-panic zero s h = absurd (omega arith)
  columns_loop-ne-panic (suc fuel) s h =
      let ih = columns_loop-ne-panic fuel in go ih (skip_blanks s) refl
    where
      go :
          ((r : Bytes) → length r < fuel → columns_loop parse_float fuel r ≢ panic)
          → (t : Bytes) → skip_blanks s ≡ t
          → columns_loop parse_float (suc fuel) s ≢ panic
      go ih [] e = rw (columns_loop_end fuel s e) (λ k. cc)
      go ih (c ∷ t) e = rw (columns_loop-round fuel c s t e) (
          round-ne-panic fuel (c ∷ t)
            λ r k. ih r (omega (arith, skip_blanks_le s, ap (length {0}) e)))

  -- `parseColumns` ends on every text, with columns or an error: it has enough fuel, and no index
  -- is out of range.
  pub parse_columns-ne-panic : (s : Bytes) → parse_columns parse_float s ≢ panic
  unfolding parse_columns
  parse_columns-ne-panic s = columns_loop-ne-panic (suc (length s)) s (omega arith)
