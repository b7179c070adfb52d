-- ===== src/Postgres/Columns/RoundTrip.antt =====
-- Columns in the notation of test_decoding, `name[type]:value`, and their way back.
use go_dblog.Prelude.{
  ℕ, zero, suc, ◌≤◌, ◌<◌, ◌≡◌, ◌≢◌, refl, ◌∙◌, ap, sym, false, Option, List, [], ◌∷◌, ◌++◌, ◌==◌,
  arith, length, length-append, All, append_assoc, append-nil,
}
use go_dblog.Prelude.Text.{Bytes, double}
use go_dblog.Prelude.Result.{ok, err}
use go_dblog.Postgres.Types.{Value, text, Column}
use go_dblog.Postgres.Columns.{
  invalid_line, until, parse_scalar, parse_column_value, column_tail, column_body, parse_column,
  skip_blanks, columns_loop, parse_columns, parse_quoted_value,
}
use go_dblog.Postgres.Columns.Quote.{NoQuote, scan_quoted-double}
use go_dblog.Postgres.Columns.Fuel.{columns_loop_end, columns_loop-round, round}

until-append :
    (b : ℕ) (s rest : Bytes) → All (λ c. c ≢ b) s → until b (s ++ b ∷ rest) ≡ (s, b ∷ rest)
unfolding until
until-append b [] rest h = ground arith
until-append b (c ∷ s) rest h = ground (arith, until-append b s rest)

until-All : (b : ℕ) (s : Bytes) → All (λ c. c ≢ b) s → until b s ≡ (s, [])
unfolding until
until-All b [] h = refl
until-All b (c ∷ s) h = ground (arith, until-All b s)

-- What ends a value: the end of the text or a blank.
pub data Ends : Bytes → Type 0 where
  at_end : Ends []
  at_blank : (s : Bytes) → Ends (b' ' ∷ s)

-- `line[type]:raw`
unfoldable pub column_text : {F : Type 0} → Column F → Bytes
column_text c = c.name ++ b'[' ∷ (c.typ ++ b']' ∷ b':' ∷ c.raw)

unfoldable pub columns_text : {F : Type 0} → List (Column F) → Bytes
unfolding column_text
columns_text [] = []
columns_text (c ∷ []) = column_text c
columns_text (c ∷ d ∷ cs) = column_text c ++ b' ' ∷ columns_text (d ∷ cs)

length-column_text : {F : Type 0} (c : Column F) → 0 < length (column_text c)
unfolding column_text
length-column_text c = omega (arith, length-append c.name (b'[' ∷ (c.typ ++ b']' ∷ b':' ∷ c.raw)))

abbrev StartsPlain : Bytes → Type 0
StartsPlain [] = Unit {0}
StartsPlain (c ∷ s) = c ≢ b' '

module _ {F : Type 0} (parse_float : Bytes → Option F) where
  -- The raw text of a value, and the value that it stands for: a text in quotes, or a literal with
  -- no blank in it that does not begin with a quote.
  pub data IsValue : Bytes → Value F → Type 0 where
    quoted : (v : Bytes) → IsValue (b'\'' ∷ (double b'\'' v ++ b'\'' ∷ [])) (text v)
    literal :
        (c : ℕ) (s : Bytes)
        → c ≢ b'\''
        → All (λ d. d ≢ b' ') (c ∷ s)
        → IsValue (c ∷ s) (parse_scalar parse_float (c ∷ s))

  -- A name with no opening bracket that does not begin with a blank, a type with no closing one.
  pub record IsColumn (c : Column F) : Type 0 where
    pub name_plain : All (λ d. d ≢ b'[') c.name
    pub name_starts : StartsPlain c.name
    pub typ_plain : All (λ d. d ≢ b']') c.typ
    pub is_value : IsValue c.raw c.value

  quoted_at :
      (v rest : Bytes)
      → NoQuote rest
      → parse_quoted_value parse_float b'\'' ((double b'\'' v ++ b'\'' ∷ []) ++ rest)
        ≡ ok (b'\'' ∷ (double b'\'' v ++ b'\'' ∷ []), text v, rest)
  unfolding parse_quoted_value
  quoted_at v rest h =
      rw (append_assoc (double b'\'' v) (b'\'' ∷ []) rest, scan_quoted-double v rest h)

  literal_at :
      (c : ℕ) (s rest : Bytes)
      → c ≢ b'\''
      → until b' ' ((c ∷ s) ++ rest) ≡ (c ∷ s, rest)
      → parse_column_value parse_float ((c ∷ s) ++ rest)
        ≡ ok (c ∷ s, parse_scalar parse_float (c ∷ s), rest)
  literal_at c s rest h e = unfold parse_column_value in rw (other c h, parse_column_value) (rw e)
    where
      other : (c : ℕ) → c ≢ b'\'' → (c == b'\'') ≡ false
      other c h = ground arith

  pub value-append :
      {raw : Bytes} {v : Value F} (rest : Bytes)
      → IsValue raw v
      → Ends rest
      → parse_column_value parse_float (raw ++ rest) ≡ ok (raw, v, rest)
  value-append [] (quoted v) at_end = unfold parse_column_value in quoted_at v [] tt
  value-append rest (quoted v) (at_blank s) =
      unfold parse_column_value in quoted_at v (b' ' ∷ s) (omega arith)
  value-append rest (literal c s h k) at_end =
      literal_at c s [] h (ap (until b' ') (append-nil (c ∷ s)) ∙ until-All b' ' (c ∷ s) k)
  value-append rest (literal c s h k) (at_blank t) =
      literal_at c s (b' ' ∷ t) h (until-append b' ' (c ∷ s) t k)

  column_text-append :
      (c : Column F) (rest : Bytes)
      → column_text c ++ rest ≡ c.name ++ b'[' ∷ (c.typ ++ b']' ∷ b':' ∷ (c.raw ++ rest))
  unfolding column_text
  column_text-append c rest = simp append_assoc

  parse_column-text :
      (c : Column F) (rest : Bytes)
      → IsColumn c
      → Ends rest
      → parse_column parse_float (column_text c ++ rest) ≡ ok (c, rest)
  unfolding parse_column column_body column_tail
  parse_column-text c rest k e =
      let tail : Bytes = c.typ ++ b']' ∷ b':' ∷ (c.raw ++ rest) in
      rw (
        column_text-append c rest,
        until-append b'[' c.name tail k.name_plain,
        until-append b']' c.typ (b':' ∷ (c.raw ++ rest)) k.typ_plain,
        value-append rest k.is_value e,
      )

  skip_blanks-text :
      (c : Column F) (rest : Bytes)
      → IsColumn c
      → (d : ℕ) × (t : Bytes) × (skip_blanks (column_text c ++ rest) ≡ d ∷ t)
        × (column_text c ++ rest ≡ d ∷ t)
  skip_blanks-text c rest k = starts c.name k.name_starts _ (column_text-append c rest)
    where
      starts :
          (name : Bytes)
          → StartsPlain name
          → (t : Bytes) → column_text c ++ rest ≡ name ++ b'[' ∷ t
          → (d : ℕ) × (u : Bytes) × (skip_blanks (column_text c ++ rest) ≡ d ∷ u)
            × (column_text c ++ rest ≡ d ∷ u)
      starts [] h t e = (b'[', t, ap skip_blanks e ∙ unfold skip_blanks in refl, e)
      starts (d ∷ name) h t e =
          (d, name ++ b'[' ∷ t, ap skip_blanks e ∙ unfold skip_blanks in ground arith, e)

  columns_loop_blank :
      (fuel : ℕ) (s : Bytes)
      → columns_loop parse_float fuel (b' ' ∷ s) ≡ columns_loop parse_float fuel s
  unfolding columns_loop skip_blanks
  columns_loop_blank zero s = refl
  columns_loop_blank (suc fuel) s = refl

  round-text :
      (fuel : ℕ) (c : Column F) (rest : Bytes) (cs : List (Column F))
      → IsColumn c
      → Ends rest
      → columns_loop parse_float fuel rest ≡ ok cs
      → columns_loop parse_float (suc fuel) (column_text c ++ rest) ≡ ok (c ∷ cs)
  round-text fuel c rest cs k e later =
      let (d, t, skipped, whole) = skip_blanks-text c rest k in
      columns_loop-round parse_float fuel d (column_text c ++ rest) t skipped
      ∙ ap (round parse_float fuel) (sym whole)
      ∙ rw (parse_column-text c rest k e, later)

  columns_loop-text :
      (fuel : ℕ) (cs : List (Column F))
      → All IsColumn cs
      → length cs < fuel
      → columns_loop parse_float fuel (columns_text cs) ≡ ok cs
  columns_loop-text zero cs h k = absurd (omega arith)
  columns_loop-text (suc fuel) [] h k =
      unfold columns_text in columns_loop_end parse_float fuel [] (unfold skip_blanks in refl)
  columns_loop-text (suc fuel) (c ∷ []) h k =
      let later = columns_loop-text fuel [] tt (omega arith) in
      ap (columns_loop parse_float (suc fuel)) (one c)
      ∙ round-text fuel c [] [] h.0 at_end (nothing later)
    where
      one : (c : Column F) → columns_text (c ∷ []) ≡ column_text c ++ []
      one c = unfold columns_text in sym (append-nil (column_text c))

      nothing :
          columns_loop parse_float fuel (columns_text {F = F} []) ≡ ok []
          → columns_loop parse_float fuel [] ≡ ok []
      nothing e = unfold columns_text in e
  columns_loop-text (suc fuel) (c ∷ d ∷ cs) h k =
      let later = columns_loop-text fuel (d ∷ cs) h.1 (omega arith) in
      ap (columns_loop parse_float (suc fuel)) (more c d cs)
      ∙ round-text fuel c (b' ' ∷ columns_text (d ∷ cs)) (d ∷ cs) h.0 (at_blank _)
          (columns_loop_blank fuel _ ∙ later)
    where
      more :
          (c d : Column F) (cs : List (Column F))
          → columns_text (c ∷ d ∷ cs) ≡ column_text c ++ b' ' ∷ columns_text (d ∷ cs)
      more c d cs = unfold columns_text in refl

  length-columns_text : (cs : List (Column F)) → length cs ≤ length (columns_text cs)
  unfolding columns_text
  length-columns_text [] = omega arith
  length-columns_text (c ∷ []) = omega (arith, length-column_text c)
  length-columns_text (c ∷ d ∷ cs) = omega (
    arith,
    length-column_text c,
    length-append (column_text c) (b' ' ∷ columns_text (d ∷ cs)),
    length-columns_text (d ∷ cs),
  )

  -- `parseColumns` reads back every list of columns written in the notation of test_decoding, with
  -- names, types and values as they were, where no name has an opening bracket or begins with a
  -- blank and no type has a closing bracket; quoted values may hold any bytes.
  pub parse_columns-text :
      (cs : List (Column F)) → All IsColumn cs → parse_columns parse_float (columns_text cs) ≡ ok cs
  unfolding parse_columns
  parse_columns-text cs h =
      columns_loop-text (suc (length (columns_text cs))) cs h
        (omega (arith, length-columns_text cs))

  -- A type with a closing bracket in it, as an array type has (`integer[]`), is refused, whatever
  -- the name without an opening bracket and the value are.
  pub parse_column_array :
      (name typ rest : Bytes)
      → All (λ d. d ≢ b'[') name
      → All (λ d. d ≢ b']') typ
      → parse_column parse_float (name ++ b'[' ∷ (typ ++ b']' ∷ b']' ∷ b':' ∷ rest))
        ≡ err invalid_line
  unfolding parse_column column_body column_tail
  parse_column_array name typ rest h k = rw (
    until-append b'[' name (typ ++ b']' ∷ b']' ∷ b':' ∷ rest) h,
    until-append b']' typ (b']' ∷ b':' ∷ rest) k,
  )
