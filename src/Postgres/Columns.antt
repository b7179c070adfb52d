-- ===== src/Postgres/Columns.antt =====
-- postgres/decode/decoder/parser.go: the columns of a change. A position in the source's string
-- is the suffix that begins there, so that no index is out of range; `panic` stands for fuel that
-- has run out.
pub mod Quote
pub mod Fuel
pub mod RoundTrip
use go_dblog.Prelude.{
  ℕ, zero, suc, Bool, true, false, Option, none, some, List, [], ◌∷◌, ◌++◌, ◌==◌, if◌then◌else◌,
  length,
}
use go_dblog.Prelude.Int.{ℤ}
use go_dblog.Prelude.Text.{Bytes, codes, same}
use go_dblog.Prelude.Decimal.{atoi}
use go_dblog.Prelude.Result.{Result, ok, err, panic, ◌>>=◌, or_err}
use go_dblog.Postgres.Types.{Value, null, boolean, integer, float, text, Column}

-- `ErrInvalidLine`, and that joined with `io.ErrUnexpectedEOF`; a plugin's error, by its name.
pub data LineError : Type 0 where
  invalid_line : LineError
  unexpected_eof : LineError
  plugin_failed : Bytes → LineError

-- The bytes in front of the first `b`, and the suffix that begins there.
unfoldable pub until : ℕ → Bytes → Bytes × Bytes
until b [] = ([], [])
until b (c ∷ s) = let (t, r) = until b s in if c == b then ([], c ∷ s) else (c ∷ t, r)

pub record Quoted : Type 0 where
  pub raw : Bytes
  pub value : Bytes
  pub rest : Bytes

abbrev keep : Bytes → ℕ → Option Quoted → Option Quoted
keep raw c none = none
keep raw c (some q) = some (record { raw = raw ++ q.raw; value = c ∷ q.value; rest = q.rest })

-- The loop of `parseQuotedValue`, behind the opening quote.
unfoldable pub scan_quoted : Bytes → Option Quoted
scan_quoted [] = none
scan_quoted (c ∷ []) =
    if c == b'\'' then some (record { raw = c ∷ []; value = []; rest = [] }) else none
scan_quoted (c ∷ d ∷ s) =
    let doubled = keep (c ∷ d ∷ []) b'\'' (scan_quoted s) in
    let plain = keep (c ∷ []) c (scan_quoted (d ∷ s)) in
    if c == b'\''
    then if d == b'\'' then doubled else some (record { raw = c ∷ []; value = []; rest = d ∷ s })
    else plain

-- The blanks in front of a column.
unfoldable pub skip_blanks : Bytes → Bytes
skip_blanks [] = []
skip_blanks (c ∷ s) = if c == b' ' then skip_blanks s else c ∷ s

-- `strconv.ParseFloat` of 64 bits is `parse_float`; the module's parameters are it and its floats.
module _ {F : Type 0} (parse_float : Bytes → Option F) where
  abbrev float_or_text : Bytes → Option F → Value F
  float_or_text raw none = text raw
  float_or_text raw (some f) = float f

  abbrev number_or_text : Bytes → Option ℤ → Value F
  number_or_text raw none = float_or_text raw (parse_float raw)
  number_or_text raw (some n) = integer n

  unfoldable pub parse_scalar : Bytes → Value F
  parse_scalar raw =
      if same raw (codes "null")
      then null
      else if same raw (codes "true")
      then boolean true
      else if same raw (codes "false")
      then boolean false
      else number_or_text raw (atoi raw)

  quoted_value : ℕ → Option Quoted → Result LineError (Bytes × Value F × Bytes)
  quoted_value quote none = err unexpected_eof
  quoted_value quote (some q) = ok (quote ∷ q.raw, text q.value, q.rest)

  -- `parseQuotedValue` at the opening quote.
  unfoldable pub parse_quoted_value : ℕ → Bytes → Result LineError (Bytes × Value F × Bytes)
  unfolding scan_quoted quoted_value
  parse_quoted_value quote s = quoted_value quote (scan_quoted s)

  unquoted_value : Bytes × Bytes → Result LineError (Bytes × Value F × Bytes)
  unfolding parse_scalar
  unquoted_value (raw, rest) = ok (raw, parse_scalar raw, rest)

  unfoldable pub parse_column_value : Bytes → Result LineError (Bytes × Value F × Bytes)
  unfolding parse_quoted_value unquoted_value until
  parse_column_value [] = unquoted_value ([], [])
  parse_column_value (c ∷ s) =
      if c == b'\'' then parse_quoted_value c s else unquoted_value (until b' ' (c ∷ s))

  -- Behind the type's closing bracket: a colon and the value.
  column_tail : Bytes → Bytes → Bytes → Result LineError (Column F × Bytes)
  unfolding parse_column_value
  column_tail name typ [] = err invalid_line
  column_tail name typ (bracket ∷ []) = err invalid_line
  column_tail name typ (bracket ∷ c ∷ s) =
      if c == b':'
      then (do
        (raw, value, rest) ← parse_column_value s
        ok (record { name = name; typ = typ; value = value; raw = raw }, rest))
      else err invalid_line

  -- Behind the name: the opening bracket.
  column_body : Bytes → Bytes → Result LineError (Column F × Bytes)
  unfolding column_tail until
  column_body name [] = err invalid_line
  column_body name (bracket ∷ s) = let (typ, r) = until b']' s in column_tail name typ r

  unfoldable pub parse_column : Bytes → Result LineError (Column F × Bytes)
  unfolding column_body until
  parse_column s = let (name, r) = until b'[' s in column_body name r

  -- The loop of `parseColumns`. Each column takes a byte at least; `panic` is no outcome of Go here,
  -- it stands for fuel that ran out.
  unfoldable pub columns_loop : ℕ → Bytes → Result LineError (List (Column F))
  unfolding skip_blanks parse_column
  columns_loop zero s = panic
  columns_loop (suc fuel) s = elim (skip_blanks s) [
    | [] ↦ ok []
    | c ∷ t ↦ do
      (column, rest) ← parse_column (c ∷ t)
      columns ← columns_loop fuel rest
      ok (column ∷ columns)
  ]

  unfoldable pub parse_columns : Bytes → Result LineError (List (Column F))
  unfolding columns_loop
  parse_columns s = columns_loop (suc (length s)) s
