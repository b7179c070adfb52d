-- ===== src/Redis/Reader.antt =====
-- The `bufio.Reader` and the `raw` buffer that redis/decode/decoder/resp.go passes along: the
-- bytes still to be read, and those noted in `raw`. The underlying reader ends with io.EOF.
use go_dblog.Prelude.{
  ◌≡◌, refl, ℕ, zero, suc, Option, none, some, [], ◌∷◌, ◌++◌, if◌then◌else◌, ◌==◌,
}
use go_dblog.Prelude.Text.{Bytes}

pub record Reader : Type 0 where
  pub input : Bytes
  pub raw : Bytes

-- `io.EOF`, `ErrInvalidRESP`, and the error of a plugin, by the plugin's name.
pub data Error : Type 0 where
  eof : Error
  invalid_resp : Error
  plugin_failed : Bytes → Error

-- What a parsing function leaves behind, whatever its result.
pub data Outcome (A : Type 0) : Type 0 where
  ok : A → Reader → Outcome A
  err : Error → Reader → Outcome A
  panic : Outcome A

abbrev pub Parser : Type 0 → Type 0
Parser A = Reader → Outcome A

abbrev pub and_then : {A B : Type 0} → Outcome A → (A → Parser B) → Outcome B
and_then (ok a r) f = f a r
and_then (err e r) f = err e r
and_then panic f = panic

infixl 5 ◌>>=◌
abbrev pub ◌>>=◌ : {A B : Type 0} → Parser A → (A → Parser B) → Parser B
◌>>=◌ m f r = and_then (m r) f

-- Inversion of a successful step.
pub and_then-eq-ok :
    {A B : Type 0} (o : Outcome A) (f : A → Parser B) {b : B} {t : Reader}
    → and_then o f ≡ ok b t
    → (a : A) × (s : Reader) × (o ≡ ok a s) × (f a s ≡ ok b t)
and_then-eq-ok (ok a s) f h = (a, s, refl, h)
and_then-eq-ok (err e s) f h = cc
and_then-eq-ok panic f h = cc

abbrev pub pure : {A : Type 0} → A → Parser A
pure a r = ok a r

-- A value, or `ErrInvalidRESP`.
abbrev pub valid : {A : Type 0} → Option A → Parser A
valid none r = err invalid_resp r
valid (some a) r = ok a r

-- The text before the first LF, and the text behind it.
unfoldable pub split_line : Bytes → Option (Bytes × Bytes)
split_line [] = none
split_line (c ∷ s) =
    let rest = split_line s in
    if c == b'\n' then some ([], s) else elim rest [ none ↦ none | some (l, t) ↦ some (c ∷ l, t) ]

-- The text before a CR at the end.
unfoldable pub strip_cr : Bytes → Option Bytes
strip_cr [] = none
strip_cr (c ∷ []) = if c == b'\r' then some [] else none
strip_cr (c ∷ d ∷ s) = elim (strip_cr (d ∷ s)) [ none ↦ none | some t ↦ some (c ∷ t) ]

-- The first `n` bytes and the rest, if there are as many.
unfoldable pub split_at : ℕ → Bytes → Option (Bytes × Bytes)
split_at zero s = some ([], s)
split_at (suc n) [] = none
split_at (suc n) (c ∷ s) = elim (split_at n s) [ none ↦ none | some (a, b) ↦ some (c ∷ a, b) ]

-- `readLine`. A line that the input does not end is not noted in `raw`.
unfoldable pub read_line : Parser Bytes
unfolding split_line strip_cr
read_line r = elim (split_line r.input) [
  | none ↦ err eof (record r { input = [] })
  | some (l, rest) ↦ valid (strip_cr l) (record { input = rest; raw = r.raw ++ (l ++ b'\n' ∷ []) })
]

-- `io.ReadFull` of `n` bytes, noted in `raw`; its error is answered with `ErrInvalidRESP`.
unfoldable pub read_full : ℕ → Parser Bytes
unfolding split_at
read_full n r = elim (split_at n r.input) [
  | none ↦ err invalid_resp (record r { input = [] })
  | some (a, rest) ↦ ok a (record { input = rest; raw = r.raw ++ a })
]
