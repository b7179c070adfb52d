-- ===== src/Postgres/Columns/Quote.antt =====
-- Quoted values: what doubles the quotes of a text is read back.
use go_dblog.Prelude.{ℕ, ◌≡◌, ◌≢◌, refl, some, [], ◌∷◌, ◌++◌, ◌==◌, arith, Bool-cases, inl, inr}
use go_dblog.Prelude.Text.{Bytes, double}
use go_dblog.Postgres.Columns.{scan_quoted, keep}

-- What follows a closing quote is no quote.
abbrev pub NoQuote : Bytes → Type 0
NoQuote [] = Unit {0}
NoQuote (c ∷ s) = c ≢ b'\''

scan_plain : (c : ℕ) (t : Bytes) → c ≢ b'\'' → scan_quoted (c ∷ t) ≡ keep (c ∷ []) c (scan_quoted t)
unfolding scan_quoted
scan_plain c [] h = ground arith
scan_plain c (d ∷ s) h = ground arith

scan_doubled :
    (t : Bytes) → scan_quoted (b'\'' ∷ b'\'' ∷ t) ≡ keep (b'\'' ∷ b'\'' ∷ []) b'\'' (scan_quoted t)
unfolding scan_quoted
scan_doubled t = refl

scan_end :
    (rest : Bytes)
    → NoQuote rest
    → scan_quoted (b'\'' ∷ rest) ≡ some (record { raw = b'\'' ∷ []; value = []; rest = rest })
unfolding scan_quoted
scan_end [] h = refl
scan_end (d ∷ s) h = ground arith

-- A text with its quotes doubled, and a quote behind it, is read back as the text; the raw text is
-- all of that, and the rest is what follows.
pub scan_quoted-double :
    (v rest : Bytes)
    → NoQuote rest
    → scan_quoted (double b'\'' v ++ b'\'' ∷ rest)
      ≡ some (record { raw = double b'\'' v ++ b'\'' ∷ []; value = v; rest = rest })
unfolding double
scan_quoted-double [] rest h = scan_end rest h
scan_quoted-double (c ∷ v) rest h = elim (Bool-cases (c == b'\'')) [
  | inl quote ↦
      ground (arith, scan_doubled (double b'\'' v ++ b'\'' ∷ rest), scan_quoted-double v rest h)
  | inr other ↦
      ground (arith, scan_plain c (double b'\'' v ++ b'\'' ∷ rest), scan_quoted-double v rest h)
]
