-- ===== src/Prelude/Text.antt =====
-- Go strings and byte slices as lists of bytes, and what the source takes from `strings` and
-- `bytes`. `ToLower` and `TrimSpace` are modelled on ASCII text.
use Prim.Native.Char.{code}
use Prim.Native.String.{String}
use Prim.Native.Nat.{ℕ, ◌+◌}
use mathlib.Core.Path.{◌≡◌, refl}
use mathlib.Core.Logic.{◌↔◌, ◌≢◌}
use mathlib.Core.Bool.{Bool, true, false, ◌&&◌, ◌||◌}
use mathlib.Core.Option.{Option, none, some}
use mathlib.Core.List.{List, [], ◌∷◌, ◌++◌, map, reverse}
use native.Mathlib.Omega.{arith}
use go_dblog.Prelude.Tests.{leb, ◌==◌, if◌then◌else◌}

abbrev pub Bytes : Type 0
Bytes = List ℕ

-- The bytes of an ASCII literal.
abbrev pub codes : String → Bytes
codes String.[] = []
codes (String.◌∷◌ c s) = code c ∷ codes s

-- `a == b` on strings, `bytes.Equal` on slices.
unfoldable pub same : Bytes → Bytes → Bool
same [] [] = true
same (x ∷ xs) (y ∷ ys) = x == y && same xs ys
same _ _ = false

pub same_iff : (a b : Bytes) → (same a b ≡ true) ↔ (a ≡ b)
unfolding same
same_iff [] [] = ground arith
same_iff [] (y ∷ ys) = ground arith
same_iff (x ∷ xs) [] = ground arith
same_iff (x ∷ xs) (y ∷ ys) = ground (arith, same_iff xs ys)

pub same_refl : (a : Bytes) → same a a ≡ true
same_refl a = (same_iff a a).1 refl

pub ne→same : (a b : Bytes) → a ≢ b → same a b ≡ false
ne→same a b h = ground (arith, same_iff a b)

-- `s == ""`
abbrev pub is_empty : Bytes → Bool
is_empty [] = true
is_empty (c ∷ cs) = false

-- `strings.HasPrefix(s, p)`
unfoldable pub has_prefix : Bytes → Bytes → Bool
has_prefix s [] = true
has_prefix [] (c ∷ p) = false
has_prefix (d ∷ s) (c ∷ p) = d == c && has_prefix s p

pub has_prefix-append : (p s : Bytes) → has_prefix (p ++ s) p ≡ true
unfolding has_prefix
has_prefix-append [] s = refl
has_prefix-append (c ∷ p) s = ground (arith, has_prefix-append p s)

-- `strings.CutPrefix`: what is behind the prefix.
unfoldable pub cut_prefix : Bytes → Bytes → Option Bytes
cut_prefix s [] = some s
cut_prefix [] (c ∷ p) = none
cut_prefix (d ∷ s) (c ∷ p) = if d == c then cut_prefix s p else none

-- `strings.TrimPrefix`
unfoldable pub trim_prefix : Bytes → Bytes → Bytes
unfolding cut_prefix
trim_prefix s p = elim (cut_prefix s p) [ none ↦ s | some r ↦ r ]

-- An ASCII white space.
abbrev pub is_space : ℕ → Bool
is_space c = c == 32 || (leb 9 c && leb c 13)

unfoldable pub trim_left : Bytes → Bytes
trim_left [] = []
trim_left (c ∷ s) = if is_space c then trim_left s else c ∷ s

-- `strings.TrimSpace`
unfoldable pub trim_space : Bytes → Bytes
unfolding trim_left
trim_space s = reverse (trim_left (reverse (trim_left s)))

unfoldable pub lower : ℕ → ℕ
lower c = if leb 65 c && leb c 90 then c + 32 else c

-- `strings.ToLower`
abbrev pub to_lower : Bytes → Bytes
to_lower = map lower

-- `strings.Index(s, p)`, as the text before the first place of `p` and the text behind it.
unfoldable pub cut : Bytes → Bytes → Option (Bytes × Bytes)
unfolding cut_prefix
cut [] p = elim (cut_prefix [] p) [ none ↦ none | some r ↦ some ([], r) ]
cut (c ∷ s) p =
    let rest = cut s p in
    elim (cut_prefix (c ∷ s) p) [
      | some r ↦ some ([], r)
      | none ↦ elim rest [ none ↦ none | some (a, b) ↦ some (c ∷ a, b) ]
    ]

-- `strings.ReplaceAll(s, q, qq)` for a single byte `q`: every `q` doubled.
unfoldable pub double : ℕ → Bytes → Bytes
double q [] = []
double q (c ∷ s) = if c == q then q ∷ q ∷ double q s else c ∷ double q s

-- `strings.Join(parts, sep)`
unfoldable pub join : List Bytes → Bytes → Bytes
join [] sep = []
join (p ∷ []) sep = p
join (p ∷ q ∷ ps) sep = p ++ (sep ++ join (q ∷ ps) sep)
