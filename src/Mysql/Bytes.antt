-- ===== src/Mysql/Bytes.antt =====
-- Reads at a position of a byte slice, as the decoders under mysql/decode make them. A read past
-- the length is a panic; Go allows a slice bound up to the capacity, so it panics on fewer inputs.
pub mod Safe
pub mod At
pub mod Post
use go_dblog.Prelude.{
  ℕ, zero, suc, ◌+◌, ◌-◌, ◌*◌, ◌/◌, ◌%◌, ◌^◌, ◌≤◌, ◌<◌, ◌≡◌, ◌≢◌, refl, ap, ◌∙◌, Bool, true, false,
  Option, none, some, List, [], ◌∷◌, ◌++◌, length, take, drop, get_elem?, leb, if◌then◌else◌, arith,
}
use go_dblog.Prelude.Result.{Result, ok, err, panic, ◌>>=◌, must, guard}
use go_dblog.Prelude.Text as T

-- The errors of mysql/decode, with the numbers in their texts, and io.EOF.
pub data EventError : Type 0 where
  too_short : ℕ → ℕ → EventError
  invalid_header_size : ℕ → EventError
  short_header : ℕ → ℕ → EventError
  empty_header : EventError
  wrong_event_size : ℕ → ℕ → EventError
  shorter_than_checksum : EventError
  checksum_failed : EventError
  eof : EventError
  unknown_event_type : ℕ → EventError
  unterminated_db_name : EventError
  inflate_failed : EventError
  unexpected_eof : EventError
  no_description : EventError
  no_event_type : EventError
  unsupported_column : ℕ → EventError
  invalid_decimal : ℕ → EventError
  unsupported_enum_size : ℕ → EventError
  fewer_columns : ℕ → ℕ → EventError
  no_progress : EventError

abbrev pub Decoded : Type 0 → Type 0
Decoded A = Result EventError A

-- The number whose little-endian digits of base 256 these are.
unfoldable pub le : T.Bytes → ℕ
le [] = 0
le (b ∷ bs) = b + 256 * le bs

-- `binary.LittleEndian.PutUintN` for N = 8 n.
unfoldable pub put_le : ℕ → ℕ → T.Bytes
put_le zero v = []
put_le (suc n) v = (v % 256) ∷ put_le n (v / 256)

-- `data[i]`
abbrev pub byte_at : T.Bytes → ℕ → Decoded ℕ
byte_at xs i = must (get_elem? xs i)

-- `data[i:]`
unfoldable pub from : T.Bytes → ℕ → Decoded T.Bytes
from xs i = if leb i (length xs) then ok (drop i xs) else panic

-- `data[i : i+n]`
unfoldable pub slice : T.Bytes → ℕ → ℕ → Decoded T.Bytes
slice xs i n = if leb (i + n) (length xs) then ok (take n (drop i xs)) else panic

-- `binary.LittleEndian.UintN(data[i:])` for N = 8 n.
unfoldable pub uint : ℕ → T.Bytes → ℕ → Decoded ℕ
unfolding slice le
uint n xs i = do bs ← slice xs i n; ok (le bs)

-- `requireData`
unfoldable pub require_data : T.Bytes → ℕ → Decoded (Unit {0})
require_data xs n = guard (leb n (length xs)) (too_short (length xs) n)

-- `requireData(data[i:], n)`
unfoldable pub require_from : T.Bytes → ℕ → ℕ → Decoded (Unit {0})
unfolding require_data from
require_from xs i n = do rest ← from xs i; require_data rest n

-- `strings.TrimRight(s, "\x00")`
unfoldable pub trim_nul_string : T.Bytes → T.Bytes
trim_nul_string [] = []
trim_nul_string (c ∷ s) = elim (trim_nul_string s) [
  | [] ↦ if leb 1 c then c ∷ [] else []
  | d ∷ t ↦ c ∷ d ∷ t
]
