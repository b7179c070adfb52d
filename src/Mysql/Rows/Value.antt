-- ===== src/Mysql/Rows/Value.antt =====
-- The column values of E_ROWS_EVENT.go: `ColumnValue` with its accessors, `decodeColumnValue` and
-- the functions that it calls. What math.Float32frombits, math.Float64frombits, time.Unix and
-- time.Date give is kept as the arguments of the call.
use go_dblog.Prelude.{
  ℕ, ◌+◌, ◌-◌, ◌*◌, ◌/◌, ◌%◌, ◌^◌, Bool, true, ◌&&◌, ◌||◌, Option, none, some, [], ◌∷◌, length,
  ◌==◌, ltb, leb, if◌then◌else◌,
}
use Prim.Native.Nat.{bit_and, bit_or, bit_xor}
use go_dblog.Prelude.Int.{ℤ, pos, negsuc}
use go_dblog.Prelude.Result.{ok, err, ◌>>=◌}
use go_dblog.Prelude.Text.{Bytes}
use go_dblog.Mysql.Bytes.{
  Decoded, unexpected_eof, unsupported_column, invalid_decimal, unsupported_enum_size, slice, uint,
  le, require_data,
}
use go_dblog.Mysql.Util.{fixed_length_int}
use go_dblog.Mysql.Column as C
use go_dblog.Mysql.Rows.Decimal.{decimal_binary_size, decode_decimal_string, big_endian_uint}

-- The dynamic types of `ColumnValue.Value`.
pub data Value : Type 0 where
  no_value : Value
  int64 : ℤ → Value
  uint64 : ℕ → Value
  uint32 : ℕ → Value
  int : ℕ → Value
  text : Bytes → Value
  float32_bits : ℕ → Value
  float64_bits : ℕ → Value
  unix_time : ℕ → Value
  date_time : (year month day hour minute second : ℕ) → Value

pub record ColumnValue : Type 0 where
  pub kind : ℕ
  pub meta : ℕ
  pub null : Bool
  pub skipped : Bool
  pub value : Value
  pub raw : Option Bytes

-- The number of `n` bytes as a signed one, in two's complement.
unfoldable pub signed : ℕ → ℕ → ℤ
signed n v = if ltb v (2 ^ (8 * n - 1)) then pos v else negsuc (2 ^ (8 * n) - 1 - v)

-- A number of `n` bytes, little-endian.
unfoldable pub read_number : ℕ → (ℕ → Value) → Bytes → ColumnValue → Decoded (ColumnValue × ℕ)
unfolding uint
read_number n make s value =
    if ltb (length s) n
    then err unexpected_eof
    else (do v ← uint n s 0; ok (record value { value = make v }, n))

-- A number of three bytes read by `FixedLengthInt`, as `uint32`.
unfoldable pub read_three : (ℕ → Value) → Bytes → ColumnValue → Decoded (ColumnValue × ℕ)
unfolding slice fixed_length_int
read_three make s value =
    if ltb (length s) 3
    then err unexpected_eof
    else (do bs ← slice s 0 3; ok (record value { value = make (fixed_length_int bs % 2 ^ 32) }, 3))

unfoldable pub decode_raw_fixed : Bytes → ColumnValue → ℕ → Decoded (ColumnValue × ℕ)
unfolding slice
decode_raw_fixed s value size =
    if ltb (length s) size
    then err unexpected_eof
    else (do bs ← slice s 0 size; ok (record value { raw = some bs }, size))

-- `length` bytes behind a length of `size` bytes.
unfoldable pub raw_behind : Bytes → ColumnValue → ℕ → ℕ → Decoded (ColumnValue × ℕ)
unfolding slice
raw_behind s value size n =
    if ltb (length s) (size + n)
    then err unexpected_eof
    else (do bs ← slice s size n; ok (record value { raw = some bs }, size + n))

unfoldable pub decode_string_raw : Bytes → ColumnValue → ℕ → Decoded (ColumnValue × ℕ)
unfolding raw_behind uint
decode_string_raw s value max_length =
    let size = (if ltb 255 max_length then 2 else 1) in
    if ltb (length s) size
    then err unexpected_eof
    else (do n ← uint size s 0; raw_behind s value size n)

unfoldable pub decode_length_prefixed_raw : Bytes → ColumnValue → ℕ → Decoded (ColumnValue × ℕ)
unfolding raw_behind slice fixed_length_int
decode_length_prefixed_raw s value size =
    if ltb size 1 || ltb 4 size || ltb (length s) size
    then err unexpected_eof
    else (do bs ← slice s 0 size; raw_behind s value size (fixed_length_int bs))

unfoldable pub decode_enum_value : Bytes → ColumnValue → ℕ → Decoded (ColumnValue × ℕ)
unfolding read_number
decode_enum_value s value size =
    if size == 1 || size == 2
    then read_number size uint64 s value
    else err (unsupported_enum_size size)

unfoldable pub blob_length_size : ℕ → ℕ → ℕ
blob_length_size tp meta =
    if tp == C.type_tiny_blob
    then 1
    else if tp == C.type_medium_blob
    then 3
    else if tp == C.type_long_blob
    then 4
    else meta

-- `dec+1` is in 16 bits.
unfoldable pub fractional_bytes : ℕ → ℕ
fractional_bytes dec = (dec + 1) % 2 ^ 16 / 2

unfoldable pub year_value : ℕ → Value
year_value year = int (if year == 0 then 0 else year + 1900)

unfoldable pub timestamp_value : ℕ → Value
timestamp_value sec = if sec == 0 then no_value else unix_time sec

unfoldable pub date_value : ℕ → Value
date_value v = if v == 0 then no_value else date_time (v / (16 * 32)) (v / 32 % 16) (v % 32) 0 0 0

unfoldable pub datetime_value : ℕ → Value
datetime_value v =
    let d = v / 1000000 in
    let t = v % 1000000 in
    if v == 0
    then no_value
    else date_time (d / 10000) (d % 10000 / 100) (d % 100) (t / 10000) (t % 10000 / 100) (t % 100)

-- The type that a STRING column really has, and the length that its metadata gives.
unfoldable pub real_type : ℕ → ℕ → ℕ × ℕ
real_type tp meta =
    let b0 = meta / 256 in
    let b1 = meta % 256 in
    if tp == C.type_string && leb 256 meta
    then (if bit_and b0 0x30 == 0x30
        then (b0, b1)
        else (bit_or b0 0x30, bit_or b1 (bit_xor (bit_and b0 0x30) 0x30 * 2 ^ 4)))
    else (tp, meta)

unfoldable pub decode_decimal : Bytes → ColumnValue → ℕ → Decoded (ColumnValue × ℕ)
unfolding decimal_binary_size decode_decimal_string require_data slice
decode_decimal s value meta = elim (decimal_binary_size meta) [
  | none ↦ err (invalid_decimal meta)
  | some size ↦ (do
    _ ← require_data s size
    bs ← slice s 0 size
    digits ← decode_decimal_string bs (meta / 256) (meta % 256)
    ok (record value { raw = some bs; value = text digits }, size))
]

unfoldable pub decode_bit : Bytes → ColumnValue → ℕ → Decoded (ColumnValue × ℕ)
unfolding require_data slice big_endian_uint
decode_bit s value meta = do
  let nbits = (meta / 256 * 8 + meta % 256) % 2 ^ 16
  let size = (nbits + 7) % 2 ^ 16 / 8
  _ ← require_data s size
  bs ← slice s 0 size
  ok (record value { raw = some bs; value = uint64 (big_endian_uint bs) }, size)

-- The types whose length depends on the metadata.
unfoldable pub decode_sized : ℕ → ℕ → Bytes → ColumnValue → Decoded (ColumnValue × ℕ)
unfolding decode_raw_fixed decode_decimal decode_bit decode_enum_value decode_length_prefixed_raw
    decode_string_raw blob_length_size fractional_bytes
decode_sized tp string_length s value =
    if tp == C.type_timestamp2
    then decode_raw_fixed s value (4 + fractional_bytes value.meta)
    else if tp == C.type_datetime2
    then decode_raw_fixed s value (5 + fractional_bytes value.meta)
    else if tp == C.type_time2
    then decode_raw_fixed s value (3 + fractional_bytes value.meta)
    else if tp == C.type_new_decimal
    then decode_decimal s value value.meta
    else if tp == C.type_bit
    then decode_bit s value value.meta
    else if tp == C.type_enum
    then decode_enum_value s value (value.meta % 256)
    else if tp == C.type_set
    then decode_raw_fixed s value (value.meta % 256)
    else if tp == C.type_blob
        || tp == C.type_tiny_blob
        || tp == C.type_medium_blob
        || tp == C.type_long_blob
        || tp == C.type_json
        || tp == C.type_geometry
    then decode_length_prefixed_raw s value (blob_length_size tp value.meta)
    else if tp == C.type_varchar || tp == C.type_var_string || tp == C.type_string
    then decode_string_raw s value string_length
    else err (unsupported_column tp)

-- The switch of `decodeColumnValue`, on the real type.
unfoldable pub decode_typed : ℕ → ℕ → Bytes → ColumnValue → Decoded (ColumnValue × ℕ)
unfolding decode_sized read_number read_three signed year_value timestamp_value date_value
    datetime_value
decode_typed tp string_length s value =
    if tp == C.type_null
    then ok (record value { null = true }, 0)
    else if tp == C.type_tiny
    then read_number 1 (λ v. int64 (signed 1 v)) s value
    else if tp == C.type_short
    then read_number 2 (λ v. int64 (signed 2 v)) s value
    else if tp == C.type_long
    then read_number 4 (λ v. int64 (signed 4 v)) s value
    else if tp == C.type_longlong
    then read_number 8 (λ v. int64 (signed 8 v)) s value
    else if tp == C.type_int24
    then read_number 3 (λ v. int64 (signed 3 v)) s value
    else if tp == C.type_year
    then read_number 1 year_value s value
    else if tp == C.type_float
    then read_number 4 float32_bits s value
    else if tp == C.type_double
    then read_number 8 float64_bits s value
    else if tp == C.type_timestamp
    then read_number 4 timestamp_value s value
    else if tp == C.type_date || tp == C.type_new_date
    then read_three date_value s value
    else if tp == C.type_datetime
    then read_number 8 datetime_value s value
    else if tp == C.type_time
    then read_three uint32 s value
    else decode_sized tp string_length s value

-- `decodeColumnValue`: the value as it is left, and the bytes read.
unfoldable pub decode_column_value : Bytes → ColumnValue → Decoded (ColumnValue × ℕ)
unfolding decode_typed real_type
decode_column_value s value =
    let r = real_type value.kind value.meta in decode_typed r.0 r.1 s value

-- `DecimalString`, `Bit`, `JSONBinary` and `Geometry`; none where the second result is false.
unfoldable pub decimal_string : ColumnValue → Option Bytes
decimal_string v = elim v.value [
  | text s ↦ if v.kind == C.type_new_decimal then some s else none
  | _ ↦ none
]

unfoldable pub bit : ColumnValue → Option ℕ
bit v = elim v.value [ uint64 n ↦ if v.kind == C.type_bit then some n else none | _ ↦ none ]

unfoldable pub json_binary : ColumnValue → Option Bytes
json_binary v = if v.kind == C.type_json then v.raw else none

unfoldable pub geometry : ColumnValue → Option (ℕ × Bytes)
unfolding le
geometry v = elim v.raw [
  | none ↦ none
  | some (a ∷ b ∷ c ∷ d ∷ wkb) ↦
      if v.kind == C.type_geometry then some (le (a ∷ b ∷ c ∷ d ∷ []), wkb) else none
  | some _ ↦ none
]
