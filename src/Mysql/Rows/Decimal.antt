-- ===== src/Mysql/Rows/Decimal.antt =====
-- The packed decimals of E_ROWS_EVENT.go: `decimalBinarySize`, `decodeDecimalString`,
-- `readDecimalGroup` and `bigEndianUint`. strconv.FormatUint in base 10 is `itoa`; a negative count
-- of strings.Repeat is a panic.
use go_dblog.Prelude.{
  ℕ, zero, suc, ◌+◌, ◌-◌, ◌*◌, ◌/◌, ◌%◌, ◌^◌, Bool, true, not, Option, none, some, [], ◌∷◌, ◌++◌,
  length, get_or, ◌==◌, ltb, if◌then◌else◌,
}
use Prim.Native.Nat.{bit_xor}
use go_dblog.Prelude.Result.{ok, panic, ◌>>=◌}
use go_dblog.Prelude.Text.{Bytes}
use go_dblog.Prelude.Decimal.{itoa}
use go_dblog.Mysql.Bytes.{Decoded, byte_at}

-- `compressedBytes[i]`, for an `i` below 10.
unfoldable pub compressed_bytes : ℕ → ℕ
compressed_bytes i = get_or (0 ∷ 1 ∷ 1 ∷ 2 ∷ 2 ∷ 3 ∷ 3 ∷ 4 ∷ 4 ∷ 4 ∷ []) i 0

-- The bytes of `digits` digits: four for each nine, and those of the rest.
unfoldable pub digits_size : ℕ → ℕ
unfolding compressed_bytes
digits_size digits = digits / 9 * 4 + compressed_bytes (digits - digits / 9 * 9)

unfoldable pub decimal_binary_size : ℕ → Option ℕ
unfolding digits_size
decimal_binary_size meta =
    let precision = meta / 256 in
    let scale = meta % 256 in
    if ltb precision scale then none else some (digits_size (precision - scale) + digits_size scale)

-- `readDecimalGroup` from the number `n` on: `size` bytes at `pos`, each xor `mask`, in 32 bits.
unfoldable pub read_group : Bytes → ℕ → ℕ → ℕ → ℕ → Decoded ℕ
read_group s pos zero mask n = ok n
read_group s pos (suc size) mask n = do
  b ← byte_at s pos
  read_group s (pos + 1) size mask ((n * 256) % 2 ^ 32 + bit_xor b mask)

-- `strings.Repeat("0", width-len(s)) + s`
unfoldable pub zero_padded : ℕ → Bytes → Decoded Bytes
zero_padded width s = if ltb width (length s) then panic else ok (zeros (width - length s) ++ s)
  where
    zeros : ℕ → Bytes
    zeros zero = []
    zeros (suc n) = b'0' ∷ zeros n

-- The loop over the whole groups in front of the point; `wrote` is `wroteIntegral`.
unfoldable pub integral_groups : ℕ → Bytes → ℕ → ℕ → Bool → Decoded (Bytes × Bool)
unfolding read_group zero_padded itoa
integral_groups zero s pos mask wrote = ok ([], wrote)
integral_groups (suc k) s pos mask wrote = do
  n ← read_group s pos 4 mask 0
  head ← (if wrote then zero_padded 9 (itoa n) else ok (itoa n))
  r ← integral_groups k s (pos + 4) mask true
  ok (head ++ r.0, r.1)

-- The loop over the whole groups behind the point.
unfoldable pub fraction_groups : ℕ → Bytes → ℕ → ℕ → Decoded Bytes
unfolding read_group zero_padded itoa
fraction_groups zero s pos mask = ok []
fraction_groups (suc k) s pos mask = do
  n ← read_group s pos 4 mask 0
  head ← zero_padded 9 (itoa n)
  rest ← fraction_groups k s (pos + 4) mask
  ok (head ++ rest)

-- The last digits behind the point, `digits` of them.
unfoldable pub last_group : ℕ → Bytes → ℕ → ℕ → Decoded Bytes
unfolding compressed_bytes read_group zero_padded itoa
last_group digits s pos mask =
    if ltb 0 (compressed_bytes digits)
    then (do n ← read_group s pos (compressed_bytes digits) mask 0; zero_padded digits (itoa n))
    else ok []

-- The digits in front of the point.
unfoldable pub integral_text : ℕ → Bytes → ℕ → Decoded Bytes
unfolding compressed_bytes read_group integral_groups itoa
integral_text digits s mask = do
  let size = compressed_bytes (digits - digits / 9 * 9)
  n ← read_group s 0 size mask 0
  let wrote = not (n == 0)
  r ← integral_groups (digits / 9) s size mask wrote
  ok ((if wrote then itoa n else []) ++ r.0 ++ (if r.1 then [] else b'0' ∷ []))

-- The point and the digits behind it, from `pos`.
unfoldable pub fraction_text : ℕ → Bytes → ℕ → ℕ → Decoded Bytes
unfolding fraction_groups last_group
fraction_text scale s pos mask = do
  groups ← fraction_groups (scale / 9) s pos mask
  tail ← last_group (scale - scale / 9 * 9) s (pos + scale / 9 * 4) mask
  ok (b'.' ∷ groups ++ tail)

-- `decodeDecimalString`, with the first byte's top bit for the sign.
unfoldable pub decode_decimal_string : Bytes → ℕ → ℕ → Decoded Bytes
unfolding integral_text fraction_text digits_size
decode_decimal_string [] precision scale = panic
decode_decimal_string (b ∷ bs) precision scale = do
  let negative = ltb (b % 256) 128
  let mask = (if negative then 255 else 0)
  let s = bit_xor b 128 ∷ bs
  whole ← integral_text (precision - scale) s mask
  let sign = (if negative then b'-' ∷ [] else [])
  if scale == 0 then ok (sign ++ whole) else (do
    fraction ← fraction_text scale s (digits_size (precision - scale)) mask
    ok (sign ++ whole ++ fraction))

-- `bigEndianUint`, from the number `n` on, in 64 bits.
unfoldable pub big_endian_from : ℕ → Bytes → ℕ
big_endian_from n [] = n
big_endian_from n (b ∷ bs) = big_endian_from ((n * 256) % 2 ^ 64 + b) bs

unfoldable pub big_endian_uint : Bytes → ℕ
unfolding big_endian_from
big_endian_uint = big_endian_from 0
