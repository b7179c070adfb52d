-- ===== src/Mysql/Util.antt =====
-- mysql/common/util.go and `ChecksumValidate` of checksum.go; `ValidateData` of
-- mysql/decode/events/event.go. The IEEE CRC-32 of hash/crc32 is the parameter `crc32`.
pub mod LengthEncoded
pub mod Checksum
use go_dblog.Prelude.{
  ℕ, zero, suc, ◌+◌, ◌-◌, ◌*◌, ◌/◌, ◌%◌, ◌^◌, Bool, true, false, not, Option, none, some, List, [],
  ◌∷◌, ◌++◌, length, take, drop, ◌==◌, ltb, leb, if◌then◌else◌,
}
use go_dblog.Prelude.Result.{Result, ok, err, panic, ◌>>=◌}
use go_dblog.Prelude.Text.{Bytes, same}
use go_dblog.Mysql.Bytes.{
  EventError, empty_header, wrong_event_size, shorter_than_checksum, checksum_failed, eof, Decoded,
  uint, put_le,
}
use go_dblog.Mysql.Header.{EventHeader}

-- The loop of `FixedLengthInt`, from place `i`. The bytes are below 256, so what is shifted does not
-- overlap what is there: or is addition, modulo 2^64.
unfoldable pub fixed_from : ℕ → ℕ → Bytes → ℕ
fixed_from i num [] = num
fixed_from i num (b ∷ bs) = fixed_from (i + 1) ((num + b * 256 ^ i) % 2 ^ 64) bs

unfoldable pub fixed_length_int : Bytes → ℕ
unfolding fixed_from
fixed_length_int = fixed_from 0 0

-- `LengthEncodedInt`: the number, whether it is NULL, and the bytes that it takes.
unfoldable pub length_encoded_int : Bytes → Decoded (ℕ × Bool × ℕ)
unfolding uint
length_encoded_int [] = panic
length_encoded_int (b ∷ bs) =
    if b == 251
    then ok (0, true, 1)
    else if b == 252
    then (do num ← uint 2 (b ∷ bs) 1; ok (num, false, 3))
    else if b == 253
    then (do num ← uint 3 (b ∷ bs) 1; ok (num, false, 4))
    else if b == 254
    then (do num ← uint 8 (b ∷ bs) 1; ok (num, false, 9))
    else ok (b, false, 1)

-- Behind the length. Where `n + num` leaves `int`, the bounds of the slice are out of order.
unfoldable pub length_encoded_body : Bytes → ℕ × Bool × ℕ → Decoded (Bytes × Bool × ℕ)
length_encoded_body bs (num, is_null, n) =
    if ltb num 1
    then ok ([], is_null, n)
    else if leb (2 ^ 63) (n + num)
    then panic
    else if leb (n + num) (length bs)
    then ok (take num (drop n bs), false, n + num)
    else err eof

-- `LengthEnodedString`
unfoldable pub length_encoded_string : Bytes → Decoded (Bytes × Bool × ℕ)
unfolding length_encoded_int length_encoded_body
length_encoded_string bs = do r ← length_encoded_int bs; length_encoded_body bs r

unfoldable pub bitmap_byte_size : ℕ → ℕ
bitmap_byte_size column_count = (column_count + 7) / 8

-- BINLOG_CHECKSUM_ALG_CRC32 and the length of a checksum.
abbrev pub checksum_crc32 : ℕ
checksum_crc32 = 1

abbrev pub checksum_length : ℕ
checksum_length = 4

-- `Event` without its body.
pub record EventFrame : Type 0 where
  pub header : Option EventHeader
  pub checksum_type : ℕ
  pub checksum_val : Bytes

module _ (crc32 : Bytes → ℕ) where
  -- `crc32Validate`
  unfoldable pub crc32_validate : Bytes → Bytes → Bool
  unfolding put_le
  crc32_validate expected s = same expected (put_le checksum_length (crc32 s))

  unfoldable pub checksum_validate : ℕ → Bytes → Bytes → Bool
  unfolding crc32_validate
  checksum_validate typ expected s =
      if typ == checksum_crc32 then crc32_validate expected s else true

  -- The part of `ValidateData` under `if hasChecksum`.
  unfoldable pub strip_checksum :
      EventFrame → EventHeader → Bytes → EventFrame × Bytes × Option EventError
  unfolding checksum_validate
  strip_checksum event h body =
      let start = length body - checksum_length in
      let event' = record event {
        checksum_type = checksum_crc32;
        checksum_val = drop start body;
      } in
      if ltb (length body) checksum_length
      then (event, body, some shorter_than_checksum)
      else if not (checksum_validate checksum_crc32 (drop start body) (h.base ++ take start body))
      then (event', body, some checksum_failed)
      else (event', take start body, none)

  -- `ValidateData`: the event as it is left, the body and the error.
  unfoldable pub validate_data : EventFrame → Bytes → Bool → EventFrame × Bytes × Option EventError
  unfolding strip_checksum
  validate_data event body has_checksum = elim event.header [
    | none ↦ (event, body, some empty_header)
    | some h ↦
        let l = length body + length h.base in
        if not (l == h.event_size)
        then (event, body, some (wrong_event_size l h.event_size))
        else if has_checksum
        then strip_checksum event h body
        else (event, body, none)
  ]
