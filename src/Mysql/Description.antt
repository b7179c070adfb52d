-- ===== src/Mysql/Description.antt =====
-- E_FORMAT_DESCRIPTION_EVENT.go, and `MysqlVersion` with `HasChecksum` of mysql/common/checksum.go.
-- An `int` is its 64 bits. The third part of a version is ASCII text.
use go_dblog.Prelude.{
  ℕ, ◌+◌, ◌-◌, ◌*◌, ◌%◌, ◌^◌, Bool, ◌&&◌, none, some, List, [], ◌∷◌, ltb, leb, ◌==◌, if◌then◌else◌,
}
use go_dblog.Prelude.Result.{ok, panic, ◌>>=◌}
use go_dblog.Prelude.Text.{Bytes}
use go_dblog.Prelude.Decimal.{digits_value, is_digit}
use go_dblog.Mysql.Bytes.{Decoded, byte_at, from, slice, uint, trim_nul_string}

pub record FmtDescEvent : Type 0 where
  pub binlog_version : ℕ
  pub mysql_version_text : Bytes
  pub create_time : ℕ
  pub event_header_length : ℕ
  pub event_type_header : Bytes
  pub has_check_sum : Bool

-- `strings.Split(s, ".")`: the first part, and the others.
unfoldable pub split_dots : Bytes → Bytes × List Bytes
split_dots [] = ([], [])
split_dots (c ∷ s) = let r = split_dots s in if c == b'.' then ([], r.0 ∷ r.1) else (c ∷ r.0, r.1)

-- The first result of `strconv.Atoi`, whatever the second is: 0 where the text is no number, the
-- nearest `int` where the number is none.
unfoldable pub digits_or_zero : ℕ → Bytes → ℕ
unfolding digits_value
digits_or_zero limit [] = 0
digits_or_zero limit (c ∷ s) = elim (digits_value 0 (c ∷ s)) [
  | none ↦ 0
  | some n ↦ if ltb limit n then limit else n
]

unfoldable pub int_of : Bytes → ℕ
unfolding digits_or_zero
int_of [] = 0
int_of (c ∷ s) =
    if c == b'-'
    then (2 ^ 64 - digits_or_zero (2 ^ 63) s) % 2 ^ 64
    else if c == b'+'
    then digits_or_zero (2 ^ 63 - 1) s
    else digits_or_zero (2 ^ 63 - 1) (c ∷ s)

unfoldable pub leading_digits : Bytes → Bytes
leading_digits [] = []
leading_digits (c ∷ s) = if is_digit c then c ∷ leading_digits s else []

-- `MysqlVersion`; `split[1]` panics where there is no dot.
unfoldable pub mysql_version : Bytes → Decoded ℕ
unfolding split_dots int_of leading_digits
mysql_version s =
    let (f, parts) = split_dots s in
    elim parts [
      | [] ↦ panic
      | m ∷ [] ↦ ok ((int_of f * 2 ^ 20 + int_of m * 2 ^ 10) % 2 ^ 64)
      | m ∷ (t ∷ _) ↦
          ok ((int_of f * 2 ^ 20 + int_of m * 2 ^ 10 + int_of (leading_digits t)) % 2 ^ 64)
    ]

abbrev pub mysql_checksum_version : ℕ
mysql_checksum_version = 5 * 2 ^ 20 + 6 * 2 ^ 10 + 2

-- `HasChecksum`; a negative version is less.
unfoldable pub has_checksum : Bytes → Decoded Bool
unfolding mysql_version
has_checksum s = do
  version ← mysql_version s
  ok (ltb version (2 ^ 63) && leb mysql_checksum_version version)

unfoldable pub trim_left_nul : Bytes → Bytes
trim_left_nul [] = []
trim_left_nul (c ∷ s) = if c == 0 then trim_left_nul s else c ∷ s

-- `Decode`
unfoldable pub decode_format_description : Bytes → Decoded FmtDescEvent
unfolding uint slice has_checksum trim_left_nul trim_nul_string from
decode_format_description s = do
  binlog_version ← uint 2 s 0
  padded ← slice s 2 50
  let version = trim_nul_string (trim_left_nul padded)
  checksum ← has_checksum version
  create_time ← uint 4 s 52
  header_length ← byte_at s 56
  type_header ← from s 57
  ok (record {
    binlog_version = binlog_version;
    mysql_version_text = version;
    create_time = create_time;
    event_header_length = header_length;
    event_type_header = type_header;
    has_check_sum = checksum;
  })
