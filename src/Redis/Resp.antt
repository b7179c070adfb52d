-- ===== src/Redis/Resp.antt =====
-- redis/decode/decoder/resp.go, and `send` of live.go, which writes what `parseCommand` reads.
pub mod Wire
pub mod Consume
pub mod Safe
use go_dblog.Prelude.{
  ℕ, zero, suc, ◌+◌, ◌*◌, Bool, true, false, ◌&&◌, Option, none, some, List, [], ◌∷◌, ◌++◌, length,
  take, drop, ltb, leb, ◌==◌, if◌then◌else◌, map,
}
use go_dblog.Prelude.Int.{ℤ, pos, negsuc}
use go_dblog.Prelude.Text.{Bytes, same, to_lower}
use go_dblog.Prelude.Decimal.{itoa, atoi}
use go_dblog.Redis.Reader.{
  Reader, Parser, Outcome, ok, err, panic, pure, valid, ◌>>=◌, read_line, read_full,
}
use go_dblog.Redis.Command.{Command}

abbrev pub max_array_elements : ℕ
max_array_elements = 8192

-- 8 << 20
abbrev pub max_bulk_bytes : ℕ
max_bulk_bytes = 8388608

-- A length within bounds.
abbrev bounded : ℕ → ℕ → Option ℤ → Option ℕ
bounded lo hi none = none
bounded lo hi (some (negsuc n)) = none
bounded lo hi (some (pos n)) = if leb lo n && leb n hi then some n else none

-- The number behind the prefix byte of a header line.
unfoldable pub header_length : ℕ → ℕ → ℕ → Bytes → Option ℕ
header_length prefix lo hi [] = none
header_length prefix lo hi (c ∷ s) = if c == prefix then bounded lo hi (atoi s) else none

-- The bytes before the terminator, which is checked.
unfoldable pub payload : ℕ → Bytes → Option Bytes
payload n block = if same (drop n block) (b'\r' ∷ b'\n' ∷ []) then some (take n block) else none

-- `readBulkString`
unfoldable pub read_bulk_string : Parser Bytes
unfolding header_length payload read_line read_full
read_bulk_string = do
  header ← read_line
  n ← valid (header_length b'$' 0 max_bulk_bytes header)
  block ← read_full (n + 2)
  valid (payload n block)

-- `for range count`
unfoldable pub read_parts : ℕ → Parser (List Bytes)
unfolding read_bulk_string
read_parts zero = pure []
read_parts (suc n) = do part ← read_bulk_string; parts ← read_parts n; pure (part ∷ parts)

-- The checks on `parts[0]`; an empty list would be an index out of range.
unfoldable pub command_of : List Bytes → Parser Command
command_of [] r = panic
command_of ([] ∷ args) r = valid none r
command_of ((c ∷ cs) ∷ args) r = ok (record { name = to_lower (c ∷ cs); args = args }) r

-- `parseCommand`; the raw bytes are those that the reader has noted.
unfoldable pub parse_command : Parser Command
unfolding header_length read_parts command_of read_line
parse_command = do
  line ← read_line
  count ← valid (header_length b'*' 1 max_array_elements line)
  parts ← read_parts count
  command_of parts

-- What `send` writes for one part, for all, and for the command.
unfoldable pub encode_part : Bytes → Bytes
encode_part p = b'$' ∷ (itoa (length p) ++ b'\r' ∷ b'\n' ∷ (p ++ b'\r' ∷ b'\n' ∷ []))

unfoldable pub encode_parts : List Bytes → Bytes
unfolding encode_part
encode_parts [] = []
encode_parts (p ∷ ps) = encode_part p ++ encode_parts ps

unfoldable pub encode_command : List Bytes → Bytes
unfolding encode_parts
encode_command ps = b'*' ∷ (itoa (length ps) ++ b'\r' ∷ b'\n' ∷ encode_parts ps)
