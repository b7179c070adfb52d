-- ===== src/Mysql/Header.antt =====
-- mysql/decode/events/event_header.go. `base` is the field `Data`; a size is not negative.
pub mod RoundTrip
use go_dblog.Prelude.{
  ℕ, zero, suc, Bool, true, false, not, ◌&&◌, List, [], ◌∷◌, length, ◌==◌, ltb, if◌then◌else◌,
}
use go_dblog.Prelude.Result.{Result, ok, err, panic, ◌>>=◌}
use go_dblog.Prelude.Text.{Bytes}
use go_dblog.Mysql.Bytes.{EventError, invalid_header_size, short_header, Decoded, byte_at, uint}

pub record EventHeader : Type 0 where
  pub timestamp : ℕ
  pub event_type : ℕ
  pub server_id : ℕ
  pub event_size : ℕ
  pub log_pos : ℕ
  pub flag : ℕ
  pub base : Bytes

abbrev pub min_event_header_size : ℕ
min_event_header_size = 13

abbrev pub default_event_header_size : ℕ
default_event_header_size = 19

-- The fields of version 2 and later.
unfoldable pub header_tail : Bytes → ℕ → Decoded (ℕ × ℕ)
unfolding uint
header_tail s size =
    if ltb 13 size
    then (do log_pos ← uint 4 s 13; flag ← uint 2 s 17; ok (log_pos, flag))
    else ok (0, 0)

-- Behind the two checks on the size.
unfoldable pub header_fields : Bytes → ℕ → Decoded EventHeader
unfolding uint header_tail
header_fields s size = do
  timestamp ← uint 4 s 0
  event_type ← byte_at s 4
  server_id ← uint 4 s 5
  event_size ← uint 4 s 9
  (log_pos, flag) ← header_tail s size
  ok (record {
    timestamp = timestamp;
    event_type = event_type;
    server_id = server_id;
    event_size = event_size;
    log_pos = log_pos;
    flag = flag;
    base = s;
  })

unfoldable pub decode_event_header : Bytes → ℕ → Decoded EventHeader
unfolding header_fields
decode_event_header s size =
    if not (size == min_event_header_size) && ltb size default_event_header_size
    then err (invalid_header_size size)
    else if ltb (length s) size
    then err (short_header (length s) size)
    else header_fields s size
