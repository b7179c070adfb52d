-- ===== src/Mysql/Gtid.antt =====
-- The GTID event of mysql/decode/events/types/E_MISC_EVENTS.go. The numbers of a signed type are
-- their 64 bits; hex.EncodeToString is `hex_text`.
use go_dblog.Prelude.{
  ℕ, ◌+◌, ◌-◌, ◌/◌, ◌%◌, ◌^◌, [], ◌∷◌, ◌++◌, length, take, drop, ◌==◌, ltb, leb, if◌then◌else◌,
}
use go_dblog.Prelude.Result.{ok, ◌>>=◌}
use go_dblog.Prelude.Text.{Bytes}
use go_dblog.Mysql.Bytes.{Decoded, byte_at, from, slice, uint, require_data, require_from}
use go_dblog.Mysql.Util.{fixed_length_int, length_encoded_int}

pub record GtidLogEvent : Type 0 where
  pub event_type : ℕ
  pub commit_flag : ℕ
  pub sid : Bytes
  pub gno : ℕ
  pub last_committed : ℕ
  pub sequence_number : ℕ
  pub immediate_commit_timestamp : ℕ
  pub original_commit_timestamp : ℕ
  pub transaction_length : ℕ
  pub immediate_server_version : ℕ
  pub original_server_version : ℕ
  pub tagged_payload : Bytes

-- The commit timestamps at `pos`: the top bit of the 56 says whether the original one follows.
unfoldable pub commit_timestamps : Bytes → ℕ → GtidLogEvent → Decoded (GtidLogEvent × ℕ)
unfolding slice require_from fixed_length_int
commit_timestamps s pos event = if ltb (length s) (pos + 7) then ok (event, pos) else (do
  bytes ← slice s pos 7
  let stamp = fixed_length_int bytes
  if leb (2 ^ 55) stamp
      then (do
        _ ← require_from s (pos + 7) 7
        original ← slice s (pos + 7) 7
        ok (
          record event {
            immediate_commit_timestamp = stamp - 2 ^ 55;
            original_commit_timestamp = fixed_length_int original;
          },
          pos + 14,
        ))
      else ok (
        record event { immediate_commit_timestamp = stamp; original_commit_timestamp = stamp },
        pos + 7,
      ))

unfoldable pub transaction_length_at : Bytes → ℕ → GtidLogEvent → Decoded (GtidLogEvent × ℕ)
unfolding from length_encoded_int
transaction_length_at s pos event = if leb (length s) pos then ok (event, pos) else (do
  rest ← from s pos
  r ← length_encoded_int rest
  ok (record event { transaction_length = r.0 }, pos + r.2))

-- The versions of the servers at `pos`: the top bit of the 32 says whether the original one follows.
unfoldable pub server_versions : Bytes → ℕ → GtidLogEvent → Decoded (GtidLogEvent × ℕ)
unfolding uint require_from
server_versions s pos event = if ltb (length s) (pos + 4) then ok (event, pos) else (do
  version ← uint 4 s pos
  if leb (2 ^ 31) version
      then (do
        _ ← require_from s (pos + 4) 4
        original ← uint 4 s (pos + 4)
        ok (
          record event {
            immediate_server_version = version - 2 ^ 31;
            original_server_version = original;
          },
          pos + 8,
        ))
      else ok (
        record event { immediate_server_version = version; original_server_version = version },
        pos + 4,
      ))

-- What is behind the code 2 of a logical timestamp at `pos`.
unfoldable pub logical_timestamps : Bytes → ℕ → GtidLogEvent → Decoded (GtidLogEvent × ℕ)
unfolding require_from uint commit_timestamps transaction_length_at server_versions
logical_timestamps s pos event = do
  _ ← require_from s (pos + 1) 16
  last ← uint 8 s (pos + 1)
  sequence ← uint 8 s (pos + 9)
  stamped ←
      commit_timestamps s (pos + 17)
        (record event { last_committed = last; sequence_number = sequence })
  sized ← transaction_length_at s stamped.1 stamped.0
  server_versions s sized.1 sized.0

-- `GTIDLogEvent.Decode`
unfoldable pub decode_gtid : ℕ → Bytes → Decoded GtidLogEvent
unfolding require_data slice uint logical_timestamps
decode_gtid typ s = do
  _ ← require_data s 25
  flag ← byte_at s 0
  sid ← slice s 1 16
  gno ← uint 8 s 17
  let event : GtidLogEvent = record {
    event_type = typ;
    commit_flag = flag;
    sid = sid;
    gno = gno;
    last_committed = 0;
    sequence_number = 0;
    immediate_commit_timestamp = 0;
    original_commit_timestamp = 0;
    transaction_length = 0;
    immediate_server_version = 0;
    original_server_version = 0;
    tagged_payload = [];
  }
  code ← if ltb 25 (length s) then byte_at s 25 else ok 0
  r ← if code == 2 then logical_timestamps s 25 event else ok (event, 25)
  ok (record (r.0) { tagged_payload = drop (r.1) s })

-- The text of bytes in base 16.
unfoldable pub hex_digit : ℕ → ℕ
hex_digit d = if ltb d 10 then 48 + d else 87 + d

unfoldable pub hex_text : Bytes → Bytes
unfolding hex_digit
hex_text [] = []
hex_text (b ∷ s) = hex_digit (b / 16) ∷ hex_digit (b % 16) ∷ hex_text s

-- The 16 bytes of a SID in groups.
unfoldable pub sid_text : Bytes → Bytes
unfolding hex_text
sid_text sid =
    hex_text (take 4 sid)
    ++ 45 ∷ hex_text (take 2 (drop 4 sid))
    ++ 45 ∷ hex_text (take 2 (drop 6 sid))
    ++ 45 ∷ hex_text (take 2 (drop 8 sid))
    ++ 45 ∷ hex_text (drop 10 sid)

-- `SIDString`
unfoldable pub sid_string : GtidLogEvent → Bytes
unfolding sid_text
sid_string event = if length event.sid == 16 then sid_text event.sid else []
