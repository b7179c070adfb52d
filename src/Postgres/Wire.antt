-- ===== src/Postgres/Wire.antt =====
-- postgres/decode/decoder/wire.go: the messages of the replication protocol. The loop that receives
-- and answers them is in Postgres.Replication.
pub mod Messages
use go_dblog.Prelude.{
  ℕ, zero, suc, ◌+◌, ◌*◌, ◌/◌, ◌%◌, ◌^◌, Bool, true, false, not, ◌||◌, Option, none, some, List, [],
  ◌∷◌, ◌++◌, length, take, drop, get_elem?, ◌==◌, leb, ltb, if◌then◌else◌,
}
use go_dblog.Prelude.Result.{Result, ok, err, panic, ◌>>=◌, must}
use go_dblog.Prelude.Text.{Bytes, codes, double, is_empty, trim_space}

-- The errors of `parseWireData`.
pub data WireError : Type 0 where
  empty_copy_data : WireError
  xlog_too_short : WireError
  keepalive_too_short : WireError
  unknown_copy_data : ℕ → WireError

pub record WireData : Type 0 where
  pub line : Bytes
  pub lsn : ℕ
  pub reply : Bool

-- The big-endian number of these bytes behind those of value `v`.
unfoldable pub be_from : ℕ → Bytes → ℕ
be_from v [] = v
be_from v (b ∷ bs) = be_from (v * 256 + b) bs

-- `binary.BigEndian.Uint64(data[i : i+8])`
unfoldable pub be_uint64 : Bytes → ℕ → Result WireError ℕ
unfolding be_from
be_uint64 s i = if leb (i + 8) (length s) then ok (be_from 0 (take 8 (drop i s))) else panic

-- `binary.BigEndian.PutUintN` for N = 8 n, in front of `acc`.
unfoldable pub put_be : ℕ → ℕ → Bytes → Bytes
put_be zero v acc = acc
put_be (suc n) v acc = put_be n (v / 256) ((v % 256) ∷ acc)

unfoldable pub parse_wire_data : Bytes → Result WireError WireData
unfolding be_uint64
parse_wire_data [] = err empty_copy_data
parse_wire_data (c ∷ s) =
    if c == b'w'
    then if ltb (length (c ∷ s)) 25 then err xlog_too_short else (do
      lsn ← be_uint64 (c ∷ s) 9
      ok (record { line = drop 25 (c ∷ s); lsn = lsn; reply = false }))
    else if c == b'k'
    then if ltb (length (c ∷ s)) 18 then err keepalive_too_short else (do
      lsn ← be_uint64 (c ∷ s) 1
      b ← must (get_elem? (c ∷ s) 17)
      ok (record { line = []; lsn = lsn; reply = not (b == 0) }))
    else err (unknown_copy_data c)

-- `standbyStatusData`: `now` is the time in microseconds since 2000-01-01.
unfoldable pub standby_status_data : ℕ → ℕ → Bool → Bytes
unfolding put_be
standby_status_data lsn now reply =
    b'r'
    ∷ put_be 8 lsn (put_be 8 lsn (put_be 8 lsn (put_be 8 now (if reply then 1 ∷ [] else 0 ∷ []))))

-- `quoteIdentifier`
unfoldable pub quote_identifier : Bytes → Bytes
unfolding double
quote_identifier value = b'"' ∷ (double b'"' value ++ b'"' ∷ [])

unfoldable pub start_replication_query : Bytes → Bytes
unfolding quote_identifier
start_replication_query slot =
    codes "START_REPLICATION SLOT "
    ++ (quote_identifier slot
        ++ (codes " LOGICAL 0/0 (" ++ (b'"' ∷ (codes "include-xids" ++ (b'"' ∷ codes " '1')")))))
