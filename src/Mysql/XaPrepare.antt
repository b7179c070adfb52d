-- ===== src/Mysql/XaPrepare.antt =====
-- mysql/decode/events/types/E_MISC_EVENTS.go: XA_PREPARE_LOG_EVENT.
pub mod Bounds
use go_dblog.Prelude.{
  ℕ, zero, suc, ◌+◌, ◌%◌, ◌^◌, Bool, true, false, not, List, [], ◌∷◌, length, ◌==◌, if◌then◌else◌,
}
use go_dblog.Prelude.Result.{Result, ok, err, panic, ◌>>=◌, ◌>>◌}
use go_dblog.Prelude.Text.{Bytes}
use go_dblog.Mysql.Bytes.{Decoded, byte_at, slice, uint, require_data, require_from}

pub record XaPrepareLogEvent : Type 0 where
  pub base : Bytes
  pub one_phase : Bool
  pub format_id : ℕ
  pub gtrid_length : ℕ
  pub bqual_length : ℕ
  pub gtrid : Bytes
  pub bqual : Bytes

-- The sum of the lengths is a uint32.
unfoldable pub xa_total : ℕ → ℕ → ℕ
xa_total gtrid_length bqual_length = (gtrid_length + bqual_length) % 2 ^ 32

unfoldable pub decode_xa_prepare : Bytes → Decoded XaPrepareLogEvent
unfolding require_data require_from uint slice xa_total
decode_xa_prepare data' = do
  require_data data' 13
  phase ← byte_at data' 0
  format_id ← uint 4 data' 1
  gtrid_length ← uint 4 data' 5
  bqual_length ← uint 4 data' 9
  require_from data' 13 (xa_total gtrid_length bqual_length)
  gtrid ← slice data' 13 gtrid_length
  bqual ← slice data' (13 + gtrid_length) bqual_length
  ok (record {
    base = data';
    one_phase = not (phase == 0);
    format_id = format_id;
    gtrid_length = gtrid_length;
    bqual_length = bqual_length;
    gtrid = gtrid;
    bqual = bqual;
  })
