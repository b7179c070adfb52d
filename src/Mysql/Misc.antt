-- ===== src/Mysql/Misc.antt =====
-- mysql/decode/events/types/E_MISC_EVENTS.go: the events of a fixed layout, up to a payload. The
-- field `base` is the data that `Encode` answers. `opt.EventType` and `opt.Data` are arguments.
pub mod Safe
use go_dblog.Prelude.{ℕ, zero, suc, ◌+◌, Bool, true, false, List, [], ◌∷◌, length, take, drop}
use go_dblog.Prelude.Result.{Result, ok, err, panic, ◌>>=◌, ◌>>◌}
use go_dblog.Prelude.Text.{Bytes}
use go_dblog.Mysql.Bytes.{
  Decoded, byte_at, from, slice, uint, require_data, require_from, trim_nul_string,
}

pub record StartEventV3 : Type 0 where
  pub base : Bytes
  pub binlog_version : ℕ
  pub mysql_version : Bytes
  pub create_time : ℕ

unfoldable pub decode_start : Bytes → Decoded StartEventV3
unfolding require_data uint slice trim_nul_string
decode_start data' = do
  require_data data' 56
  binlog_version ← uint 2 data' 0
  version ← slice data' 2 50
  create_time ← uint 4 data' 52
  ok (record {
    base = data';
    binlog_version = binlog_version;
    mysql_version = trim_nul_string version;
    create_time = create_time;
  })

-- `StopEvent`: an event type and no fields of its own.
pub record StopEvent : Type 0 where
  pub base : Bytes
  pub event_type : ℕ

unfoldable pub decode_stop : ℕ → Bytes → Decoded StopEvent
decode_stop event_type data' = ok (record { base = data'; event_type = event_type })

pub record FileEvent : Type 0 where
  pub base : Bytes
  pub event_type : ℕ
  pub file_id : ℕ
  pub block_data : Bytes

unfoldable pub decode_file : ℕ → Bytes → Decoded FileEvent
unfolding require_data uint from
decode_file event_type data' = do
  require_data data' 4
  file_id ← uint 4 data' 0
  block_data ← from data' 4
  ok (record { base = data'; event_type = event_type; file_id = file_id; block_data = block_data })

pub record ExecLoadEvent : Type 0 where
  pub base : Bytes
  pub file_id : ℕ

unfoldable pub decode_exec_load : Bytes → Decoded ExecLoadEvent
unfolding require_data uint
decode_exec_load data' = do
  require_data data' 4
  file_id ← uint 4 data' 0
  ok (record { base = data'; file_id = file_id })

pub record RandEvent : Type 0 where
  pub base : Bytes
  pub seed1 : ℕ
  pub seed2 : ℕ

unfoldable pub decode_rand : Bytes → Decoded RandEvent
unfolding require_data uint
decode_rand data' = do
  require_data data' 16
  seed1 ← uint 8 data' 0
  seed2 ← uint 8 data' 8
  ok (record { base = data'; seed1 = seed1; seed2 = seed2 })

pub record IncidentEvent : Type 0 where
  pub base : Bytes
  pub typ : ℕ
  pub message : Bytes

unfoldable pub decode_incident : Bytes → Decoded IncidentEvent
unfolding require_data require_from uint slice
decode_incident data' = do
  require_data data' 3
  message_length ← byte_at data' 2
  require_from data' 3 message_length
  typ ← uint 2 data' 0
  message ← slice data' 3 message_length
  ok (record { base = data'; typ = typ; message = message })

pub record HeartbeatEvent : Type 0 where
  pub base : Bytes
  pub event_type : ℕ
  pub log_ident : Bytes
  pub payload : Bytes

unfoldable pub decode_heartbeat : ℕ → Bytes → Decoded HeartbeatEvent
unfolding trim_nul_string
decode_heartbeat event_type data' = ok (record {
  base = data';
  event_type = event_type;
  log_ident = trim_nul_string data';
  payload = data';
})

pub record RowsQueryEvent : Type 0 where
  pub base : Bytes
  pub query : Bytes

unfoldable pub decode_rows_query : Bytes → Decoded RowsQueryEvent
decode_rows_query data' = ok (record { base = data'; query = data' })

pub record TransactionContextEvent : Type 0 where
  pub base : Bytes
  pub thread_id : ℕ
  pub gtid_spec : ℕ
  pub immediate : ℕ
  pub header : Bytes
  pub payload : Bytes

abbrev pub transaction_context_header_size : ℕ
transaction_context_header_size = 18

unfoldable pub decode_transaction_context : Bytes → Decoded TransactionContextEvent
unfolding require_data uint slice from
decode_transaction_context data' = do
  require_data data' transaction_context_header_size
  thread_id ← uint 4 data' 0
  gtid_spec ← uint 4 data' 4
  immediate ← uint 8 data' 8
  header ← slice data' 0 transaction_context_header_size
  payload ← from data' transaction_context_header_size
  ok (record {
    base = data';
    thread_id = thread_id;
    gtid_spec = gtid_spec;
    immediate = immediate;
    header = header;
    payload = payload;
  })

pub record ViewChangeEvent : Type 0 where
  pub base : Bytes
  pub view_id : Bytes
  pub header : Bytes
  pub payload : Bytes

abbrev pub view_change_header_size : ℕ
view_change_header_size = 52

unfoldable pub decode_view_change : Bytes → Decoded ViewChangeEvent
unfolding require_data slice from
decode_view_change data' = do
  require_data data' view_change_header_size
  view_id ← slice data' 0 view_change_header_size
  header ← slice data' 0 view_change_header_size
  payload ← from data' view_change_header_size
  ok (record { base = data'; view_id = view_id; header = header; payload = payload })

pub record TransactionPayloadEvent : Type 0 where
  pub base : Bytes
  pub event_type : ℕ
  pub payload : Bytes

unfoldable pub decode_transaction_payload : ℕ → Bytes → Decoded TransactionPayloadEvent
decode_transaction_payload event_type data' =
    ok (record { base = data'; event_type = event_type; payload = data' })
