-- ===== src/Mysql/Query.antt =====
-- mysql/decode/events/types/E_QUERY_EVENT.go: the query event around its status variables.
pub mod Safe
use go_dblog.Prelude.{
  ℕ, zero, suc, ◌+◌, ◌*◌, ◌%◌, ◌^◌, Bool, true, false, Option, none, some, List, [], ◌∷◌, length,
  ◌==◌, leb, if◌then◌else◌,
}
use go_dblog.Prelude.Result.{Result, ok, err, panic, ◌>>=◌}
use go_dblog.Prelude.Text.{Bytes}
use go_dblog.Mysql.Bytes.{
  Decoded, no_description, unterminated_db_name, byte_at, from, slice, uint, require_data,
  require_from,
}
use go_dblog.Mysql.Util.{fixed_length_int}
use go_dblog.Mysql.Load.{cut_nul}
use go_dblog.Mysql.Rows.Event.{and_then}
use go_dblog.Mysql.Description.{FmtDescEvent}
use go_dblog.Mysql.StatusVars.{QueryStatusVars, no_status, decode_query_status_vars, Read}

pub record QueryEvent : Type 0 where
  pub slave_proxy_id : ℕ
  pub execution_time : ℕ
  pub error_code : ℕ
  pub status_vars : Bytes
  pub status : QueryStatusVars
  pub schema : Bytes
  pub query : Bytes

-- What `Decode` makes of the status variables: an error keeps them as they are.
unfoldable pub status_of :
    Bytes → Option (Decoded QueryStatusVars) → Option (Decoded QueryStatusVars)
status_of vars none = none
status_of vars (some (ok status)) = some (ok status)
status_of vars (some (err e)) = some (ok (record no_status { unknown_status_vars_payload = vars }))
status_of vars (some panic) = some panic

-- The bytes of the status variables, and the position behind them.
unfoldable pub status_bytes : ℕ → Bytes → Decoded (Bytes × ℕ)
unfolding require_from uint slice
status_bytes binlog_version s =
    if leb 4 binlog_version
    then (do
      _ ← require_from s 11 2
      n ← uint 2 s 11
      _ ← require_from s 13 n
      vars ← slice s 13 n
      ok (vars, 13 + n))
    else ok ([], 11)

-- The schema and the query, from position `pos`.
unfoldable pub query_texts : Bytes → ℕ → ℕ → Decoded (Bytes × Bytes)
unfolding require_from slice from
query_texts s pos n = do
  _ ← require_from s pos (n + 1)
  schema ← slice s pos n
  query ← from s (pos + n + 1)
  ok (schema, query)

-- The fields in front of the schema, and the position of that.
pub record QueryHead : Type 0 where
  pub slave_proxy_id : ℕ
  pub execution_time : ℕ
  pub schema_length : ℕ
  pub error_code : ℕ
  pub status_vars : Bytes
  pub pos : ℕ

unfoldable pub query_head : ℕ → Bytes → Decoded QueryHead
unfolding require_data uint status_bytes
query_head binlog_version s = do
  _ ← require_data s 11
  proxy ← uint 4 s 0
  time ← uint 4 s 4
  n ← byte_at s 8
  code ← uint 2 s 9
  vars ← status_bytes binlog_version s
  ok (record {
    slave_proxy_id = proxy;
    execution_time = time;
    schema_length = n;
    error_code = code;
    status_vars = vars.0;
    pos = vars.1;
  })

-- The end of `Decode`.
unfoldable pub query_event : Bytes → QueryHead → QueryStatusVars → Decoded QueryEvent
unfolding query_texts
query_event s head status = do
  texts ← query_texts s head.pos head.schema_length
  ok (record {
    slave_proxy_id = head.slave_proxy_id;
    execution_time = head.execution_time;
    error_code = head.error_code;
    status_vars = head.status_vars;
    status = status;
    schema = texts.0;
    query = texts.1;
  })

abbrev pub then_ends : {A B : Type 0} → Option (Decoded A) → (A → Decoded B) → Option (Decoded B)
then_ends none next = none
then_ends (some m) next = some (m >>= next)

-- `Decode`, with the description of the context. A binary log before version 4 has no status
-- variables.
unfoldable pub decode_query : Option FmtDescEvent → Bytes → Option (Decoded QueryEvent)
unfolding query_head decode_query_status_vars status_of query_event and_then
decode_query none s = some (err no_description)
decode_query (some fde) s = and_then (query_head fde.binlog_version s) λ head.
    then_ends (status_of head.status_vars (decode_query_status_vars head.status_vars))
      (query_event s head)
