-- ===== src/Mysql/EventTypes.antt =====
-- `EventType2Str` and `EventTypeName` of mysql/common/const.go. The keys of the map are the numbers
-- from 0 on, in the order of its entries.
use go_dblog.Prelude.{ℕ, Option, none, some, List, [], ◌∷◌, get_elem?}
use go_dblog.Prelude.Text.{Bytes, codes}

unfoldable pub event_type_names : List Bytes
event_type_names =
    codes "UNKNOWN_EVENT"
    ∷ codes "START_EVENT_V3"
    ∷ codes "QUERY_EVENT"
    ∷ codes "STOP_EVENT"
    ∷ codes "ROTATE_EVENT"
    ∷ codes "INTVAR_EVENT"
    ∷ codes "LOAD_EVENT"
    ∷ codes "SLAVE_EVENT"
    ∷ codes "CREATE_FILE_EVENT"
    ∷ codes "APPEND_BLOCK_EVENT"
    ∷ codes "EXEC_LOAD_EVENT"
    ∷ codes "DELETE_FILE_EVENT"
    ∷ codes "NEW_LOAD_EVENT"
    ∷ codes "RAND_EVENT"
    ∷ codes "USER_VAR_EVENT"
    ∷ codes "FORMAT_DESCRIPTION_EVENT"
    ∷ codes "XID_EVENT"
    ∷ codes "BEGIN_LOAD_QUERY_EVENT"
    ∷ codes "EXECUTE_LOAD_QUERY_EVENT"
    ∷ codes "TABLE_MAP_EVENT"
    ∷ codes "WRITE_ROWS_EVENTv0"
    ∷ codes "UPDATE_ROWS_EVENTv0"
    ∷ codes "DELETE_ROWS_EVENTv0"
    ∷ codes "WRITE_ROWS_EVENTv1"
    ∷ codes "UPDATE_ROWS_EVENTv1"
    ∷ codes "DELETE_ROWS_EVENTv1"
    ∷ codes "INCIDENT_EVENT"
    ∷ codes "HEARTBEAT_EVENT"
    ∷ codes "IGNORABLE_EVENT"
    ∷ codes "ROWS_QUERY_EVENT"
    ∷ codes "WRITE_ROWS_EVENTv2"
    ∷ codes "UPDATE_ROWS_EVENTv2"
    ∷ codes "DELETE_ROWS_EVENTv2"
    ∷ codes "GTID_EVENT"
    ∷ codes "ANONYMOUS_GTID_EVENT"
    ∷ codes "PREVIOUS_GTIDS_EVENT"
    ∷ codes "TRANSACTION_CONTEXT_EVENT"
    ∷ codes "VIEW_CHANGE_EVENT"
    ∷ codes "XA_PREPARE_LOG_EVENT"
    ∷ codes "PARTIAL_UPDATE_ROWS_EVENT"
    ∷ codes "TRANSACTION_PAYLOAD_EVENT"
    ∷ codes "HEARTBEAT_EVENT_V2"
    ∷ codes "GTID_TAGGED_LOG_EVENT"
    ∷ []

unfoldable pub builtin_name : ℕ → Option Bytes
unfolding event_type_names
builtin_name event_type = get_elem? event_type_names event_type

-- `EventTypeName`
unfoldable pub builtin_type_name : ℕ → Bytes
unfolding builtin_name
builtin_type_name event_type = elim (builtin_name event_type) [
  | some name ↦ name
  | none ↦ codes "UNKNOWN_EVENT_TYPE"
]
