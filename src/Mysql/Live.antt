-- ===== src/Mysql/Live.antt =====
-- mysql/decode/decoder/live.go: the decoder of a replication stream. What url.Parse gives, and what the
-- server answers are values. `Mysql.Live.Events` has the decoder.
pub mod Events
use go_dblog.Prelude.{
  ℕ, zero, suc, ◌-◌, ◌%◌, ◌^◌, Bool, true, false, not, ◌&&◌, ◌||◌, Option, none, some, List, [],
  ◌∷◌, ltb, leb, ◌==◌, if◌then◌else◌, ◌⊎◌,
}
use go_dblog.Prelude.Result.{Result, ok, err, panic, ◌>>=◌, guard}
use go_dblog.Prelude.Text.{Bytes, codes, is_empty, same, trim_space, has_prefix}
use go_dblog.Prelude.Decimal.{itoa, parse_uint}
use go_dblog.Dblog.Types.{Source}
use go_dblog.Mysql.Bytes.{EventError, Decoded}
use go_dblog.Mysql.Column as C
use go_dblog.Mysql.Header.{EventHeader}
use go_dblog.Mysql.Description.{FmtDescEvent}
use go_dblog.Mysql.Registry.{EventRegistry, EventContext, new_event_context}
use go_dblog.Mysql.File.{DecodeOption, FileDecoder, FileEvent, decode_raw_event}
use go_dblog.Mysql.Event.{DblogEvent, source_driver, header_of}

pub record LiveConfig : Type 0 where
  pub address : Bytes
  pub user : Bytes
  pub password : Bytes
  pub database : Bytes
  pub flavor : Bytes
  pub server_id : ℕ
  pub file : Bytes
  pub pos : ℕ

pub record LiveMetadata : Type 0 where
  pub file : Bytes
  pub pos : ℕ
  pub version : Bytes
  pub has_checksum : Bool

pub data LiveError : Type 0 where
  invalid_dsn : LiveError
  invalid_port : Bytes → LiveError
  invalid_field : Bytes → Bytes → LiveError
  position_out_of_range : ℕ → LiveError
  connect_failed : LiveError
  version_failed : LiveError
  status_failed : LiveError
  file_failed : LiveError
  position_failed : LiveError
  sync_failed : LiveError

-- The parts of an url.URL that the code asks for; a key that is missing has an empty value.
pub record Url : Type 0 where
  pub scheme : Bytes
  pub host : Bytes
  pub hostname : Bytes
  pub port : Bytes
  pub username : Bytes
  pub password : Bytes
  pub path : Bytes
  pub query : Bytes → Bytes

-- strconv.ParseUint in base 10; `none` and 0 are refused.
unfoldable pub positive : LiveError → Option ℕ → Result LiveError ℕ
positive e none = err e
positive e (some zero) = err e
positive e (some (suc n)) = ok (suc n)

-- `parsePort`
unfoldable pub parse_port : Bytes → Result LiveError ℕ
unfolding positive parse_uint
parse_port port =
    if is_empty port then ok 3306 else positive (invalid_port port) (parse_uint (2 ^ 16) port)

-- `parseUint32`
unfoldable pub parse_uint32 : Bytes → ℕ → Bytes → Result LiveError ℕ
unfolding positive parse_uint
parse_uint32 raw fallback field =
    if is_empty raw
    then ok fallback
    else positive (invalid_field field raw) (parse_uint (2 ^ 32) raw)

-- `firstNonEmpty`
unfoldable pub first_non_empty : List Bytes → Bytes
first_non_empty [] = []
first_non_empty (value ∷ values) =
    let rest = first_non_empty values in if is_empty value then rest else value

-- `strings.TrimPrefix(path, "/")`
unfoldable pub trim_slash : Bytes → Bytes
trim_slash [] = []
trim_slash (c ∷ s) = if c == b'/' then s else c ∷ s

-- `parseLiveDSN` of the parsed URL.
unfoldable pub live_config : (Bytes → ℕ → Bytes) → Option Url → Result LiveError LiveConfig
unfolding parse_port parse_uint32 first_non_empty trim_slash
live_config join_host_port none = err invalid_dsn
live_config join_host_port (some u) = do
  _ ← guard (same u.scheme (codes "mysql") && not (is_empty u.host)) invalid_dsn
  port ← parse_port u.port
  id ← parse_uint32 (u.query (codes "server_id")) 1001 (codes "server_id")
  pos ← parse_uint32 (u.query (codes "pos")) 0 (codes "pos")
  let flavor = u.query (codes "flavor")
  ok (record {
    address = join_host_port u.hostname port;
    user = u.username;
    password = u.password;
    database = trim_slash u.path;
    flavor = if is_empty flavor then codes "mysql" else flavor;
    server_id = id;
    file = first_non_empty (u.query (codes "binlog") ∷ u.query (codes "file") ∷ []);
    pos = pos;
  })

-- `parseLiveDSN`
unfoldable pub parse_live_dsn :
    (Bytes → Option Url) → (Bytes → ℕ → Bytes) → Bytes → Result LiveError LiveConfig
unfolding live_config trim_space
parse_live_dsn parse_url join_host_port dsn =
    live_config join_host_port (parse_url (trim_space dsn))

-- The first row of a binary log status, with an error of a column as none.
pub record Status : Type 0 where
  pub file : Option Bytes
  pub pos : Option ℕ

-- What the server answers on a connection to the three statements, with an error as none.
pub record Connection : Type 0 where
  pub version : Option Bytes
  pub binary_log_status : Option Status
  pub master_status : Option Status

unfoldable pub or_fail : {A : Type 0} → LiveError → Option A → Result LiveError A
or_fail e none = err e
or_fail e (some a) = ok a

-- `loadServerVersion`
unfoldable pub load_server_version : Connection → LiveMetadata → Result LiveError LiveMetadata
unfolding or_fail
load_server_version c meta = do
  version ← or_fail version_failed c.version
  ok (record meta { version = version })

-- The second statement is asked where the first gives an error.
abbrev pub or_else : {A : Type 0} → Option A → Option A → Option A
or_else none b = b
or_else (some a) b = some a

-- `loadBinlogPosition`
unfoldable pub load_binlog_position : Connection → LiveMetadata → Result LiveError LiveMetadata
unfolding or_fail
load_binlog_position c meta = do
  status ← or_fail status_failed (or_else c.binary_log_status c.master_status)
  file ← or_fail file_failed status.file
  pos ← or_fail position_failed status.pos
  ok (record meta { file = file; pos = pos % 2 ^ 32 })

-- `loadLiveMetadata`
unfoldable pub load_live_metadata :
    (LiveConfig → Option Connection) → LiveConfig → Result LiveError LiveMetadata
unfolding or_fail load_server_version load_binlog_position
load_live_metadata connect cfg = do
  c ← or_fail connect_failed (connect cfg)
  meta ←
      load_server_version c
        (record { file = cfg.file; pos = cfg.pos; version = codes "8.0.0"; has_checksum = false })
  if is_empty meta.file || meta.pos == 0 then load_binlog_position c meta else ok meta

-- `header[i] = v` for a place that is there.
unfoldable pub set_byte : ℕ → ℕ → Bytes → Bytes
set_byte i v [] = []
set_byte zero v (c ∷ s) = v ∷ s
set_byte (suc i) v (c ∷ s) = c ∷ set_byte i v s

unfoldable pub set_types : ℕ → List ℕ → Bytes → Bytes
unfolding set_byte
set_types v [] s = s
set_types v (t ∷ ts) s = set_types v ts (set_byte (t - 1) v s)

unfoldable pub zeros : ℕ → Bytes
zeros zero = []
zeros (suc n) = 0 ∷ zeros n

-- `defaultEventTypeHeader`; 42 is GTID_TAGGED_LOG_EVENT.
unfoldable pub default_event_type_header : Bytes
unfolding set_types set_byte zeros
default_event_type_header =
    set_types 10
      (C.write_rows_v2 ∷ C.update_rows_v2 ∷ C.delete_rows_v2 ∷ C.partial_update_rows ∷ [])
      (set_types 8 (C.write_rows_v1 ∷ C.update_rows_v1 ∷ C.delete_rows_v1 ∷ []) (
        set_types 6 (C.write_rows_v0 ∷ C.update_rows_v0 ∷ C.delete_rows_v0 ∷ [])
          (set_byte (C.table_map_event - 1) 8 (zeros 42))))

-- `defaultLiveDescription`
unfoldable pub default_live_description : LiveMetadata → FmtDescEvent
unfolding default_event_type_header
default_live_description meta = record {
  binlog_version = 4;
  mysql_version_text = meta.version;
  create_time = 0;
  event_header_length = 19;
  event_type_header = default_event_type_header;
  has_check_sum = meta.has_checksum;
}
