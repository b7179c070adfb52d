-- ===== src/Mongo/Types.antt =====
-- mongo/decode/events/types: change.go, const.go, errors.go, and the struct of event.go. A nil map
-- is `none`.
use go_dblog.Prelude.{ℕ, Bool, Option, if◌then◌else◌}
use go_dblog.Prelude.Text.{Bytes, codes, is_empty}
use go_dblog.Dblog.Types.{Source}
use go_dblog.Mongo.Value.{Fields}

abbrev pub driver : Bytes
driver = codes "mongo"

abbrev pub operation_insert : Bytes
operation_insert = codes "insert"

abbrev pub operation_update : Bytes
operation_update = codes "update"

abbrev pub operation_replace : Bytes
operation_replace = codes "replace"

abbrev pub operation_delete : Bytes
operation_delete = codes "delete"

abbrev pub operation_command : Bytes
operation_command = codes "command"

abbrev pub operation_noop : Bytes
operation_noop = codes "noop"

-- The errors, with what `fmt.Errorf` says behind them left out; a plugin's error comes with its
-- name, and those of a change stream with the step that failed.
pub data MongoError : Type 0 where
  reader_required : MongoError
  collection_required : MongoError
  invalid_json : MongoError
  unsupported_operation : Bytes → MongoError
  not_an_object : Bytes → MongoError
  plugin_failed : Bytes → MongoError
  scan_failed : MongoError
  watch_failed : MongoError
  decode_failed : MongoError
  read_failed : MongoError

-- A value or an error; nothing here panics.
pub data Parsed (A : Type 0) : Type 0 where
  failed : MongoError → Parsed A
  parsed : A → Parsed A

infixl 5 ◌>>=◌
abbrev pub ◌>>=◌ : {A B : Type 0} → Parsed A → (A → Parsed B) → Parsed B
failed e >>= f = failed e
parsed a >>= f = f a

pub record Change (F : Type 0) : Type 0 where
  pub operation : Bytes
  pub database : Bytes
  pub collection : Bytes
  pub document : Option (Fields F)
  pub before_document : Option (Fields F)
  pub document_key : Option (Fields F)
  pub update : Option (Fields F)
  pub raw : Fields F

pub record Command (F : Type 0) : Type 0 where
  pub operation : Bytes
  pub database : Bytes
  pub collection : Bytes
  pub filter : Option (Fields F)
  pub document : Option (Fields F)
  pub update : Option (Fields F)

-- `Match` and `Apply`; an `Apply` with an error is `none`.
pub record EventPlugin (F : Type 0) : Type 0 where
  pub name : Bytes
  pub matches_raw : Fields F → Bool
  pub apply : Change F → Option (Change F)

-- `Event`
pub record MongoEvent (F : Type 0) : Type 0 where
  pub source : Source
  pub position : ℕ
  pub raw : Bytes
  pub change : Change F

-- `if source.Driver == "" { source.Driver = Driver }`
unfoldable pub with_driver : Source → Source
with_driver s = if is_empty s.driver then record s { driver = driver } else s

-- `NewEvent`
unfoldable pub new_event : {F : Type 0} → Source → ℕ → Bytes → Change F → MongoEvent F
unfolding with_driver
new_event s position raw change = record {
  source = with_driver s;
  position = position;
  raw = raw;
  change = change;
}
