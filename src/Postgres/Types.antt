-- ===== src/Postgres/Types.antt =====
-- postgres/decode/events/types: columns, changes, transactions, literals and events. `F` is the
-- type of the 64-bit floats.
use go_dblog.Prelude.{Bool, List}
use go_dblog.Prelude.Int.{ℤ}
use go_dblog.Prelude.Text.{Bytes, codes, is_empty}
use go_dblog.Prelude.{ℕ, if◌then◌else◌}
use go_dblog.Dblog.Types.{Source}

-- What `Column.Value` holds: nil, a bool, an int64, a float64 or a string.
pub data Value (F : Type 0) : Type 0 where
  null : Value F
  boolean : Bool → Value F
  integer : ℤ → Value F
  float : F → Value F
  text : Bytes → Value F

pub record Column (F : Type 0) : Type 0 where
  pub name : Bytes
  pub typ : Bytes
  pub value : Value F
  pub raw : Bytes

pub record Change (F : Type 0) : Type 0 where
  pub schema : Bytes
  pub table : Bytes
  pub operation : Bytes
  pub columns : List (Column F)
  pub old_key : List (Column F)
  pub new_tuple : List (Column F)

pub record Transaction : Type 0 where
  pub action : Bytes
  pub id : Bytes

-- The constants of const.go.
abbrev pub driver : Bytes
driver = codes "pg"

abbrev pub kind_begin : Bytes
kind_begin = codes "begin"

abbrev pub kind_commit : Bytes
kind_commit = codes "commit"

abbrev pub operation_insert : Bytes
operation_insert = codes "insert"

abbrev pub operation_update : Bytes
operation_update = codes "update"

abbrev pub operation_delete : Bytes
operation_delete = codes "delete"

-- What an event carries.
pub data Body (F : Type 0) : Type 0 where
  transaction : Transaction → Body F
  change : Change F → Body F

-- `types.Event`
pub record PgEvent (F : Type 0) : Type 0 where
  pub source : Source
  pub position : ℕ
  pub raw : Bytes
  pub kind : Bytes
  pub body : Body F

abbrev pub with_driver : Source → Source
with_driver s = if is_empty s.driver then record s { driver = driver } else s

unfoldable pub new_event : {F : Type 0} → Source → ℕ → Bytes → Bytes → Body F → PgEvent F
new_event source position raw kind body = record {
  source = with_driver source;
  position = position;
  raw = raw;
  kind = kind;
  body = body;
}
