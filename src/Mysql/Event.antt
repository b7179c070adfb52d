-- ===== src/Mysql/Event.antt =====
-- mysql/decode/decoder/dblog.go: a binlog event as the shared event. The bodies `B` are a parameter,
-- with their encoding, the rows event that a body is, and the body that a rows event is.
pub mod Raw
use go_dblog.Prelude.{ℕ, Bool, Option, none, some, [], ◌∷◌, ◌++◌, if◌then◌else◌}
use go_dblog.Prelude.Text.{Bytes, codes, is_empty}
use go_dblog.Prelude.Decimal.{itoa}
use go_dblog.Dblog.Types.{Source, Event}
use go_dblog.Dblog.Stream.{Round, emit, last, take_round}
use go_dblog.Mysql.Bytes.{EventError}
use go_dblog.Mysql.EventTypes.{builtin_type_name}
use go_dblog.Mysql.Header.{EventHeader}
use go_dblog.Mysql.Rows.Event.{BinRowsEvent}
use go_dblog.Mysql.Rows.Reverse.{reverse}
use go_dblog.Mysql.File.{FileEvent}

abbrev pub driver : Bytes
driver = codes "mysql"

pub record Position : Type 0 where
  pub file : Bytes
  pub pos : ℕ

-- `Position.String`
unfoldable pub position_string : Position → Bytes
position_string p = if is_empty p.file then itoa p.pos else p.file ++ b':' ∷ itoa p.pos

pub record DblogEvent (B : Type 0) : Type 0 where
  pub source : Source
  pub event : Option (FileEvent B)

-- The header, where neither the event nor its header is nil.
abbrev pub header_of : {B : Type 0} → Option (FileEvent B) → Option EventHeader
header_of none = none
header_of (some e) = e.frame.header

-- `position`
unfoldable pub position : {B : Type 0} → DblogEvent B → Position
position e = record {
  file = e.source.name;
  pos = elim (header_of e.event) [ none ↦ 0 | some h ↦ h.log_pos ];
}

-- `SourceDriver`
unfoldable pub source_driver : Source → Bytes
source_driver s = if is_empty s.driver then driver else s.driver

-- `Body`
abbrev pub body : {B : Type 0} → Option (FileEvent B) → Option B
body none = none
body (some e) = some e.body

module _ {B : Type 0} (encode : B → Bytes) where
  -- `Raw` of an event with a header.
  unfoldable pub raw_of : EventHeader → FileEvent B → Bytes
  raw_of h e = h.base ++ (encode e.body ++ e.frame.checksum_val)

  unfoldable pub raw : Option (FileEvent B) → Bytes
  unfolding raw_of
  raw none = []
  raw (some e) = elim e.frame.header [ none ↦ [] | some h ↦ raw_of h e ]

module _ {B : Type 0} (rows_of : B → Option BinRowsEvent) (rows_body : BinRowsEvent → B) where
  -- The native event that undoes the rows, with its event type.
  unfoldable pub undone : EventHeader → BinRowsEvent × ℕ → FileEvent B
  undone h (r, typ) = record {
    frame = record {
      header = some (record h { event_type = typ; base = [] });
      checksum_type = 0;
      checksum_val = [];
    };
    body = rows_body r;
  }

  unfoldable pub reverse_with : EventHeader → Option BinRowsEvent → Option (FileEvent B)
  unfolding reverse undone
  reverse_with h none = none
  reverse_with h (some r) = elim (reverse r h.event_type) [
    | none ↦ none
    | some r' ↦ some (undone h r')
  ]

  -- `Reverse`
  unfoldable pub reverse_event : Option (FileEvent B) → Option (FileEvent B)
  unfolding reverse_with
  reverse_event none = none
  reverse_event (some e) = elim e.frame.header [
    | none ↦ none
    | some h ↦ reverse_with h (rows_of e.body)
  ]

-- The methods of `DblogEvent`.
unfoldable pub as_event :
    {B : Type 0}
    → (B → Bytes)
    → (B → Option BinRowsEvent)
    → (BinRowsEvent → B)
    → DblogEvent B
    → Event (Option B) (FileEvent B)
unfolding builtin_type_name position_string position source_driver raw reverse_event
as_event encode rows_of rows_body e = record {
  source_driver = source_driver e.source;
  source_name = e.source.name;
  position_driver = driver;
  position_string = position_string (position e);
  kind = elim (header_of e.event) [ none ↦ [] | some h ↦ builtin_type_name h.event_type ];
  raw = raw encode e.event;
  body = body e.event;
  reverse = some (reverse_event rows_of rows_body e.event);
}

-- `WrapDblogDecoder`
unfoldable pub wrap_source : Source → Source
unfolding source_driver
wrap_source s = record s { driver = source_driver s }

-- One item of `DblogDecoder.Events`; an event of the file decoder is not nil.
unfoldable pub wrap_round :
    {B : Type 0}
    → Source
    → Option (FileEvent B) × Option EventError
    → Round (Option (DblogEvent B) × Option EventError)
wrap_round source (e, some x) = last (none, some x)
wrap_round source (e, none) = emit (some (record { source = source; event = e }), none)

-- `DblogDecoder.Events` over the events of a file decoder; `R` is what a run of its loop gives.
unfoldable pub wrap_events :
    {B S R : Type 0}
    → Source
    → ((S → Option (FileEvent B) × Option EventError → S × Bool) → S → R)
    → (S → Option (DblogEvent B) × Option EventError → S × Bool)
    → S
    → R
unfolding wrap_round take_round
wrap_events source events yield = events (λ s item. take_round yield s (wrap_round source item))
