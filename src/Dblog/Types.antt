-- ===== src/Dblog/Types.antt =====
-- dblog.go: sources, positions, checkpoints, and the common event shape.
use go_dblog.Prelude.{Option, none, some, []}
use go_dblog.Prelude.Text.{Bytes}

pub record Source : Type 0 where
  pub driver : Bytes
  pub name : Bytes

pub record Position : Type 0 where
  pub driver : Bytes
  pub value : Bytes

pub record Checkpoint : Type 0 where
  pub source : Source
  pub position : Position

-- The zero values of the three structs.
abbrev pub no_source : Source
no_source = record { driver = []; name = [] }

abbrev pub no_position : Position
no_position = record { driver = []; value = [] }

abbrev pub no_checkpoint : Checkpoint
no_checkpoint = record { source = no_source; position = no_position }

-- The methods of an event, at one value of it. `B` is the type of the bodies and `O` that of
-- the compensating operations; `reverse` is `none` where the event is not `Reversible`.
pub record Event (B O : Type 0) : Type 0 where
  pub source_driver : Bytes
  pub source_name : Bytes
  pub position_driver : Bytes
  pub position_string : Bytes
  pub kind : Bytes
  pub raw : Bytes
  pub body : B
  pub reverse : Option (Option O)

module _ {B O : Type 0} where
  -- `SourceOf`; the event is an interface value, and may be nil.
  unfoldable pub source_of : Option (Event B O) → Source
  source_of none = no_source
  source_of (some e) = record { driver = e.source_driver; name = e.source_name }

  unfoldable pub position_of : Option (Event B O) → Position
  position_of none = no_position
  position_of (some e) = record { driver = e.position_driver; value = e.position_string }

  unfoldable pub checkpoint_of : Option (Event B O) → Checkpoint
  unfolding source_of position_of
  checkpoint_of none = no_checkpoint
  checkpoint_of (some e) = record { source = source_of (some e); position = position_of (some e) }
