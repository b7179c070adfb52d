-- ===== src/Postgres/Stream.antt =====
-- postgres/decode/decoder/decoder.go, postgres/decode/events/types/event.go, and `startPosition` of
-- postgres/backend/backend.go. The scanner (`bufio.Scanner`) is the lines that it gives, and the
-- error that `Err` answers behind the last one.
pub mod Spec
pub mod Resume
use go_dblog.Prelude.{
  ℕ, zero, suc, ◌+◌, Bool, true, false, not, Option, none, some, List, [], ◌∷◌, leb, if◌then◌else◌,
}
use go_dblog.Prelude.Text.{Bytes, is_empty, trim_space}
use go_dblog.Prelude.Decimal.{itoa}
use go_dblog.Prelude.Result as Go
use go_dblog.Prelude.Result.{Result}
use go_dblog.Dblog.Types.{Source, Position, Event}
use go_dblog.Dblog.Stream.{Seq}
use go_dblog.Dblog.Start.{StartError, start_position_for}
use go_dblog.Postgres.Types.{driver, Body, PgEvent, with_driver}
use go_dblog.Postgres.Columns.{LineError}
use go_dblog.Postgres.Line.{EventPlugin, parse_line}
use go_dblog.Postgres.Sql.{reverse_body}

-- The methods of `types.Event`.
unfoldable pub as_event : {F : Type 0} → (F → Bytes) → PgEvent F → Event (Body F) Bytes
unfolding reverse_body
as_event show_float e = record {
  source_driver = (with_driver e.source).driver;
  source_name = e.source.name;
  position_driver = driver;
  position_string = itoa e.position;
  kind = e.kind;
  raw = e.raw;
  body = e.body;
  reverse = some (reverse_body show_float e.body);
}

pub record Decoder (F : Type 0) : Type 0 where
  pub source : Source
  pub plugins : List (Option (EventPlugin F))
  pub start_position : ℕ

-- `NewDecoder`, with the options applied.
unfoldable pub new_decoder : {F : Type 0} → Source → List (Option (EventPlugin F)) → ℕ → Decoder F
new_decoder s ps start = record { source = with_driver s; plugins = ps; start_position = start }

-- What the sequence yields: an event or an error.
abbrev pub Item : Type 0 → Type 0
Item F = Option (Event (Body F) Bytes) × Option LineError

module _ {F : Type 0} (parse_float : Bytes → Option F) (show_float : F → Bytes) where
  module _ {S : Type 0} (d : Decoder F) (yield : S → Item F → S × Bool) where
    -- The loop of `Events` at a position, with the lines still to come and the scanner's error.
    unfoldable pub events_loop : ℕ → List Bytes → Option LineError → S → S
    unfolding parse_line as_event
    events_loop position [] none s = s
    events_loop position [] (some e) s = (yield s (none, some e)).0
    events_loop position (line ∷ lines) failure s =
        let rest = events_loop (position + 1) lines failure in
        if leb (position + 1) d.start_position
        then rest s
        else if is_empty (trim_space line)
        then rest s
        else elim (parse_line parse_float d.source (position + 1) line d.plugins) [
          | Go.panic ↦ s
          | Go.err e ↦ (yield s (none, some e)).0
          | Go.ok e ↦
              let item : Item F = (some (as_event show_float e), none) in
              if not (yield s item).1 then (yield s item).0 else rest (yield s item).0
        ]

  -- `Decoder.Events`; a nil decoder or scanner is `none`.
  unfoldable pub decoder_events :
      {S : Type 0}
      → Option (Decoder F)
      → List Bytes
      → Option LineError
      → Seq S (Option (Event (Body F) Bytes)) LineError
  unfolding events_loop
  decoder_events none lines failure yield s = s
  decoder_events (some d) lines failure yield s = events_loop d yield 0 lines failure s

-- `startPosition`
unfoldable pub start_position : Position → Result StartError ℕ
unfolding start_position_for
start_position = start_position_for driver
