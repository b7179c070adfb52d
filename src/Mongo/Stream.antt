-- ===== src/Mongo/Stream.antt =====
-- mongo/decode/decoder/decoder.go with options.go, and `startPosition` of mongo/backend/backend.go.
-- The scanner (`bufio.Scanner`) is the lines that it gives, and the error that `Err` answers behind
-- the last one.
pub mod Resume
use go_dblog.Prelude.{ℕ, Option, none, some, List, [], ◌∷◌, leb, if◌then◌else◌}
use go_dblog.Prelude.Text.{Bytes, is_empty, trim_space}
use go_dblog.Prelude.Result.{Result}
use go_dblog.Dblog.Types.{Source, Position, Event}
use go_dblog.Dblog.Stream.{Seq, Round, skip, emit, last}
use go_dblog.Dblog.Numbered.{numbered}
use go_dblog.Dblog.Start.{StartError, start_position_for}
use go_dblog.Mongo.Value.{Fields}
use go_dblog.Mongo.Types.{
  driver, MongoError, Parsed, failed, parsed, Change, Command, EventPlugin, MongoEvent, with_driver,
}
use go_dblog.Mongo.Parser.{parse_line}
use go_dblog.Mongo.Event.{as_event}

pub record Decoder (F : Type 0) : Type 0 where
  pub source : Source
  pub plugins : List (Option (EventPlugin F))
  pub start_position : ℕ

-- `NewDecoder`, with the options applied.
unfoldable pub new_decoder : {F : Type 0} → Source → List (Option (EventPlugin F)) → ℕ → Decoder F
unfolding with_driver
new_decoder s ps start = record { source = with_driver s; plugins = ps; start_position = start }

-- What the sequence yields: an event or an error.
abbrev pub Item : Type 0 → Type 0
Item F = Option (Event (Change F) (Command F)) × Option MongoError

-- `yield(nil, err)` and return, or `yield(event, nil)`.
abbrev pub item_of : {F : Type 0} → Parsed (MongoEvent F) → Round (Item F)
item_of (failed e) = last (none, some e)
item_of (parsed e) = emit (some (as_event e), none)

abbrev pub failure_item : {F : Type 0} → Option MongoError → Option (Item F)
failure_item none = none
failure_item (some e) = some (none, some e)

module _ {F : Type 0} (decode_json : Bytes → Option (Fields F))
    (encode_json : Fields F → Bytes) where
  -- The body of the loop of `Events`, at the position of the line.
  unfoldable pub line_round : Decoder F → ℕ → Bytes → Round (Item F)
  unfolding parse_line as_event
  line_round d position line =
      if leb position d.start_position
      then skip
      else if is_empty (trim_space line)
      then skip
      else item_of (parse_line encode_json decode_json d.source position line d.plugins)

  -- `Decoder.Events`; a nil decoder or scanner is `none`.
  unfoldable pub decoder_events :
      {S : Type 0}
      → Option (Decoder F)
      → List Bytes
      → Option MongoError
      → Seq S (Option (Event (Change F) (Command F))) MongoError
  unfolding line_round numbered
  decoder_events none lines failure yield s = s
  decoder_events (some d) lines failure yield s =
      numbered (line_round d) yield 0 lines (failure_item failure) s

-- `startPosition`
unfoldable pub start_position : Position → Result StartError ℕ
unfolding start_position_for
start_position = start_position_for driver
