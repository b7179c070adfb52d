-- ===== src/Redis/Stream.antt =====
-- redis/decode/decoder/decoder.go, redis/decode/events/types/event.go, and `startPosition` of
-- redis/backend/backend.go: the events of an AOF stream, and how a checkpoint resumes it.
pub mod Log
pub mod Resume
use go_dblog.Prelude.{
  ℕ, zero, suc, ◌+◌, Bool, true, false, not, ◌&&◌, Option, none, some, List, [], ◌∷◌, leb,
  if◌then◌else◌, length,
}
use go_dblog.Prelude.Text.{Bytes, codes, is_empty}
use go_dblog.Prelude.Decimal.{itoa}
use go_dblog.Prelude.Result as Go
use go_dblog.Prelude.Result.{Result}
use go_dblog.Dblog.Types.{Source, Position, Event}
use go_dblog.Dblog.Stream.{Seq}
use go_dblog.Dblog.Start.{StartError, start_position_for}
use go_dblog.Redis.Reader.{Reader, Error, eof, invalid_resp, plugin_failed, Outcome, ok, err, panic}
use go_dblog.Redis.Command.{Command, reverse_command}
use go_dblog.Redis.Resp.{parse_command}

abbrev pub driver : Bytes
driver = codes "redis"

-- A command plugin. `apply` works on the command in place; `false` is an error.
pub record CommandPlugin : Type 0 where
  pub plugin_name : Bytes
  pub matches_command : Command → Bool
  pub apply : Command → Command × Bool

-- `applyCommandPlugins`; a nil plugin is `none`.
unfoldable pub apply_command_plugins : Command → List (Option CommandPlugin) → Result Error Command
apply_command_plugins c [] = Go.ok c
apply_command_plugins c (none ∷ ps) = apply_command_plugins c ps
apply_command_plugins c (some p ∷ ps) =
    let passed = apply_command_plugins c ps in
    let applied = apply_command_plugins (p.apply c).0 ps in
    if not (p.matches_command c)
    then passed
    else if (p.apply c).1
    then applied
    else Go.err (plugin_failed p.plugin_name)

-- `types.Event`
pub record RedisEvent : Type 0 where
  pub source : Source
  pub position : ℕ
  pub raw : Bytes
  pub command : Command

abbrev with_driver : Source → Source
with_driver s = if is_empty s.driver then record s { driver = driver } else s

unfoldable pub new_event : Source → ℕ → Bytes → Command → RedisEvent
new_event s position raw c = record {
  source = with_driver s;
  position = position;
  raw = raw;
  command = c;
}

-- The methods of `types.Event`.
unfoldable pub as_event : RedisEvent → Event Command Command
as_event e = record {
  source_driver = (with_driver e.source).driver;
  source_name = e.source.name;
  position_driver = driver;
  position_string = itoa e.position;
  kind = e.command.name;
  raw = e.raw;
  body = e.command;
  reverse = some (reverse_command e.command);
}

pub record Decoder : Type 0 where
  pub source : Source
  pub plugins : List (Option CommandPlugin)
  pub start_position : ℕ

-- `NewDecoder`, with the options applied.
unfoldable pub new_decoder : Source → List (Option CommandPlugin) → ℕ → Decoder
new_decoder s ps start = record { source = with_driver s; plugins = ps; start_position = start }

abbrev pub is_eof : Error → Bool
is_eof eof = true
is_eof _ = false

module _ {S : Type 0} (d : Decoder)
    (yield : S → Option (Event Command Command) × Option Error → S × Bool) where
  -- The error branch of the loop.
  unfoldable pub stop_at : Error → S → S
  stop_at e s = if not (is_eof e) then (yield s (none, some e)).0 else s

  -- The `for` loop of `Events`, from a position and the input that is left. Each round takes a byte
  -- at least, so one round more than there are bytes is enough fuel.
  unfoldable pub events_loop : ℕ → ℕ → Bytes → S → S
  unfolding stop_at
  events_loop zero position input s = s
  events_loop (suc fuel) position input s =
      elim (parse_command (record { input = input; raw = [] })) [
        | panic ↦ s
        | err e r ↦ stop_at e s
        | ok c r ↦ elim (leb (position + 1) d.start_position) [
          | true ↦ events_loop fuel (position + 1) r.input s
          | false ↦ elim (apply_command_plugins c d.plugins) [
            | Go.panic ↦ s
            | Go.err e ↦ (yield s (none, some e)).0
            | Go.ok c' ↦
                let item : Option (Event Command Command) × Option Error =
                  (some (as_event (new_event d.source (position + 1) r.raw c')), none) in
                elim (yield s item).1 [
                  | true ↦ events_loop fuel (position + 1) r.input (yield s item).0
                  | false ↦ (yield s item).0
                ]
          ]
        ]
      ]

-- `Decoder.Events` over a stream; a nil decoder is `none`.
unfoldable pub decoder_events :
    {S : Type 0} → Option Decoder → Bytes → Seq S (Option (Event Command Command)) Error
decoder_events none input yield s = s
decoder_events (some d) input yield s = events_loop d yield (suc (length input)) 0 input s

-- `startPosition`
unfoldable pub start_position : Position → Result StartError ℕ
unfolding start_position_for
start_position = start_position_for driver
