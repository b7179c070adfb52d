-- ===== src/Tests/Redis.antt =====
-- The theorems on redis/ at concrete inputs.
use go_dblog.Prelude.{
  ℕ, ◌≡◌, refl, Bool, true, Option, none, some, List, [], ◌∷◌, ◌++◌, drop, arith,
}
use go_dblog.Prelude.Text.{Bytes, codes, to_lower, lower, same}
use go_dblog.Prelude.Decimal.{atoi}
use go_dblog.Prelude.Result as Go
use go_dblog.Dblog.Types.{Source, Event, checkpoint_of}
use go_dblog.Dblog.Stream.{of_list}
use go_dblog.Dblog.Stream.Spec.{with_error}
use go_dblog.Redis.Reader.{Error, ok}
use go_dblog.Redis.Command.{Command}
use go_dblog.Redis.Resp.{parse_command, encode_command}
use go_dblog.Redis.Resp.Wire.{parse_command-encode}
use go_dblog.Redis.Stream.{new_decoder, new_event, as_event, decoder_events, start_position}
use go_dblog.Redis.Stream.Log.{Log, ends, holds, items, decoder_events-Log}
use go_dblog.Redis.Stream.Resume.{numbered, resume_after}

abbrev raw_a : Bytes
raw_a = codes "*1\r\n$1\r\nA\r\n"

abbrev raw_b : Bytes
raw_b = codes "*2\r\n$1\r\nb\r\n$1\r\nc\r\n"

abbrev input : Bytes
input = raw_a ++ raw_b

abbrev command_a : Command
command_a = record { name = codes "a"; args = [] }

abbrev command_b : Command
command_b = record { name = codes "b"; args = codes "c" ∷ [] }

abbrev commands : List (Command × Bytes)
commands = (command_a, raw_a) ∷ (command_b, raw_b) ∷ []

two_commands : Log input commands none
unfolding parse_command atoi same lower
two_commands = holds refl (holds refl (ends refl refl))

abbrev source : Source
source = record { driver = codes "redis"; name = codes "aof" }

-- A consumer that keeps what it gets.
abbrev keep :
    List (Option (Event Command Command) × Option Error)
    → Option (Event Command Command) × Option Error
    → List (Option (Event Command Command) × Option Error) × Bool
keep s i = (i ∷ s, true)

abbrev event_a : Option (Event Command Command)
event_a = some (as_event (new_event (new_decoder source [] 0).source 1 raw_a command_a))

resume_after_example :
    (n : ℕ) × (start_position (checkpoint_of event_a).position ≡ Go.ok n)
    × (decoder_events (some (new_decoder source [] n)) input keep []
        ≡ of_list
            (with_error none (drop 1 (numbered (new_decoder source [] 0).source 0 commands)) none)
            keep
            [])
unfolding numbered
resume_after_example = resume_after source keep [] 0 event_a two_commands refl (omega arith)

decoder_events-Log_example :
    decoder_events (some (new_decoder source [] 1)) input keep []
    ≡ of_list (items (new_decoder source [] 1) 0 commands none) keep []
decoder_events-Log_example = decoder_events-Log (new_decoder source [] 1) keep [] two_commands

parse_command-encode_example :
    parse_command
      (record { input = encode_command (codes "SET" ∷ codes "k" ∷ []) ++ codes "*"; raw = [] })
    ≡ ok
        (record { name = to_lower (codes "SET"); args = codes "k" ∷ [] })
        (record { input = codes "*"; raw = encode_command (codes "SET" ∷ codes "k" ∷ []) })
parse_command-encode_example =
    parse_command-encode b'S' (codes "ET") (codes "k" ∷ []) (codes "*") (omega arith) (omega arith)
