-- ===== src/Tests/MysqlFile.antt =====
-- The theorems on the registry and the file decoder of mysql/ at concrete inputs.
use go_dblog.Prelude.{
  ℕ, suc, ◌≡◌, ◌≢◌, refl, Bool, true, false, Option, none, some, List, [], ◌∷◌, ◌++◌, drop, take,
  arith, ◌⊎◌,
}
use go_dblog.Prelude.Text.{Bytes, codes}
use go_dblog.Prelude.Result.{ok}
use go_dblog.Mysql.Bytes.{Decoded, EventError, put_le, uint, le, slice}
use go_dblog.Mysql.Header.{EventHeader}
use go_dblog.Mysql.Description.{FmtDescEvent}
use go_dblog.Mysql.Registry.{
  EventRegistry, RegistryError, event_type_registered, EventContext, new_event_registry,
  new_event_context, register_decoder, get_event_header_length,
}
use go_dblog.Mysql.Registry.Laws.{Owned, Ends, register_decoder-Ends}
use go_dblog.Mysql.File.{
  FileDecoder, known_header, check_skip, decode_event, decode_raw_event, FileEvent, file_events,
}
use go_dblog.Mysql.File.Consume.{front_header, Took, decode_event-Took, file_events-ends}
use go_dblog.Mysql.File.Raw.{with_input, onto, decode_event-raw}

-- Decoders are their lists of event types.
abbrev own_types : List ℕ → List ℕ
own_types ts = ts

abbrev pub empty_registry : EventRegistry (List ℕ)
empty_registry = new_event_registry

empty-Owned : Owned own_types empty_registry
unfolding Owned new_event_registry
empty-Owned t d e = absurd cc

abbrev after_register : EventRegistry (List ℕ) × Option RegistryError
after_register = register_decoder own_types (some (2 ∷ 16 ∷ [])) empty_registry

first_Ends :
    Owned own_types after_register.0
    × Ends own_types empty_registry after_register.0 (some (2 ∷ 16 ∷ [])) after_register.1
first_Ends = register_decoder-Ends own_types (some (2 ∷ 16 ∷ [])) empty_registry empty-Owned

-- A second decoder for the event type 16.
abbrev after_second : EventRegistry (List ℕ) × Option RegistryError
after_second = register_decoder own_types (some (3 ∷ 16 ∷ [])) after_register.0

register_decoder-Ends_example :
    Owned own_types after_second.0
    × Ends own_types after_register.0 after_second.0 (some (3 ∷ 16 ∷ [])) after_second.1
register_decoder-Ends_example =
    register_decoder-Ends own_types (some (3 ∷ 16 ∷ [])) after_register.0 first_Ends.0

second_refused : after_second.1 ≡ some (event_type_registered 16)
unfolding register_decoder new_event_registry
second_refused = refl

-- The body of an event is its data.
abbrev pub body_of :
    List ℕ ⊎ ℕ → EventContext (List ℕ) → ℕ → Bytes → Decoded (Bytes × EventContext (List ℕ))
body_of d c t s = ok (s, c)

abbrev pub no_description_of : Bytes → Option FmtDescEvent
no_description_of s = none

abbrev pub no_sum : Bytes → ℕ
no_sum s = 0

-- A STOP event of 21 bytes, and the beginning of another one.
abbrev pub header_bytes : Bytes
header_bytes = put_le 4 1 ++ (3 ∷ (put_le 4 2 ++ (put_le 4 21 ++ (put_le 4 30 ++ put_le 2 0))))

abbrev pub stop_header : EventHeader
stop_header = record {
  timestamp = 1;
  event_type = 3;
  server_id = 2;
  event_size = 21;
  log_pos = 30;
  flag = 0;
  base = header_bytes;
}

abbrev log : Bytes
log = header_bytes ++ (codes "ab" ++ codes "next")

abbrev pub file : FileDecoder (List ℕ)
file = record {
  input = log;
  option = none;
  context = new_event_context empty_registry;
  plugins_applied = false;
}

abbrev pub stop_event : FileEvent Bytes
stop_event = record {
  frame = record { header = some stop_header; checksum_type = 0; checksum_val = [] };
  body = codes "ab";
}

stop_eq :
    decode_event no_sum body_of no_description_of file
    ≡ ok (some stop_event, with_input (codes "next") file)
unfolding decode_event put_le le uint slice new_event_context get_event_header_length
    new_event_registry
stop_eq = refl

decode_event-Took_example :
    (h : EventHeader) × (front_header file ≡ ok h) × Took file h (with_input (codes "next") file)
decode_event-Took_example = decode_event-Took no_sum body_of no_description_of file stop_eq

abbrev count : ℕ → Option (FileEvent Bytes) × Option EventError → ℕ × Bool
count n item = (suc n, true)

file_events-ends_example : file_events no_sum body_of no_description_of file count 0 ≢ none
file_events-ends_example = file_events-ends no_sum body_of no_description_of count file 0

stop_known : known_header file (take 19 log) 19 ≡ ok stop_header
unfolding known_header put_le le uint slice new_event_context new_event_registry
stop_known = refl

stop_kept : check_skip file stop_header ≡ false
unfolding check_skip
stop_kept = refl

decode_event-raw_example :
    decode_event no_sum body_of no_description_of (with_input log file)
    ≡ onto (drop 21 log) (decode_raw_event no_sum body_of no_description_of file log)
unfolding get_event_header_length new_event_context put_le
decode_event-raw_example =
    decode_event-raw no_sum body_of no_description_of file log stop_header (omega arith)
      (omega arith) stop_known stop_kept
