-- ===== src/Postgres/Replication.antt =====
-- postgres/decode/decoder/wire.go: the decoder over the replication protocol. The connection is the
-- messages that the server sends, what was sent to it, and the number of flushes that it still
-- takes; behind its last message ReceiveMessage gives an error. The context is not cancelled. The
-- clock is a parameter: the microseconds from 2000 on, by the number of messages sent before.
pub mod Acknowledge
pub mod Frames
pub mod Status
use go_dblog.Prelude.{
  ℕ, zero, suc, ◌+◌, Bool, true, false, ◌||◌, Option, none, some, List, [], ◌∷◌, ◌++◌, length, ltb,
  leb, if◌then◌else◌,
}
use go_dblog.Prelude.Text.{Bytes, is_empty, trim_space}
use go_dblog.Prelude.Result as Go
use go_dblog.Prelude.Result.{Result}
use go_dblog.Dblog.Types.{Source, Event}
use go_dblog.Postgres.Types.{Body, PgEvent, with_driver}
use go_dblog.Postgres.Columns.{LineError}
use go_dblog.Postgres.Line.{EventPlugin, parse_line}
use go_dblog.Postgres.Stream.{as_event}
use go_dblog.Postgres.Wire.{
  WireError, WireData, parse_wire_data, standby_status_data, start_replication_query,
}

-- The messages of pgproto3 that the decoder tells apart.
pub data Message : Type 0 where
  copy_data : Bytes → Message
  copy_both_response : Message
  error_response : Bytes → Message
  other_message : Message

pub data WireFailure : Type 0 where
  start_failed : WireFailure
  receive_failed : WireFailure
  status_failed : WireFailure
  server_error : Bytes → WireFailure
  bad_data : WireError → WireFailure
  bad_line : LineError → WireFailure

-- `WireLiveDecoder`, with its connection.
pub record WireDecoder (F : Type 0) : Type 0 where
  pub source : Source
  pub slot : Bytes
  pub plugins : List (Option (EventPlugin F))
  pub start_position : ℕ
  pub position : ℕ
  pub started : Bool
  pub sent : List Bytes
  pub writes_left : ℕ

-- What the sequence yields.
abbrev pub WireItem : Type 0 → Type 0
WireItem F = Option (Event (Body F) Bytes) × Option WireFailure

-- `Send` and `Flush`; none is an error.
unfoldable pub send_message : {F : Type 0} → Bytes → WireDecoder F → Option (WireDecoder F)
send_message bytes d = elim d.writes_left [
  | zero ↦ none
  | suc n ↦ some (record d { sent = d.sent ++ bytes ∷ []; writes_left = n })
]

-- The loop of `startReplication`: the messages behind the answer to the query.
pub data Started : Type 0 where
  streaming : List Message → Started
  refused : WireFailure → Started

unfoldable pub await_copy : List Message → Started
await_copy [] = refused start_failed
await_copy (copy_both_response ∷ messages) = streaming messages
await_copy (error_response e ∷ messages) = refused (server_error e)
await_copy (copy_data bytes ∷ messages) = await_copy messages
await_copy (other_message ∷ messages) = await_copy messages

-- `startReplication`
unfoldable pub start_replication :
    {F : Type 0} → WireDecoder F → List Message → WireDecoder F × Started
unfolding send_message await_copy start_replication_query
start_replication d messages = elim (send_message (start_replication_query d.slot) d) [
  | none ↦ (d, refused start_failed)
  | some d' ↦ (d', await_copy messages)
]

-- `sendStandbyStatus`, where the message has an LSN or asks for a reply.
unfoldable pub acknowledge :
    {F : Type 0} → (ℕ → ℕ) → WireData → WireDecoder F → Option (WireDecoder F)
unfolding send_message standby_status_data
acknowledge clock change d =
    if ltb 0 change.lsn || change.reply
    then send_message (standby_status_data change.lsn (clock (length d.sent)) change.reply) d
    else some d

-- The decoder, the consumer's state, and whether the loop goes on.
abbrev pub Turn : Type 0 → Type 0 → Type 0
Turn F S = WireDecoder F × S × Bool

abbrev pub go_on :
    {F S : Type 0} → Turn F S → (WireDecoder F → S → WireDecoder F × S) → WireDecoder F × S
go_on (d, s, true) next = next d s
go_on (d, s, false) next = (d, s)

module _ {F : Type 0} (parse_float : Bytes → Option F) (show_float : F → Bytes)
    (clock : ℕ → ℕ) where
  module _ {S : Type 0} where
    unfoldable pub yield_parsed :
        WireDecoder F → Result LineError (PgEvent F) → (S → WireItem F → S × Bool) → S → Turn F S
    unfolding as_event
    yield_parsed d Go.panic yield s = (d, s, false)
    yield_parsed d (Go.err e) yield s = (d, (yield s (none, some (bad_line e))).0, false)
    yield_parsed d (Go.ok e) yield s =
        let r = yield s (some (as_event show_float e), none) in (d, r.0, r.1)

    -- The trimmed line of the data.
    unfoldable pub yield_line : WireDecoder F → Bytes → (S → WireItem F → S × Bool) → S → Turn F S
    unfolding yield_parsed
    yield_line d line yield s =
        let d' = record d { position = d.position + 1 } in
        if is_empty line
        then (d, s, true)
        else if leb (d.position + 1) d.start_position
        then (d', s, true)
        else yield_parsed d' (parse_line parse_float d.source (d.position + 1) line d.plugins) yield
            s

    unfoldable pub yield_acknowledged :
        WireDecoder F
        → Option (WireDecoder F)
        → WireData
        → (S → WireItem F → S × Bool)
        → S
        → Turn F S
    unfolding yield_line
    yield_acknowledged d none change yield s = (d, (yield s (none, some status_failed)).0, false)
    yield_acknowledged d (some d') change yield s = yield_line d' (trim_space change.line) yield s

    unfoldable pub yield_wire_data :
        WireDecoder F → Result WireError WireData → (S → WireItem F → S × Bool) → S → Turn F S
    unfolding yield_acknowledged acknowledge
    yield_wire_data d Go.panic yield s = (d, s, false)
    yield_wire_data d (Go.err e) yield s = (d, (yield s (none, some (bad_data e))).0, false)
    yield_wire_data d (Go.ok change) yield s =
        yield_acknowledged d (acknowledge clock change d) change yield s

    -- `yieldCopyData`
    unfoldable pub yield_copy_data :
        WireDecoder F → Bytes → (S → WireItem F → S × Bool) → S → Turn F S
    unfolding yield_wire_data parse_wire_data
    yield_copy_data d bytes yield s = yield_wire_data d (parse_wire_data bytes) yield s

    -- The loop of `Events`.
    unfoldable pub receive_loop :
        WireDecoder F → List Message → (S → WireItem F → S × Bool) → S → WireDecoder F × S
    unfolding yield_copy_data
    receive_loop d [] yield s = (d, (yield s (none, some receive_failed)).0)
    receive_loop d (copy_data bytes ∷ messages) yield s =
        go_on (yield_copy_data d bytes yield s) (λ d' s'. receive_loop d' messages yield s')
    receive_loop d (error_response e ∷ messages) yield s =
        (d, (yield s (none, some (server_error e))).0)
    receive_loop d (copy_both_response ∷ messages) yield s = receive_loop d messages yield s
    receive_loop d (other_message ∷ messages) yield s = receive_loop d messages yield s

    unfoldable pub after_start :
        WireDecoder F × Started → (S → WireItem F → S × Bool) → S → WireDecoder F × S
    unfolding receive_loop
    after_start (d, refused e) yield s = (d, (yield s (none, some e)).0)
    after_start (d, streaming messages) yield s =
        receive_loop (record d { started = true }) messages yield s

    -- `WireLiveDecoder.Events`
    unfoldable pub wire_events :
        WireDecoder F → List Message → (S → WireItem F → S × Bool) → S → WireDecoder F × S
    unfolding receive_loop start_replication after_start
    wire_events d messages yield s =
        if d.started
        then receive_loop d messages yield s
        else after_start (start_replication d messages) yield s

-- The decoder of `NewWireLiveDecoder`, with the options applied.
unfoldable pub new_wire_decoder :
    {F : Type 0} → Source → Bytes → List (Option (EventPlugin F)) → ℕ → ℕ → WireDecoder F
new_wire_decoder source slot plugins start writes =
    let named = with_driver source in
    record {
      source = if is_empty source.name then record named { name = slot } else named;
      slot = slot;
      plugins = plugins;
      start_position = start;
      position = 0;
      started = false;
      sent = [];
      writes_left = writes;
    }
