-- ===== src/Mysql/Live/Events.antt =====
-- The live decoder of mysql/decode/decoder/live.go: how it starts, and its events. A stream is the
-- events that `GetEvent` returns in front of an error. A position of the options is not negative.
pub mod After
pub mod Start
use go_dblog.Prelude.{
  ℕ, ◌^◌, Bool, true, false, not, ◌&&◌, Option, none, some, List, [], ◌∷◌, ltb, leb, ◌==◌,
  if◌then◌else◌, ◌⊎◌,
}
use go_dblog.Prelude.Result.{Result, ok, err, panic, ◌>>=◌}
use go_dblog.Prelude.Text.{Bytes, is_empty}
use go_dblog.Dblog.Types.{Source}
use go_dblog.Mysql.Bytes.{EventError, Decoded}
use go_dblog.Mysql.Description.{FmtDescEvent}
use go_dblog.Mysql.Registry.{EventRegistry, EventContext, new_event_context}
use go_dblog.Mysql.File.{DecodeOption, FileDecoder, FileEvent, decode_raw_event}
use go_dblog.Mysql.Event.{DblogEvent, source_driver, header_of}
use go_dblog.Mysql.Live.{
  LiveConfig, LiveMetadata, LiveError, position_out_of_range, sync_failed, Url, parse_live_dsn,
  Connection, or_fail, load_live_metadata, default_live_description,
}

pub record LiveDecoder (D : Type 0) : Type 0 where
  pub source : Source
  pub decoder : FileDecoder D
  pub start_position : ℕ

-- The position of the checkpoint, where the DSN has none.
unfoldable pub start_at : LiveConfig → ℕ → Result LiveError LiveConfig
start_at cfg start =
    if cfg.pos == 0 && ltb 0 start
    then if leb (2 ^ 32) start
      then err (position_out_of_range start)
      else ok (record cfg { pos = start })
    else ok cfg

-- The file and the position of the server, where there is none.
unfoldable pub completed : LiveConfig → LiveMetadata → LiveConfig
completed cfg meta = record cfg {
  file = if is_empty cfg.file then meta.file else cfg.file;
  pos = if cfg.pos == 0 then meta.pos else cfg.pos;
}

-- The decoder of a stream that is started.
unfoldable pub live_decoder :
    {D : Type 0}
    → EventRegistry D
    → Source
    → DecodeOption D
    → LiveConfig
    → LiveMetadata
    → LiveDecoder D
unfolding default_live_description new_event_context source_driver
live_decoder registry source option cfg meta = record {
  source = record { driver = source_driver source; name = cfg.file };
  decoder = record {
    input = [];
    option = some (record option { start_pos = 0 });
    context = record (new_event_context registry) {
      description = some (default_live_description (record meta { has_checksum = false }));
    };
    plugins_applied = false;
  };
  start_position = option.start_pos;
}

-- `NewLiveDecoder`, with the options applied; `start_sync` is `StartSync` of a syncer with the
-- configuration, at its file and position.
unfoldable pub new_live_decoder :
    {D A : Type 0}
    → (Bytes → Option Url)
    → (Bytes → ℕ → Bytes)
    → (LiveConfig → Option Connection)
    → (LiveConfig → Option A)
    → EventRegistry D
    → Source
    → Bytes
    → DecodeOption D
    → Result LiveError (LiveDecoder D × A)
unfolding parse_live_dsn start_at load_live_metadata completed or_fail live_decoder
new_live_decoder parse_url join_host_port connect start_sync registry source dsn option = do
  parsed ← parse_live_dsn parse_url join_host_port dsn
  cfg ← start_at parsed option.start_pos
  meta ← load_live_metadata connect cfg
  streamer ← or_fail sync_failed (start_sync (completed cfg meta))
  ok (live_decoder registry source option (completed cfg meta) meta, streamer)

-- What `GetEvent` returns: the raw data of events, a nil event as none, and then an error, where the
-- context may be cancelled.
pub record Streamer : Type 0 where
  pub received : List (Option Bytes)
  pub cancelled : Bool

pub data LiveFailure : Type 0 where
  stream_failed : LiveFailure
  decode_failed : EventError → LiveFailure

module _ {D B : Type 0} (crc32 : Bytes → ℕ)
    (decode_body : D ⊎ ℕ → EventContext D → ℕ → Bytes → Decoded (B × EventContext D))
    (as_description : B → Option FmtDescEvent) (source : Source) (start : ℕ) where
  -- The end of the loop's body, with what `DecodeRawEvent` returned and the rounds that follow; the
  -- second part of the result is whether there was a panic.
  unfoldable pub decoded_round :
      {S : Type 0}
      → (S → Option (DblogEvent B) × Option LiveFailure → S × Bool)
      → (FileDecoder D → S → S × Bool)
      → S
      → Decoded (Option (FileEvent B) × FileDecoder D)
      → S × Bool
  decoded_round yield next s panic = (s, true)
  decoded_round yield next s (err e) = ((yield s (none, some (decode_failed e))).0, false)
  decoded_round yield next s (ok (none, d)) = next d s
  decoded_round yield next s (ok (some e, d)) = elim e.frame.header [
    | none ↦ next d s
    | some h ↦
        let r = yield s (some (record { source = source; event = some e }), none) in
        if ltb 0 start && leb h.log_pos start
        then next d s
        else if r.1
        then next d r.0
        else (r.0, false)
  ]

  -- The loop's body with what `GetEvent` returned.
  unfoldable pub live_round :
      {S : Type 0}
      → (S → Option (DblogEvent B) × Option LiveFailure → S × Bool)
      → (FileDecoder D → S → S × Bool)
      → FileDecoder D
      → S
      → Option Bytes
      → S × Bool
  unfolding decode_raw_event decoded_round
  live_round yield next d s none = next d s
  live_round yield next d s (some []) = next d s
  live_round yield next d s (some (b ∷ raw)) =
      decoded_round yield next s (decode_raw_event crc32 decode_body as_description d (b ∷ raw))

  unfoldable pub live_loop :
      {S : Type 0}
      → (S → Option (DblogEvent B) × Option LiveFailure → S × Bool)
      → Bool
      → FileDecoder D
      → List (Option Bytes)
      → S
      → S × Bool
  unfolding live_round
  live_loop yield cancelled d [] s =
      (if cancelled then s else (yield s (none, some stream_failed)).0, false)
  live_loop yield cancelled d (x ∷ xs) s =
      live_round yield (λ d' s'. live_loop yield cancelled d' xs s') d s x

-- `LiveDecoder.Events`
unfoldable pub live_events :
    {D B S : Type 0}
    → (Bytes → ℕ)
    → (D ⊎ ℕ → EventContext D → ℕ → Bytes → Decoded (B × EventContext D))
    → (B → Option FmtDescEvent)
    → LiveDecoder D
    → Streamer
    → (S → Option (DblogEvent B) × Option LiveFailure → S × Bool)
    → S
    → S × Bool
unfolding live_loop
live_events crc32 decode_body as_description d streamer yield s =
    live_loop crc32 decode_body as_description d.source d.start_position yield streamer.cancelled
      d.decoder streamer.received s
