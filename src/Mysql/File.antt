-- ===== src/Mysql/File.antt =====
-- mysql/decode/decoder/file_decoder.go with options.go, and `ReadNBytes` of mysql/common/util.go: the
-- events of a binary log file. The file behind its header is the bytes that are left. The body
-- decoders, the plugins and the CRC-32 are parameters. Times are nanoseconds from 1970 on.
pub mod Consume
pub mod Raw
use go_dblog.Prelude.{
  ℕ, zero, suc, ◌+◌, ◌-◌, ◌*◌, ◌/◌, ◌^◌, Bool, true, false, not, ◌&&◌, ◌||◌, Option, none, some,
  List, [], ◌∷◌, length, take, drop, ltb, leb, ◌==◌, if◌then◌else◌, ◌⊎◌, inl, inr,
}
use go_dblog.Prelude.Result.{Result, ok, err, panic, ◌>>=◌, guard}
use go_dblog.Prelude.Text.{Bytes}
use go_dblog.Dblog.Stream.{Seq}
use go_dblog.Mysql.Bytes.{EventError, Decoded, eof, unexpected_eof, unknown_event_type}
use go_dblog.Mysql.Header.{EventHeader, decode_event_header}
use go_dblog.Mysql.Util.{EventFrame, validate_data}
use go_dblog.Mysql.Description.{FmtDescEvent}
use go_dblog.Mysql.Registry.{
  EventRegistry, EventContext, registry_knows, context_knows, context_has_checksum,
  get_event_header_length, get_event_body_decoder,
}

-- `EventCompatibilityMode`
pub data CompatibilityMode : Type 0 where
  auto : CompatibilityMode
  strict : CompatibilityMode
  loose : CompatibilityMode

-- `EventPlugin`; its `Register` works on the registry in place.
pub record EventPlugin (D : Type 0) : Type 0 where
  pub matches_description : FmtDescEvent → Bool
  pub apply : EventRegistry D → EventRegistry D × Option EventError

-- `BinFileDecodeOption`, with positions that are not negative, and times where they are not zero.
pub record DecodeOption (D : Type 0) : Type 0 where
  pub start_pos : ℕ
  pub end_pos : ℕ
  pub start_time : Option ℕ
  pub end_time : Option ℕ
  pub compatibility_mode : CompatibilityMode
  pub event_plugins : List (EventPlugin D)

abbrev nanoseconds : ℕ
nanoseconds = 1000000000

unfoldable pub before_start : Option ℕ → ℕ → Bool
before_start none timestamp = false
before_start (some start) timestamp = ltb (timestamp * nanoseconds) start

unfoldable pub after_end : Option ℕ → ℕ → Bool
after_end none timestamp = false
after_end (some stop) timestamp = leb (stop / nanoseconds) timestamp

-- `NeedStart`
unfoldable pub need_start : {D : Type 0} → Option (DecodeOption D) → EventHeader → Bool
unfolding before_start
need_start none h = true
need_start (some o) h =
    not (not (o.start_pos == 0) && ltb h.log_pos (o.start_pos + h.event_size))
    && not (before_start o.start_time h.timestamp)

-- `NeedStop`
unfoldable pub need_stop : {D : Type 0} → Option (DecodeOption D) → EventHeader → Bool
unfolding after_end
need_stop none h = false
need_stop (some o) h =
    (not (o.end_pos == 0) && ltb o.end_pos h.log_pos) || after_end o.end_time h.timestamp

-- `BinFileDecoder`
pub record FileDecoder (D : Type 0) : Type 0 where
  pub input : Bytes
  pub option : Option (DecodeOption D)
  pub context : EventContext D
  pub plugins_applied : Bool

-- `ReadNBytes`: the bytes and what is left. Where there are too few, the last read has none and its
-- error is io.EOF.
unfoldable pub read_n_bytes : Bytes → ℕ → Decoded (Bytes × Bytes)
read_n_bytes s n = if leb n (length s) then ok (take n s, drop n s) else err eof

-- `knowsEventType`
unfoldable pub knows_type : {D : Type 0} → FileDecoder D → ℕ → Bool
unfolding registry_knows context_knows
knows_type d t = elim d.option [
  | none ↦ registry_knows t d.context.registry || context_knows d.context t
  | some o ↦ elim o.compatibility_mode [
    | loose ↦ true
    | strict ↦ registry_knows t d.context.registry
    | auto ↦ registry_knows t d.context.registry || context_knows d.context t
  ]
]

-- The loop of `applyEventPlugins`.
unfoldable pub apply_plugins :
    {D : Type 0} → List (EventPlugin D) → FmtDescEvent → EventRegistry D → Decoded (EventRegistry D)
apply_plugins [] fde r = ok r
apply_plugins (p ∷ ps) fde r =
    let passed = apply_plugins ps fde r in
    let applied = apply_plugins ps fde (p.apply r).0 in
    if not (p.matches_description fde)
    then passed
    else elim (p.apply r).1 [ none ↦ applied | some e ↦ err e ]

unfoldable pub with_registry : {D : Type 0} → FileDecoder D → EventRegistry D → FileDecoder D
with_registry d r = record d { context = record d.context { registry = r }; plugins_applied = true }

-- `applyEventPlugins`, with the decoder's option.
unfoldable pub apply_option :
    {D : Type 0} → Option (DecodeOption D) → FileDecoder D → FmtDescEvent → Decoded (FileDecoder D)
unfolding apply_plugins with_registry
apply_option none d fde = ok d
apply_option (some o) d fde =
    if d.plugins_applied || length o.event_plugins == 0
    then ok d
    else (do r ← apply_plugins o.event_plugins fde d.context.registry; ok (with_registry d r))

-- It is called with a body that is a format description.
unfoldable pub apply_event_plugins :
    {D : Type 0} → FileDecoder D → Option FmtDescEvent → Decoded (FileDecoder D)
unfolding apply_option
apply_event_plugins d none = ok d
apply_event_plugins d (some fde) = apply_option d.option d fde

-- The header at the beginning of the data, where its type is known.
unfoldable pub known_header : {D : Type 0} → FileDecoder D → Bytes → ℕ → Decoded EventHeader
unfolding decode_event_header knows_type
known_header d s size = do
  h ← decode_event_header s size
  _ ← guard (knows_type d h.event_type) (unknown_event_type h.event_type)
  ok h

-- `checkSkip`; 15 is FORMAT_DESCRIPTION_EVENT.
unfoldable pub check_skip : {D : Type 0} → FileDecoder D → EventHeader → Bool
unfolding need_start
check_skip d h = not (h.event_type == 15) && not (need_start d.option h)

-- `validate_data` with its error in front.
unfoldable pub checked_data :
    (Bytes → ℕ) → EventHeader → Bytes → Bool → Decoded (EventFrame × Bytes)
unfolding validate_data
checked_data crc32 h body has_checksum =
    let r =
      validate_data crc32 (record { header = some h; checksum_type = 0; checksum_val = [] }) body
        has_checksum in
    elim r.2 [ none ↦ ok (r.0, r.1) | some e ↦ err e ]

-- An event with its body of the parameter `B`.
pub record FileEvent (B : Type 0) : Type 0 where
  pub frame : EventFrame
  pub body : B

module _ {D B : Type 0} (crc32 : Bytes → ℕ)
    (decode_body : D ⊎ ℕ → EventContext D → ℕ → Bytes → Decoded (B × EventContext D))
    (as_description : B → Option FmtDescEvent) where
  -- What `DecodeEvent` and `DecodeRawEvent` do with the data of an event.
  unfoldable pub decode_data :
      FileDecoder D → EventHeader → EventFrame × Bytes → Decoded (FileEvent B × FileDecoder D)
  unfolding get_event_body_decoder apply_event_plugins
  decode_data d h (frame, body) = do
    r ←
        decode_body (get_event_body_decoder h.event_type d.context.registry) d.context h.event_type
          body
    let d' = record d { context = r.1 }
    d'' ← apply_event_plugins d' (as_description r.0)
    ok (record { frame = frame; body = r.0 }, d'')

  -- `DecodeEvent` behind the header: the event, none where it is skipped, and the decoder. A size
  -- below that of the header makes a slice of negative length.
  unfoldable pub decode_rest :
      FileDecoder D → EventHeader → ℕ → Bytes → Decoded (Option (FileEvent B) × FileDecoder D)
  unfolding read_n_bytes checked_data decode_data check_skip context_has_checksum
  decode_rest d h size rest = if ltb h.event_size size then panic else (do
    data_rest ← read_n_bytes rest (h.event_size - size)
    let d' = record d { input = data_rest.1 }
    checked ← checked_data crc32 h data_rest.0 (context_has_checksum d.context)
    if check_skip d h then ok (none, d') else (do r ← decode_data d' h checked; ok (some r.0, r.1)))

  -- `DecodeEvent`
  unfoldable pub decode_event : FileDecoder D → Decoded (Option (FileEvent B) × FileDecoder D)
  unfolding read_n_bytes known_header decode_rest get_event_header_length
  decode_event d = do
    let size = get_event_header_length d.context
    head ← read_n_bytes d.input size
    h ← known_header d head.0 size
    decode_rest d h size head.1

  -- `DecodeRawEvent`
  unfoldable pub decode_raw_event :
      FileDecoder D → Bytes → Decoded (Option (FileEvent B) × FileDecoder D)
  unfolding known_header checked_data decode_data check_skip context_has_checksum
      get_event_header_length
  decode_raw_event d raw = do
    let size = get_event_header_length d.context
    _ ← guard (leb size (length raw)) unexpected_eof
    h ← known_header d (take size raw) size
    _ ← guard (leb size h.event_size && leb h.event_size (length raw)) unexpected_eof
    if check_skip d h then ok (none, d) else (do
      checked ←
          checked_data crc32 h (drop size (take h.event_size raw)) (context_has_checksum d.context)
      r ← decode_data d h checked
      ok (some r.0, r.1))

  abbrev is_eof : EventError → Bool
  is_eof eof = true
  is_eof _ = false

  -- The option and the header that `NeedStop` is asked with; an event has a header.
  unfoldable pub stops_at : FileDecoder D → FileEvent B → Bool
  unfolding need_stop
  stops_at d e = elim e.frame.header [ none ↦ false | some h ↦ need_stop d.option h ]

  -- One round of the loop of `Events`, with what `DecodeEvent` returned and the rounds that follow;
  -- the second part of the result is whether there was a panic.
  unfoldable pub file_round :
      {S : Type 0}
      → (S → Option (FileEvent B) × Option EventError → S × Bool)
      → (FileDecoder D → S → Option (S × Bool))
      → S
      → Decoded (Option (FileEvent B) × FileDecoder D)
      → Option (S × Bool)
  unfolding stops_at
  file_round yield next s panic = some (s, true)
  file_round yield next s (err e) =
      some ((if is_eof e then s else (yield s (none, some e)).0), false)
  file_round yield next s (ok (none, d)) = next d s
  file_round yield next s (ok (some e, d)) =
      let r = yield s (some e, none) in
      if stops_at d e then some (s, false) else if r.1 then next d r.0 else some (r.0, false)

  -- The loop of `Events`, on fuel; none where the fuel is used up.
  unfoldable pub file_loop :
      {S : Type 0}
      → (S → Option (FileEvent B) × Option EventError → S × Bool)
      → ℕ
      → FileDecoder D
      → S
      → Option (S × Bool)
  unfolding decode_event file_round
  file_loop yield zero d s = none
  file_loop yield (suc fuel) d s =
      file_round yield (λ d' s'. file_loop yield fuel d' s') s (decode_event d)

  -- `Events`. An event takes a byte at least, so one round more than there are bytes is enough.
  unfoldable pub file_events :
      {S : Type 0}
      → FileDecoder D
      → (S → Option (FileEvent B) × Option EventError → S × Bool)
      → S
      → Option (S × Bool)
  unfolding file_loop
  file_events d yield s = file_loop yield (suc (length d.input)) d s
