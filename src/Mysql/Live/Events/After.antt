-- ===== src/Mysql/Live/Events/After.antt =====
-- A live decoder that starts at a position, against the events behind that position.
use go_dblog.Prelude.{
  ℕ, zero, suc, ◌+◌, ◌^◌, ◌<◌, ◌≡◌, refl, ap, ◌∙◌, Bool, true, not, ◌&&◌, Option, none, some, List,
  [], ◌∷◌, All, take, drop, length, ltb, leb, lt→ltb, ◌==◌, if◌then◌else◌, ◌⊎◌, arith, Bool-cases,
  inl, inr,
}
use go_dblog.Prelude.Int.{pos}
use go_dblog.Prelude.Result.{ok, err, panic, guard}
use go_dblog.Prelude.Text.{Bytes}
use go_dblog.Dblog.Types.{Source}
use go_dblog.Dblog.Stream.{take_round}
use go_dblog.Mysql.Bytes.{Decoded, le, uint, slice, byte_at, unexpected_eof, unknown_event_type}
use go_dblog.Mysql.Bytes.Post.{Yields, Yields-bind, Yields-ok, Yields-if, Yields-err, Yields-panic}
use go_dblog.Mysql.Header.{EventHeader, header_tail, header_fields, decode_event_header}
use go_dblog.Mysql.Description.{FmtDescEvent}
use go_dblog.Mysql.Registry.{EventContext, context_has_checksum, get_event_header_length}
use go_dblog.Mysql.File.{
  FileDecoder, knows_type, known_header, check_skip, checked_data, FileEvent, decode_data,
  decode_raw_event,
}
use go_dblog.Mysql.Util.{EventFrame}
use go_dblog.Mysql.Event.Raw.{checked-Kept, data-frame}
use go_dblog.Mysql.Event.{DblogEvent, position, position_string}
use go_dblog.Mysql.Backend.{parse_position, after_round, events_after_position}
use go_dblog.Mysql.Backend.Checkpoints.{parse_position-string}
use go_dblog.Mysql.Live.Events.{
  LiveDecoder, Streamer, LiveFailure, decoded_round, live_round, live_loop, live_events,
}

-- `PositionString`
abbrev pub string_of : {B : Type 0} → DblogEvent B → Bytes
string_of e = position_string (position e)

-- The consumer behind `eventsAfterPosition`.
abbrev behind :
    {B S : Type 0}
    → ℕ
    → (S → Option (DblogEvent B) × Option LiveFailure → S × Bool)
    → S
    → Option (DblogEvent B) × Option LiveFailure
    → S × Bool
behind start yield s item = take_round yield s (after_round string_of start item)

log_position :
    {B : Type 0} (source : Source) (e : FileEvent B) (h : EventHeader)
    → e.frame.header ≡ some h
    → position (record { source = source; event = some e })
      ≡ record { file = source.name; pos = h.log_pos }
unfolding position
log_position source e h k = rw k refl

-- The event of a header whose log position is within int64.
kept_event :
    {B S : Type 0} (source : Source) (start : ℕ)
    (yield : S → Option (DblogEvent B) × Option LiveFailure → S × Bool) (s : S) (e : FileEvent B)
    (h : EventHeader)
    → e.frame.header ≡ some h
    → h.log_pos < 2 ^ 63
    → behind start yield s (some (record { source = source; event = some e }), none) ≡ (
        if leb h.log_pos start
        then (s, true)
        else yield s (some (record { source = source; event = some e }), none))
unfolding after_round take_round
kept_event source start yield s e h k small =
    let read : parse_position (string_of (record { source = source; event = some e }))
        ≡ some (pos h.log_pos) =
      ap (λ p. parse_position (position_string p)) (log_position source e h k)
      ∙ parse_position-string source.name h.log_pos small in
    elim (Bool-cases (leb h.log_pos start)) [
      | inl b ↦ rw (after_round, read, b) refl
      | inr b ↦ rw (after_round, read, b) refl
    ]

abbrev pub AreBytes : Bytes → Type 0
AreBytes s = All (λ b. b < 256) s

-- A number of four bytes.
le_four : (s : Bytes) → AreBytes s → le (take 4 s) < 2 ^ 32
unfolding le
le_four [] h = omega arith
le_four (a ∷ []) (h, _) = omega (arith, h)
le_four (a ∷ b ∷ []) (h, (i, _)) = omega (arith, h, i)
le_four (a ∷ b ∷ c ∷ []) (h, (i, (j, _))) = omega (arith, h, i, j)
le_four (a ∷ b ∷ c ∷ d ∷ s) (h, (i, (j, (k, _)))) = omega (arith, h, i, j, k)

take-AreBytes : (n : ℕ) (s : Bytes) → AreBytes s → AreBytes (take n s)
take-AreBytes zero s h = tt
take-AreBytes (suc n) [] h = tt
take-AreBytes (suc n) (c ∷ s) (p, h) = (p, take-AreBytes n s h)

drop-AreBytes : (n : ℕ) (s : Bytes) → AreBytes s → AreBytes (drop n s)
drop-AreBytes zero s h = h
drop-AreBytes (suc n) [] h = tt
drop-AreBytes (suc n) (c ∷ s) (p, h) = drop-AreBytes n s h

slice-Yields : (s : Bytes) (i n : ℕ) → Yields (λ (bs : Bytes). bs ≡ take n (drop i s)) (slice s i n)
unfolding slice
slice-Yields s i n = Yields-if (leb (i + n) (length s)) (Yields-ok _ refl) Yields-panic

uint-Yields : (s : Bytes) (i : ℕ) → AreBytes s → Yields (λ n. n < 2 ^ 32) (uint 4 s i)
unfolding uint
uint-Yields s i h = Yields-bind (slice s i 4) λ bs e.
    Yields-ok _ (rw ((slice-Yields s i 4).value bs e) (le_four (drop i s) (drop-AreBytes i s h)))

tail-Yields :
    (s : Bytes) (size : ℕ) → AreBytes s → Yields (λ (t : ℕ × ℕ). t.0 < 2 ^ 32) (header_tail s size)
unfolding header_tail
tail-Yields s size h =
    Yields-if (ltb 13 size)
      (Yields-bind (uint 4 s 13)
        λ p e. Yields-bind (uint 2 s 17) λ f _. Yields-ok _ ((uint-Yields s 13 h).value p e))
      (Yields-ok _ (omega arith))

fields-Yields :
    (s : Bytes) (size : ℕ)
    → AreBytes s
    → Yields (λ (h : EventHeader). h.log_pos < 2 ^ 32) (header_fields s size)
unfolding header_fields
fields-Yields s size h = Yields-bind (uint 4 s 0) λ _ _. Yields-bind (byte_at s 4) λ _ _.
    Yields-bind (uint 4 s 5) λ _ _.
      Yields-bind (uint 4 s 9) λ _ _.
        Yields-bind (header_tail s size) λ t e. Yields-ok _ ((tail-Yields s size h).value t e)

header-Yields :
    (s : Bytes) (size : ℕ)
    → AreBytes s
    → Yields (λ (h : EventHeader). h.log_pos < 2 ^ 32) (decode_event_header s size)
unfolding decode_event_header
header-Yields s size h =
    Yields-if (not (size == 13) && ltb size 19) (Yields-err _)
      (Yields-if (ltb (length s) size) (Yields-err _) (fields-Yields s size h))

-- What is received is bytes.
unfoldable pub Received : Option Bytes → Type 0
Received none = Unit {0}
Received (some raw) = AreBytes raw

module _ {D B : Type 0} (crc32 : Bytes → ℕ)
    (decode_body : D ⊎ ℕ → EventContext D → ℕ → Bytes → Decoded (B × EventContext D))
    (as_description : B → Option FmtDescEvent) where
  known-Yields :
      (d : FileDecoder D) (s : Bytes) (size : ℕ)
      → AreBytes s
      → Yields (λ (h : EventHeader). h.log_pos < 2 ^ 32) (known_header d s size)
  unfolding known_header
  known-Yields d s size h = Yields-bind (decode_event_header s size) λ head e.
      Yields-bind (guard (knows_type d head.event_type) (unknown_event_type head.event_type))
        λ _ _. Yields-ok head ((header-Yields s size h).value head e)

  -- An event that is returned has a header, with a log position of 32 bits.
  unfoldable Placed : Option (FileEvent B) → Type 0
  Placed none = Unit {0}
  Placed (some e) = (h : EventHeader) × (e.frame.header ≡ some h) × (h.log_pos < 2 ^ 32)

  raw-Placed :
      (d : FileDecoder D) (s : Bytes)
      → AreBytes s
      → Yields
          (λ (r : Option (FileEvent B) × FileDecoder D). Placed r.0)
          (decode_raw_event crc32 decode_body as_description d s)
  unfolding decode_raw_event Placed
  raw-Placed d s bytes =
      let size = get_event_header_length d.context in
      Yields-bind (guard (leb size (length s)) unexpected_eof) λ _ _.
        Yields-bind (known_header d (take size s) size) λ h e1.
          Yields-bind (guard (leb size h.event_size && leb h.event_size (length s)) unexpected_eof)
            λ _ _. Yields-if (check_skip d h) (Yields-ok _ tt) (
              Yields-bind
                (checked_data crc32 h (drop size (take h.event_size s))
                  (context_has_checksum d.context))
                λ c e3. Yields-bind (decode_data crc32 decode_body as_description d h c) λ r e4.
                  let frame = (data-frame crc32 decode_body as_description d h c).value r e4 in
                  let (header, _) = (checked-Kept crc32 h _ _).value c e3 in
                  Yields-ok _ (
                    h,
                    ap (λ (f : EventFrame). f.header) frame ∙ header,
                    (known-Yields d (take size s) size (take-AreBytes size s bytes)).value h e1,
                  ))

  module _ (source : Source) (start : ℕ) (positive : 0 < start) {S : Type 0}
      (yield : S → Option (DblogEvent B) × Option LiveFailure → S × Bool) where
    round-behind :
        (next next' : FileDecoder D → S → S × Bool) (s : S)
        (m : Decoded (Option (FileEvent B) × FileDecoder D))
        → ((d : FileDecoder D) (s : S) → next d s ≡ next' d s)
        → Yields (λ (r : Option (FileEvent B) × FileDecoder D). Placed r.0) m
        → decoded_round crc32 decode_body as_description source 0 (behind start yield) next s m
          ≡ decoded_round crc32 decode_body as_description source start yield next' s m
    unfolding decoded_round after_round take_round Placed
    round-behind next next' s panic same p = refl
    round-behind next next' s (err e) same p = refl
    round-behind next next' s (ok (none, d)) same p = same d s
    round-behind next next' s (ok (some e, d)) same p =
        let (h, k, small) = p.value (some e, d) refl in
        let kept = kept_event source start yield s e h k (omega (arith, small)) in
        let on : ltb 0 start ≡ true = lt→ltb 0 start positive in
        let item : Option (DblogEvent B) × Option LiveFailure =
          (some (record { source = source; event = some e }), none) in
        elim (Bool-cases (leb h.log_pos start)) [
          | inl b ↦ rw (k, kept, b, on) (same d s)
          | inr b ↦ rw (k, kept, b, on, same d (yield s item).0) refl
        ]

    loop-behind :
        (cancelled : Bool) (d : FileDecoder D) (xs : List (Option Bytes)) (s : S)
        → All Received xs
        → live_loop crc32 decode_body as_description source 0 (behind start yield) cancelled d xs s
          ≡ live_loop crc32 decode_body as_description source start yield cancelled d xs s
    unfolding live_loop live_round Received after_round take_round
    loop-behind cancelled d [] s h = refl
    loop-behind cancelled d (none ∷ xs) s (_, h) = loop-behind cancelled d xs s h
    loop-behind cancelled d (some [] ∷ xs) s (_, h) = loop-behind cancelled d xs s h
    loop-behind cancelled d (some (b ∷ raw) ∷ xs) s (bytes, h) =
        round-behind _ _ s (decode_raw_event crc32 decode_body as_description d (b ∷ raw))
          (λ d' s'. loop-behind cancelled d' xs s' h) (raw-Placed d (b ∷ raw) bytes)

  -- A live decoder that starts at a position that is not 0 yields, of a stream of bytes, what
  -- `eventsAfterPosition` leaves of the events that the decoder without a start position yields.
  pub live_events-after :
      {S : Type 0} (d : LiveDecoder D) (streamer : Streamer)
      (yield : S → Option (DblogEvent B) × Option LiveFailure → S × Bool) (s : S)
      → 0 < d.start_position
      → All Received streamer.received
      → events_after_position string_of
          (live_events crc32 decode_body as_description (record d { start_position = 0 }) streamer)
          d.start_position
          yield
          s
        ≡ live_events crc32 decode_body as_description d streamer yield s
  unfolding events_after_position live_events
  live_events-after d streamer yield s positive bytes =
      loop-behind d.source d.start_position positive yield streamer.cancelled d.decoder
        streamer.received s bytes
