-- ===== src/Mysql/File/Consume.antt =====
-- How much of the file an event takes, and the fuel of the loop over the events.
use go_dblog.Prelude.{
  ℕ, zero, suc, ◌+◌, ◌-◌, ◌≤◌, ◌<◌, ◌≡◌, ◌≢◌, refl, sym, ap, ◌∙◌, Bool, true, false, Option, none,
  some, length, length-drop, take, drop, ltb, leb, ◌==◌, ◌||◌, if◌then◌else◌, arith, ◌⊎◌,
}
use go_dblog.Prelude.Result.{ok, err, panic, guard, >>=-eq-ok}
use go_dblog.Prelude.Text.{Bytes}
use go_dblog.Mysql.Bytes.{EventError, Decoded, unknown_event_type, eof}
use go_dblog.Mysql.Bytes.Post.{
  Yields, Yields-bind, Yields-ok, Yields-if, Yields-when, Yields-err, Yields-panic,
}
use go_dblog.Mysql.Bytes.At.{drop-drop}
use go_dblog.Mysql.Header.{EventHeader, decode_event_header}
use go_dblog.Mysql.Util.{EventFrame}
use go_dblog.Mysql.Description.{FmtDescEvent}
use go_dblog.Mysql.Registry.{
  EventContext, context_has_checksum, get_event_header_length, get_event_body_decoder,
}
use go_dblog.Mysql.File.{
  DecodeOption, FileDecoder, read_n_bytes, knows_type, apply_plugins, with_registry, apply_option,
  apply_event_plugins, known_header, check_skip, checked_data, FileEvent, decode_data, decode_rest,
  decode_event, file_round, stops_at, file_loop, file_events,
}

header_size :
    (s : Bytes) (size : ℕ) → Yields (λ (h : EventHeader). 1 ≤ size) (decode_event_header s size)
unfolding decode_event_header
header_size s zero = Yields-err _
header_size s (suc n) = record { value = λ h e. omega arith }

known_header-size :
    {D : Type 0} (d : FileDecoder D) (s : Bytes) (size : ℕ)
    → Yields (λ (h : EventHeader). 1 ≤ size) (known_header d s size)
unfolding known_header
known_header-size d s size = Yields-bind (decode_event_header s size) λ h e.
    Yields-bind (guard (knows_type d h.event_type) (unknown_event_type h.event_type))
      λ _ _. Yields-ok h ((header_size s size).value h e)

read_n_bytes-split :
    (s : Bytes) (n : ℕ)
    → Yields (λ (r : Bytes × Bytes). (r.1 ≡ drop n s) × (n ≤ length s)) (read_n_bytes s n)
unfolding read_n_bytes
read_n_bytes-split s n = split (leb n (length s)) (λ e. ground (arith, e))
  where
    split :
        (b : Bool)
        → (b ≡ true → n ≤ length s)
        → Yields
            (λ (r : Bytes × Bytes). (r.1 ≡ drop n s) × (n ≤ length s))
            (if b then ok (take n s, drop n s) else err eof)
    split true h = Yields-ok _ (refl, h refl)
    split false h = Yields-err eof

option-input :
    {D : Type 0} (o : Option (DecodeOption D)) (d : FileDecoder D) (fde : FmtDescEvent)
    → Yields (λ (d' : FileDecoder D). d'.input ≡ d.input) (apply_option o d fde)
unfolding apply_option with_registry
option-input none d fde = Yields-ok d refl
option-input (some o) d fde =
    Yields-if (d.plugins_applied || length o.event_plugins == 0) (Yields-ok d refl)
      (Yields-bind (apply_plugins o.event_plugins fde d.context.registry) λ r _. Yields-ok _ refl)

plugins-input :
    {D : Type 0} (d : FileDecoder D) (fde : Option FmtDescEvent)
    → Yields (λ (d' : FileDecoder D). d'.input ≡ d.input) (apply_event_plugins d fde)
unfolding apply_event_plugins
plugins-input d none = Yields-ok d refl
plugins-input d (some fde) = option-input d.option d fde

-- What is left of the file behind an event: its header is the one at the front, and as many bytes
-- are gone as its size says, at least one.
unfoldable pub Took : {D : Type 0} → FileDecoder D → EventHeader → FileDecoder D → Type 0
Took d h d' =
    (d'.input ≡ drop h.event_size d.input) × (1 ≤ h.event_size) × (h.event_size ≤ length d.input)

-- The header at the front of the file.
abbrev pub front_header : {D : Type 0} → FileDecoder D → Decoded EventHeader
front_header d =
    let size = get_event_header_length d.context in known_header d (take size d.input) size

read_n_bytes_front :
    (s : Bytes) (n : ℕ) {r : Bytes × Bytes} → read_n_bytes s n ≡ ok r → r.0 ≡ take n s
unfolding read_n_bytes
read_n_bytes_front s n {r} e = whole (leb n (length s)) e
  where
    whole : (b : Bool) → (if b then ok (take n s, drop n s) else err eof) ≡ ok r → r.0 ≡ take n s
    whole true h = ap (λ (q : Bytes × Bytes). q.0) (sym (value h))
      where
        value : {p q : Bytes × Bytes} → ◌≡◌ {A = Decoded (Bytes × Bytes)} (ok p) (ok q) → p ≡ q
        value h = cc
    whole false h = absurd cc

module _ {D B : Type 0} (crc32 : Bytes → ℕ)
    (decode_body : D ⊎ ℕ → EventContext D → ℕ → Bytes → Decoded (B × EventContext D))
    (as_description : B → Option FmtDescEvent) where
  data-input :
      (d : FileDecoder D) (h : EventHeader) (c : EventFrame × Bytes)
      → Yields
          (λ (r : FileEvent B × FileDecoder D). r.1.input ≡ d.input)
          (decode_data crc32 decode_body as_description d h c)
  unfolding decode_data
  data-input d h (frame, body) =
      Yields-bind
        (decode_body (get_event_body_decoder h.event_type d.context.registry) d.context h.event_type
          body)
        λ r _.
          Yields-bind (apply_event_plugins (record d { context = r.1 }) (as_description r.0))
            λ d'' e. Yields-ok _ ((plugins-input _ (as_description r.0)).value d'' e)

  rest-Took :
      (d : FileDecoder D) (h : EventHeader) (size : ℕ) (rest : Bytes)
      → 1 ≤ size
      → size ≤ length d.input
      → rest ≡ drop size d.input
      → Yields
          (λ (r : Option (FileEvent B) × FileDecoder D). Took d h r.1)
          (decode_rest crc32 decode_body as_description d h size rest)
  unfolding decode_rest Took
  rest-Took d h size rest k l q =
      Yields-when (ltb h.event_size size) (λ _. Yields-panic)
        λ e.
          let large : size ≤ h.event_size = ground (arith, e) in
          Yields-bind (read_n_bytes rest (h.event_size - size)) λ data_rest e1.
            let (at, fits) = (read_n_bytes-split rest (h.event_size - size)).value data_rest e1 in
            let sum : size + (h.event_size - size) ≡ h.event_size = omega (arith, large) in
            let left : data_rest.1 ≡ drop h.event_size d.input =
              at
              ∙ ap (drop (h.event_size - size)) q
              ∙ sym (drop-drop size (h.event_size - size) d.input)
              ∙ ap (λ (n : ℕ). drop n d.input) sum in
            let within : h.event_size ≤ length d.input =
              omega (arith, fits, ap length q, length-drop size d.input, l, large) in
            let took : Took d h (record d { input = data_rest.1 }) =
              (left, omega (arith, k, large), within) in
            Yields-bind (checked_data crc32 h data_rest.0 (context_has_checksum d.context))
              λ checked _. Yields-if (check_skip d h) (Yields-ok _ took) (
                Yields-bind
                  (decode_data crc32 decode_body as_description (record d { input = data_rest.1 }) h
                    checked)
                  λ r e2. Yields-ok _ (
                    (data-input (record d { input = data_rest.1 }) h checked).value r e2 ∙ left,
                    took.1,
                    took.2,
                  ))

  -- Where `DecodeEvent` returns an event or skips one, a header of a known type is at the front of the
  -- file, and exactly as many bytes as its event size says, at least one, are taken from the file.
  pub decode_event-Took :
      (d : FileDecoder D) {r : Option (FileEvent B)} {d' : FileDecoder D}
      → decode_event crc32 decode_body as_description d ≡ ok (r, d')
      → (h : EventHeader) × (front_header d ≡ ok h) × Took d h d'
  unfolding decode_event
  decode_event-Took d {r} {d'} e =
      let size = get_event_header_length d.context in
      let (head, e1, k1) = >>=-eq-ok (read_n_bytes d.input size) _ e in
      let (h, e2, k2) = >>=-eq-ok (known_header d head.0 size) _ k1 in
      let (at, fits) = (read_n_bytes-split d.input size).value head e1 in
      let front : head.0 ≡ take size d.input = read_n_bytes_front d.input size e1 in
      let positive : 1 ≤ size = (known_header-size d head.0 size).value h e2 in
      (
        h,
        sym (ap (λ s. known_header d s size) front) ∙ e2,
        (rest-Took d h size head.1 positive fits at).value (r, d') k2,
      )

  if-ends :
      {A : Type 0} (b : Bool) {m k : Option A} → m ≢ none → k ≢ none → (if b then m else k) ≢ none
  if-ends true p q = p
  if-ends false p q = q

  round-ends :
      {S : Type 0} (yield : S → Option (FileEvent B) × Option EventError → S × Bool)
      (next : FileDecoder D → S → Option (S × Bool)) (s : S)
      (m : Decoded (Option (FileEvent B) × FileDecoder D))
      → ((r : Option (FileEvent B)) (d' : FileDecoder D) (s' : S)
          → m ≡ ok (r, d')
          → next d' s' ≢ none)
      → file_round crc32 decode_body as_description yield next s m ≢ none
  unfolding file_round
  round-ends yield next s panic k = λ e. absurd cc
  round-ends yield next s (err w) k = λ e. absurd cc
  round-ends yield next s (ok (none, d)) k = k none d s refl
  round-ends yield next s (ok (some e, d)) k =
      let r = yield s (some e, none) in
      if-ends (stops_at crc32 decode_body as_description d e) (λ h. absurd cc)
        (if-ends r.1 (k (some e) d r.0 refl) (λ h. absurd cc))

  loop-ends :
      {S : Type 0} (yield : S → Option (FileEvent B) × Option EventError → S × Bool) (fuel : ℕ)
      (d : FileDecoder D) (s : S)
      → length d.input < fuel
      → file_loop crc32 decode_body as_description yield fuel d s ≢ none
  unfolding file_loop Took
  loop-ends yield zero d s h = absurd (omega (arith, h))
  loop-ends yield (suc fuel) d s h =
      round-ends yield _ s (decode_event crc32 decode_body as_description d) λ r d' s' e.
        let (head, _, (at, positive, within)) = decode_event-Took d e in
        let less : length d'.input < length d.input =
          omega (arith, ap length at, length-drop head.event_size d.input, positive, within) in
        loop-ends yield fuel d' s' (omega (arith, less, h))

  -- `Events` ends on every file, whatever the body decoders, the plugins and the consumer do: as many
  -- rounds of its loop as the file has bytes, and one more, are enough.
  pub file_events-ends :
      {S : Type 0} (yield : S → Option (FileEvent B) × Option EventError → S × Bool)
      (d : FileDecoder D) (s : S)
      → file_events crc32 decode_body as_description d yield s ≢ none
  unfolding file_events
  file_events-ends yield d s = loop-ends yield (suc (length d.input)) d s (omega arith)
