-- ===== src/Mysql/Event/Raw.antt =====
-- The raw bytes that a binlog event answers with, against those that it was decoded from.
use go_dblog.Prelude.{
  ℕ, zero, suc, ◌+◌, ◌-◌, ◌≤◌, ◌≡◌, refl, ap, ◌∙◌, Bool, true, false, not, Option, none, some, [],
  ◌∷◌, ◌++◌, ◌&&◌, length, take, drop, take-append, take-append-drop, length-append, ◌↔◌, sym, ltb,
  leb, ◌==◌, if◌then◌else◌, arith, ◌⊎◌,
}
use go_dblog.Prelude.Result.{ok, err, guard}
use go_dblog.Prelude.Text.{Bytes}
use go_dblog.Mysql.Bytes.{EventError, Decoded, unexpected_eof, uint, byte_at, unknown_event_type}
use go_dblog.Mysql.Bytes.Post.{Yields, Yields-bind, Yields-ok, Yields-if, Yields-err}
use go_dblog.Mysql.Header.{EventHeader, header_tail, header_fields, decode_event_header}
use go_dblog.Mysql.Util.{
  EventFrame, checksum_crc32, checksum_validate, strip_checksum, validate_data,
}
use go_dblog.Mysql.Description.{FmtDescEvent}
use go_dblog.Mysql.Registry.{
  EventContext, context_has_checksum, get_event_header_length, get_event_body_decoder,
}
use go_dblog.Mysql.File.{
  FileDecoder, knows_type, apply_event_plugins, known_header, check_skip, checked_data, FileEvent,
  decode_data, decode_raw_event,
}
use go_dblog.Mysql.Event.{raw_of, raw}

fields-base :
    (s : Bytes) (size : ℕ) → Yields (λ (h : EventHeader). h.base ≡ s) (header_fields s size)
unfolding header_fields
fields-base s size = Yields-bind (uint 4 s 0) λ _ _. Yields-bind (byte_at s 4) λ _ _.
    Yields-bind (uint 4 s 5) λ _ _.
      Yields-bind (uint 4 s 9) λ _ _. Yields-bind (header_tail s size) λ t _. Yields-ok _ refl

header-base :
    (s : Bytes) (size : ℕ) → Yields (λ (h : EventHeader). h.base ≡ s) (decode_event_header s size)
unfolding decode_event_header
header-base s size =
    Yields-if (not (size == 13) && ltb size 19) (Yields-err _)
      (Yields-if (ltb (length s) size) (Yields-err _) (fields-base s size))

known_header-base :
    {D : Type 0} (d : FileDecoder D) (s : Bytes) (size : ℕ)
    → Yields (λ (h : EventHeader). h.base ≡ s) (known_header d s size)
unfolding known_header
known_header-base d s size = Yields-bind (decode_event_header s size) λ h e.
    Yields-bind (guard (knows_type d h.event_type) (unknown_event_type h.event_type))
      λ _ _. Yields-ok h ((header-base s size).value h e)

-- Without an error, what is taken off the body is noted as the checksum.
abbrev pub Kept : EventHeader → Bytes → EventFrame × Bytes → Type 0
Kept h body r = (r.0.header ≡ some h) × (r.1 ++ r.0.checksum_val ≡ body)

record Reported (h : EventHeader) (body : Bytes) (r : EventFrame × Bytes × Option EventError)
    : Type 0 where
  kept : r.2 ≡ none → Kept h body (r.0, r.1)

Reported-err :
    {h : EventHeader} {body : Bytes} (frame : EventFrame) (rest : Bytes) (e : EventError)
    → Reported h body (frame, rest, some e)
Reported-err frame rest e = record { kept = λ x. absurd cc }

Reported-if :
    {h : EventHeader} {body : Bytes} (b : Bool) {m k : EventFrame × Bytes × Option EventError}
    → Reported h body m
    → Reported h body k
    → Reported h body (if b then m else k)
Reported-if true p q = p
Reported-if false p q = q

append-nil : (s : Bytes) → s ++ [] ≡ s
append-nil [] = refl
append-nil (c ∷ s) = ap (λ t. c ∷ t) (append-nil s)

module _ (crc32 : Bytes → ℕ) where
  strip-Reported :
      (event : EventFrame) (h : EventHeader) (body : Bytes)
      → event.header ≡ some h
      → Reported h body (strip_checksum crc32 event h body)
  unfolding strip_checksum
  strip-Reported event h body e =
      let start = length body - 4 in
      Reported-if (ltb (length body) 4) (Reported-err _ _ _) (
        Reported-if
          (not
            (checksum_validate crc32 checksum_crc32 (drop start body) (h.base ++ take start body)))
          (Reported-err _ _ _) (record { kept = λ x. (e, take-append-drop start body) }))

  pub checked-Kept :
      (h : EventHeader) (body : Bytes) (sums : Bool)
      → Yields (Kept h body) (checked_data crc32 h body sums)
  unfolding checked_data
  checked-Kept h body sums = reported (validate_data crc32 frame body sums) validated
    where
      frame : EventFrame
      frame = record { header = some h; checksum_type = 0; checksum_val = [] }

      validated : Reported h body (validate_data crc32 frame body sums)
      validated =
          Reported-if (not (length body + length h.base == h.event_size)) (Reported-err _ _ _)
            (summed sums)
        where
          plain : Reported h body (frame, body, none)
          plain = record { kept = λ x. (refl, append-nil body) }

          summed :
              (b : Bool)
              → Reported h body
                  (if b then strip_checksum crc32 frame h body else (frame, body, none))
          summed true = strip-Reported frame h body refl
          summed false = plain

      reported :
          (r : EventFrame × Bytes × Option EventError)
          → Reported h body r
          → Yields (Kept h body) (elim r.2 [ none ↦ ok (r.0, r.1) | some e ↦ err e ])
      reported (frame, rest, none) k = Yields-ok _ (k.kept refl)
      reported (frame, rest, some e) k = Yields-err e

take-take : (a b : ℕ) (s : Bytes) → a ≤ b → take a (take b s) ≡ take a s
take-take zero b s h = refl
take-take (suc a) zero s h = absurd (omega (arith, h))
take-take (suc a) (suc b) [] h = refl
take-take (suc a) (suc b) (c ∷ s) h = ap (λ t. c ∷ t) (take-take a b s (omega (arith, h)))

-- A header and a body as they stand in the data of an event.
whole :
    (size n : ℕ) (s base body : Bytes)
    → size ≤ n
    → base ≡ take size s
    → body ≡ drop size (take n s)
    → base ++ body ≡ take n s
whole size n s base body h e1 e2 =
    rw (e1, e2, ← take-take size n s h) (take-append-drop size (take n s))

pub data-frame :
    {D B : Type 0} (crc32 : Bytes → ℕ)
    (decode_body : D ⊎ ℕ → EventContext D → ℕ → Bytes → Decoded (B × EventContext D))
    (as_description : B → Option FmtDescEvent) (d : FileDecoder D) (h : EventHeader)
    (c : EventFrame × Bytes)
    → Yields
        (λ (r : FileEvent B × FileDecoder D). r.0.frame ≡ c.0)
        (decode_data crc32 decode_body as_description d h c)
unfolding decode_data
data-frame crc32 decode_body as_description d h (frame, body) =
    Yields-bind
      (decode_body (get_event_body_decoder h.event_type d.context.registry) d.context h.event_type
        body)
      λ r e.
        Yields-bind (apply_event_plugins (record d { context = r.1 }) (as_description r.0))
          λ d'' _. Yields-ok _ refl

-- The body is what the decoder of the event's type gives of the payload.
unfoldable pub Body :
    {D B : Type 0}
    → (D ⊎ ℕ → EventContext D → ℕ → Bytes → Decoded (B × EventContext D))
    → FileDecoder D
    → EventHeader
    → Bytes
    → B
    → Type 0
Body {D} decode_body d h payload body =
    (c : EventContext D) × (decode_body (get_event_body_decoder h.event_type d.context.registry)
        d.context h.event_type payload
      ≡ ok (body, c))

append-cancel_right : (a b c : Bytes) → a ++ c ≡ b ++ c → a ≡ b
append-cancel_right a b c e =
    let long : length a ≡ length b =
      omega (arith, ap length e, length-append a c, length-append b c) in
    sym (take-append a c)
    ∙ ap (take (length a)) e
    ∙ ap (λ (n : ℕ). take n (b ++ c)) long
    ∙ take-append b c

append-cancel_left : (x a b : Bytes) → x ++ a ≡ x ++ b → a ≡ b
append-cancel_left [] a b e = e
append-cancel_left (c ∷ x) a b e = append-cancel_left x a b cc

module _ {D B : Type 0} (crc32 : Bytes → ℕ)
    (decode_body : D ⊎ ℕ → EventContext D → ℕ → Bytes → Decoded (B × EventContext D))
    (as_description : B → Option FmtDescEvent) (encode : B → Bytes) where
  data-Body :
      (d : FileDecoder D) (h : EventHeader) (c : EventFrame × Bytes)
      → Yields
          (λ (r : FileEvent B × FileDecoder D). Body decode_body d h c.1 r.0.body)
          (decode_data crc32 decode_body as_description d h c)
  unfolding decode_data Body
  data-Body d h (frame, body) =
      Yields-bind
        (decode_body (get_event_body_decoder h.event_type d.context.registry) d.context h.event_type
          body)
        λ r e.
          Yields-bind (apply_event_plugins (record d { context = r.1 }) (as_description r.0))
            λ d'' _. Yields-ok _ (r.1, e)

  raw_of-frame :
      (h : EventHeader) (e : FileEvent B)
      → e.frame.header ≡ some h
      → raw encode (some e) ≡ h.base ++ (encode e.body ++ e.frame.checksum_val)
  unfolding raw raw_of
  raw_of-frame h e k = rw (k, raw) refl

  -- The event's bytes are its header, the data of its body and its checksum; `Raw` gives them back
  -- exactly where the body encodes to that data.
  unfoldable Split : FileDecoder D → Bytes → Option (FileEvent B) → Type 0
  Split d s none = Unit {0}
  Split d s (some e) =
      (h : EventHeader) × (payload : Bytes) × (e.frame.header ≡ some h)
      × Body decode_body d h payload e.body
      × (h.base ++ (payload ++ e.frame.checksum_val) ≡ take h.event_size s)
      × ((raw encode (some e) ≡ take h.event_size s) ↔ (encode e.body ≡ payload))

  data-Split :
      (d : FileDecoder D) (s : Bytes) (size : ℕ) (h : EventHeader) (c : EventFrame × Bytes)
      (e : FileEvent B)
      → size ≤ h.event_size
      → h.base ≡ take size s
      → Kept h (drop size (take h.event_size s)) c
      → e.frame ≡ c.0
      → Body decode_body d h c.1 e.body
      → Split d s (some e)
  unfolding Split
  data-Split d s size h c e large base (header, kept) frame body =
      let has : e.frame.header ≡ some h = ap (λ (f : EventFrame). f.header) frame ∙ header in
      let sum = e.frame.checksum_val in
      let rest : c.1 ++ sum ≡ drop size (take h.event_size s) = rw frame kept in
      let bytes : h.base ++ (c.1 ++ sum) ≡ take h.event_size s =
        whole size h.event_size s h.base _ large base rest in
      let raw_eq = raw_of-frame h e has in
      (
        h,
        c.1,
        has,
        body,
        bytes,
        (
          λ back.
              append-cancel_right (encode e.body) c.1 sum
                (append-cancel_left h.base _ _ (sym raw_eq ∙ back ∙ sym bytes)),
          λ same. raw_eq ∙ ap (λ t. h.base ++ (t ++ sum)) same ∙ bytes,
        ),
      )

  raw-Split :
      (d : FileDecoder D) (s : Bytes)
      → Yields
          (λ (r : Option (FileEvent B) × FileDecoder D). Split d s r.0)
          (decode_raw_event crc32 decode_body as_description d s)
  unfolding decode_raw_event Split
  raw-Split d s =
      let size = get_event_header_length d.context in
      Yields-bind (guard (leb size (length s)) unexpected_eof) λ _ _.
        Yields-bind (known_header d (take size s) size) λ h e1.
          Yields-bind (guard (leb size h.event_size && leb h.event_size (length s)) unexpected_eof)
            λ _ e2. Yields-if (check_skip d h) (Yields-ok _ tt) (
              Yields-bind
                (checked_data crc32 h (drop size (take h.event_size s))
                  (context_has_checksum d.context))
                λ c e3. Yields-bind (decode_data crc32 decode_body as_description d h c) λ r e4.
                  Yields-ok _ (
                    data-Split d s size h c r.0 (large size h e2)
                      ((known_header-base d (take size s) size).value h e1)
                      ((checked-Kept crc32 h _ _).value c e3)
                      ((data-frame crc32 decode_body as_description d h c).value r e4)
                      ((data-Body d h c).value r e4)))
    where
      large :
          (size : ℕ) (h : EventHeader) {u : Unit {0}}
          → guard (leb size h.event_size && leb h.event_size (length s)) unexpected_eof ≡ ok u
          → size ≤ h.event_size
      large size h {u} e =
          ground (arith, both (leb size h.event_size) (leb h.event_size (length s)) e)
        where
          both : (b c : Bool) → guard (b && c) unexpected_eof ≡ ok u → b ≡ true
          both true c e = refl
          both false c e = absurd cc

  -- The bytes of an event that `DecodeRawEvent` returns, as many as the event size in its header says,
  -- are the header, the data that the body was decoded from, and the checksum that the event notes;
  -- and `Raw` gives these bytes back exactly where the body encodes to that data.
  pub decode_raw_event-raw :
      (d d' : FileDecoder D) (s : Bytes) (e : FileEvent B)
      → decode_raw_event crc32 decode_body as_description d s ≡ ok (some e, d')
      → (h : EventHeader) × (payload : Bytes) × (e.frame.header ≡ some h)
        × Body decode_body d h payload e.body
        × (h.base ++ (payload ++ e.frame.checksum_val) ≡ take h.event_size s)
        × ((raw encode (some e) ≡ take h.event_size s) ↔ (encode e.body ≡ payload))
  unfolding Split
  decode_raw_event-raw d d' s e k = (raw-Split d s).value (some e, d') k
