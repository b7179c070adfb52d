-- ===== src/Mysql/File/Raw.antt =====
-- `DecodeRawEvent` against `DecodeEvent`: the same bytes, from memory and from a file.
use go_dblog.Prelude.{
  ℕ, zero, suc, ◌+◌, ◌-◌, ◌≤◌, ◌≡◌, refl, sym, ap, ◌∙◌, Bool, true, false, ◌&&◌, ◌||◌, Option, none,
  some, [], ◌∷◌, length, length-drop, take, drop, ltb, leb, le→leb, ltb_ge, ◌==◌, if◌then◌else◌,
  arith, ◌⊎◌,
}
use go_dblog.Prelude.Result.{ok, err, panic, ◌>>=◌, guard}
use go_dblog.Prelude.Text.{Bytes}
use go_dblog.Mysql.Bytes.{Decoded, unexpected_eof}
use go_dblog.Mysql.Bytes.At.{drop-drop}
use go_dblog.Mysql.Header.{EventHeader}
use go_dblog.Mysql.Util.{EventFrame}
use go_dblog.Mysql.Description.{FmtDescEvent}
use go_dblog.Mysql.Registry.{
  EventContext, context_has_checksum, get_event_header_length, get_event_body_decoder,
}
use go_dblog.Mysql.File.{
  DecodeOption, FileDecoder, read_n_bytes, apply_plugins, with_registry, apply_option,
  apply_event_plugins, known_header, check_skip, checked_data, FileEvent, decode_data, decode_rest,
  decode_event, decode_raw_event, knows_type,
}

-- The decoder with another file.
abbrev pub with_input : {D : Type 0} → Bytes → FileDecoder D → FileDecoder D
with_input s d = record d { input = s }

-- The same call, with another file in the decoder that it returns.
abbrev pub onto : {D A : Type 0} → Bytes → Decoded (A × FileDecoder D) → Decoded (A × FileDecoder D)
onto s m = m >>= λ r. ok (r.0, with_input s r.1)

take-drop : (a b : ℕ) (s : Bytes) → take b (drop a s) ≡ drop a (take (a + b) s)
take-drop zero b s = ap (λ (k : ℕ). take k s) (omega arith)
take-drop (suc a) b [] = take-nil b ∙ ap (drop (suc a)) (sym (take-nil (suc a + b)))
  where
    take-nil : (k : ℕ) → take {A = ℕ} k [] ≡ []
    take-nil zero = refl
    take-nil (suc k) = refl
take-drop (suc a) b (c ∷ s) =
    take-drop a b s ∙ ap (λ (k : ℕ). drop (suc a) (take k (c ∷ s))) (suc_sum a b)
  where
    suc_sum : (a b : ℕ) → suc (a + b) ≡ suc a + b
    suc_sum a b = omega arith

bind_ok : {A B : Type 0} (m : Decoded A) (f : A → Decoded B) {a : A} → m ≡ ok a → (m >>= f) ≡ f a
bind_ok m f e = ap (λ o. o >>= f) e

if_false : {A : Type 0} (b : Bool) (m : A) {k : A} → b ≡ false → (if b then m else k) ≡ k
if_false true m e = absurd cc
if_false false m e = refl

read_n_bytes-enough :
    (s : Bytes) (n : ℕ) → n ≤ length s → read_n_bytes s n ≡ ok (take n s, drop n s)
unfolding read_n_bytes
read_n_bytes-enough s n h = rw (le→leb n (length s) h) refl

bind_assoc :
    {A B C : Type 0} (m : Decoded A) (f : A → Decoded B) (g : B → Decoded C)
    → ((m >>= f) >>= g) ≡ (m >>= λ a. f a >>= g)
bind_assoc (ok a) f g = refl
bind_assoc (err e) f g = refl
bind_assoc panic f g = refl

bind_ext :
    {A B : Type 0} (m : Decoded A) {f g : A → Decoded B}
    → ((a : A) → f a ≡ g a)
    → (m >>= f) ≡ (m >>= g)
bind_ext (ok a) h = h a
bind_ext (err e) h = refl
bind_ext panic h = refl

option-onto :
    {D : Type 0} (o : Option (DecodeOption D)) (s : Bytes) (d : FileDecoder D) (fde : FmtDescEvent)
    → apply_option o (with_input s d) fde ≡ (apply_option o d fde >>= λ d'. ok (with_input s d'))
unfolding apply_option with_registry
option-onto none s d fde = refl
option-onto (some o) s d fde = either (d.plugins_applied || length o.event_plugins == 0)
  where
    either :
        (b : Bool)
        → (if b then ok (with_input s d) else (do
          r ← apply_plugins o.event_plugins fde d.context.registry
          ok (with_registry (with_input s d) r)))
          ≡ ((if b then ok d else (do
            r ← apply_plugins o.event_plugins fde d.context.registry
            ok (with_registry d r)))
              >>= λ d'. ok (with_input s d'))
    either true = refl
    either false = sym (bind_assoc (apply_plugins o.event_plugins fde d.context.registry) _ _)

plugins-onto :
    {D : Type 0} (s : Bytes) (d : FileDecoder D) (fde : Option FmtDescEvent)
    → apply_event_plugins (with_input s d) fde
      ≡ (apply_event_plugins d fde >>= λ d'. ok (with_input s d'))
unfolding apply_event_plugins
plugins-onto s d none = refl
plugins-onto s d (some fde) = option-onto d.option s d fde

module _ {D B : Type 0} (crc32 : Bytes → ℕ)
    (decode_body : D ⊎ ℕ → EventContext D → ℕ → Bytes → Decoded (B × EventContext D))
    (as_description : B → Option FmtDescEvent) where
  data-onto :
      (s : Bytes) (d : FileDecoder D) (h : EventHeader) (c : EventFrame × Bytes)
      → decode_data crc32 decode_body as_description (with_input s d) h c
        ≡ onto s (decode_data crc32 decode_body as_description d h c)
  unfolding decode_data
  data-onto s d h (frame, body) =
      let m =
        decode_body (get_event_body_decoder h.event_type d.context.registry) d.context h.event_type
          body in
      bind_ext m (λ r.
        let d' : FileDecoder D = record d { context = r.1 } in
        let o = apply_event_plugins d' (as_description r.0) in
        ap
          (λ (o : Decoded (FileDecoder D)).
            o >>= λ d''. ok (record { frame = frame; body = r.0 }, d''))
          (plugins-onto s d' (as_description r.0))
        ∙ bind_assoc o _ _
        ∙ sym (bind_assoc o _ _))
      ∙ sym (bind_assoc m _ _)

  -- What both functions do with the data behind the header of an event that is not skipped.
  decode_checked :
      FileDecoder D → EventHeader → Bytes → Decoded (Option (FileEvent B) × FileDecoder D)
  decode_checked d h s = checked_data crc32 h s (context_has_checksum d.context) >>= λ c.
      decode_data crc32 decode_body as_description d h c >>= λ r. ok (some r.0, r.1)

  checked-onto :
      (x : Bytes) (d : FileDecoder D) (h : EventHeader) (s : Bytes)
      → decode_checked (with_input x d) h s ≡ onto x (decode_checked d h s)
  unfolding decode_checked
  checked-onto x d h s =
      let m = checked_data crc32 h s (context_has_checksum d.context) in
      bind_ext m (λ c.
        let k = decode_data crc32 decode_body as_description d h c in
        ap (λ (o : Decoded (FileEvent B × FileDecoder D)). o >>= λ r. ok (some r.0, r.1))
          (data-onto x d h c)
        ∙ bind_assoc k _ _
        ∙ sym (bind_assoc k _ _))
      ∙ sym (bind_assoc m _ _)

  raw_checked :
      (d : FileDecoder D) (raw : Bytes) (h : EventHeader)
      → get_event_header_length d.context ≤ h.event_size
      → h.event_size ≤ length raw
      → known_header d
          (take (get_event_header_length d.context) raw)
          (get_event_header_length d.context)
        ≡ ok h
      → check_skip d h ≡ false
      → decode_raw_event crc32 decode_body as_description d raw
        ≡ decode_checked d h (drop (get_event_header_length d.context) (take h.event_size raw))
  unfolding decode_raw_event decode_checked
  raw_checked d raw h l w k n =
      let size = get_event_header_length d.context in
      let first : leb size (length raw) ≡ true = le→leb size (length raw) (omega (arith, l, w)) in
      let both : leb size h.event_size && leb h.event_size (length raw) ≡ true =
        ground (arith, le→leb size h.event_size l, le→leb h.event_size (length raw) w) in
      bind_ok (guard (leb size (length raw)) unexpected_eof) _
        (ap (λ b. guard b unexpected_eof) first)
      ∙ bind_ok (known_header d (take size raw) size) _ k
      ∙ bind_ok (guard (leb size h.event_size && leb h.event_size (length raw)) unexpected_eof) _
          (ap (λ b. guard b unexpected_eof) both)
      ∙ ap
          (λ (b : Bool).
            if b then ok (none, d) else decode_checked d h (drop size (take h.event_size raw)))
          n

  rest_checked :
      (raw : Bytes) (d : FileDecoder D) (h : EventHeader) (size : ℕ) (rest : Bytes)
      → size ≤ h.event_size
      → h.event_size - size ≤ length rest
      → check_skip d h ≡ false
      → decode_rest crc32 decode_body as_description (with_input raw d) h size rest
        ≡ decode_checked
            (with_input (drop (h.event_size - size) rest) d)
            h
            (take (h.event_size - size) rest)
  unfolding decode_rest decode_checked check_skip
  rest_checked raw d h size rest l w n =
      if_false (ltb h.event_size size) panic (ltb_ge h.event_size size l)
      ∙ bind_ok (read_n_bytes rest (h.event_size - size)) _
          (read_n_bytes-enough rest (h.event_size - size) w)
      ∙ bind_ext
          (checked_data crc32 h (take (h.event_size - size) rest) (context_has_checksum d.context))
          (λ c.
            if_false (check_skip d h) (ok (none, with_input (drop (h.event_size - size) rest) d)) n)

  file_checked :
      (d : FileDecoder D) (raw : Bytes) (h : EventHeader)
      → get_event_header_length d.context ≤ h.event_size
      → h.event_size ≤ length raw
      → known_header d
          (take (get_event_header_length d.context) raw)
          (get_event_header_length d.context)
        ≡ ok h
      → check_skip d h ≡ false
      → decode_event crc32 decode_body as_description (with_input raw d)
        ≡ decode_checked
            (with_input
              (drop
                (h.event_size - get_event_header_length d.context)
                (drop (get_event_header_length d.context) raw))
              d)
            h
            (drop (get_event_header_length d.context) (take h.event_size raw))
  unfolding decode_event known_header knows_type
  file_checked d raw h l w k n =
      let size = get_event_header_length d.context in
      let rest : Bytes = drop size raw in
      let room : h.event_size - size ≤ length rest = omega (arith, w, l, length-drop size raw) in
      let whole : size + (h.event_size - size) ≡ h.event_size = omega (arith, l) in
      bind_ok (read_n_bytes raw size) _ (read_n_bytes-enough raw size (omega (arith, l, w)))
      ∙ bind_ok (known_header d (take size raw) size) _ k
      ∙ rest_checked raw d h size rest l room n
      ∙ ap (decode_checked (with_input (drop (h.event_size - size) rest) d) h)
          (take-drop size (h.event_size - size) raw ∙ ap (λ (k : ℕ). drop size (take k raw)) whole)

  -- `DecodeEvent` of a file with an event at the front gives what `DecodeRawEvent` gives of the same
  -- bytes, errors and panics included, and leaves in the file what is behind the event: where the
  -- header is one of a known type, the event size is at least the header's and at most the length of
  -- the data, and the options do not skip the event.
  pub decode_event-raw :
      (d : FileDecoder D) (raw : Bytes) (h : EventHeader)
      → get_event_header_length d.context ≤ h.event_size
      → h.event_size ≤ length raw
      → known_header d
          (take (get_event_header_length d.context) raw)
          (get_event_header_length d.context)
        ≡ ok h
      → check_skip d h ≡ false
      → decode_event crc32 decode_body as_description (with_input raw d)
        ≡ onto (drop h.event_size raw) (decode_raw_event crc32 decode_body as_description d raw)
  decode_event-raw d raw h l w k n =
      let size = get_event_header_length d.context in
      let left : drop (h.event_size - size) (drop size raw) ≡ drop h.event_size raw =
        sym (drop-drop size (h.event_size - size) raw)
        ∙ ap (λ (k : ℕ). drop k raw) (omega (arith, l)) in
      file_checked d raw h l w k n
      ∙ checked-onto (drop (h.event_size - size) (drop size raw)) d h
          (drop size (take h.event_size raw))
      ∙ ap (λ (x : Bytes). onto x (decode_checked d h (drop size (take h.event_size raw)))) left
      ∙ ap (onto (drop h.event_size raw)) (sym (raw_checked d raw h l w k n))
