-- ===== src/Mysql/Header/RoundTrip.antt =====
-- The event header as the server writes it, and its way back; no header makes the decoder panic.
use go_dblog.Prelude.{
  ℕ, ◌^◌, ◌≤◌, ◌<◌, ◌≡◌, ◌≢◌, refl, false, not, ◌&&◌, [], ◌∷◌, ◌++◌, length, ◌==◌, ltb, lt→ltb,
  arith, Bool-cases, inl, inr, ltb→lt,
}
use go_dblog.Prelude.Result.{ok, panic}
use go_dblog.Prelude.Text.{Bytes}
use go_dblog.Mysql.Bytes.{byte_at, uint, put_le}
use go_dblog.Mysql.Bytes.Safe.{bind-safe, ok-safe, byte_at-safe, uint-safe}
use go_dblog.Mysql.Bytes.At.{At, At-start, At-past, At-past_uint, At-uint, At-byte}
use go_dblog.Mysql.Header.{EventHeader, header_tail, header_fields, decode_event_header}

-- The fields of a header of 19 bytes or more, in the order of the wire.
abbrev pub header_data : EventHeader → Bytes → Bytes
header_data h rest =
    put_le 4 h.timestamp
    ++ (h.event_type
        ∷ (put_le 4 h.server_id
            ++ (put_le 4 h.event_size ++ (put_le 4 h.log_pos ++ (put_le 2 h.flag ++ rest)))))

-- The fields are within their widths.
pub record Fits (h : EventHeader) : Type 0 where
  pub timestamp_fits : h.timestamp < 2 ^ 32
  pub server_id_fits : h.server_id < 2 ^ 32
  pub event_size_fits : h.event_size < 2 ^ 32
  pub log_pos_fits : h.log_pos < 2 ^ 32
  pub flag_fits : h.flag < 2 ^ 16

fields-At :
    (s : Bytes) (size : ℕ) (h : EventHeader) (rest : Bytes)
    → 13 < size
    → Fits h
    → At s 0 (header_data h rest)
    → header_fields s size ≡ ok (record h { base = s })
unfolding header_fields header_tail
fields-At s size h rest large f a =
    let b : At s 4 _ = At-past_uint 4 h.timestamp a in
    let c : At s 5 _ = At-past (h.event_type ∷ []) 1 refl b in
    let d : At s 9 _ = At-past_uint 4 h.server_id c in
    let e : At s 13 _ = At-past_uint 4 h.event_size d in
    let g : At s 17 _ = At-past_uint 4 h.log_pos e in
    rw (
      At-uint 4 h.timestamp _ (omega (arith, f.timestamp_fits)) a,
      At-byte b,
      At-uint 4 h.server_id _ (omega (arith, f.server_id_fits)) c,
      At-uint 4 h.event_size _ (omega (arith, f.event_size_fits)) d,
      lt→ltb 13 size large,
      At-uint 4 h.log_pos _ (omega (arith, f.log_pos_fits)) e,
      At-uint 2 h.flag _ (omega (arith, f.flag_fits)) g,
    )

checks :
    (s : Bytes) (size : ℕ)
    → 19 ≤ size
    → size ≤ length s
    → decode_event_header s size ≡ header_fields s size
unfolding decode_event_header
checks s size h k = ground arith

-- A header whose fields are within their widths, written in the order of the wire with any bytes
-- behind the fields, is decoded to itself, at every header size from 19 to the length of the data.
pub decode_event_header-data :
    (h : EventHeader) (rest : Bytes) (size : ℕ)
    → Fits h
    → 19 ≤ size
    → size ≤ length (header_data h rest)
    → decode_event_header (header_data h rest) size ≡ ok (record h { base = header_data h rest })
decode_event_header-data h rest size f large fits =
    rw (checks (header_data h rest) size large fits)
      (fields-At (header_data h rest) size h rest (omega (arith, large)) f (At-start _))

tail-safe : (s : Bytes) (size : ℕ) → (13 < size → 19 ≤ length s) → header_tail s size ≢ panic
unfolding header_tail
tail-safe s size h = elim (Bool-cases (ltb 13 size)) [
  | inl large ↦
      let k = h (ltb→lt 13 size large) in
      rw large (
        bind-safe (uint 4 s 13) _ (uint-safe 4 s 13 (omega (arith, k)))
          λ _ _. bind-safe (uint 2 s 17) _ (uint-safe 2 s 17 (omega (arith, k))) λ _ _. ok-safe _)
  | inr small ↦ rw small (ok-safe _)
]

fields-safe :
    (s : Bytes) (size : ℕ)
    → 13 ≤ length s
    → (13 < size → 19 ≤ length s)
    → header_fields s size ≢ panic
unfolding header_fields
fields-safe s size h k = bind-safe (uint 4 s 0) _ (uint-safe 4 s 0 (omega (arith, h))) λ _ _.
    bind-safe (byte_at s 4) _ (byte_at-safe s 4 (omega (arith, h))) λ _ _.
      bind-safe (uint 4 s 5) _ (uint-safe 4 s 5 (omega (arith, h))) λ _ _.
        bind-safe (uint 4 s 9) _ (uint-safe 4 s 9 (omega (arith, h)))
          λ _ _. bind-safe (header_tail s size) _ (tail-safe s size k) λ r _. ok-safe _

-- The decoder of the event header reads no byte out of range, whatever the data and the size are.
pub decode_event_header-ne-panic : (s : Bytes) (size : ℕ) → decode_event_header s size ≢ panic
unfolding decode_event_header
decode_event_header-ne-panic s size = elim (Bool-cases (ltb (length s) size)) [
  | inl short ↦ λ e. ground arith
  | inr long ↦ elim (Bool-cases (not (size == 13) && ltb size 19)) [
    | inl wrong ↦ λ e. ground arith
    | inr right ↦
        let safe = fields-safe s size (sizes size right long).0 (sizes size right long).1 in
        λ e. ground (arith, safe)
  ]
]
  where
    sizes :
        (size : ℕ)
        → (not (size == 13) && ltb size 19) ≡ false
        → ltb (length s) size ≡ false
        → (13 ≤ length s) × (13 < size → 19 ≤ length s)
    sizes size h k = (ground arith, λ l. ground arith)
