-- ===== src/Mysql/Util/Checksum.antt =====
-- What `ValidateData` accepts.
use go_dblog.Prelude.{
  ℕ, ◌+◌, ◌-◌, ◌≡◌, ap, ◌∙◌, sym, true, none, some, ◌++◌, length, length-append, take, drop,
  take-append, drop-append, take-append-drop, ltb_ge, arith, Option-cases, inl, inr,
}
use go_dblog.Prelude.Text.{Bytes, same_iff, same_refl}
use go_dblog.Mysql.Bytes.{put_le}
use go_dblog.Mysql.Bytes.At.{length-put_le}
use go_dblog.Mysql.Header.{EventHeader}
use go_dblog.Mysql.Util.{
  EventFrame, checksum_crc32, crc32_validate, checksum_validate, strip_checksum, validate_data,
}

module _ (crc32 : Bytes → ℕ) where
  strip-accepts :
      (event : EventFrame) (h : EventHeader) (payload sum : Bytes)
      → length sum ≡ 4
      → checksum_validate crc32 checksum_crc32 sum (h.base ++ payload) ≡ true
      → strip_checksum crc32 event h (payload ++ sum)
        ≡ (record event { checksum_type = checksum_crc32; checksum_val = sum }, payload, none)
  unfolding strip_checksum
  strip-accepts event h payload sum four right =
      let start : length (payload ++ sum) - 4 ≡ length payload =
        omega (arith, length-append payload sum, four) in
      rw (
        start,
        ltb_ge (length (payload ++ sum)) 4 (omega (arith, length-append payload sum, four)),
        take-append payload sum,
        drop-append payload sum,
        right,
      )

  validate_checksum :
      (event : EventFrame) (h : EventHeader) (body : Bytes)
      → event.header ≡ some h
      → length body + length h.base ≡ h.event_size
      → validate_data crc32 event body true ≡ strip_checksum crc32 event h body
  unfolding validate_data
  validate_checksum event h body e size = ground (arith, e, size)

  right_sum : (s : Bytes) → checksum_validate crc32 checksum_crc32 (put_le 4 (crc32 s)) s ≡ true
  unfolding checksum_validate crc32_validate
  right_sum s = same_refl (put_le 4 (crc32 s))

  -- A payload with its checksum behind it, in a frame whose header gives the size of the whole event,
  -- is accepted: the body that comes back is the payload and the checksum is noted in the event.
  pub validate_data-accepts :
      (event : EventFrame) (h : EventHeader) (payload : Bytes)
      → event.header ≡ some h
      → length payload + 4 + length h.base ≡ h.event_size
      → validate_data crc32 event (payload ++ put_le 4 (crc32 (h.base ++ payload))) true ≡ (
        record event {
          checksum_type = checksum_crc32;
          checksum_val = put_le 4 (crc32 (h.base ++ payload));
        },
        payload,
        none,
      )
  validate_data-accepts event h payload e size =
      let sum : Bytes = put_le 4 (crc32 (h.base ++ payload)) in
      validate_checksum event h (payload ++ sum) e (
        omega (arith, size, length-append payload sum, length-put_le 4 (crc32 (h.base ++ payload))))
      ∙ strip-accepts event h payload sum (length-put_le 4 _) (right_sum (h.base ++ payload))

  strip_sound :
      (event event' : EventFrame) (h : EventHeader) (body payload : Bytes)
      → strip_checksum crc32 event h body ≡ (event', payload, none)
      → (drop (length body - 4) body ≡ put_le 4 (crc32 (h.base ++ take (length body - 4) body)))
        × (take (length body - 4) body ≡ payload)
  unfolding strip_checksum checksum_validate crc32_validate
  strip_sound event event' h body payload e = ground (
    arith,
    same_iff (drop (length body - 4) body)
        (put_le 4 (crc32 (h.base ++ take (length body - 4) body))),
  )

  validate_header :
      (event event' : EventFrame) (body payload : Bytes)
      → validate_data crc32 event body true ≡ (event', payload, none)
      → (h : EventHeader) × (event.header ≡ some h)
        × (length body + length h.base ≡ h.event_size)
        × (strip_checksum crc32 event h body ≡ (event', payload, none))
  unfolding validate_data
  validate_header event event' body payload e = elim (Option-cases event.header) [
    | inl missing ↦ absurd (ground (arith, e, missing))
    | inr (h, found) ↦ (h, found, ground (arith, e, found), ground (arith, e, found))
  ]

  -- Where a body is accepted with a checksum, the body is what comes back with the little-endian
  -- CRC-32 of the header's data and that behind it, and the sizes add up to the header's.
  pub validate_data_sound :
      (event event' : EventFrame) (body payload : Bytes)
      → validate_data crc32 event body true ≡ (event', payload, none)
      → (h : EventHeader) × (event.header ≡ some h)
        × (length body + length h.base ≡ h.event_size)
        × (body ≡ payload ++ put_le 4 (crc32 (h.base ++ payload)))
  validate_data_sound event event' body payload e =
      let (h, found, size, stripped) = validate_header event event' body payload e in
      let (sum, front) = strip_sound event event' h body payload stripped in
      (
        h,
        found,
        size,
        sym (take-append-drop (length body - 4) body)
            ∙ ap (λ t. t ++ drop (length body - 4) body) front
            ∙ ap (λ t. payload ++ t) sum
            ∙ ap (λ t. payload ++ put_le 4 (crc32 (h.base ++ t))) front,
      )
