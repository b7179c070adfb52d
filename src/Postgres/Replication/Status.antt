-- ===== src/Postgres/Replication/Status.antt =====
-- The status messages that the decoder of the replication protocol sends.
use go_dblog.Prelude.{
  ℕ, ◌+◌, ◌≤◌, ◌≡◌, refl, ap, ◌∙◌, sym, Bool, true, false, Option, none, some, List, [], ◌∷◌, ◌++◌,
  append-nil, append_assoc, map, All, length, length-append, leb, ltb, take, drop, ◌<◌, ◌^◌, ◌==◌,
  ◌&&◌, ◌||◌, if◌then◌else◌, arith, Bool-cases, ◌⊎◌, inl, inr,
}
use go_dblog.Prelude.Text.{Bytes, is_empty, same, trim_space}
use go_dblog.Prelude.Result as Go
use go_dblog.Postgres.Wire.{WireData, be_from, put_be, standby_status_data}
use go_dblog.Postgres.Wire.Messages.{be_put}
use go_dblog.Postgres.Types.{PgEvent}
use go_dblog.Postgres.Line.{parse_line}
use go_dblog.Postgres.Stream.{as_event}
use go_dblog.Postgres.Replication.{
  WireDecoder, WireItem, yield_parsed, yield_line, go_on, receive_loop,
}
use go_dblog.Postgres.Replication.Frames.{Frame, frame_message, frame_data, IsFrame, parse-frame}
use go_dblog.Postgres.Replication.Acknowledge.{status, acknowledge_lem, statuses}

-- A standby status update of the replication protocol.
pub record Status : Type 0 where
  pub written : ℕ
  pub flushed : ℕ
  pub applied : ℕ
  pub sent_at : ℕ
  pub reply_now : ℕ

-- What a server reads of a message of 34 bytes: the tag, the three positions, the time and a flag.
unfoldable pub read_status : Bytes → Option Status
unfolding be_from
read_status message =
    if (length message == 34) && same (take 1 message) (b'r' ∷ [])
    then some (record {
      written = be_from 0 (take 8 (drop 1 message));
      flushed = be_from 0 (take 8 (drop 9 message));
      applied = be_from 0 (take 8 (drop 17 message));
      sent_at = be_from 0 (take 8 (drop 25 message));
      reply_now = be_from 0 (drop 33 message);
    })
    else none

-- The status that answers a frame, at a time.
abbrev pub answer : ℕ → Frame → Status
answer now f = record {
  written = (frame_data f).lsn;
  flushed = (frame_data f).lsn;
  applied = (frame_data f).lsn;
  sent_at = now;
  reply_now = if (frame_data f).reply then 1 else 0;
}

-- The answers to the frames that have an LSN or ask for a reply, where `n` messages were sent before.
unfoldable pub answers : (ℕ → ℕ) → ℕ → List Frame → List Status
answers clock n [] = []
answers clock n (f ∷ fs) =
    let here = answer (clock n) f ∷ answers clock (n + 1) fs in
    let passed = answers clock n fs in
    if ltb 0 (frame_data f).lsn || (frame_data f).reply then here else passed

status_at : ℕ → ℕ → ℕ → Status
status_at lsn now reply = record {
  written = lsn;
  flushed = lsn;
  applied = lsn;
  sent_at = now;
  reply_now = reply;
}

-- The message that the code writes is read as its fields.
read-status :
    (lsn now : ℕ) (reply : Bool)
    → lsn < 2 ^ 64
    → now < 2 ^ 64
    → read_status (standby_status_data lsn now reply)
      ≡ some (status_at lsn now (if reply then 1 else 0))
unfolding read_status standby_status_data put_be be_from status_at same
read-status lsn now true h k =
    ap (λ (n : ℕ). some (status_at n (be_from 0 (put_be 8 now [])) 1)) (be_put lsn h)
    ∙ ap (λ (n : ℕ). some (status_at lsn n 1)) (be_put now k)
read-status lsn now false h k =
    ap (λ (n : ℕ). some (status_at n (be_from 0 (put_be 8 now [])) 0)) (be_put lsn h)
    ∙ ap (λ (n : ℕ). some (status_at lsn n 0)) (be_put now k)

asked_status :
    (clock : ℕ → ℕ) (n : ℕ) (change : WireData)
    → ltb 0 change.lsn || change.reply ≡ true
    → status clock n change ≡ standby_status_data change.lsn (clock n) change.reply ∷ []
unfolding status
asked_status clock n change h = rw h refl

silent_status :
    (clock : ℕ → ℕ) (n : ℕ) (change : WireData)
    → ltb 0 change.lsn || change.reply ≡ false
    → status clock n change ≡ []
unfolding status
silent_status clock n change h = rw h refl

-- The messages that the code writes are read as the answers.
statuses-answers :
    (clock : ℕ → ℕ) (n : ℕ) (fs : List Frame)
    → ((k : ℕ) → clock k < 2 ^ 64)
    → All IsFrame fs
    → map read_status (statuses clock n (map frame_data fs))
      ≡ map (λ a. some a) (answers clock n fs)
unfolding statuses answers status_at
statuses-answers clock n [] small ok = refl
statuses-answers clock n (f ∷ fs) small (ok, oks) =
    let c = frame_data f in
    elim (Bool-cases (ltb 0 c.lsn || c.reply)) [
      | inl asked ↦
          rw (asked_status clock n c asked, asked)
            (ap (λ o. o ∷ map read_status (statuses clock (n + 1) (map frame_data fs)))
                (read-status c.lsn (clock n) c.reply ok (small n))
              ∙ ap (λ os. some (answer (clock n) f) ∷ os)
                  (statuses-answers clock (n + 1) fs small oks))
      | inr silent ↦
          rw (silent_status clock n c silent, silent)
            (ap (λ (k : ℕ). map read_status (statuses clock k (map frame_data fs))) (omega arith)
              ∙ statuses-answers clock n fs small oks)
    ]

module _ {F : Type 0} (parse_float : Bytes → Option F) (show_float : F → Bytes)
    (clock : ℕ → ℕ) where
  module _ {S : Type 0} (yield : S → WireItem F → S × Bool) where
    -- A line that is blank, or parsed whatever its number is.
    abbrev pub IsRead : WireDecoder F → Bytes → Type 0
    IsRead d line =
        (is_empty line ≡ true)
        ⊎ ((k : ℕ) → (e : PgEvent F) × (parse_line parse_float d.source k line d.plugins ≡ Go.ok e))

    module _ (on : (s : S) (item : WireItem F) → (yield s item).1 ≡ true) where
      line-goes_on :
          (Q : WireDecoder F → Type 0) (d : WireDecoder F) (line : Bytes)
          (next : WireDecoder F → S → WireDecoder F × S) (s : S)
          → IsRead d line
          → ((s' : S) → Q (next d s').0)
          → ((s' : S) → Q (next (record d { position = d.position + 1 }) s').0)
          → Q (go_on (yield_line parse_float show_float clock d line yield s) next).0
      unfolding yield_line yield_parsed
      line-goes_on Q d line next s (inl blank) here there = rw blank (here s)
      line-goes_on Q d line next s (inr read) here there = elim (Bool-cases (is_empty line)) [
        | inl blank ↦ rw blank (here s)
        | inr full ↦ elim (Bool-cases (leb (d.position + 1) d.start_position)) [
          | inl below ↦ rw (full, below) (there s)
          | inr above ↦
              let (e, parsed) = read (d.position + 1) in
              let item : WireItem F = (some (as_event show_float e), none) in
              rw (full, above, parsed, on s item) (there (yield s item).0)
        ]
      ]

      -- What the decoder has sent, as the code writes it.
      frames-sent :
          (fs : List Frame) (d : WireDecoder F) (s : S)
          → All IsFrame fs
          → All (λ f. IsRead d (trim_space (frame_data f).line)) fs
          → length fs ≤ d.writes_left
          → (receive_loop parse_float show_float clock d (map frame_message fs) yield s).0.sent
            ≡ d.sent ++ statuses clock (length d.sent) (map frame_data fs)
      unfolding receive_loop statuses
      frames-sent [] d s ok read h = sym (append-nil d.sent)
      frames-sent (f ∷ fs) d s ok read h =
          let (w, enough, e) = acknowledge_lem clock d (frame_data f) (omega (arith, h)) in
          let here : List Bytes = status clock (length d.sent) (frame_data f) in
          let d' : WireDecoder F = record d { sent = d.sent ++ here; writes_left = w } in
          let rest : List Bytes =
            statuses clock (length d.sent + length here) (map frame_data fs) in
          let same : (d.sent ++ here)
                ++ statuses clock (length (d.sent ++ here)) (map frame_data fs)
              ≡ d.sent ++ (here ++ rest) =
            rw (length-append d.sent here) (append_assoc d.sent here rest) in
          let fits : length fs ≤ w = omega (arith, h, enough) in
          rw (parse-frame f ok.0, e)
            (line-goes_on (λ d''. d''.sent ≡ d.sent ++ (here ++ rest)) d'
              (trim_space (frame_data f).line)
              (λ d'' s'.
                receive_loop parse_float show_float clock d'' (map frame_message fs) yield s')
              s read.0 (λ s'. frames-sent fs d' s' ok.1 read.1 fits ∙ same)
              (λ s'.
                frames-sent fs (record d' { position = d.position + 1 }) s' ok.1 read.1 fits
                ∙ same))

      -- The decoder answers every message that has an LSN or asks for a reply by a standby status
      -- update, which a server reads as one with the LSN of the message in its three positions, the
      -- time, and the flag of the message; in order, and it sends nothing else: where the consumer
      -- never stops, every line is blank or parsed, every LSN and time is below 2^64 and the
      -- connection takes a message for each frame.
      pub frames-answer :
          (fs : List Frame) (d : WireDecoder F) (s : S)
          → ((k : ℕ) → clock k < 2 ^ 64)
          → All IsFrame fs
          → All (λ f. IsRead d (trim_space (frame_data f).line)) fs
          → length fs ≤ d.writes_left
          → (added : List Bytes) × ((receive_loop parse_float show_float clock d
                (map frame_message fs)
                yield
                s).0.sent
              ≡ d.sent ++ added)
            × (map read_status added ≡ map (λ a. some a) (answers clock (length d.sent) fs))
      frames-answer fs d s small ok read h = (
        statuses clock (length d.sent) (map frame_data fs),
        frames-sent fs d s ok read h,
        statuses-answers clock (length d.sent) fs small ok,
      )
