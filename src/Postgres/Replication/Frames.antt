-- ===== src/Postgres/Replication/Frames.antt =====
-- The decoder of the replication protocol on what a server sends, against the decoder of lines.
use go_dblog.Prelude.{
  ℕ, zero, suc, ◌+◌, ◌^◌, ◌≤◌, ◌<◌, ◌≡◌, refl, Bool, false, not, Option, none, some, List, [], ◌∷◌,
  ◌++◌, map, All, length, leb, ◌==◌, if◌then◌else◌, arith, Bool-cases, inl, inr,
}
use go_dblog.Prelude.Text.{Bytes, is_empty, trim_space}
use go_dblog.Prelude.Trim.{trim_space_idem}
use go_dblog.Prelude.Result as Go
use go_dblog.Dblog.Stream.{of_list}
use go_dblog.Postgres.Line.{parse_line}
use go_dblog.Postgres.Line.Safe.{parse_line-ne-panic}
use go_dblog.Postgres.Stream as Text
use go_dblog.Postgres.Stream.{Item, as_event}
use go_dblog.Postgres.Stream.Spec.{items}
use go_dblog.Postgres.Wire.{WireData, put_be, parse_wire_data}
use go_dblog.Postgres.Wire.Messages.{parse_wire_data-xlog, parse_wire_data-keepalive}
use go_dblog.Dblog.Types.{Source}
use go_dblog.Postgres.Line.{EventPlugin}
use go_dblog.Postgres.Replication.Acknowledge.{status, acknowledge_lem}
use go_dblog.Postgres.Replication.{
  copy_both_response, wire_events, start_replication, await_copy, new_wire_decoder, after_start,
  Message, copy_data, receive_failed, bad_line, WireDecoder, WireItem, send_message, yield_parsed,
  yield_line, go_on, receive_loop,
}

-- What a server sends while it streams: WAL data with a line, and keepalives.
pub data Frame : Type 0 where
  xlog : (start lsn clock : ℕ) → Bytes → Frame
  keepalive : (lsn clock flag : ℕ) → Frame

abbrev pub frame_bytes : Frame → Bytes
frame_bytes (xlog start lsn clock line) = b'w' ∷ put_be 8 start (put_be 8 lsn (put_be 8 clock line))
frame_bytes (keepalive lsn clock flag) = b'k' ∷ put_be 8 lsn (put_be 8 clock (flag ∷ []))

abbrev pub frame_message : Frame → Message
frame_message f = copy_data (frame_bytes f)

abbrev pub frame_data : Frame → WireData
frame_data (xlog start lsn clock line) = record { line = line; lsn = lsn; reply = false }
frame_data (keepalive lsn clock flag) = record { line = []; lsn = lsn; reply = not (flag == 0) }

abbrev pub IsFrame : Frame → Type 0
IsFrame f = (frame_data f).lsn < 2 ^ 64

-- The lines in them, trimmed, without the blank ones.
abbrev pub add_line : Bytes → List Bytes → List Bytes
add_line line rest = if is_empty line then rest else line ∷ rest

abbrev pub frame_lines : List Frame → List Bytes
frame_lines [] = []
frame_lines (f ∷ fs) = add_line (trim_space (frame_data f).line) (frame_lines fs)

pub parse-frame : (f : Frame) → IsFrame f → parse_wire_data (frame_bytes f) ≡ Go.ok (frame_data f)
parse-frame (xlog start lsn clock line) h = parse_wire_data-xlog start lsn clock line h
parse-frame (keepalive lsn clock flag) h = parse_wire_data-keepalive lsn clock flag [] h

module _ {F : Type 0} where
  -- The items of lines, and the end of the connection where no line is refused.
  abbrev pub with_end : List (Item F) → List (WireItem F)
  with_end [] = (none, some receive_failed) ∷ []
  with_end ((e, some x) ∷ is) = (none, some (bad_line x)) ∷ []
  with_end ((e, none) ∷ is) = (e, none) ∷ with_end is

  abbrev pub line_decoder : WireDecoder F → Text.Decoder F
  line_decoder d = record {
    source = d.source;
    plugins = d.plugins;
    start_position = d.start_position;
  }

module _ {F : Type 0} (parse_float : Bytes → Option F) (show_float : F → Bytes)
    (clock : ℕ → ℕ) where
  -- What is to be yielded behind a decoder's position.
  abbrev pub wire_items : WireDecoder F → List Bytes → List (WireItem F)
  wire_items d lines =
      with_end (items parse_float show_float (line_decoder d) d.position lines none)

  module _ {S : Type 0} (yield : S → WireItem F → S × Bool) where
    -- What the rest of the loop yields, from decoders with the position, the writes and the sent
    -- messages as they are.
    abbrev Goes : (WireDecoder F → S → WireDecoder F × S) → List Bytes → WireDecoder F → Type 0
    Goes next lines d = (s : S) → (next d s).1 ≡ of_list (wire_items d lines) yield s

    line-yields :
        (d : WireDecoder F) (line : Bytes) (rest : List Bytes)
        (next : WireDecoder F → S → WireDecoder F × S) (s : S)
        → trim_space line ≡ line
        → Goes next rest d
        → Goes next rest (record d { position = d.position + 1 })
        → (go_on (yield_line parse_float show_float clock d line yield s) next).1
          ≡ of_list (wire_items d (add_line line rest)) yield s
    unfolding yield_line yield_parsed items of_list
    line-yields d line rest next s trimmed here there = elim (Bool-cases (is_empty line)) [
      | inl blank ↦ rw blank (here s)
      | inr full ↦ elim (Bool-cases (leb (d.position + 1) d.start_position)) [
        | inl below ↦ rw (full, below) (there s)
        | inr above ↦
            elim (Go.view (parse_line parse_float d.source (d.position + 1) line d.plugins)) [
              | Go.is_panic e ↦
                  absurd
                    (parse_line-ne-panic parse_float d.source (d.position + 1) line d.plugins e)
              | Go.is_err x e ↦ rw (full, above, trimmed, full, e) (ground arith)
              | Go.is_ok x e ↦
                  let item : WireItem F = (some (as_event show_float x), none) in
                  rw (full, above, trimmed, full, e)
                    (elim (Bool-cases (yield s item).1) [
                      | inl on ↦ rw on (there (yield s item).0)
                      | inr stop ↦ rw stop refl
                    ])
            ]
      ]
    ]

    frames-yield :
        (fs : List Frame) (d : WireDecoder F) (s : S)
        → All IsFrame fs
        → length fs ≤ d.writes_left
        → (receive_loop parse_float show_float clock d (map frame_message fs) yield s).1
          ≡ of_list (wire_items d (frame_lines fs)) yield s
    unfolding receive_loop
    frames-yield [] d s ok h = unfold items of_list in ground arith
    frames-yield (f ∷ fs) d s ok h =
        let (w, enough, e) = acknowledge_lem clock d (frame_data f) (omega (arith, h)) in
        let d' : WireDecoder F = record d {
          sent = d.sent ++ status clock (length d.sent) (frame_data f);
          writes_left = w;
        } in
        rw (parse-frame f ok.0, e)
          (line-yields d' (trim_space (frame_data f).line) (frame_lines fs)
            (λ d'' s'.
              receive_loop parse_float show_float clock d'' (map frame_message fs) yield s')
            s (trim_space_idem (frame_data f).line)
            (λ s'. frames-yield fs d' s' ok.1 (omega (arith, h, enough)))
            (λ s'.
              frames-yield fs (record d' { position = d.position + 1 }) s' ok.1
                (omega (arith, h, enough))))

    -- The events of a new decoder behind the answer to its query: those of the lines that the frames
    -- hold, as the decoder of lines yields them, and then the end of the connection, unless a line
    -- was refused; where every LSN is below 2^64 and the connection takes the query and a message for
    -- each frame.
    pub wire_events-frames :
        (source : Source) (slot : Bytes) (plugins : List (Option (EventPlugin F)))
        (start writes : ℕ) (fs : List Frame) (s : S)
        → All IsFrame fs
        → length fs < writes
        → (wire_events parse_float show_float clock
            (new_wire_decoder source slot plugins start writes)
            (copy_both_response ∷ map frame_message fs)
            yield
            s).1
          ≡ of_list
              (with_end (
                items parse_float show_float
                  (line_decoder (new_wire_decoder source slot plugins start writes))
                  0
                  (frame_lines fs)
                  none))
              yield
              s
    unfolding wire_events start_replication await_copy send_message new_wire_decoder after_start
    wire_events-frames source slot plugins start zero fs s ok h = absurd (omega (arith, h))
    wire_events-frames source slot plugins start (suc writes) fs s ok h =
        frames-yield fs _ s ok (omega (arith, h))
