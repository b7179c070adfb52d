-- ===== src/Tests/Replication.antt =====
-- The theorems on the replication decoder of postgres/ at concrete inputs.
use go_dblog.Prelude.{
  some, ◌%◌, ℕ, ◌+◌, ◌≡◌, ◌≢◌, refl, Bool, true, Option, none, List, [], ◌∷◌, ◌++◌, map, arith, inl,
  inr,
}
use go_dblog.Prelude.Text.{Bytes, codes, has_prefix, trim_space}
use go_dblog.Prelude.Decimal.{itoa}
use go_dblog.Prelude.Result as Go
use go_dblog.Dblog.Types.{Source}
use go_dblog.Dblog.Stream.{of_list}
use go_dblog.Postgres.Line.{parse_line}
use go_dblog.Postgres.Line.Safe.{parse_line-ne-panic}
use go_dblog.Postgres.Stream.Spec.{items}
use go_dblog.Postgres.Replication.{
  WireItem, WireDecoder, copy_both_response, receive_loop, wire_events, new_wire_decoder,
}
use go_dblog.Postgres.Replication.Frames.{
  Frame, xlog, keepalive, frame_message, frame_lines, with_end, line_decoder, wire_events-frames,
}
use go_dblog.Postgres.Replication.Status.{IsRead, read_status, answers, frames-answer}

abbrev no_float : Bytes → Option ℕ
no_float s = none

abbrev clock : ℕ → ℕ
clock n = 1000 + n % 60

abbrev source : Source
source = record { driver = []; name = codes "db" }

abbrev decoder : WireDecoder ℕ
decoder = record {
  source = record { driver = codes "pg"; name = codes "db" };
  slot = codes "slot";
  plugins = [];
  start_position = 0;
  position = 0;
  started = true;
  sent = [];
  writes_left = 3;
}

-- A line, a keepalive that asks for a reply, and a blank line with no LSN.
abbrev frames : List Frame
frames = xlog 1 7 0 (codes "BEGIN 42") ∷ keepalive 8 0 1 ∷ xlog 0 0 0 (codes " ") ∷ []

-- A consumer that counts the items.
abbrev counting : ℕ → WireItem ℕ → ℕ × Bool
counting n item = (n + 1, true)

parse_line-ne-panic_example :
    parse_line no_float source 1 (codes "table a: UPDATE: id[integer") [] ≢ Go.panic
parse_line-ne-panic_example =
    parse_line-ne-panic no_float source 1 (codes "table a: UPDATE: id[integer") []

wire_events-frames_example :
    (wire_events no_float itoa clock
      (new_wire_decoder source (codes "slot") [] 0 5)
      (copy_both_response ∷ map frame_message frames)
      counting
      0).1
    ≡ of_list
        (with_end (
          items no_float itoa
            (line_decoder (new_wire_decoder source (codes "slot") [] 0 5))
            0
            (frame_lines frames)
            none))
        counting
        0
wire_events-frames_example =
    wire_events-frames no_float itoa clock counting source (codes "slot") [] 0 5 frames 0
      (omega arith) (omega arith)

-- The event and the end of the connection.
wire_count : (wire_events no_float itoa clock decoder (map frame_message frames) counting 0).1 ≡ 2
unfolding wire_events trim_space parse_line has_prefix
wire_count = refl

begin-IsRead : IsRead no_float itoa clock counting decoder (codes "BEGIN 42")
unfolding parse_line has_prefix trim_space
begin-IsRead = inr (λ k. (_, refl))

frames-answer_example :
    (added : List Bytes) × ((receive_loop no_float itoa clock decoder
        (map frame_message frames)
        counting
        0).0.sent
      ≡ [] ++ added)
    × (map read_status added ≡ map (λ a. some a) (answers clock 0 frames))
frames-answer_example =
    frames-answer no_float itoa clock counting (λ s item. refl) frames decoder 0 (λ k. omega arith)
      (omega arith) (unfold trim_space in (begin-IsRead, (inl refl, (inl refl, tt)))) (omega arith)

two_answers :
    answers clock 0 frames
    ≡ record { written = 7; flushed = 7; applied = 7; sent_at = 1000; reply_now = 0 }
      ∷ record { written = 8; flushed = 8; applied = 8; sent_at = 1001; reply_now = 1 }
      ∷ []
unfolding answers
two_answers = refl
