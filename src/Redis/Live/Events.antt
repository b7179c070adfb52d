-- ===== src/Redis/Live/Events.antt =====
-- The events of live replication against those of a decoder over the same commands.
use go_dblog.Prelude.{
  ℕ, zero, suc, ◌+◌, ◌<◌, ◌≡◌, refl, sym, ap, ◌∙◌, Bool, true, false, Option, none, some, [], ◌∷◌,
  ◌++◌, length, leb, Bool-cases, ◌⊎◌, inl, inr,
}
use go_dblog.Prelude.Text.{Bytes}
use go_dblog.Prelude.Decimal.{itoa, max_int}
use go_dblog.Prelude.Result as Go
use go_dblog.Prelude.Result.{Result}
use go_dblog.Dblog.Types.{Event}
use go_dblog.Redis.Reader.{Error, Outcome, ok, err, panic}
use go_dblog.Redis.Command.{Command}
use go_dblog.Redis.Resp.{parse_command}
use go_dblog.Redis.Resp.Safe.{parse_command-ne-panic}
use go_dblog.Redis.Stream.{
  Decoder, apply_command_plugins, stop_at, events_loop, decoder_events, new_event, as_event,
}
use go_dblog.Redis.Stream.Log.{item_of, round_of, loop_err, loop_skip, loop_round}
use go_dblog.Redis.Live.{
  Conn, done, LiveError, LiveDecoder, LiveYield, advanced, live_stop, live_command, live_round,
  live_loop, after_handshake, live_events, handshake,
}
use go_dblog.Redis.Live.Handshake.{
  IsLine, line, full_resync, handshake_commands, handshake-full_resync,
}

-- The consumer of a live decoder as one of a decoder.
abbrev pub lift_yield :
    {S : Type 0} → LiveYield S → S → Option (Event Command Command) × Option Error → S × Bool
lift_yield yield s (event, none) = yield s (event, none)
lift_yield yield s (event, some e) = yield s (event, some (inr e))

module _ {S : Type 0} (yield : LiveYield S) where
  stop-lifted :
      (d : Decoder) (x : Error) (s : S) → stop_at d (lift_yield yield) x s ≡ live_stop yield x s
  unfolding stop_at live_stop
  stop-lifted d x s = refl

  command-lifted :
      (d : LiveDecoder) (s : S) (raw : Bytes) (o : Result Error Command) (rest : S → S)
      (next : LiveDecoder → S → LiveDecoder × S)
      → ((t : S) → rest t ≡ (next d t).1)
      → round_of d.decoder (lift_yield yield) o (item_of d.decoder d.position raw) rest s
        ≡ (live_command yield next d s raw o).1
  unfolding round_of live_command
  command-lifted d s raw Go.panic rest next h = refl
  command-lifted d s raw (Go.err e) rest next h = refl
  command-lifted d s raw (Go.ok c) rest next h =
      let item : Option (Event Command Command) × Option (LiveError ⊎ Error) =
        (some (as_event (new_event d.decoder.source d.position raw c)), none) in
      elim (Bool-cases (yield s item).1) [
        | inl on ↦ rw on (h (yield s item).0)
        | inr stop ↦ rw stop refl
      ]

  round-lifted :
      (fuel : ℕ) (next : LiveDecoder → S → LiveDecoder × S) (d : LiveDecoder) (s : S)
      (o : Outcome Command)
      → ((d' : LiveDecoder) (t : S)
          → events_loop d'.decoder (lift_yield yield) fuel d'.position d'.conn.input t
            ≡ (next d' t).1)
      → parse_command (record { input = d.conn.input; raw = [] }) ≡ o
      → events_loop d.decoder (lift_yield yield) (suc fuel) d.position d.conn.input s
        ≡ (live_round yield next d s o).1
  unfolding live_round
  round-lifted fuel next d s panic same e =
      absurd (parse_command-ne-panic (record { input = d.conn.input; raw = [] }) e)
  round-lifted fuel next d s (err x r) same e =
      loop_err d.decoder (lift_yield yield) fuel d.position d.conn.input s x r e
      ∙ stop-lifted d.decoder x s
  round-lifted fuel next d s (ok c r) same e =
      let d' : LiveDecoder = advanced d r.input in
      elim (Bool-cases (leb (d.position + 1) d.decoder.start_position)) [
        | inl below ↦
            loop_skip d.decoder (lift_yield yield) fuel d.position d.conn.input s c r e below
            ∙ same d' s
            ∙ rw below refl
        | inr above ↦
            loop_round d.decoder (lift_yield yield) fuel d.position d.conn.input s c r e above
            ∙ command-lifted d' s r.raw (apply_command_plugins c d.decoder.plugins) _ next (same d')
            ∙ rw above refl
      ]

  -- The loop of the live decoder yields what that of the decoder does.
  loop-lifted :
      (fuel : ℕ) (d : LiveDecoder) (s : S)
      → events_loop d.decoder (lift_yield yield) fuel d.position d.conn.input s
        ≡ (live_loop yield fuel d s).1
  unfolding events_loop live_loop
  loop-lifted zero d s = refl
  loop-lifted (suc fuel) d s =
      round-lifted fuel (λ d' t. live_loop yield fuel d' t) d s
        (parse_command (record { input = d.conn.input; raw = [] })) (λ d' t. loop-lifted fuel d' t)
        refl

-- A new decoder of live replication.
abbrev pub live_decoder : Decoder → Conn → LiveDecoder
live_decoder d c = record { decoder = d; conn = c; position = 0; handshook = false }

events-handshake :
    {S : Type 0} (d : Decoder) (c left : Conn) (yield : LiveYield S) (s : S)
    → handshake c ≡ done tt left
    → (live_events (live_decoder d c) yield s).1
      ≡ decoder_events (some d) left.input (lift_yield yield) s
unfolding live_events after_handshake decoder_events
events-handshake d c left yield s e =
    ap (λ o. (after_handshake yield (live_decoder d c) o s).1) e
    ∙ sym (
        loop-lifted yield (suc (length left.input))
          (record { decoder = d; conn = left; position = 0; handshook = true }) s)

-- Behind a handshake with a full resynchronisation, the loop of `Events` of a new live decoder yields
-- to every consumer what that of `Decoder.Events` with the same options yields over the stream of
-- commands behind the database.
pub live_events-full_resync :
    {S : Type 0} (d : Decoder) (a b l rdb stream : Bytes) (n : ℕ) (yield : LiveYield S) (s : S)
    → IsLine (b'+' ∷ a)
    → IsLine (b'+' ∷ b)
    → IsLine l
    → length rdb < max_int
    → (live_events
        (live_decoder d (record {
          input = line (b'+' ∷ a) (
              line
                (b'+' ∷ b)
                (line (full_resync l) (line (b'$' ∷ itoa (length rdb)) (rdb ++ stream))));
          sent = [];
          writes_left = suc (suc (suc n));
        }))
        yield
        s).1
      ≡ decoder_events (some d) stream (lift_yield yield) s
live_events-full_resync d a b l rdb stream n yield s ha hb hl small =
    events-handshake d _ (record { input = stream; sent = handshake_commands; writes_left = n })
      yield s (handshake-full_resync a b l rdb stream [] n ha hb hl small)
