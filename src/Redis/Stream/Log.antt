-- ===== src/Redis/Stream/Log.antt =====
-- What a RESP stream holds, and that `Events` yields it.
use go_dblog.Prelude.{
  ℕ, zero, suc, ◌+◌, ◌<◌, ◌≡◌, refl, sym, ap, ◌∙◌, Bool, true, false, Option, none, some, List, [],
  ◌∷◌, leb, if◌then◌else◌, length, arith, Bool-cases, inl, inr,
}
use go_dblog.Prelude.Text.{Bytes}
use go_dblog.Prelude.Result as Go
use go_dblog.Prelude.Result.{Result}
use go_dblog.Dblog.Types.{Event}
use go_dblog.Dblog.Stream.{of_list}
use go_dblog.Redis.Reader.{Reader, Error, Outcome, ok, err, panic}
use go_dblog.Redis.Command.{Command}
use go_dblog.Redis.Resp.{parse_command}
use go_dblog.Redis.Resp.Consume.{parse_command_takes}
use go_dblog.Redis.Resp.Safe.{parse_command-ne-panic}
use go_dblog.Redis.Stream.{
  Decoder, apply_command_plugins, new_event, as_event, stop_at, events_loop, decoder_events, is_eof,
}

-- The input holds these commands, each with its raw bytes, and then ends: at io.EOF (`none`) or at
-- an error. There is no fuel here.
pub data Log : Bytes → List (Command × Bytes) → Option Error → Type 0 where
  ends :
      {input : Bytes} {x : Error} {r : Reader} {e : Option Error}
      → parse_command (record { input = input; raw = [] }) ≡ err x r
      → e ≡ (if is_eof x then none else some x)
      → Log input [] e
  holds :
      {input : Bytes} {c : Command} {r : Reader} {cs : List (Command × Bytes)} {e : Option Error}
      → parse_command (record { input = input; raw = [] }) ≡ ok c r
      → Log r.input cs e
      → Log input ((c, r.raw) ∷ cs) e

pub record Parsed (input : Bytes) : Type 0 where
  pub commands : List (Command × Bytes)
  pub error : Option Error
  pub log : Log input commands error

Parsed-within : (n : ℕ) (input : Bytes) → length input < n → Parsed input
Parsed-within zero input h = absurd (omega arith)
Parsed-within (suc n) input h =
    go (λ j k. Parsed-within n j k) (parse_command (record { input = input; raw = [] })) refl
  where
    go :
        ((j : Bytes) → length j < n → Parsed j)
        → (o : Outcome Command) → parse_command (record { input = input; raw = [] }) ≡ o
        → Parsed input
    go rec (ok c r) e =
        let rest =
          rec r.input
            (omega (arith, (parse_command_takes (record { input = input; raw = [] }) r c e).1)) in
        record { commands = (c, r.raw) ∷ rest.commands; error = rest.error; log = holds e rest.log }
    go rec (err x r) e = record {
      commands = [];
      error = if is_eof x then none else some x;
      log = ends e refl;
    }
    go rec panic e = absurd (parse_command-ne-panic _ e)

-- Every input is such a log.
pub parsed : (input : Bytes) → Parsed input
parsed input = Parsed-within (suc (length input)) input (omega arith)

abbrev pub item_of : Decoder → ℕ → Bytes → Command → Option (Event Command Command) × Option Error
item_of d k raw c = (some (as_event (new_event d.source k raw c)), none)

-- An item in front of the others, or an error in their place.
abbrev items_of :
    Result Error Command
    → (Command → Option (Event Command Command) × Option Error)
    → List (Option (Event Command Command) × Option Error)
    → List (Option (Event Command Command) × Option Error)
items_of (Go.ok c') item js = item c' ∷ js
items_of (Go.err x) item js = (none, some x) ∷ []
items_of Go.panic item js = []

-- The items that a decoder is to yield from a position on.
unfoldable pub items :
    Decoder
    → ℕ
    → List (Command × Bytes)
    → Option Error
    → List (Option (Event Command Command) × Option Error)
items d k [] none = []
items d k [] (some e) = (none, some e) ∷ []
items d k ((c, raw) ∷ cs) e =
    let rest = items d (k + 1) cs e in
    if leb (k + 1) d.start_position
    then rest
    else items_of (apply_command_plugins c d.plugins) (item_of d (k + 1) raw) rest

module _ {S : Type 0} (d : Decoder)
    (yield : S → Option (Event Command Command) × Option Error → S × Bool) where
  -- A round whose command is not skipped, before a rest of the loop that yields `js`.
  unfoldable pub round_of :
      Result Error Command
      → (Command → Option (Event Command Command) × Option Error)
      → (S → S)
      → S
      → S
  round_of o item rest s = elim o [
    | Go.panic ↦ s
    | Go.err e ↦ (yield s (none, some e)).0
    | Go.ok c' ↦ elim (yield s (item c')).1 [
      | true ↦ rest (yield s (item c')).0
      | false ↦ (yield s (item c')).0
    ]
  ]

  round_of-of_list :
      (o : Result Error Command) (item : Command → Option (Event Command Command) × Option Error)
      (rest : S → S) (js : List (Option (Event Command Command) × Option Error)) (s : S)
      → ((t : S) → rest t ≡ of_list js yield t)
      → round_of o item rest s ≡ of_list (items_of o item js) yield s
  unfolding round_of of_list
  round_of-of_list Go.panic item rest js s h = refl
  round_of-of_list (Go.err e) item rest js s h = ground arith
  round_of-of_list (Go.ok c) item rest js s h = ground (arith, h (yield s (item c)).0)

  stop_at-of_list :
      (x : Error) (k : ℕ) (s : S)
      → stop_at d yield x s ≡ of_list (items d k [] (if is_eof x then none else some x)) yield s
  unfolding stop_at of_list items
  stop_at-of_list x k s = ground arith

  pub loop_err :
      (fuel k : ℕ) (input : Bytes) (s : S) (x : Error) (r : Reader)
      → parse_command (record { input = input; raw = [] }) ≡ err x r
      → events_loop d yield (suc fuel) k input s ≡ stop_at d yield x s
  unfolding events_loop
  loop_err fuel k input s x r p = rw (p, events_loop)

  pub loop_skip :
      (fuel k : ℕ) (input : Bytes) (s : S) (c : Command) (r : Reader)
      → parse_command (record { input = input; raw = [] }) ≡ ok c r
      → leb (k + 1) d.start_position ≡ true
      → events_loop d yield (suc fuel) k input s ≡ events_loop d yield fuel (k + 1) r.input s
  loop_skip fuel k input s c r p q = unfold events_loop in rw (p, q, events_loop)

  pub loop_round :
      (fuel k : ℕ) (input : Bytes) (s : S) (c : Command) (r : Reader)
      → parse_command (record { input = input; raw = [] }) ≡ ok c r
      → leb (k + 1) d.start_position ≡ false
      → events_loop d yield (suc fuel) k input s
        ≡ round_of
            (apply_command_plugins c d.plugins)
            (item_of d (k + 1) r.raw)
            (events_loop d yield fuel (k + 1) r.input)
            s
  unfolding round_of
  loop_round fuel k input s c r p q = unfold events_loop in rw (p, q, events_loop)

  items_skip :
      (k : ℕ) (c : Command) (raw : Bytes) (cs : List (Command × Bytes)) (e : Option Error)
      → leb (k + 1) d.start_position ≡ true
      → items d k ((c, raw) ∷ cs) e ≡ items d (k + 1) cs e
  unfolding items
  items_skip k c raw cs e q = rw q

  items_round :
      (k : ℕ) (c : Command) (raw : Bytes) (cs : List (Command × Bytes)) (e : Option Error)
      → leb (k + 1) d.start_position ≡ false
      → items d k ((c, raw) ∷ cs) e
        ≡ items_of
            (apply_command_plugins c d.plugins)
            (item_of d (k + 1) raw)
            (items d (k + 1) cs e)
  unfolding items
  items_round k c raw cs e q = rw q

  events_loop-Log :
      {input : Bytes} {cs : List (Command × Bytes)} {e : Option Error} (fuel k : ℕ) (s : S)
      → Log input cs e
      → length input < fuel
      → events_loop d yield fuel k input s ≡ of_list (items d k cs e) yield s
  events_loop-Log zero k s l h = absurd (omega arith)
  events_loop-Log {input} (suc fuel) k s (ends {x} {r} p q) h =
      loop_err fuel k input s x r p ∙ rw q (stop_at-of_list x k s)
  events_loop-Log (suc fuel) k s (holds {input} {c} {r} {cs} {e} p l) h =
      let shorter = (parse_command_takes (record { input = input; raw = [] }) r c p).1 in
      let rest = λ (t : S). events_loop-Log fuel (k + 1) t l (omega arith) in
      elim (Bool-cases (leb (k + 1) d.start_position)) [
        | inl q ↦
            loop_skip fuel k input s c r p q
            ∙ rest s
            ∙ ap (λ js. of_list js yield s) (sym (items_skip k c r.raw cs e q))
        | inr q ↦
            loop_round fuel k input s c r p q
            ∙ round_of-of_list _ (item_of d (k + 1) r.raw) _ (items d (k + 1) cs e) s rest
            ∙ ap (λ js. of_list js yield s) (sym (items_round k c r.raw cs e q))
      ]

  -- `Events` over an input yields one event for each command of its log, numbered from 1: those
  -- numbered up to the start position are left out, the plugins rewrite the others, and the first
  -- error of a plugin or of the parser ends the stream; it stops as soon as the consumer does.
  pub decoder_events-Log :
      {input : Bytes} {cs : List (Command × Bytes)} {e : Option Error} (s : S)
      → Log input cs e
      → decoder_events (some d) input yield s ≡ of_list (items d 0 cs e) yield s
  unfolding decoder_events
  decoder_events-Log {input} s l = events_loop-Log (suc (length input)) 0 s l (omega arith)
