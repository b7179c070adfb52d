-- ===== src/Redis/Stream/Resume.antt =====
-- Resuming a Redis stream from the checkpoint of an event.
use go_dblog.Prelude.{
  ℕ, zero, suc, ◌+◌, ◌≤◌, ◌<◌, ◌≡◌, refl, ap, ◌∙◌, Bool, Option, none, some, List, [], ◌∷◌, drop,
  get_elem?, arith,
}
use go_dblog.Prelude.Text.{Bytes}
use go_dblog.Prelude.Decimal.{itoa, max_int}
use go_dblog.Prelude.Result as Go
use go_dblog.Dblog.Types.{Source, Position, Event, checkpoint_of, position_of}
use go_dblog.Dblog.Stream.{of_list}
use go_dblog.Dblog.Stream.Spec.{with_error}
use go_dblog.Dblog.Start.{start_position_for-itoa}
use go_dblog.Redis.Reader.{Error}
use go_dblog.Redis.Command.{Command}
use go_dblog.Redis.Stream.{
  driver, Decoder, new_decoder, apply_command_plugins, new_event, as_event, decoder_events,
  start_position,
}
use go_dblog.Redis.Stream.Log.{Log, items, decoder_events-Log}

-- One event for each command, numbered from `k + 1`.
unfoldable pub numbered :
    Source → ℕ → List (Command × Bytes) → List (Option (Event Command Command))
numbered source k [] = []
numbered source k ((c, raw) ∷ cs) =
    some (as_event (new_event source (k + 1) raw c)) ∷ numbered source (k + 1) cs

module _ (d : Decoder) (no_plugins : d.plugins ≡ []) where
  items_all :
      (k : ℕ) (cs : List (Command × Bytes)) (e : Option Error)
      → d.start_position ≤ k
      → items d k cs e ≡ with_error none (numbered d.source k cs) e
  unfolding items numbered with_error apply_command_plugins
  items_all k [] none h = refl
  items_all k [] (some e) h = refl
  items_all k ((c, raw) ∷ cs) e h =
      rw (no_plugins, apply_command_plugins) (ground (arith, items_all (k + 1) cs e))

  -- Below the start position commands are left out.
  items_from :
      (n k : ℕ) (cs : List (Command × Bytes)) (e : Option Error)
      → d.start_position ≡ k + n
      → items d k cs e ≡ with_error none (drop n (numbered d.source k cs)) e
  unfolding items numbered with_error
  items_from zero k cs e h = items_all k cs e (omega arith)
  items_from (suc n) k [] none h = refl
  items_from (suc n) k [] (some e) h = refl
  items_from (suc n) k ((c, raw) ∷ cs) e h = ground (arith, items_from n (k + 1) cs e)

some_eq : {A : Type 0} {a b : A} → some a ≡ some b → b ≡ a
some_eq h = cc

place :
    {m n : ℕ}
    → m ≡ n
    → ◌≡◌ {A = Position}
        (record { driver = driver; value = itoa m })
        (record { driver = driver; value = itoa n })
place e = λ i. record { driver = driver; value = itoa (e i) }

-- The event at place `i` has the number `k + i + 1`.
numbered_at :
    (source : Source) (k i : ℕ) (cs : List (Command × Bytes)) (ev : Option (Event Command Command))
    → get_elem? (numbered source k cs) i ≡ some ev
    → position_of ev ≡ record { driver = driver; value = itoa (k + i + 1) }
unfolding numbered position_of as_event new_event
numbered_at source k i [] ev h = cc
numbered_at source k zero ((c, raw) ∷ cs) ev h = ap position_of (some_eq h) ∙ place (omega arith)
numbered_at source k (suc i) ((c, raw) ∷ cs) ev h =
    numbered_at source (k + 1) i cs ev h ∙ place (omega arith)

checkpoint_position :
    (ev : Option (Event Command Command)) → (checkpoint_of ev).position ≡ position_of ev
unfolding checkpoint_of position_of
checkpoint_position none = refl
checkpoint_position (some e) = refl

start_of :
    (n : ℕ) → n < max_int → start_position (record { driver = driver; value = itoa n }) ≡ Go.ok n
unfolding start_position
start_of = start_position_for-itoa driver

-- A decoder with no plugins that starts at a checkpoint. Take any event of a stream, at place `i`
-- below the range of `int`: the backend reads its checkpoint back without an error, and from there
-- `Events` over the same input yields exactly the events behind it, as they were, and then the
-- stream's error if it has one.
pub resume_after :
    {S : Type 0} (source : Source)
    (yield : S → Option (Event Command Command) × Option Error → S × Bool) (s : S) {input : Bytes}
    {cs : List (Command × Bytes)} {e : Option Error} (i : ℕ) (ev : Option (Event Command Command))
    → Log input cs e
    → get_elem? (numbered (new_decoder source [] 0).source 0 cs) i ≡ some ev
    → i + 1 < max_int
    → (n : ℕ) × (start_position (checkpoint_of ev).position ≡ Go.ok n)
      × (decoder_events (some (new_decoder source [] n)) input yield s
          ≡ of_list
              (with_error none (drop (suc i) (numbered (new_decoder source [] 0).source 0 cs)) e)
              yield
              s)
resume_after source yield s {cs} {e} i ev l found small =
    let from = numbered_at _ 0 i cs ev found in
    (
      i + 1,
      ap start_position (checkpoint_position ev)
          ∙ ap start_position from
          ∙ ap start_position (place (omega arith))
          ∙ start_of (i + 1) small,
      decoder_events-Log (new_decoder source [] (i + 1)) yield s l
          ∙ ap (λ js. of_list js yield s)
              (unfold new_decoder in
                items_from (new_decoder source [] (i + 1)) refl (suc i) 0 cs e (omega arith)),
    )
