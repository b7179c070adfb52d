-- ===== src/Dblog/Stream/Laws.antt =====
-- The adapters of dblog.go against their description in `Dblog.Stream.Spec`: for every consumer,
-- which may stop at any item, the adapter behaves as a producer that holds the described items.
use go_dblog.Prelude.{
  ◌≡◌, refl, ap, ◌∙◌, Bool, Option, none, some, List, [], ◌∷◌, Bool-cases, Option-cases, inl, inr,
  if◌then◌else◌,
}
use go_dblog.Dblog.Types.{Event, checkpoint_of, no_checkpoint}
use go_dblog.Dblog.Stream.{
  Predicate, of_list, Round, skip, emit, last, take_round, adapt, matches, reverse_operation,
  RecoveryStep, filter_events, bodies, flashbacks, recovery_plan, filter_round, bodies_round,
  flashbacks_round, recovery_round,
}
use go_dblog.Dblog.Stream.Spec.{events_before, first_error, collect, with_error}

abbrev push : {J : Type 0} → Round J → List J → List J
push skip js = js
push (emit j) js = j ∷ js
push (last j) js = j ∷ []

-- The items that an adapter's loop yields, over a producer that holds `is`.
rounds : {A J : Type 0} → (A → Round J) → List A → List J
rounds round [] = []
rounds round (i ∷ is) = push (round i) (rounds round is)

module _ {S J Y : Type 0} (yield : S → J × Option Y → S × Bool) where
  -- One round, before a rest of the loop `k` that yields `js`.
  round_step :
      (r : Round (J × Option Y)) (k : S → S) (js : List (J × Option Y)) (s : S)
      → ((t : S) → k t ≡ of_list js yield t)
      → (if (take_round yield s r).1 then k (take_round yield s r).0 else (take_round yield s r).0)
        ≡ of_list (push r js) yield s
  unfolding take_round of_list
  round_step skip k js s h = h s
  round_step (emit j) k js s h = rw (h (yield s j).0)
  round_step (last j) k js s h = elim (Bool-cases (yield s j).1) [
    | inl more ↦ rw more
    | inr stop ↦ rw stop
  ]

module _ {S A J X Y : Type 0} (round : A × Option X → Round (J × Option Y)) where
  adapt-of_list :
      (yield : S → J × Option Y → S × Bool) (is : List (A × Option X)) (s : S)
      → adapt round (of_list is) yield s ≡ of_list (rounds round is) yield s
  unfolding adapt of_list rounds
  adapt-of_list yield [] s = refl
  adapt-of_list yield (i ∷ is) s =
      round_step yield (round i) (adapt round (of_list is) yield) (rounds round is) s
        (adapt-of_list yield is)

module _ {B O J X : Type 0} where
  -- A loop that ends at an error, passes over nil events, and yields what `f` finds.
  record Keeps (f : Event B O → Option J) (zero : J)
      (round : Option (Event B O) × Option X → Round (J × Option X)) : Type 0 where
    at_error : (e : Option (Event B O)) (x : X) → round (e, some x) ≡ last (zero, some x)
    at_nil : round (none, none) ≡ skip
    at_event :
        (e : Event B O)
        → round (some e, none) ≡ (elim (f e) [ none ↦ skip | some j ↦ emit (j, none) ])

  module _ (f : Event B O → Option J) (zero : J)
      (round : Option (Event B O) × Option X → Round (J × Option X)) (k : Keeps f zero round) where
    rounds-Keeps :
        (is : List (Option (Event B O) × Option X))
        → rounds round is ≡ with_error zero (collect f (events_before is)) (first_error is)
    unfolding rounds collect events_before first_error with_error
    rounds-Keeps [] = refl
    rounds-Keeps ((e, some x) ∷ is) = rw (k.at_error e x)
    rounds-Keeps ((none, none) ∷ is) = rw k.at_nil (rounds-Keeps is)
    rounds-Keeps ((some e, none) ∷ is) = elim (Option-cases (f e)) [
      | inl nothing ↦ rw (k.at_event e, nothing) (rounds-Keeps is)
      | inr (j, found) ↦ rw (k.at_event e, found) (ap (◌∷◌ (j, none)) (rounds-Keeps is))
    ]

    adapt-Keeps :
        {S : Type 0} (yield : S → J × Option X → S × Bool)
        (is : List (Option (Event B O) × Option X)) (s : S)
        → adapt round (of_list is) yield s
          ≡ of_list (with_error zero (collect f (events_before is)) (first_error is)) yield s
    adapt-Keeps yield is s =
        adapt-of_list round yield is s ∙ ap (λ js. of_list js yield s) (rounds-Keeps is)

module _ {B O : Type 0} where
  -- What `match` lets through, as a partial function.
  abbrev pub accepted : List (Option (Predicate B O)) → Event B O → Option (Option (Event B O))
  accepted ps e = if matches (some e) ps then some (some e) else none

  -- The compensating operation of an event, and the recovery step of it.
  abbrev pub operation_of : Event B O → Option (Option O)
  operation_of e = elim (reverse_operation (some e)) [ none ↦ none | some op ↦ some (some op) ]

  abbrev pub step_of : Event B O → Option (RecoveryStep O)
  step_of e = elim (reverse_operation (some e)) [
    | none ↦ none
    | some op ↦ some (record { checkpoint = checkpoint_of (some e); operation = some op })
  ]

module _ {B O X : Type 0} where
  filter_round-Keeps :
      (ps : List (Option (Predicate B O))) → Keeps {X = X} (accepted ps) none (filter_round ps)
  unfolding filter_round
  filter_round-Keeps ps = record {
    at_error = λ e x. refl;
    at_nil = refl;
    at_event = λ e. elim (Bool-cases (matches (some e) ps)) [ inl h ↦ rw h | inr h ↦ rw h ];
  }

  -- `Filter` yields the accepted events in front of the first error, in order, and then that error
  -- with a nil event; and it stops as soon as the consumer does.
  pub filter_events-of_list :
      {S : Type 0} (ps : List (Option (Predicate B O)))
      (yield : S → Option (Event B O) × Option X → S × Bool)
      (is : List (Option (Event B O) × Option X)) (s : S)
      → filter_events ps (of_list is) yield s
        ≡ of_list
            (with_error none (collect (accepted ps) (events_before is)) (first_error is))
            yield
            s
  unfolding filter_events
  filter_events-of_list ps =
      adapt-Keeps (accepted ps) none (filter_round ps) (filter_round-Keeps ps)

  bodies_round-Keeps :
      {T : Type 0} (zero : T) (as_body : B → Option T)
      → Keeps {B = B} {O = O} {X = X} (λ e. as_body e.body) zero (bodies_round zero as_body)
  unfolding bodies_round
  bodies_round-Keeps zero as_body = record {
    at_error = λ e x. refl;
    at_nil = refl;
    at_event = λ e. elim (Option-cases (as_body e.body)) [
      | inl h ↦ rw (h, bodies_round)
      | inr (b, h) ↦ rw (h, bodies_round)
    ];
  }

  -- `Bodies[T]` yields the bodies that are a `T` of the events in front of the first error, and then
  -- that error with the zero value.
  pub bodies-of_list :
      {S T : Type 0} (zero : T) (as_body : B → Option T) (yield : S → T × Option X → S × Bool)
      (is : List (Option (Event B O) × Option X)) (s : S)
      → bodies zero as_body (of_list is) yield s
        ≡ of_list
            (with_error zero (collect (λ e. as_body e.body) (events_before is)) (first_error is))
            yield
            s
  unfolding bodies
  bodies-of_list zero as_body =
      adapt-Keeps (λ e. as_body e.body) zero (bodies_round zero as_body)
        (bodies_round-Keeps zero as_body)

  flashbacks_round-Keeps : Keeps {B = B} {O = O} {X = X} operation_of none flashbacks_round
  unfolding flashbacks_round
  flashbacks_round-Keeps = record {
    at_error = λ e x. refl;
    at_nil = unfold reverse_operation in refl;
    at_event = λ e. elim (Option-cases (reverse_operation (some e))) [
      | inl h ↦ rw (h, flashbacks_round)
      | inr (op, h) ↦ rw (h, flashbacks_round)
    ];
  }

  recovery_round-Keeps :
      Keeps {B = B} {O = O} {X = X} step_of
        (record { checkpoint = no_checkpoint; operation = none })
        recovery_round
  unfolding recovery_round
  recovery_round-Keeps = record {
    at_error = λ e x. refl;
    at_nil = unfold reverse_operation in refl;
    at_event = λ e. elim (Option-cases (reverse_operation (some e))) [
      | inl h ↦ rw (h, recovery_round)
      | inr (op, h) ↦ rw (h, recovery_round)
    ];
  }

  -- `RecoveryPlan` yields one step for each reversible event in front of the first error, in order,
  -- with the operation that undoes it and the checkpoint of that same event; then the error.
  pub recovery_plan-of_list :
      {S : Type 0} (yield : S → RecoveryStep O × Option X → S × Bool)
      (is : List (Option (Event B O) × Option X)) (s : S)
      → recovery_plan (of_list is) yield s
        ≡ of_list
            (with_error
              (record { checkpoint = no_checkpoint; operation = none })
              (collect step_of (events_before is))
              (first_error is))
            yield
            s
  unfolding recovery_plan
  recovery_plan-of_list = adapt-Keeps step_of _ recovery_round recovery_round-Keeps

  -- `Flashbacks` yields the operations that undo the reversible events in front of the first error, in
  -- order, and then that error with a nil operation.
  pub flashbacks-of_list :
      {S : Type 0} (yield : S → Option O × Option X → S × Bool)
      (is : List (Option (Event B O) × Option X)) (s : S)
      → flashbacks (of_list is) yield s
        ≡ of_list
            (with_error none (collect operation_of (events_before is)) (first_error is))
            yield
            s
  unfolding flashbacks
  flashbacks-of_list = adapt-Keeps operation_of none flashbacks_round flashbacks_round-Keeps
