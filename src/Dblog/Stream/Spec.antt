-- ===== src/Dblog/Stream/Spec.antt =====
-- What the adapters of dblog.go are meant to yield, as functions on the list of items that the
-- wrapped iterator holds: the events before the first error, and that error.
use go_dblog.Prelude.{Option, none, some, List, [], ◌∷◌}
use go_dblog.Dblog.Types.{Event}

module _ {B O X : Type 0} where
  -- The events in front of the first error, nil events left out.
  unfoldable pub events_before : List (Option (Event B O) × Option X) → List (Event B O)
  events_before [] = []
  events_before ((e, some x) ∷ is) = []
  events_before ((none, none) ∷ is) = events_before is
  events_before ((some e, none) ∷ is) = e ∷ events_before is

  unfoldable pub first_error : List (Option (Event B O) × Option X) → Option X
  first_error [] = none
  first_error ((e, some x) ∷ is) = some x
  first_error ((e, none) ∷ is) = first_error is

module _ {A J : Type 0} where
  -- The values that `f` finds, in order.
  unfoldable pub collect : (A → Option J) → List A → List J
  collect f [] = []
  collect f (a ∷ as') = elim (f a) [ none ↦ collect f as' | some j ↦ j ∷ collect f as' ]

module _ {J X : Type 0} where
  -- Values with no error, then the error, if there is one, with the zero value.
  unfoldable pub with_error : J → List J → Option X → List (J × Option X)
  with_error zero [] none = []
  with_error zero [] (some x) = (zero, some x) ∷ []
  with_error zero (j ∷ js) e = (j, none) ∷ with_error zero js e
