-- ===== src/Tests/Dblog.antt =====
-- The theorems on dblog.go at concrete inputs.
use go_dblog.Prelude.{ℕ, zero, suc, ◌≡◌, Bool, true, Option, none, some, List, [], ◌∷◌}
use go_dblog.Prelude.Text.{codes}
use go_dblog.Prelude.Dict.{lookup}
use go_dblog.Prelude.Result.{ok}
use go_dblog.Dblog.Types.{Event, no_checkpoint}
use go_dblog.Dblog.Registry.{Backend}
use go_dblog.Dblog.Registry.Laws.{IsValid}
use go_dblog.Dblog.Stream.{of_list, by_kind, recovery_plan, Predicate}
use go_dblog.Dblog.Stream.Spec.{with_error, collect, events_before, first_error}
use go_dblog.Dblog.Stream.Laws.{step_of, recovery_plan-of_list}

abbrev insert_event : Event ℕ ℕ
insert_event = record {
  source_driver = codes "pg";
  source_name = codes "slot";
  position_driver = codes "pg";
  position_string = codes "1";
  kind = codes "insert";
  raw = [];
  body = 5;
  reverse = some (some 6);
}

-- A nil event, an event and an error.
abbrev items : List (Option (Event ℕ ℕ) × Option ℕ)
items = (none, none) ∷ (some insert_event, none) ∷ (none, some 1) ∷ []

abbrev keep : {J : Type 0} → List J → J → List J × Bool
keep s i = (i ∷ s, true)

abbrev inserts : List (Option (Predicate ℕ ℕ))
inserts = none ∷ some (by_kind (codes "insert")) ∷ []

abbrev small : ℕ → Option ℕ
small zero = none
small (suc n) = some n

recovery_plan-of_list_example :
    recovery_plan (of_list items) keep []
    ≡ of_list
        (with_error
          (record { checkpoint = no_checkpoint; operation = none })
          (collect step_of (events_before items))
          (first_error items))
        keep
        []
recovery_plan-of_list_example = recovery_plan-of_list keep items []

abbrev backend : Backend ℕ ℕ ℕ ℕ
backend = record { driver = codes "pg"; open_decoder = λ o. ok 1 }

empty-IsValid : IsValid {R = ℕ} {C = ℕ} {D = ℕ} {X = ℕ} []
unfolding lookup
empty-IsValid = record { own_name = λ d b h. absurd cc; ne_nil = λ d b h. absurd cc }

abbrev nameless : Backend ℕ ℕ ℕ ℕ
nameless = record { driver = []; open_decoder = λ o. ok 1 }
