-- ===== src/Mysql/Backend.antt =====
-- mysql/backend/backend.go: the position that a checkpoint stands for, and the events behind it.
pub mod Checkpoints
use go_dblog.Prelude.{
  ℕ, Bool, true, false, not, ◌&&◌, leb, ◌==◌, Option, none, some, [], ◌∷◌, if◌then◌else◌,
}
use go_dblog.Prelude.Int.{ℤ, pos, negsuc}
use go_dblog.Prelude.Result.{Result, ok, err}
use go_dblog.Prelude.Text.{Bytes, codes, is_empty, same, trim_space, has_prefix}
use go_dblog.Prelude.Decimal.{atoi}
use go_dblog.Dblog.Types.{Position, Event}
use go_dblog.Dblog.Stream.{Round, skip, emit, last, take_round}
use go_dblog.Dblog.Start.{StartError, driver_mismatch, invalid_position, checked}
use go_dblog.Mysql.Event.{driver}

-- What is in front of the last colon and behind it, as `strings.LastIndex` and two slices give.
unfoldable pub last_cut : Bytes → Option (Bytes × Bytes)
last_cut [] = none
last_cut (c ∷ s) = elim (last_cut s) [
  | some (a, b) ↦ some (c ∷ a, b)
  | none ↦ if c == b':' then some ([], s) else none
]

-- `parsePosition`; strconv.ParseInt in base 10 is `atoi`.
unfoldable pub parse_position : Bytes → Option ℤ
unfolding last_cut atoi
parse_position s = elim (last_cut s) [ some (a, b) ↦ atoi b | none ↦ atoi s ]

-- `startPosition`
unfoldable pub start_position : Position → Result StartError ℕ
unfolding parse_position
start_position p =
    if is_empty p.value
    then ok 0
    else if not (is_empty p.driver) && not (same p.driver driver)
    then err driver_mismatch
    else checked (parse_position p.value)

-- `startFile`
unfoldable pub start_file : Position → Bytes
unfolding last_cut
start_file p = elim (last_cut p.value) [ some (a, b) ↦ a | none ↦ [] ]

-- `isMySQLDSN`
unfoldable pub is_mysql_dsn : Bytes → Bool
unfolding trim_space has_prefix
is_mysql_dsn dsn = has_prefix (trim_space dsn) (codes "mysql://")

-- `err == nil && position <= startPos`
abbrev pub at_or_before : ℕ → Option ℤ → Bool
at_or_before start none = false
at_or_before start (some (negsuc n)) = true
at_or_before start (some (pos n)) = leb n start

-- The body of the loop of `eventsAfterPosition`; an event without an error is not nil.
unfoldable pub after_round :
    {E X : Type 0} → (E → Bytes) → ℕ → Option E × Option X → Round (Option E × Option X)
unfolding parse_position
after_round string start (e, some x) = last (none, some x)
after_round string start (none, none) = skip
after_round string start (some e, none) =
    if at_or_before start (parse_position (string e)) then skip else emit (some e, none)

-- `eventsAfterPosition`, where `string` is `PositionString`; `R` is what a run of the loop gives.
unfoldable pub events_after_position :
    {E X S R : Type 0}
    → (E → Bytes)
    → ((S → Option E × Option X → S × Bool) → S → R)
    → ℕ
    → (S → Option E × Option X → S × Bool)
    → S
    → R
unfolding after_round take_round
events_after_position string events start yield =
    events (λ s item. take_round yield s (after_round string start item))
