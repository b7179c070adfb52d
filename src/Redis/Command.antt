-- ===== src/Redis/Command.antt =====
-- redis/decode/events/types/command.go and const.go: commands and their compensation.
pub mod Negate
pub mod Reverse
use go_dblog.Prelude.{
  ℕ, ◌-◌, Bool, true, false, not, Option, none, some, List, [], ◌∷◌, ◌++◌, length, ltb, ◌==◌,
  if◌then◌else◌,
}
use go_dblog.Prelude.Text.{Bytes, codes, same}
use go_dblog.Prelude.Decimal.{itoa}

pub record Command : Type 0 where
  pub name : Bytes
  pub args : List Bytes

-- The command names.
abbrev pub lpush : Bytes
lpush = codes "lpush"

abbrev pub lpop : Bytes
lpop = codes "lpop"

abbrev pub rpush : Bytes
rpush = codes "rpush"

abbrev pub rpop : Bytes
rpop = codes "rpop"

abbrev pub incr : Bytes
incr = codes "incr"

abbrev pub decr : Bytes
decr = codes "decr"

abbrev pub incr_by : Bytes
incr_by = codes "incrby"

abbrev pub decr_by : Bytes
decr_by = codes "decrby"

abbrev pub hincr_by : Bytes
hincr_by = codes "hincrby"

abbrev pub hincr_by_float : Bytes
hincr_by_float = codes "hincrbyfloat"

abbrev pub zincr_by : Bytes
zincr_by = codes "zincrby"

-- `negateNumericDelta`
unfoldable pub negate_numeric_delta : Bytes → Option Bytes
negate_numeric_delta [] = none
negate_numeric_delta (c ∷ []) =
    if c == b'-' then none else if c == b'+' then none else some (b'-' ∷ c ∷ [])
negate_numeric_delta (c ∷ d ∷ s) =
    if c == b'-'
    then some (d ∷ s)
    else if c == b'+'
    then some (b'-' ∷ d ∷ s)
    else some (b'-' ∷ c ∷ d ∷ s)

-- `reverseNumericDelta` at index 2, and at index 1.
unfoldable pub reverse_delta_2 : Bytes → List Bytes → Option Command
unfolding negate_numeric_delta
reverse_delta_2 name (a ∷ b ∷ c ∷ []) = elim (negate_numeric_delta c) [
  | none ↦ none
  | some delta ↦ some (record { name = name; args = a ∷ b ∷ delta ∷ [] })
]
reverse_delta_2 name _ = none

unfoldable pub reverse_delta_1 : Bytes → List Bytes → Option Command
unfolding negate_numeric_delta
reverse_delta_1 name (a ∷ b ∷ c ∷ []) = elim (negate_numeric_delta b) [
  | none ↦ none
  | some delta ↦ some (record { name = name; args = a ∷ delta ∷ c ∷ [] })
]
reverse_delta_1 name _ = none

-- The case of a push: the pop of as many values.
unfoldable pub reverse_push : Bytes → List Bytes → Option Command
reverse_push pop [] = none
reverse_push pop (key ∷ []) = none
reverse_push pop (key ∷ v ∷ vs) =
    some (record { name = pop; args = key ∷ itoa (length (v ∷ vs)) ∷ [] })

-- A case that keeps the arguments, if there are `n` of them.
unfoldable pub reverse_same : ℕ → Bytes → List Bytes → Option Command
reverse_same n name args =
    if not (length args == n) then none else some (record { name = name; args = args })

-- `Command.Reverse`
unfoldable pub reverse_command : Command → Option Command
unfolding reverse_delta_1 reverse_delta_2 reverse_push reverse_same
reverse_command c =
    if same c.name lpush
    then reverse_push lpop c.args
    else if same c.name rpush
    then reverse_push rpop c.args
    else if same c.name incr
    then reverse_same 1 decr c.args
    else if same c.name decr
    then reverse_same 1 incr c.args
    else if same c.name incr_by
    then reverse_same 2 decr_by c.args
    else if same c.name decr_by
    then reverse_same 2 incr_by c.args
    else if same c.name hincr_by
    then reverse_delta_2 c.name c.args
    else if same c.name hincr_by_float
    then reverse_delta_2 c.name c.args
    else if same c.name zincr_by
    then reverse_delta_1 c.name c.args
    else none
