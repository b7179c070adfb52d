-- ===== src/Dblog/Start.antt =====
-- The start position that a backend takes from the checkpoint in its open options. The function
-- `startPosition` of redis/backend, postgres/backend and mongo/backend differs in the driver name.
use go_dblog.Prelude.{ℕ, ◌<◌, ◌≡◌, not, ◌&&◌, Option, none, some, arith, if◌then◌else◌}
use go_dblog.Prelude.Int.{ℤ, pos, negsuc}
use go_dblog.Prelude.Result.{Result, ok, err}
use go_dblog.Prelude.Text.{Bytes, is_empty, same, same_iff}
use go_dblog.Prelude.Decimal.{atoi, itoa, atoi-itoa, itoa_head, max_int}
use go_dblog.Dblog.Types.{Position}

pub data StartError : Type 0 where
  driver_mismatch : StartError
  invalid_position : StartError

-- A position is not negative.
abbrev pub checked : Option ℤ → Result StartError ℕ
checked none = err invalid_position
checked (some (negsuc n)) = err invalid_position
checked (some (pos n)) = ok n

unfoldable pub start_position_for : Bytes → Position → Result StartError ℕ
start_position_for driver p =
    if is_empty p.value
    then ok 0
    else if not (is_empty p.driver) && not (same p.driver driver)
    then err driver_mismatch
    else checked (atoi p.value)

-- The position of the event numbered `n` is read back as `n`.
pub start_position_for-itoa :
    (driver : Bytes) (n : ℕ)
    → n < max_int
    → start_position_for driver (record { driver = driver; value = itoa n }) ≡ ok n
unfolding start_position_for
start_position_for-itoa driver n h =
    let (d, cs, e, lo, hi) = itoa_head n in ground (arith, e, atoi-itoa n h, same_iff driver driver)
