-- ===== src/Mysql/Bytes/Safe.antt =====
-- When the reads at a position do not panic, and how that is passed along a chain of reads.
use go_dblog.Prelude.{
  ℕ, zero, suc, ◌+◌, ◌≤◌, ◌<◌, ◌≡◌, ◌≢◌, refl, Bool, true, false, [], ◌∷◌, length, length-drop,
  if◌then◌else◌, arith,
}
use go_dblog.Prelude.Result.{Result, ok, err, panic, ◌>>=◌}
use go_dblog.Prelude.Text as T
use go_dblog.Mysql.Bytes.{EventError, byte_at, from, slice, uint, require_data, require_from}

pub bind-safe :
    {A B : Type 0} (m : Result EventError A) (f : A → Result EventError B)
    → m ≢ panic
    → ((a : A) → m ≡ ok a → f a ≢ panic)
    → (m >>= f) ≢ panic
bind-safe (ok a) f p q = q a refl
bind-safe (err e) f p q = λ h. cc
bind-safe panic f p q = absurd (p refl)

pub ok-safe : {A : Type 0} (a : A) → ◌≢◌ {A = Result EventError A} (ok a) panic
ok-safe a h = cc

pub if-safe :
    {A : Type 0} {m k : Result EventError A} (b : Bool)
    → m ≢ panic
    → k ≢ panic
    → (if b then m else k) ≢ panic
if-safe true p q = p
if-safe false p q = q

pub byte_at-safe : (s : T.Bytes) (i : ℕ) → i < length s → byte_at s i ≢ panic
byte_at-safe [] i h = absurd (omega arith)
byte_at-safe (b ∷ s) zero h = λ e. cc
byte_at-safe (b ∷ s) (suc i) h = byte_at-safe s i (omega arith)

pub from-safe : (s : T.Bytes) (i : ℕ) → i ≤ length s → from s i ≢ panic
unfolding from
from-safe s i h e = ground arith

pub slice-safe : (s : T.Bytes) (i n : ℕ) → i + n ≤ length s → slice s i n ≢ panic
unfolding slice
slice-safe s i n h e = ground arith

pub uint-safe : (n : ℕ) (s : T.Bytes) (i : ℕ) → i + n ≤ length s → uint n s i ≢ panic
unfolding uint
uint-safe n s i h = bind-safe (slice s i n) _ (slice-safe s i n h) λ bs e. ok-safe _

pub require_data-safe : (s : T.Bytes) (n : ℕ) → require_data s n ≢ panic
unfolding require_data
require_data-safe s n e = ground arith

-- What a passed check gives.
pub require_data-le : (s : T.Bytes) (n : ℕ) {u : Unit {0}} → require_data s n ≡ ok u → n ≤ length s
unfolding require_data
require_data-le s n e = ground arith

pub require_from-safe : (s : T.Bytes) (i n : ℕ) → i ≤ length s → require_from s i n ≢ panic
unfolding require_from
require_from-safe s i n h =
    bind-safe (from s i) _ (from-safe s i h) λ rest e. require_data-safe rest n

pub require_from-le :
    (s : T.Bytes) (i n : ℕ) {u : Unit {0}}
    → i ≤ length s
    → require_from s i n ≡ ok u
    → i + n ≤ length s
unfolding require_from require_data from
require_from-le s i n h e = ground (arith, length-drop i s)
