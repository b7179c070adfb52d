-- ===== src/Mysql/Bytes/Post.antt =====
-- What a chain of reads guarantees: no panic, and a predicate of its value.
use go_dblog.Prelude.{
  ℕ, ◌+◌, ◌≤◌, ◌≡◌, ◌≢◌, refl, Bool, true, false, length, length-drop, if◌then◌else◌, arith,
}
use mathlib.Core.Path.{subst}
use go_dblog.Prelude.Result.{ok, err, panic, ◌>>=◌}
use go_dblog.Prelude.Text.{Bytes}
use go_dblog.Mysql.Bytes.{
  EventError, Decoded, byte_at, from, slice, uint, require_data, require_from,
}
use go_dblog.Mysql.Bytes.Safe.{
  byte_at-safe, from-safe, slice-safe, uint-safe, require_data-safe, require_data-le,
  require_from-safe, require_from-le,
}

-- No panic, and `Q` of the value if there is one.
pub record Post {A : Type 0} (Q : A → Type 0) (m : Decoded A) : Type 0 where
  pub safe : m ≢ panic
  pub holds : (a : A) → m ≡ ok a → Q a

pub Post-ok : {A : Type 0} {Q : A → Type 0} (a : A) → Q a → Post Q (ok a)
Post-ok {A} {Q} a q = record { safe = λ e. cc; holds = λ b e. subst Q (ok_eq e) q }
  where
    ok_eq : {b : A} → ◌≡◌ {A = Decoded A} (ok a) (ok b) → a ≡ b
    ok_eq e = cc

pub Post-bind :
    {A B : Type 0} (Q : A → Type 0) {R : B → Type 0} (m : Decoded A) {f : A → Decoded B}
    → Post Q m
    → ((a : A) → Q a → Post R (f a))
    → Post R (m >>= f)
Post-bind Q (ok a) p q = q a (p.holds a refl)
Post-bind Q (err e) p q = record { safe = λ h. cc; holds = λ b h. absurd cc }
Post-bind Q panic p q = absurd (p.safe refl)

pub Post-intro :
    {A : Type 0} {Q : A → Type 0} (m : Decoded A)
    → m ≢ panic
    → ((a : A) → m ≡ ok a → Q a)
    → Post Q m
Post-intro m p q = record { safe = p; holds = q }

-- No panic alone.
abbrev pub Any : {A : Type 0} → A → Type 0
Any a = Unit {0}

pub Post-Any : {A : Type 0} (m : Decoded A) → m ≢ panic → Post Any m
Post-Any m h = Post-intro m h λ a e. tt

pub data-Post : (s : Bytes) (n : ℕ) → Post (λ _. n ≤ length s) (require_data s n)
data-Post s n = Post-intro (require_data s n) (require_data-safe s n) λ _ e. require_data-le s n e

pub from-Post :
    (s : Bytes) (i n : ℕ) → i ≤ length s → Post (λ _. i + n ≤ length s) (require_from s i n)
from-Post s i n h =
    Post-intro (require_from s i n) (require_from-safe s i n h) λ _ e. require_from-le s i n h e

pub rest-Post :
    (s : Bytes) (i : ℕ) → i ≤ length s → Post (λ rest. i + length rest ≤ length s) (from s i)
unfolding from
rest-Post s i h = Post-intro (from s i) (from-safe s i h) λ rest e. ground (arith, length-drop i s)

-- The position that a piece answers with is in range.
abbrev pub Within : {A : Type 0} → Bytes → A × ℕ → Type 0
Within s (a, q) = q ≤ length s

-- The reads at a position that is known to be in range.
pub byte_at-Post : (s : Bytes) (i : ℕ) → i + 1 ≤ length s → Post Any (byte_at s i)
byte_at-Post s i h = Post-Any _ (byte_at-safe s i (omega (arith, h)))

pub slice-Post : (s : Bytes) (i n : ℕ) → i + n ≤ length s → Post Any (slice s i n)
slice-Post s i n h = Post-Any _ (slice-safe s i n h)

pub uint-Post : (n : ℕ) (s : Bytes) (i : ℕ) → i + n ≤ length s → Post Any (uint n s i)
uint-Post n s i h = Post-Any _ (uint-safe n s i h)

-- A predicate of the value alone, where there is one.
pub record Yields {A : Type 0} (Q : A → Type 0) (m : Decoded A) : Type 0 where
  pub value : (a : A) → m ≡ ok a → Q a

pub Yields-bind :
    {A B : Type 0} {Q : B → Type 0} (m : Decoded A) {f : A → Decoded B}
    → ((a : A) → m ≡ ok a → Yields Q (f a))
    → Yields Q (m >>= f)
Yields-bind (ok a) k = k a refl
Yields-bind (err e) k = record { value = λ b h. absurd cc }
Yields-bind panic k = record { value = λ b h. absurd cc }

pub Yields-ok : {A : Type 0} {Q : A → Type 0} (a : A) → Q a → Yields Q (ok a)
Yields-ok {A} {Q} a q = record { value = λ b e. subst Q (ok_eq e) q }
  where
    ok_eq : {b : A} → ◌≡◌ {A = Decoded A} (ok a) (ok b) → a ≡ b
    ok_eq e = cc

pub Yields-if :
    {A : Type 0} {Q : A → Type 0} (b : Bool) {m k : Decoded A}
    → Yields Q m
    → Yields Q k
    → Yields Q (if b then m else k)
Yields-if true p q = p
Yields-if false p q = q

pub Yields-err : {A : Type 0} {Q : A → Type 0} (e : EventError) → Yields Q (err e)
Yields-err e = record { value = λ a h. absurd cc }

pub Yields-panic : {A : Type 0} {Q : A → Type 0} → Yields Q panic
Yields-panic = record { value = λ a h. absurd cc }

pub Post-if :
    {A : Type 0} {Q : A → Type 0} (b : Bool) {m k : Decoded A}
    → (b ≡ true → Post Q m)
    → (b ≡ false → Post Q k)
    → Post Q (if b then m else k)
Post-if true p q = p refl
Post-if false p q = q refl

pub Post-err : {A : Type 0} {Q : A → Type 0} (e : EventError) → Post Q (err e)
Post-err e = record { safe = λ h. cc; holds = λ a h. absurd cc }

pub Post-imp :
    {A : Type 0} {Q R : A → Type 0} {m : Decoded A} → Post Q m → ((a : A) → Q a → R a) → Post R m
Post-imp p q = record { safe = p.safe; holds = λ a e. q a (p.holds a e) }

pub slice_head-Post : (s : Bytes) (n : ℕ) → n ≤ length s → Post Any (slice s 0 n)
slice_head-Post s n h = slice-Post s 0 n (omega (arith, h))

pub uint_head-Post : (n : ℕ) (s : Bytes) → n ≤ length s → Post Any (uint n s 0)
uint_head-Post n s h = uint-Post n s 0 (omega (arith, h))

pub Yields-when :
    {A : Type 0} {Q : A → Type 0} (b : Bool) {m k : Decoded A}
    → (b ≡ true → Yields Q m)
    → (b ≡ false → Yields Q k)
    → Yields Q (if b then m else k)
Yields-when true p q = p refl
Yields-when false p q = q refl
