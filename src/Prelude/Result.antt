-- ===== src/Prelude/Result.antt =====
-- What a Go call comes back with: a value, an error, or a run-time panic (an index or a slice
-- bound out of range, a nil dereference).
use mathlib.Core.Path.{◌≡◌, refl}
use mathlib.Core.Bool.{Bool, true, false}
use mathlib.Core.Option.{Option, none, some}

pub data Result {ℓ} (E : Type 0) (A : Type ℓ) : Type ℓ where
  panic : Result E A
  err : (why : E) → Result E A
  ok : (value : A) → Result E A

-- A call whose error or panic ends the caller too.
infixl 5 ◌>>=◌
abbrev pub ◌>>=◌ {ℓ κ} :
    {E : Type 0} {A : Type ℓ} {B : Type κ} → Result E A → (A → Result E B) → Result E B
panic >>= next = panic
err why >>= next = err why
ok value >>= next = next value

infixl 5 ◌>>◌
abbrev pub ◌>>◌ {ℓ} : {E : Type 0} {B : Type ℓ} → Result E (Unit {0}) → Result E B → Result E B
check >> rest = check >>= λ _. rest

-- `if !test { return err }`
abbrev pub guard : {E : Type 0} → (test : Bool) → E → Result E (Unit {0})
guard false why = err why
guard true why = ok tt

-- What Go answers with a panic where there is no value.
abbrev pub must {ℓ} : {E : Type 0} {A : Type ℓ} → Option A → Result E A
must none = panic
must (some a) = ok a

-- `(value, ok)` with `ok` tested and an error returned.
abbrev pub or_err {ℓ} : {E : Type 0} {A : Type ℓ} → Option A → E → Result E A
or_err none e = err e
or_err (some a) e = ok a

-- Where the whole call succeeds, the first part did.
pub >>=-eq-ok {ℓ κ} :
    {E : Type 0} {A : Type ℓ} {B : Type κ} (call : Result E A) (next : A → Result E B) {b : B}
    → (call >>= next) ≡ ok b
    → (value : A) × (call ≡ ok value) × (next value ≡ ok b)
>>=-eq-ok panic next whole = cc
>>=-eq-ok (err why) next whole = cc
>>=-eq-ok (ok value) next whole = (value, refl, whole)

-- To split on a result and keep the equation.
pub data View {ℓ} {E : Type 0} {A : Type ℓ} (r : Result E A) : Type ℓ where
  is_ok : (a : A) → r ≡ ok a → View r
  is_err : (e : E) → r ≡ err e → View r
  is_panic : r ≡ panic → View r

pub view {ℓ} : {E : Type 0} {A : Type ℓ} (r : Result E A) → View r
view (ok a) = is_ok a refl
view (err e) = is_err e refl
view panic = is_panic refl
