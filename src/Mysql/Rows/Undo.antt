-- ===== src/Mysql/Rows/Undo.antt =====
-- The compensation of a rows event: what reversing it twice gives.
use go_dblog.Prelude.{
  ℕ, ◌≡◌, refl, ap, ◌∙◌, sym, Bool, true, false, not, ◌&&◌, ◌||◌, Option, none, some, List, [],
  length, ◌==◌, if◌then◌else◌, Option-cases, inl, inr, arith,
}
use go_dblog.Mysql.Rows.Event.{BinRowsEvent, Row}
use go_dblog.Mysql.Rows.Reverse.{
  complete_rows, no_rows, reverse_rows, opposite_type, is_update_type, reverse_update, reverse,
  reverse_as, if_decoded,
}

opposite_type_twice :
    (typ : ℕ) {typ' : ℕ} → opposite_type typ ≡ some typ' → opposite_type typ' ≡ some typ
unfolding opposite_type
opposite_type_twice typ e = ground (arith, e)

-- What an event of the type holds: rows for an insert or a delete, images for an update.
unfoldable pub HoldsRows : ℕ → BinRowsEvent → Type 0
unfolding is_update_type
HoldsRows typ e =
    (is_update_type typ ≡ true → e.rows ≡ [])
    × (is_update_type typ ≡ false → (e.before_rows ≡ []) × (e.after_rows ≡ []))

-- The event as `reverseRows` builds it.
unfoldable pub reversed : BinRowsEvent → List Row → List Row → List Row → BinRowsEvent
reversed e rows before_rows after_rows = record e {
  table_id_len = 0;
  unknown_table = none;
  rows = rows;
  before_rows = before_rows;
  after_rows = after_rows;
}

pub unless_some :
    {A : Type 0} (b : Bool) {m : Option A} {x : A}
    → (if b then none else m) ≡ some x
    → (b ≡ false) × (m ≡ some x)
unless_some true e = absurd cc
unless_some false e = (refl, e)

when_some :
    {A : Type 0} (b : Bool) {a x : A} → (if b then some a else none) ≡ some x → (b ≡ true) × (a ≡ x)
when_some true e = (refl, cc)
when_some false e = absurd cc

pub when_option :
    {A : Type 0} (b : Bool) {m : Option A} {x : A}
    → (if b then m else none) ≡ some x
    → (b ≡ true) × (m ≡ some x)
when_option true e = (refl, e)
when_option false e = absurd cc

pub reverse_rows_inv :
    (e : BinRowsEvent) (typ : ℕ) (xs ys zs : List Row) {e' : BinRowsEvent} {typ' : ℕ}
    → reverse_rows e typ xs ys zs ≡ some (e', typ')
    → (no_rows xs ys zs ≡ false)
      × (complete_rows xs && complete_rows ys && complete_rows zs ≡ true)
      × (◌≡◌ {A = BinRowsEvent × ℕ} (reversed e xs ys zs, typ) (e', typ'))
unfolding reverse_rows reversed
reverse_rows_inv e typ xs ys zs h =
    let (some_rows, rest) = unless_some (no_rows xs ys zs) h in
    let (whole, same) = when_some (complete_rows xs && complete_rows ys && complete_rows zs) rest in
    (some_rows, whole, same)

reverse_rows_eq :
    (e : BinRowsEvent) (typ : ℕ) (xs ys zs : List Row)
    → no_rows xs ys zs ≡ false
    → complete_rows xs && complete_rows ys && complete_rows zs ≡ true
    → reverse_rows e typ xs ys zs ≡ some (reversed e xs ys zs, typ)
unfolding reverse_rows reversed
reverse_rows_eq e typ xs ys zs h k = rw (h, k) refl

-- No type is both an update and one that has an opposite.
pub opposite_type-update :
    (typ : ℕ) {typ' : ℕ} → opposite_type typ ≡ some typ' → is_update_type typ ≡ false
unfolding opposite_type is_update_type
opposite_type-update typ e = ground (arith, e)

-- The event that reversing twice gives.
abbrev pub without_id_len : BinRowsEvent → BinRowsEvent
without_id_len e = record e { table_id_len = 0 }

decoded : {A : Type 0} (u : Option ℕ) (m : Option A) {x : A} → if_decoded u m ≡ some x → u ≡ none
decoded (some _) m e = absurd cc
decoded none m e = refl

pub reverse_known :
    (e : BinRowsEvent) (typ : ℕ)
    → e.unknown_table ≡ none
    → reverse e typ ≡ reverse_as e typ (opposite_type typ)
unfolding reverse
reverse_known e typ h = ap (λ u. if_decoded u (reverse_as e typ (opposite_type typ))) h

-- The cases of `Reverse` that give an event.
pub reverse_inv :
    (e : BinRowsEvent) (typ : ℕ) {r : BinRowsEvent × ℕ}
    → reverse e typ ≡ some r
    → (e.unknown_table ≡ none) × (reverse_as e typ (opposite_type typ) ≡ some r)
unfolding reverse
reverse_inv e typ h =
    let known = decoded e.unknown_table (reverse_as e typ (opposite_type typ)) h in
    (known, sym (reverse_known e typ known) ∙ h)

with_rows : BinRowsEvent → Option ℕ → List Row → List Row → List Row → BinRowsEvent
with_rows e u xs ys zs = record e {
  table_id_len = 0;
  unknown_table = u;
  rows = xs;
  before_rows = ys;
  after_rows = zs;
}

with_rows_eq :
    (e : BinRowsEvent) (xs ys zs : List Row)
    → e.unknown_table ≡ none
    → e.rows ≡ xs
    → e.before_rows ≡ ys
    → e.after_rows ≡ zs
    → with_rows e none xs ys zs ≡ without_id_len e
unfolding with_rows
with_rows_eq e xs ys zs u x y z =
    ap (λ a. with_rows e a xs ys zs) (sym u)
    ∙ ap (λ a. with_rows e e.unknown_table a ys zs) (sym x)
    ∙ ap (λ a. with_rows e e.unknown_table e.rows a zs) (sym y)
    ∙ ap (λ a. with_rows e e.unknown_table e.rows e.before_rows a) (sym z)

reverse_rows_twice :
    (e : BinRowsEvent) (typ : ℕ) {typ' : ℕ} {r : BinRowsEvent × ℕ}
    → opposite_type typ ≡ some typ'
    → e.before_rows ≡ []
    → e.after_rows ≡ []
    → reverse_rows e typ' e.rows [] [] ≡ some r
    → e.unknown_table ≡ none
    → reverse r.0 r.1 ≡ some (without_id_len e, typ)
unfolding reverse_as with_rows reversed
reverse_rows_twice e typ {typ'} {r} o b a h u =
    let (some_rows, whole, same) = reverse_rows_inv e typ' e.rows [] [] h in
    let e' = reversed e e.rows [] [] in
    ap (λ (q : BinRowsEvent × ℕ). reverse q.0 q.1) (sym same)
    ∙ reverse_known e' typ' refl
    ∙ ap (reverse_as e' typ') (opposite_type_twice typ o)
    ∙ reverse_rows_eq e' typ e.rows [] [] some_rows whole
    ∙ ap (λ (q : BinRowsEvent). some (q, typ)) (with_rows_eq e e.rows [] [] u refl b a)

-- The swapped images can be swapped again.
update_again :
    (e : BinRowsEvent) (typ : ℕ)
    → is_update_type typ ≡ true
    → length e.before_rows == 0 || not (length e.before_rows == length e.after_rows) ≡ false
    → complete_rows [] && complete_rows e.after_rows && complete_rows e.before_rows ≡ true
    → reverse_as (reversed e [] e.after_rows e.before_rows) typ none
      ≡ some (reversed e [] e.before_rows e.after_rows, typ)
unfolding reverse_as reverse_update reversed reverse_rows no_rows
update_again e typ i long whole =
    let xs = e.before_rows in
    let ys = e.after_rows in
    let e' = reversed e [] ys xs in
    ap (λ (t : Bool). if t then reverse_update e' typ else none) i
    ∙ ap (λ (t : Bool). if t then none else reverse_rows e' typ [] xs ys)
        (swapped (length xs) (length ys) long)
    ∙ reverse_rows_eq e' typ [] xs ys (not_empty xs ys long)
        (both (complete_rows ys) (complete_rows xs) whole)
  where
    swapped : (m n : ℕ) → (m == 0 || not (m == n)) ≡ false → (n == 0 || not (n == m)) ≡ false
    swapped m n h = ground (arith, h)

    not_empty :
        (xs ys : List Row)
        → (length xs == 0 || not (length xs == length ys)) ≡ false
        → no_rows [] xs ys ≡ false
    not_empty xs ys h = ground (arith, h)

    both : (p q : Bool) → true && p && q ≡ true → true && q && p ≡ true
    both p q h = ground (arith, h)

reverse_update_twice :
    (e : BinRowsEvent) (typ : ℕ) {r : BinRowsEvent × ℕ}
    → is_update_type typ ≡ true
    → opposite_type typ ≡ none
    → e.rows ≡ []
    → reverse_update e typ ≡ some r
    → e.unknown_table ≡ none
    → reverse r.0 r.1 ≡ some (without_id_len e, typ)
unfolding reverse_as reverse_update with_rows reversed
reverse_update_twice e typ {r} i o h k u =
    let xs = e.before_rows in
    let ys = e.after_rows in
    let e' = reversed e [] ys xs in
    let (long, rest) = unless_some (length xs == 0 || not (length xs == length ys)) k in
    let (_, whole, same) = reverse_rows_inv e typ [] ys xs rest in
    ap (λ (q : BinRowsEvent × ℕ). reverse q.0 q.1) (sym same)
    ∙ reverse_known e' typ refl
    ∙ ap (reverse_as e' typ) o
    ∙ update_again e typ i long whole
    ∙ ap (λ (q : BinRowsEvent). some (q, typ)) (with_rows_eq e [] xs ys u h refl refl)

-- The compensation of the compensation is the event itself, with its type and the length of the
-- table id cleared, where the event holds what its type calls for: rows for an insert or a delete,
-- images for an update.
pub reverse_twice :
    (e : BinRowsEvent) (typ : ℕ) {e' : BinRowsEvent} {typ' : ℕ}
    → HoldsRows typ e
    → reverse e typ ≡ some (e', typ')
    → reverse e' typ' ≡ some (without_id_len e, typ)
unfolding HoldsRows reverse_as
reverse_twice e typ (images, plain) h =
    let (known, k) = reverse_inv e typ h in
    elim (Option-cases (opposite_type typ)) [
      | inl o ↦
          let (i, u) = when_option (is_update_type typ) (sym (ap (reverse_as e typ) o) ∙ k) in
          reverse_update_twice e typ i o (images i) u known
      | inr (typ1, o) ↦
          let (b, a) = plain (opposite_type-update typ o) in
          reverse_rows_twice e typ o b a (sym (ap (reverse_as e typ) o) ∙ k) known
    ]
