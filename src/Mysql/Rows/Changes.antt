-- ===== src/Mysql/Rows/Changes.antt =====
-- The changes that a rows event stands for, and those that its compensation makes.
use go_dblog.Prelude.{
  ℕ, ◌≡◌, refl, ap, ◌∙◌, sym, Bool, true, false, ◌||◌, Option, none, some, List, [], ◌∷◌, map, ◌==◌,
  if◌then◌else◌, Option-cases, inl, inr, ◌⊎◌, arith,
}
use go_dblog.Prelude.Result.{ok}
use go_dblog.Prelude.Text.{Bytes}
use go_dblog.Mysql.TableMap.{Tables}
use go_dblog.Mysql.Rows.Event.{BinRowsEvent, Row, decode_rows}
use go_dblog.Mysql.Rows.Reverse.{opposite_type, is_update_type, reverse_update, reverse, reverse_as}
use go_dblog.Mysql.Rows.Undo.{
  without_id_len, reversed, reverse_rows_inv, unless_some, when_option, reverse_inv, reverse_twice,
}
use mathlib.Core.Path.{subst}
use go_dblog.Mysql.Rows.Images.{reverse-HoldsRows, decode_rows-Images}

-- What happens to one row: its values before and after, where there are any.
abbrev pub RowChange : Type 0
RowChange = Option Row × Option Row

abbrev pub flipped : RowChange → RowChange
flipped (before, after) = (after, before)

abbrev inserted : Row → RowChange
inserted row = (none, some row)

abbrev deleted : Row → RowChange
deleted row = (some row, none)

abbrev updated : List Row → List Row → List RowChange
updated [] ys = []
updated (x ∷ xs) [] = []
updated (x ∷ xs) (y ∷ ys) = (some x, some y) ∷ updated xs ys

-- WRITE_ROWS_EVENT and DELETE_ROWS_EVENT of the three versions.
unfoldable is_insert : ℕ → Bool
is_insert typ = typ == 20 || typ == 23 || typ == 30

unfoldable is_delete : ℕ → Bool
is_delete typ = typ == 22 || typ == 25 || typ == 32

-- What an event of the type does, row by row.
unfoldable pub changes : ℕ → BinRowsEvent → List RowChange
unfolding is_insert is_delete
changes typ e =
    if is_insert typ
    then map inserted e.rows
    else if is_delete typ
    then map deleted e.rows
    else updated e.before_rows e.after_rows

flip-inserted : (xs : List Row) → map flipped (map inserted xs) ≡ map deleted xs
flip-inserted [] = refl
flip-inserted (x ∷ xs) = ap (λ t. (some x, none) ∷ t) (flip-inserted xs)

flip-deleted : (xs : List Row) → map flipped (map deleted xs) ≡ map inserted xs
flip-deleted [] = refl
flip-deleted (x ∷ xs) = ap (λ t. (none, some x) ∷ t) (flip-deleted xs)

flip-updated : (xs ys : List Row) → map flipped (updated xs ys) ≡ updated ys xs
flip-updated [] [] = refl
flip-updated [] (y ∷ ys) = refl
flip-updated (x ∷ xs) [] = refl
flip-updated (x ∷ xs) (y ∷ ys) = ap (λ t. (some y, some x) ∷ t) (flip-updated xs ys)

-- A type with an opposite inserts or deletes, and the opposite does the other.
opposite_kinds :
    (typ : ℕ) {typ' : ℕ}
    → opposite_type typ ≡ some typ'
    → ((is_insert typ ≡ true) × (is_insert typ' ≡ false) × (is_delete typ' ≡ true))
      ⊎ ((is_insert typ ≡ false) × (is_delete typ ≡ true) × (is_insert typ' ≡ true))
unfolding opposite_type is_insert is_delete
opposite_kinds typ e = ground (arith, e)

update_kind :
    (typ : ℕ) → is_update_type typ ≡ true → (is_insert typ ≡ false) × (is_delete typ ≡ false)
unfolding is_update_type is_insert is_delete
update_kind typ e = (ground (arith, e), ground (arith, e))

-- `e'` does to the same table what undoes `e`, row by row.
unfoldable pub Undoes : ℕ → BinRowsEvent → BinRowsEvent × ℕ → Type 0
Undoes typ e (e', typ') =
    (changes typ' e' ≡ map flipped (changes typ e))
    × (e'.table_id ≡ e.table_id)
    × (e'.schema ≡ e.schema)
    × (e'.table ≡ e.table)

rows-Undoes :
    (typ typ' : ℕ) (e : BinRowsEvent)
    → opposite_type typ ≡ some typ'
    → Undoes typ e (reversed e e.rows [] [], typ')
unfolding Undoes changes reversed
rows-Undoes typ typ' e o = (
  elim (opposite_kinds typ o) [
    | inl (a, b, c) ↦ rw (a, b, c) (sym (flip-inserted e.rows))
    | inr (a, b, c) ↦ rw (a, b, c) (sym (flip-deleted e.rows))
  ],
  refl,
  refl,
  refl,
)

update-Undoes :
    (typ : ℕ) (e : BinRowsEvent)
    → is_update_type typ ≡ true
    → Undoes typ e (reversed e [] e.after_rows e.before_rows, typ)
unfolding Undoes changes reversed
update-Undoes typ e u =
    let (a, b) = update_kind typ u in
    (rw (a, b) (sym (flip-updated e.before_rows e.after_rows)), refl, refl, refl)

reverse-Undoes :
    (typ : ℕ) (e : BinRowsEvent) {r : BinRowsEvent × ℕ} → reverse e typ ≡ some r → Undoes typ e r
unfolding reverse_as reverse_update
reverse-Undoes typ e {r} h =
    let (_, k) = reverse_inv e typ h in
    elim (Option-cases (opposite_type typ)) [
      | inl o ↦
          let (u, l) = when_option (is_update_type typ) (sym (ap (reverse_as e typ) o) ∙ k) in
          let (_, rest) = unless_some _ l in
          let (_, _, same) = reverse_rows_inv e typ [] e.after_rows e.before_rows rest in
          subst (Undoes typ e) same (update-Undoes typ e u)
      | inr (typ1, o) ↦
          let (_, _, same) =
            reverse_rows_inv e typ1 e.rows [] [] (sym (ap (reverse_as e typ) o) ∙ k) in
          subst (Undoes typ e) same (rows-Undoes typ typ1 e o)
    ]

-- The compensation of a rows event that the decoder returns undoes it, row by row and in the same
-- table: it deletes the rows that were inserted, inserts those that were deleted, and gives those
-- that were updated the values that they had; and the compensation of the compensation is the event
-- itself, with its type and the length of the table id cleared.
pub decode_rows-reverse_undoes :
    (h : Option Bytes) (tables : Option Tables) (typ : ℕ) (s : Bytes) {e e' : BinRowsEvent}
    {typ' : ℕ}
    → decode_rows h tables typ s ≡ some (ok e)
    → reverse e typ ≡ some (e', typ')
    → (changes typ' e' ≡ map flipped (changes typ e))
      × (e'.table_id ≡ e.table_id)
      × (e'.schema ≡ e.schema)
      × (e'.table ≡ e.table)
      × (reverse e' typ' ≡ some (without_id_len e, typ))
unfolding Undoes
decode_rows-reverse_undoes h tables typ s {e} k r =
    let (undone, id, schema, table) = reverse-Undoes typ e r in
    let holds = reverse-HoldsRows typ e (decode_rows-Images h tables typ s k) r in
    (undone, id, schema, table, reverse_twice e typ holds r)
