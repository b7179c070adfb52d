-- ===== src/Mysql/Rows/Loop.antt =====
-- The loop over the rows of an event: its ends, its panics and the fields of the head.
use go_dblog.Prelude.{
  ℕ, zero, suc, ◌+◌, ◌≤◌, ◌<◌, ◌≡◌, ◌≢◌, refl, Bool, true, false, Option, none, some, [], ◌∷◌,
  length, length-drop, drop, ltb, ◌==◌, arith, if◌then◌else◌,
}
use go_dblog.Prelude.Result.{ok, err, panic, guard}
use go_dblog.Prelude.Text.{Bytes}
use go_dblog.Mysql.Bytes.{Decoded, no_progress, from}
use go_dblog.Mysql.Bytes.Post.{Yields, Yields-bind, Yields-ok, Yields-if}
use go_dblog.Mysql.TableMap.{TableMapEvent, Tables}
use go_dblog.Mysql.Rows.Row.{decode_row_values}
use go_dblog.Mysql.Rows.Event.{
  Row, BinRowsEvent, is_update_rows_event, next_row, rows_round, rows_loop, rows_of, and_then,
  decode_rows_head, decode_rows_event, decode_rows,
}

guard-true : (b : Bool) {u : Unit {0}} → guard b no_progress ≡ ok u → b ≡ true
guard-true true e = refl
guard-true false e = absurd cc

length-from : (s : Bytes) (i : ℕ) {t : Bytes} → from s i ≡ ok t → length t + i ≡ length s
unfolding from
length-from s i e = ground (arith, length-drop i s)

next_row-shorter :
    (s : Bytes) (t : TableMapEvent) (n : ℕ) (bitmap : Bytes)
    → Yields (λ (r : Row × Bytes). length r.1 < length s) (next_row s t n bitmap)
unfolding next_row
next_row-shorter s t n bitmap = Yields-bind (decode_row_values s t n bitmap) λ r _.
    Yields-bind (guard (ltb 0 r.1) no_progress) λ _ e1.
      Yields-bind (from s r.1)
        λ rest e2. Yields-ok _ (ground (arith, guard-true (ltb 0 r.1) e1, length-from s r.1 e2))

rows_round-shorter :
    (typ : ℕ) (t : TableMapEvent) (event : BinRowsEvent) (s : Bytes)
    → Yields (λ (r : BinRowsEvent × Bytes). length r.1 < length s) (rows_round typ t event s)
unfolding rows_round
rows_round-shorter typ t event s =
    Yields-bind (next_row s t event.column_count event.columns_bitmap1) λ r e1.
      let first : length r.1 < length s = (next_row-shorter s t _ _).value r e1 in
      Yields-if (is_update_rows_event typ)
        (Yields-bind (next_row r.1 t event.column_count event.columns_bitmap2) λ q e2.
          let second : length q.1 < length r.1 = (next_row-shorter r.1 t _ _).value q e2 in
          Yields-ok _ (omega (arith, first, second)))
        (Yields-ok _ first)

and_then-ends :
    {A B : Type 0} (m : Decoded A) {next : A → Option (Decoded B)}
    → ((a : A) → m ≡ ok a → next a ≢ none)
    → and_then m next ≢ none
unfolding and_then
and_then-ends (ok a) h = h a refl
and_then-ends (err e) h = λ e. absurd cc
and_then-ends panic h = λ e. absurd cc

-- With at least as much fuel as there are bytes the loop comes to an end.
rows_loop-ends :
    (fuel typ : ℕ) (t : TableMapEvent) (event : BinRowsEvent) (s : Bytes)
    → length s ≤ fuel
    → rows_loop fuel typ t event s ≢ none
unfolding rows_loop
rows_loop-ends fuel typ t event [] h = λ e. absurd cc
rows_loop-ends zero typ t event (b ∷ s) h = absurd (omega (arith, h))
rows_loop-ends (suc fuel) typ t event (b ∷ s) h =
    and_then-ends (rows_round typ t event (b ∷ s)) λ r e.
      let less : length r.1 < length (b ∷ s) = (rows_round-shorter typ t event (b ∷ s)).value r e in
      rows_loop-ends fuel typ t r.0 r.1 (omega (arith, less, h))

if-ends :
    {A : Type 0} (b : Bool) {m k : Option A} → m ≢ none → k ≢ none → (if b then m else k) ≢ none
if-ends true p q = p
if-ends false p q = q

rows_of-ends :
    (typ : ℕ) (s : Bytes) (event : BinRowsEvent) (p : ℕ) (t : Option TableMapEvent)
    → rows_of typ s event p t ≢ none
unfolding rows_of
rows_of-ends typ s event p none = λ e. absurd cc
rows_of-ends typ s event p (some t) =
    if-ends (ltb t.column_count event.column_count) (λ e. absurd cc)
      (rows_loop-ends (length s) typ t _ (drop p s) (omega (arith, length-drop p s)))

-- `Decode` of a rows event ends on all data: as many rounds of its loop as the data has bytes are
-- enough.
pub decode_rows-ends :
    (type_header : Option Bytes) (tables : Option Tables) (typ : ℕ) (s : Bytes)
    → decode_rows type_header tables typ s ≢ none
unfolding decode_rows decode_rows_event
decode_rows-ends none tables typ s = λ e. absurd cc
decode_rows-ends (some h) tables typ s =
    if-ends (typ == 0) (λ e. absurd cc)
      (and_then-ends (decode_rows_head h s typ) λ head _. rows_of-ends typ s head.0 head.1 _)
