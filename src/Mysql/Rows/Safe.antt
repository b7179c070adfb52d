-- ===== src/Mysql/Rows/Safe.antt =====
-- The panics of the decoder of rows events behind the head, on tables without packed decimals.
use go_dblog.Prelude.{
  ℕ, zero, suc, ◌+◌, ◌^◌, ◌≤◌, ◌<◌, ◌≡◌, ◌≢◌, refl, sym, Bool, true, false, Option, none, some, [],
  ◌∷◌, length, drop, ltb, ◌==◌, arith, Bool-cases, inl, inr,
}
use mathlib.Core.Path.{subst}
use go_dblog.Prelude.Result.{ok, err, panic, guard}
use go_dblog.Prelude.Text.{Bytes}
use go_dblog.Mysql.Bytes.{Decoded, no_progress, from}
use go_dblog.Mysql.Bytes.Post.{Post, Post-ok, Post-bind, Post-if, Post-Any, Any, rest-Post}
use go_dblog.Mysql.TableMap.{TableMapEvent, Tables}
use go_dblog.Mysql.TableMap.Shape.{IsTable}
use go_dblog.Mysql.Rows.Row.{decode_row_values}
use go_dblog.Mysql.Rows.Shape.{NoDecimals, IsRow, decode_row_values-Post}
use go_dblog.Mysql.Rows.Event.{
  Row, BinRowsEvent, is_update_rows_event, next_row, rows_round, rows_loop, rows_of, table_at,
  and_then, decode_rows_head, decode_rows_event, decode_rows,
}

-- A table that the rows are decoded with safely, for up to so many columns.
unfoldable pub Readable : TableMapEvent → ℕ → Type 0
Readable t n = IsTable t × NoDecimals t × (n ≤ t.column_count) × (n < 2 ^ 63)

guard-Post : (b : Bool) → Post Any (guard b no_progress)
guard-Post true = Post-ok tt tt
guard-Post false = Post-Any (guard false no_progress) (λ e. cc)

next_row-Post :
    (s : Bytes) (t : TableMapEvent) (n : ℕ) (bitmap : Bytes)
    → Readable t n
    → Post (λ (r : Row × Bytes). IsRow t bitmap 0 r.0 × (length r.0 ≡ n)) (next_row s t n bitmap)
unfolding next_row Readable
next_row-Post s t n bitmap (h, d, l, small) =
    Post-bind (λ (r : Row × ℕ). IsRow t bitmap 0 r.0 × (length r.0 ≡ n) × (r.1 ≤ length s))
      (decode_row_values s t n bitmap) (decode_row_values-Post s t n bitmap h d l small)
      λ r (shape, count, fits).
        Post-bind Any (guard (ltb 0 r.1) no_progress) (guard-Post (ltb 0 r.1)) λ _ _.
          Post-bind (λ rest. r.1 + length rest ≤ length s) (from s r.1) (rest-Post s r.1 fits)
            λ rest _. Post-ok _ (shape, count)

-- The count and the bitmaps, which the rounds of the loop do not change.
abbrev Same : BinRowsEvent → BinRowsEvent → Type 0
Same e e' = e'.column_count ≡ e.column_count

round-Post :
    (typ : ℕ) (t : TableMapEvent) (e : BinRowsEvent) (s : Bytes)
    → Readable t e.column_count
    → Post (λ (r : BinRowsEvent × Bytes). Same e r.0) (rows_round typ t e s)
unfolding rows_round
round-Post typ t e s h =
    Post-bind (λ (r : Row × Bytes). IsRow t e.columns_bitmap1 0 r.0 × (length r.0 ≡ e.column_count))
      (next_row s t e.column_count e.columns_bitmap1)
      (next_row-Post s t e.column_count e.columns_bitmap1 h)
      λ r _.
        Post-if (is_update_rows_event typ)
          (λ _.
            Post-bind
              (λ (q : Row × Bytes). IsRow t e.columns_bitmap2 0 q.0 × (length q.0 ≡ e.column_count))
              (next_row r.1 t e.column_count e.columns_bitmap2)
              (next_row-Post r.1 t e.column_count e.columns_bitmap2 h) λ q _. Post-ok _ refl)
          λ _. Post-ok _ refl

and_then-safe :
    {A B : Type 0} (m : Decoded A) (next : A → Option (Decoded B))
    → m ≢ panic
    → ((a : A) → m ≡ ok a → next a ≢ some panic)
    → and_then m next ≢ some panic
unfolding and_then
and_then-safe (ok a) next p h = h a refl
and_then-safe (err e) next p h = λ e. absurd cc
and_then-safe panic next p h = absurd (p refl)

loop-safe :
    (fuel typ : ℕ) (t : TableMapEvent) (e : BinRowsEvent) (s : Bytes)
    → Readable t e.column_count
    → rows_loop fuel typ t e s ≢ some panic
unfolding rows_loop
loop-safe fuel typ t e [] h = λ k. absurd cc
loop-safe zero typ t e (b ∷ s) h = λ k. absurd cc
loop-safe (suc fuel) typ t e (b ∷ s) h =
    let round : Post (λ (r : BinRowsEvent × Bytes). Same e r.0) (rows_round typ t e (b ∷ s)) =
      round-Post typ t e (b ∷ s) h in
    and_then-safe (rows_round typ t e (b ∷ s)) _ round.safe
      λ r k. loop-safe fuel typ t r.0 r.1 (subst (Readable t) (sym (round.holds r k)) h)

-- Every table of the map has a type and metadata for each of its columns, none of them a packed
-- decimal, and a count of columns that is an `int`.
unfoldable pub Plain : Tables → Type 0
Plain tables =
    (id : ℕ) (t : TableMapEvent)
    → tables id ≡ some t
    → IsTable t × NoDecimals t × (t.column_count < 2 ^ 63)

rows_of-safe :
    (typ : ℕ) (s : Bytes) (e : BinRowsEvent) (p : ℕ) (o : Option TableMapEvent)
    → ((t : TableMapEvent) → o ≡ some t → IsTable t × NoDecimals t × (t.column_count < 2 ^ 63))
    → rows_of typ s e p o ≢ some panic
unfolding rows_of Readable
rows_of-safe typ s e p none h = λ k. absurd cc
rows_of-safe typ s e p (some t) h = elim (Bool-cases (ltb t.column_count e.column_count)) [
  | inl few ↦ rw few (λ k. absurd cc)
  | inr enough ↦
      let (shape, plain, small) = h t refl in
      let l : e.column_count ≤ t.column_count = ground (arith, enough) in
      rw enough (
        loop-safe (length s) typ t (record e { schema = t.schema; table = t.table }) (drop p s)
          (shape, plain, l, omega (arith, l, small)))
]

-- `Decode` of a rows event does not panic where its head does not, on a map of tables that have a
-- type and metadata for each column, no packed decimals, and fewer than 2^63 columns: whatever the
-- bitmaps and the rows are.
pub decode_rows-ne-panic :
    (h : Bytes) (tables : Tables) (typ : ℕ) (s : Bytes)
    → Plain tables
    → decode_rows_head h s typ ≢ panic
    → decode_rows (some h) (some tables) typ s ≢ some panic
unfolding decode_rows decode_rows_event Plain table_at
decode_rows-ne-panic h tables typ s k head = elim (Bool-cases (typ == 0)) [
  | inl b ↦ rw b (λ k. absurd cc)
  | inr b ↦ rw b (
      and_then-safe (decode_rows_head h s typ) _ head
        λ r _. rows_of-safe typ s r.0 r.1 (tables r.0.table_id) (k r.0.table_id))
]
