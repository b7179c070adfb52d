-- ===== src/Mysql/Rows/Shape.antt =====
-- What `DecodeRowValues` returns: a value for each column, and a position within the data; and when
-- it does not panic.
use go_dblog.Prelude.{
  ℕ, zero, suc, ◌+◌, ◌^◌, ◌≤◌, ◌<◌, ◌≡◌, ◌≢◌, refl, ap, ◌∙◌, sym, true, false, not, Option, none,
  some, List, [], ◌∷◌, length, get_elem?, ltb, leb, arith,
}
use go_dblog.Prelude.Result.{ok, panic, ◌>>=◌, must}
use go_dblog.Prelude.Text.{Bytes}
use go_dblog.Mysql.Bytes.{unexpected_eof, from, slice}
use go_dblog.Mysql.Bytes.Post.{
  Post, Post-ok, Post-bind, Post-if, Post-err, Any, rest-Post, slice_head-Post,
}
use go_dblog.Mysql.Util.{bitmap_byte_size}
use go_dblog.Mysql.Column as C
use go_dblog.Mysql.TableMap.{TableMapEvent}
use go_dblog.Mysql.TableMap.Shape.{IsTable}
use go_dblog.Mysql.Rows.Value.{ColumnValue, decode_column_value, real_type}
use go_dblog.Mysql.Rows.Bounds.{Reads, decode_column_value-Post}
use go_dblog.Mysql.Rows.Row.{
  Place, bitmap_bit, new_column, row_column, row_columns, decode_row_values, present_columns,
}

-- No column of the table is a packed decimal.
unfoldable pub NoDecimals : TableMapEvent → Type 0
NoDecimals t =
    (i kind meta : ℕ)
    → get_elem? t.column_type_def i ≡ some kind
    → get_elem? t.column_meta_def i ≡ some meta
    → (real_type kind meta).0 ≢ C.type_new_decimal

get_elem?-within :
    {A : Type 0} (xs : List A) (i : ℕ) → i < length xs → (x : A) × (get_elem? xs i ≡ some x)
get_elem?-within [] i h = absurd (omega arith)
get_elem?-within (x ∷ xs) zero h = (x, refl)
get_elem?-within (x ∷ xs) (suc i) h = get_elem?-within xs i (omega arith)

must_found-Post : {A : Type 0} (o : Option A) (x : A) → o ≡ some x → Post (λ y. o ≡ some y) (must o)
must_found-Post none x e = absurd cc
must_found-Post (some y) x e = Post-ok y refl

must-Post :
    {A : Type 0} (xs : List A) (i : ℕ)
    → i < length xs
    → Post (λ x. get_elem? xs i ≡ some x) (must (get_elem? xs i))
must-Post xs i h = let (x, e) = get_elem?-within xs i h in must_found-Post (get_elem? xs i) x e

-- A new column has the type and the metadata of its index, and is not skipped.
unfoldable Fresh : TableMapEvent → ℕ → ColumnValue → Type 0
Fresh t i v =
    (get_elem? t.column_type_def i ≡ some v.kind)
    × (get_elem? t.column_meta_def i ≡ some v.meta)
    × (v.skipped ≡ false)

new_column-Post :
    (t : TableMapEvent) (i : ℕ) → IsTable t → i < t.column_count → Post (Fresh t i) (new_column t i)
unfolding new_column Fresh
new_column-Post t i h l =
    Post-bind (λ k. get_elem? t.column_type_def i ≡ some k) (must (get_elem? t.column_type_def i))
      (must-Post t.column_type_def i (omega (arith, h.types, l)))
      λ k e1.
        Post-bind (λ m. get_elem? t.column_meta_def i ≡ some m)
          (must (get_elem? t.column_meta_def i))
          (must-Post t.column_meta_def i (omega (arith, h.metas, l)))
          λ m e2. Post-ok _ (e1, e2, refl)

-- Column `i` of a row: it is skipped where its bit is not set, and it has the type of the table.
unfoldable pub IsColumn : TableMapEvent → Bytes → ℕ → ColumnValue → Type 0
IsColumn t bitmap i v =
    (v.skipped ≡ not (bitmap_bit bitmap i))
    × (get_elem? t.column_type_def i ≡ some v.kind)
    × (get_elem? t.column_meta_def i ≡ some v.meta)

-- The columns from `i` on.
unfoldable pub IsRow : TableMapEvent → Bytes → ℕ → List ColumnValue → Type 0
IsRow t bitmap i [] = Unit {0}
IsRow t bitmap i (v ∷ vs) = IsColumn t bitmap i v × IsRow t bitmap (i + 1) vs

read_value-Post :
    (s : Bytes) (t : TableMapEvent) (bitmap : Bytes) (i : ℕ) (p next : ℕ) (v : ColumnValue)
    → NoDecimals t
    → p ≤ length s
    → bitmap_bit bitmap i ≡ true
    → Fresh t i v
    → Post
        (λ (r : ColumnValue × Place). IsColumn t bitmap i r.0 × (r.1.pos ≤ length s))
        (do
          rest ← from s p
          r ← decode_column_value rest v
          ok (r.0, record { pos = p + r.1; null_index = next }))
unfolding Fresh IsColumn NoDecimals Reads
read_value-Post s t bitmap i p next v d h b (e1, e2, e3) =
    Post-bind (λ rest. p + length rest ≤ length s) (from s p) (rest-Post s p h)
      λ rest room.
        Post-bind (Reads rest v) (decode_column_value rest v)
          (decode_column_value-Post rest v (d i v.kind v.meta e1 e2))
          λ r (fits, k, m, sk). Post-ok _ (
            (sk ∙ e3 ∙ ap not (sym b), e1 ∙ ap some (sym k), e2 ∙ ap some (sym m)),
            omega (arith, fits, room),
          )

present :
    (t : TableMapEvent) (bitmap : Bytes) (i : ℕ) (v : ColumnValue)
    → Fresh t i v
    → bitmap_bit bitmap i ≡ true
    → IsColumn t bitmap i (record v { null = true })
unfolding Fresh IsColumn
present t bitmap i v (e1, e2, e3) b = (e3 ∙ ap not (sym b), e1, e2)

absent :
    (t : TableMapEvent) (bitmap : Bytes) (i : ℕ) (v : ColumnValue)
    → Fresh t i v
    → bitmap_bit bitmap i ≡ false
    → IsColumn t bitmap i (record v { skipped = true })
unfolding Fresh IsColumn
absent t bitmap i v (e1, e2, e3) b = (ap not (sym b), e1, e2)

row_column-Post :
    (s : Bytes) (t : TableMapEvent) (bitmap nulls : Bytes) (i : ℕ) (at : Place)
    → IsTable t
    → NoDecimals t
    → i < t.column_count
    → at.pos ≤ length s
    → Post
        (λ (r : ColumnValue × Place). IsColumn t bitmap i r.0 × (r.1.pos ≤ length s))
        (row_column s t bitmap nulls i at)
unfolding row_column
row_column-Post s t bitmap nulls i at h d l w =
    Post-bind (Fresh t i) (new_column t i) (new_column-Post t i h l) λ v f.
      Post-if (bitmap_bit bitmap i)
        (λ b.
          Post-if (bitmap_bit nulls at.null_index) (λ _. Post-ok _ (present t bitmap i v f b, w))
            λ _. read_value-Post s t bitmap i at.pos (at.null_index + 1) v d w b f)
        λ b. Post-ok _ (absent t bitmap i v f b, w)

row_columns-Post :
    (n : ℕ) (s : Bytes) (t : TableMapEvent) (bitmap nulls : Bytes) (i : ℕ) (at : Place)
    → IsTable t
    → NoDecimals t
    → i + n ≤ t.column_count
    → at.pos ≤ length s
    → Post
        (λ (r : List ColumnValue × ℕ). IsRow t bitmap i r.0 × (length r.0 ≡ n) × (r.1 ≤ length s))
        (row_columns n s t bitmap nulls i at)
unfolding row_columns IsRow
row_columns-Post zero s t bitmap nulls i at h d l w = Post-ok _ (tt, refl, w)
row_columns-Post (suc n) s t bitmap nulls i at h d l w =
    Post-bind (λ (r : ColumnValue × Place). IsColumn t bitmap i r.0 × (r.1.pos ≤ length s))
      (row_column s t bitmap nulls i at)
      (row_column-Post s t bitmap nulls i at h d (omega (arith, l)) w)
      λ r (c, w').
        Post-bind
          (λ (q : List ColumnValue × ℕ).
            IsRow t bitmap (i + 1) q.0 × (length q.0 ≡ n) × (q.1 ≤ length s))
          (row_columns n s t bitmap nulls (i + 1) r.1)
          (row_columns-Post n s t bitmap nulls (i + 1) r.1 h d (omega (arith, l)) w')
          λ q (rs, k, u). Post-ok _ ((c, rs), ap suc k, u)

pub decode_row_values-Post :
    (s : Bytes) (t : TableMapEvent) (n : ℕ) (bitmap : Bytes)
    → IsTable t
    → NoDecimals t
    → n ≤ t.column_count
    → n < 2 ^ 63
    → Post
        (λ (r : List ColumnValue × ℕ). IsRow t bitmap 0 r.0 × (length r.0 ≡ n) × (r.1 ≤ length s))
        (decode_row_values s t n bitmap)
unfolding decode_row_values
decode_row_values-Post s t n bitmap h d l small =
    let size : ℕ = bitmap_byte_size (present_columns n 0 bitmap) in
    Post-if (leb (2 ^ 63) n) (λ e. absurd (ground (arith, e, small)))
      λ _.
        Post-if (ltb (length s) size) (λ _. Post-err unexpected_eof)
          λ e.
            let fits : size ≤ length s = ground (arith, e) in
            Post-bind Any (slice s 0 size) (slice_head-Post s size fits) λ nulls _.
              row_columns-Post n s t bitmap nulls 0 (record { pos = size; null_index = 0 }) h d
                (omega (arith, l)) fits

-- `DecodeRowValues` reads no byte out of range on a table with a type and metadata for each column,
-- none of them a packed decimal, for a count of columns that the table has and that is an `int`.
pub decode_row_values-ne-panic :
    (s : Bytes) (t : TableMapEvent) (n : ℕ) (bitmap : Bytes)
    → IsTable t
    → NoDecimals t
    → n ≤ t.column_count
    → n < 2 ^ 63
    → decode_row_values s t n bitmap ≢ panic
decode_row_values-ne-panic s t n bitmap h d l small =
    (decode_row_values-Post s t n bitmap h d l small).safe

-- On such a table, `DecodeRowValues` returns one value for each of the columns: with the type and the
-- metadata of the table, skipped exactly where the bit of the column is not set; and what it read is
-- within the data.
pub decode_row_values-IsRow :
    (s : Bytes) (t : TableMapEvent) (n : ℕ) (bitmap : Bytes) {row : List ColumnValue} {read : ℕ}
    → IsTable t
    → NoDecimals t
    → n ≤ t.column_count
    → n < 2 ^ 63
    → decode_row_values s t n bitmap ≡ ok (row, read)
    → IsRow t bitmap 0 row × (length row ≡ n) × (read ≤ length s)
decode_row_values-IsRow s t n bitmap h d l small e =
    (decode_row_values-Post s t n bitmap h d l small).holds _ e
