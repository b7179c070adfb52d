-- ===== src/Mysql/Rows/Row.antt =====
-- `DecodeRowValues` and `bitmapBit` of E_ROWS_EVENT.go.
use go_dblog.Prelude.{
  ℕ, zero, suc, ◌+◌, ◌/◌, ◌%◌, ◌^◌, Bool, true, false, none, some, List, [], ◌∷◌, length, get_elem?,
  ◌==◌, ltb, leb, if◌then◌else◌,
}
use go_dblog.Prelude.Result.{ok, err, panic, ◌>>=◌, must}
use go_dblog.Prelude.Text.{Bytes}
use go_dblog.Mysql.Bytes.{Decoded, unexpected_eof, from, slice}
use go_dblog.Mysql.Util.{bitmap_byte_size}
use go_dblog.Mysql.TableMap.{TableMapEvent}
use go_dblog.Mysql.Rows.Value.{ColumnValue, no_value, decode_column_value}

-- `bitmapBit`, for an index that is not negative.
unfoldable pub bitmap_bit : Bytes → ℕ → Bool
bitmap_bit bitmap i = elim (get_elem? bitmap (i / 8)) [
  | none ↦ false
  | some b ↦ b / 2 ^ (i % 8) % 2 == 1
]

-- The number of bits that are set from `i` on, of the next `n`.
unfoldable pub present_columns : ℕ → ℕ → Bytes → ℕ
unfolding bitmap_bit
present_columns zero i bitmap = 0
present_columns (suc n) i bitmap =
    (if bitmap_bit bitmap i then 1 else 0) + present_columns n (i + 1) bitmap

-- `ColumnValue{Type: ..., Meta: ...}` of column `i`.
unfoldable pub new_column : TableMapEvent → ℕ → Decoded ColumnValue
new_column table i = do
  kind ← must (get_elem? table.column_type_def i)
  meta ← must (get_elem? table.column_meta_def i)
  ok (record {
    kind = kind;
    meta = meta;
    null = false;
    skipped = false;
    value = no_value;
    raw = none;
  })

-- The place of the loop of `DecodeRowValues`: `pos` and `nullIndex`.
pub record Place : Type 0 where
  pub pos : ℕ
  pub null_index : ℕ

-- One round of that loop: the value of column `i` and the place behind it.
unfoldable pub row_column :
    Bytes → TableMapEvent → Bytes → Bytes → ℕ → Place → Decoded (ColumnValue × Place)
unfolding new_column from bitmap_bit decode_column_value
row_column s table bitmap null_bitmap i at = do
  value ← new_column table i
  let next = at.null_index + 1
  if bitmap_bit bitmap i
      then (if bitmap_bit null_bitmap at.null_index
          then ok (record value { null = true }, record { pos = at.pos; null_index = next })
          else (do
            rest ← from s at.pos
            r ← decode_column_value rest value
            ok (r.0, record { pos = at.pos + r.1; null_index = next })))
      else ok (record value { skipped = true }, at)

-- The loop over the `n` columns from `i` on: the values and `pos` at the end.
unfoldable pub row_columns :
    ℕ → Bytes → TableMapEvent → Bytes → Bytes → ℕ → Place → Decoded (List ColumnValue × ℕ)
unfolding row_column
row_columns zero s table bitmap null_bitmap i at = ok ([], at.pos)
row_columns (suc n) s table bitmap null_bitmap i at = do
  r ← row_column s table bitmap null_bitmap i at
  rest ← row_columns n s table bitmap null_bitmap (i + 1) r.1
  ok (r.0 ∷ rest.0, rest.1)

-- `DecodeRowValues`: the row and the bytes read. A count that is no `int` has no rounds of the loops,
-- and `make` panics on it.
unfoldable pub decode_row_values :
    Bytes → TableMapEvent → ℕ → Bytes → Decoded (List ColumnValue × ℕ)
unfolding present_columns row_columns slice bitmap_byte_size
decode_row_values s table column_count bitmap =
    let size = bitmap_byte_size (present_columns column_count 0 bitmap) in
    if leb (2 ^ 63) column_count
    then panic
    else if ltb (length s) size
    then err unexpected_eof
    else (do
      null_bitmap ← slice s 0 size
      row_columns column_count s table bitmap null_bitmap 0 (record { pos = size; null_index = 0 }))
