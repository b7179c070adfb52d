-- ===== src/Mysql/Rows/Reverse.antt =====
-- `Reverse`, `reverseRows` and `completeRows` of E_ROWS_EVENT.go. The clones are the lists themselves.
use go_dblog.Prelude.{
  ℕ, Bool, not, ◌&&◌, ◌||◌, Option, none, some, List, [], length, all, ◌==◌, if◌then◌else◌,
}
use go_dblog.Mysql.Column as C
use go_dblog.Mysql.Rows.Value.{ColumnValue}
use go_dblog.Mysql.Rows.Event.{BinRowsEvent, Row}

abbrev pub complete_row : Row → Bool
complete_row row = all (λ (column : ColumnValue). not column.skipped) row

abbrev pub complete_rows : List Row → Bool
complete_rows rows = all complete_row rows

-- `beforeRows == nil && afterRows == nil && len(rows) == 0`; the callers give images that are nil or
-- not empty.
unfoldable pub no_rows : List Row → List Row → List Row → Bool
no_rows rows before_rows after_rows =
    length rows == 0 && length before_rows == 0 && length after_rows == 0

unfoldable pub reverse_rows :
    BinRowsEvent → ℕ → List Row → List Row → List Row → Option (BinRowsEvent × ℕ)
unfolding no_rows
reverse_rows e typ rows before_rows after_rows =
    if no_rows rows before_rows after_rows
    then none
    else if complete_rows rows && complete_rows before_rows && complete_rows after_rows
    then some (
      record {
        version = e.version;
        table_id = e.table_id;
        table_id_len = 0;
        flags = e.flags;
        extra_data = e.extra_data;
        column_count = e.column_count;
        columns_bitmap1 = e.columns_bitmap1;
        columns_bitmap2 = e.columns_bitmap2;
        schema = e.schema;
        table = e.table;
        rows = rows;
        before_rows = before_rows;
        after_rows = after_rows;
        unknown_table = none;
      },
      typ,
    )
    else none

-- The event type that undoes a WRITE or a DELETE.
unfoldable pub opposite_type : ℕ → Option ℕ
opposite_type typ =
    if typ == C.write_rows_v0
    then some C.delete_rows_v0
    else if typ == C.write_rows_v1
    then some C.delete_rows_v1
    else if typ == C.write_rows_v2
    then some C.delete_rows_v2
    else if typ == C.delete_rows_v0
    then some C.write_rows_v0
    else if typ == C.delete_rows_v1
    then some C.write_rows_v1
    else if typ == C.delete_rows_v2
    then some C.write_rows_v2
    else none

unfoldable pub is_update_type : ℕ → Bool
is_update_type typ = typ == C.update_rows_v0 || typ == C.update_rows_v1 || typ == C.update_rows_v2

-- The case of an update in `Reverse`: the images are swapped.
unfoldable pub reverse_update : BinRowsEvent → ℕ → Option (BinRowsEvent × ℕ)
unfolding reverse_rows
reverse_update e typ =
    if length e.before_rows == 0 || not (length e.before_rows == length e.after_rows)
    then none
    else reverse_rows e typ [] e.after_rows e.before_rows

-- The switch of `Reverse`, with the opposite of the type.
unfoldable pub reverse_as : BinRowsEvent → ℕ → Option ℕ → Option (BinRowsEvent × ℕ)
unfolding reverse_rows reverse_update is_update_type
reverse_as e typ (some typ') = reverse_rows e typ' e.rows [] []
reverse_as e typ none = if is_update_type typ then reverse_update e typ else none

-- `if e.DecodeError != "" { return nil, 0, false }`
abbrev pub if_decoded : {A : Type 0} → Option ℕ → Option A → Option A
if_decoded (some unknown) rest = none
if_decoded none rest = rest

-- `Reverse`, on an event that is not nil.
unfoldable pub reverse : BinRowsEvent → ℕ → Option (BinRowsEvent × ℕ)
unfolding reverse_as opposite_type
reverse e typ = if_decoded e.unknown_table (reverse_as e typ (opposite_type typ))
