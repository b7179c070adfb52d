-- ===== src/Mysql/Rows/Event.antt =====
-- `BinRowsEvent` of E_ROWS_EVENT.go with `Init`, `Decode` and `decodeRowsEvent`. A slice of rows that
-- is nil is the empty list.
use go_dblog.Prelude.{
  ℕ, zero, suc, ◌+◌, ◌-◌, ◌%◌, ◌^◌, Bool, ◌||◌, Option, none, some, List, [], ◌∷◌, ◌++◌, length,
  drop, ◌==◌, ltb, leb, if◌then◌else◌,
}
use go_dblog.Prelude.Result.{ok, err, panic, ◌>>=◌, guard}
use go_dblog.Prelude.Text.{Bytes}
use go_dblog.Mysql.Bytes.{
  Decoded, unexpected_eof, no_description, no_event_type, fewer_columns, no_progress, from, slice,
  uint,
}
use go_dblog.Mysql.Util.{fixed_length_int, length_encoded_int, bitmap_byte_size}
use go_dblog.Mysql.Column as C
use go_dblog.Mysql.TableMap.{TableMapEvent, Tables, table_id_length}
use go_dblog.Mysql.Rows.Value.{ColumnValue}
use go_dblog.Mysql.Rows.Row.{decode_row_values}

abbrev pub Row : Type 0
Row = List ColumnValue

pub record BinRowsEvent : Type 0 where
  pub version : ℕ
  pub table_id : ℕ
  pub table_id_len : ℕ
  pub flags : ℕ
  pub extra_data : Bytes
  pub column_count : ℕ
  pub columns_bitmap1 : Bytes
  pub columns_bitmap2 : Bytes
  pub schema : Bytes
  pub table : Bytes
  pub rows : List Row
  pub before_rows : List Row
  pub after_rows : List Row
  -- The table id of `DecodeError`, where that is not empty.
  pub unknown_table : Option ℕ

-- The version that `Init` sets.
unfoldable pub rows_version : ℕ → ℕ
rows_version typ =
    if typ == C.write_rows_v1 || typ == C.update_rows_v1 || typ == C.delete_rows_v1
    then 1
    else if typ == C.write_rows_v2
        || typ == C.update_rows_v2
        || typ == C.delete_rows_v2
        || typ == C.partial_update_rows
    then 2
    else 0

unfoldable pub is_update_rows_event : ℕ → Bool
is_update_rows_event typ =
    typ == C.update_rows_v1 || typ == C.update_rows_v2 || typ == C.partial_update_rows

-- `if len(data) < need { return nil, io.ErrUnexpectedEOF }`
unfoldable pub need_bytes : Bytes → ℕ → Decoded (Unit {0})
need_bytes s need = guard (leb need (length s)) unexpected_eof

-- The extra data of version 2, and the position behind it.
unfoldable pub rows_extra : ℕ → Bytes → ℕ → Decoded (Bytes × ℕ)
unfolding need_bytes uint slice
rows_extra version s pos =
    if version == 2
    then (do
      _ ← need_bytes s (pos + 2)
      n ← uint 2 s pos
      _ ← guard (leb 2 n) unexpected_eof
      _ ← need_bytes s (pos + 2 + (n - 2))
      extra ← slice s (pos + 2) (n - 2)
      ok (extra, pos + 2 + (n - 2)))
    else ok ([], pos)

-- `BitmapByteSize(int(columnCount))`, none where that is negative.
unfoldable pub bitmap_size_of : ℕ → Option ℕ
unfolding bitmap_byte_size
bitmap_size_of count =
    if ltb count (2 ^ 63 - 7)
    then some (bitmap_byte_size count)
    else if ltb count (2 ^ 64 - 14)
    then none
    else some 0

-- A bitmap of columns; a negative size passes the check, and the slice's bounds are out of order.
unfoldable pub columns_bitmap : Bytes → ℕ → Option ℕ → Decoded (Bytes × ℕ)
unfolding need_bytes slice
columns_bitmap s pos none = panic
columns_bitmap s pos (some size) = do
  _ ← need_bytes s (pos + size)
  bitmap ← slice s pos size
  ok (bitmap, pos + size)

-- `decodeRowsEvent` up to the lookup of the table: the event and the position.
unfoldable pub decode_rows_head : Bytes → Bytes → ℕ → Decoded (BinRowsEvent × ℕ)
unfolding table_id_length need_bytes slice uint rows_version rows_extra from length_encoded_int
    fixed_length_int columns_bitmap bitmap_size_of is_update_rows_event
decode_rows_head type_header s typ = do
  id_len ← table_id_length type_header ((typ + 255) % 256)
  _ ← need_bytes s (id_len + 2)
  id ← slice s 0 id_len
  flags ← uint 2 s id_len
  extra ← rows_extra (rows_version typ) s (id_len + 2)
  _ ← need_bytes s (extra.1 + 1)
  rest ← from s extra.1
  count ← length_encoded_int rest
  present ← columns_bitmap s (extra.1 + count.2) (bitmap_size_of count.0)
  images ←
      (if is_update_rows_event typ
        then columns_bitmap s present.1 (bitmap_size_of count.0)
        else ok ([], present.1))
  ok (
    record {
      version = rows_version typ;
      table_id = fixed_length_int id;
      table_id_len = id_len;
      flags = flags;
      extra_data = extra.0;
      column_count = count.0;
      columns_bitmap1 = present.0;
      columns_bitmap2 = images.0;
      schema = [];
      table = [];
      rows = [];
      before_rows = [];
      after_rows = [];
      unknown_table = none;
    },
    images.1,
  )

-- A row at the beginning of `s`, and what is behind it; also that of a compressed event in
-- plugin/mariadb/plugin.go. The texts of the two errors differ, and are left out.
unfoldable pub next_row : Bytes → TableMapEvent → ℕ → Bytes → Decoded (Row × Bytes)
unfolding decode_row_values from
next_row s table column_count bitmap = do
  r ← decode_row_values s table column_count bitmap
  _ ← guard (ltb 0 r.1) no_progress
  rest ← from s r.1
  ok (r.0, rest)

-- One round of the loop over the rows: the event with the row in it, and what is behind.
unfoldable pub rows_round :
    ℕ → TableMapEvent → BinRowsEvent → Bytes → Decoded (BinRowsEvent × Bytes)
unfolding next_row is_update_rows_event
rows_round typ table event s = do
  r ← next_row s table event.column_count event.columns_bitmap1
  if is_update_rows_event typ
      then (do
        r' ← next_row r.1 table event.column_count event.columns_bitmap2
        ok (
          record event {
            before_rows = event.before_rows ++ (r.0 ∷ []);
            after_rows = event.after_rows ++ (r'.0 ∷ []);
          },
          r'.1,
        ))
      else ok (record event { rows = event.rows ++ (r.0 ∷ []) }, r.1)

-- A call that may fail in front of one that may run out of fuel.
unfoldable pub and_then : {A B : Type 0} → Decoded A → (A → Option (Decoded B)) → Option (Decoded B)
and_then (ok a) next = next a
and_then (err e) next = some (err e)
and_then panic next = some panic

-- The loop over the rows, on fuel; none where the fuel is used up.
unfoldable pub rows_loop :
    ℕ → ℕ → TableMapEvent → BinRowsEvent → Bytes → Option (Decoded BinRowsEvent)
unfolding rows_round and_then
rows_loop fuel typ table event [] = some (ok event)
rows_loop zero typ table event (b ∷ s) = none
rows_loop (suc fuel) typ table event (b ∷ s) =
    and_then (rows_round typ table event (b ∷ s)) λ r. rows_loop fuel typ table r.0 r.1

-- `tables[id]`, which a nil map has nothing at.
unfoldable pub table_at : Option Tables → ℕ → Option TableMapEvent
table_at none id = none
table_at (some tables) id = tables id

-- The rows from `pos` on, with the table that was found.
unfoldable pub rows_of :
    ℕ → Bytes → BinRowsEvent → ℕ → Option TableMapEvent → Option (Decoded BinRowsEvent)
unfolding rows_loop
rows_of typ s event pos none = some (ok (record event { unknown_table = some event.table_id }))
rows_of typ s event pos (some table) =
    if ltb table.column_count event.column_count
    then some (err (fewer_columns table.column_count event.column_count))
    else rows_loop (length s) typ table
        (record event { schema = table.schema; table = table.table }) (drop pos s)

-- `decodeRowsEvent`; none where the loop is out of fuel.
unfoldable pub decode_rows_event : Bytes → Bytes → Option Tables → ℕ → Option (Decoded BinRowsEvent)
unfolding decode_rows_head rows_of table_at and_then
decode_rows_event s type_header tables typ =
    and_then (decode_rows_head type_header s typ)
      λ head. rows_of typ s head.0 head.1 (table_at tables head.0.table_id)

-- `Decode`, with what it takes from the options.
unfoldable pub decode_rows :
    Option Bytes → Option Tables → ℕ → Bytes → Option (Decoded BinRowsEvent)
unfolding decode_rows_event
decode_rows none tables typ s = some (err no_description)
decode_rows (some type_header) tables typ s =
    if typ == 0 then some (err no_event_type) else decode_rows_event s type_header tables typ
