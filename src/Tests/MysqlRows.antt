-- ===== src/Tests/MysqlRows.antt =====
-- The theorems on table maps, rows, queries and MariaDB events at concrete inputs.
use go_dblog.Prelude.{
  ℕ, zero, suc, ◌^◌, ◌<◌, ◌≤◌, ◌≡◌, ◌≢◌, refl, Bool, true, false, none, some, List, [], ◌∷◌, ◌++◌,
  length, map, arith, ◌==◌, if◌then◌else◌,
}
use mathlib.Core.Path.{subst}
use go_dblog.Prelude.Text.{Bytes, codes}
use go_dblog.Prelude.Int.{pos, negsuc}
use go_dblog.Prelude.Result.{ok, panic}
use go_dblog.Mysql.Bytes.{put_le, le, uint, slice, from}
use go_dblog.Mysql.Column as C
use go_dblog.Mysql.TableMap.{TableMapEvent, Tables, decode_table_map, put_table, table_map_decode}
use go_dblog.Mysql.TableMap.Shape.{IsTable, Known, table_map_decode-Known}
use go_dblog.Mysql.Rows.Value.{ColumnValue, Value, int64, no_value, real_type, decode_column_value}
use go_dblog.Mysql.Rows.Row.{decode_row_values}
use go_dblog.Mysql.Rows.Shape.{NoDecimals, IsRow, decode_row_values-IsRow}
use go_dblog.Mysql.Rows.Integers.{Fits, int24, complement, decode_column_value-integer}
use go_dblog.Mysql.Rows.Event.{BinRowsEvent, decode_rows, decode_rows_head}
use go_dblog.Mysql.Rows.Loop.{decode_rows-ends}
use go_dblog.Mysql.Rows.Changes.{changes, flipped, decode_rows-reverse_undoes}
use go_dblog.Mysql.Rows.Safe.{Plain, decode_rows-ne-panic}
use go_dblog.Mysql.Rows.Reverse.{reverse}
use go_dblog.Mysql.Rows.Undo.{without_id_len}
use go_dblog.Mysql.Description.{FmtDescEvent, mysql_version}
use go_dblog.Mysql.Rows.Decimal.{decode_decimal_string}
use go_dblog.Prelude.Decimal.{itoa}
use go_dblog.Mysql.Query.{decode_query}
use go_dblog.Mysql.StatusVars.Safe.{Returns}
use go_dblog.Mysql.Query.Safe.{decode_query-Returns}
use go_dblog.Mysql.Mariadb.{Gtid}
use go_dblog.Mysql.Rows.Event.{is_update_rows_event, rows_loop}
use go_dblog.Mysql.Compressed.{CompressedRows, payload_rows}
use go_dblog.Mysql.Compressed.Plain.{plain_outcome, payload_rows-plain}

-- A table of a BIGINT and a TINYINT.
abbrev pair_table : TableMapEvent
pair_table = record {
  table_id = 7;
  table_id_len = 6;
  flags = 0;
  schema = codes "s";
  table = codes "t";
  column_count = 2;
  column_type_def = 8 ∷ 1 ∷ [];
  column_meta_def = 0 ∷ 0 ∷ [];
  null_bitmap = 0 ∷ [];
  optional_meta = [];
}

abbrev column : ℕ → Value → ColumnValue
column kind v = record {
  kind = kind;
  meta = 0;
  null = false;
  skipped = false;
  value = v;
  raw = none;
}

-- A row of it, 5 and -1, with the bitmap of null values in front.
abbrev pair_row : Bytes
pair_row = 0 ∷ (put_le 8 5 ++ 255 ∷ [])

pair_IsTable : IsTable pair_table
pair_IsTable = record { types = refl; metas = refl }

pair_NoDecimals : NoDecimals pair_table
unfolding NoDecimals real_type
pair_NoDecimals zero kind meta e h = ground (arith, e, h)
pair_NoDecimals (suc zero) kind meta e h = ground (arith, e, h)
pair_NoDecimals (suc (suc i)) kind meta e h = absurd cc

abbrev pair_values : List ColumnValue
pair_values = column 8 (int64 (pos 5)) ∷ column 1 (int64 (negsuc 0)) ∷ []

decode_row_values-IsRow_example :
    IsRow pair_table (3 ∷ []) 0 pair_values × (length pair_values ≡ 2) × (10 ≤ length pair_row)
unfolding decode_row_values put_le decode_column_value le
decode_row_values-IsRow_example =
    decode_row_values-IsRow pair_row pair_table 2 (3 ∷ []) pair_IsTable pair_NoDecimals
      (omega arith) (omega arith) refl

decode_column_value-integer_example :
    decode_column_value
      (put_le 3 (complement 3 (negsuc 4)) ++ codes "rest")
      (column C.type_int24 no_value)
    ≡ ok (column C.type_int24 (int64 (negsuc 4)), 3)
unfolding Fits
decode_column_value-integer_example =
    decode_column_value-integer int24 (negsuc 4) (codes "rest") (column C.type_int24 no_value) refl
      (omega arith)

-- Post-header lengths of 6 and above for every event type.
abbrev type_header : Bytes
type_header = eights 40
  where
    eights : ℕ → Bytes
    eights zero = []
    eights (suc n) = 8 ∷ eights n

abbrev one_table : Tables
one_table id = if id == 7 then some pair_table else none

-- WRITE_ROWS_EVENTv1 of that table, with two rows.
abbrev write_rows : Bytes
write_rows = put_le 6 7 ++ (put_le 2 1 ++ (2 ∷ 3 ∷ (pair_row ++ pair_row)))

decode_rows-ends_example : decode_rows (some type_header) (some one_table) 23 write_rows ≢ none
decode_rows-ends_example = decode_rows-ends (some type_header) (some one_table) 23 write_rows

abbrev written : BinRowsEvent
written = record {
  version = 1;
  table_id = 7;
  table_id_len = 6;
  flags = 1;
  extra_data = [];
  column_count = 2;
  columns_bitmap1 = 3 ∷ [];
  columns_bitmap2 = [];
  schema = codes "s";
  table = codes "t";
  rows = pair_values ∷ pair_values ∷ [];
  before_rows = [];
  after_rows = [];
  unknown_table = none;
}

write_rows_eq : decode_rows (some type_header) (some one_table) 23 write_rows ≡ some (ok written)
unfolding decode_rows put_le decode_row_values decode_column_value le uint slice from
write_rows_eq = refl

decode_rows-reverse_undoes_example :
    (changes 25 (record written { table_id_len = 0 }) ≡ map flipped (changes 23 written))
    × (written.table_id ≡ 7)
    × (codes "s" ≡ codes "s")
    × (codes "t" ≡ codes "t")
    × (reverse (record written { table_id_len = 0 }) 25 ≡ some (without_id_len written, 23))
unfolding reverse
decode_rows-reverse_undoes_example =
    decode_rows-reverse_undoes (some type_header) (some one_table) 23 write_rows write_rows_eq refl

two_deleted :
    map flipped (changes 23 written) ≡ (some pair_values, none) ∷ (some pair_values, none) ∷ []
unfolding changes
two_deleted = refl

old_write_eq :
    decode_rows (some type_header) (some one_table) 21 write_rows
    ≡ some (ok (record written { version = 0 }))
unfolding decode_rows put_le decode_row_values decode_column_value le uint slice from
old_write_eq = refl

one_table-Plain : Plain one_table
unfolding Plain
one_table-Plain id t e =
    subst (λ (t : TableMapEvent). IsTable t × NoDecimals t × (t.column_count < 2 ^ 63))
      (the_table (id == 7) e) (pair_IsTable, pair_NoDecimals, omega arith)
  where
    the_table : (b : Bool) → (if b then some pair_table else none) ≡ some t → pair_table ≡ t
    the_table true e = cc
    the_table false e = absurd cc

head_ok : decode_rows_head type_header write_rows 23 ≢ panic
unfolding decode_rows_head put_le le uint slice from
head_ok e = cc

decode_rows-ne-panic_example :
    decode_rows (some type_header) (some one_table) 23 write_rows ≢ some panic
decode_rows-ne-panic_example =
    decode_rows-ne-panic type_header one_table 23 write_rows one_table-Plain head_ok

-- The TABLE_MAP event of that table.
abbrev pair_map : Bytes
pair_map = put_le 6 7 ++ (put_le 2 0 ++ (1 ∷ b's' ∷ 0 ∷ 1 ∷ b't' ∷ 0 ∷ 2 ∷ 8 ∷ 1 ∷ 0 ∷ 0 ∷ []))

abbrev no_tables : Tables
no_tables id = none

no_tables-Known : Known no_tables
unfolding Known
no_tables-Known id t e = absurd cc

pair_map_eq :
    table_map_decode type_header pair_map (some no_tables)
    ≡ ok (pair_table, some (put_table no_tables pair_table))
unfolding table_map_decode decode_table_map put_le le uint slice from
pair_map_eq = refl

table_map_decode-Known_example :
    (now : Tables) × (some (put_table no_tables pair_table) ≡ some now)
    × Known now
    × (now 7 ≡ some pair_table)
    × ((id : ℕ) → id ≢ 7 → now id ≡ no_tables id)
table_map_decode-Known_example =
    table_map_decode-Known type_header pair_map no_tables no_tables-Known pair_map_eq

abbrev description : FmtDescEvent
description = record {
  binlog_version = 4;
  mysql_version_text = codes "8.0.36";
  create_time = 0;
  event_header_length = 19;
  event_type_header = type_header;
  has_check_sum = true;
}

-- A time zone, an unknown code, the schema and the query.
abbrev query_data : Bytes
query_data =
    put_le 4 1
    ++ (put_le 4 0
        ++ (2
            ∷ (put_le 2 0
                ++ (put_le 2 6
                    ++ (5 ∷ 3 ∷ (codes "UTC" ++ (99 ∷ (codes "db" ++ (0 ∷ codes "BEGIN")))))))))

decode_query-Returns_example : Returns (decode_query (some description) query_data)
decode_query-Returns_example = decode_query-Returns (some description) query_data

abbrev first : Gtid
first = record { domain_id = 0; server_id = 1; sequence = 42 }

abbrev second : Gtid
second = record { domain_id = 1; server_id = 3; sequence = 7 }

-- A DECIMAL(18,0) of 5, with the zero of its first nine digits in front.
decimal_zeros :
    decode_decimal_string (128 ∷ 0 ∷ 0 ∷ 0 ∷ 0 ∷ 0 ∷ 0 ∷ 5 ∷ []) 18 0 ≡ ok (codes "0000000005")
unfolding decode_decimal_string itoa
decimal_zeros = refl

-- A DECIMAL(5,2) of -3.07.
decimal_negative : decode_decimal_string (127 ∷ 252 ∷ 248 ∷ []) 5 2 ≡ ok (codes "-3.07")
unfolding decode_decimal_string itoa
decimal_negative = refl

-- A packed decimal of no bytes.
decimal_empty : decode_decimal_string [] 0 0 ≡ panic
unfolding decode_decimal_string
decimal_empty = refl

version_plain : mysql_version (codes "8") ≡ panic
unfolding mysql_version
version_plain = refl

-- A compressed event that inserts into that table.
abbrev compressed : CompressedRows
compressed = record {
  event_type = 166;
  table_id = 7;
  flags = 1;
  column_count = 2;
  columns_bitmap1 = 3 ∷ [];
  columns_bitmap2 = [];
  compression_header = 1;
  compression_algorithm = 0;
  compression_header_size = 1;
  uncompressed_length_data = 20 ∷ [];
  compressed_payload = 120 ∷ 156 ∷ [];
  uncompressed_payload = [];
  rows = [];
  before_rows = [];
  after_rows = [];
  unknown_table = none;
}

payload_rows-plain_example :
    plain_outcome written (payload_rows 166 compressed (pair_row ++ pair_row) (some pair_table))
    ≡ some (ok (record written { rows = pair_values ∷ pair_values ∷ [] }))
unfolding put_le decode_row_values decode_column_value le is_update_rows_event rows_loop
payload_rows-plain_example =
    payload_rows-plain 166 23 pair_table refl written compressed (pair_row ++ pair_row)
