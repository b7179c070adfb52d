-- ===== src/Mysql/Column.antt =====
-- The codes of column types and event types in mysql/common/const.go that the decoders of table
-- maps and rows test for.
use go_dblog.Prelude.{ℕ}

abbrev pub type_tiny : ℕ
type_tiny = 1

abbrev pub type_short : ℕ
type_short = 2

abbrev pub type_long : ℕ
type_long = 3

abbrev pub type_float : ℕ
type_float = 4

abbrev pub type_double : ℕ
type_double = 5

abbrev pub type_null : ℕ
type_null = 6

abbrev pub type_timestamp : ℕ
type_timestamp = 7

abbrev pub type_longlong : ℕ
type_longlong = 8

abbrev pub type_int24 : ℕ
type_int24 = 9

abbrev pub type_date : ℕ
type_date = 10

abbrev pub type_time : ℕ
type_time = 11

abbrev pub type_datetime : ℕ
type_datetime = 12

abbrev pub type_year : ℕ
type_year = 13

abbrev pub type_new_date : ℕ
type_new_date = 14

abbrev pub type_varchar : ℕ
type_varchar = 15

abbrev pub type_bit : ℕ
type_bit = 16

abbrev pub type_timestamp2 : ℕ
type_timestamp2 = 17

abbrev pub type_datetime2 : ℕ
type_datetime2 = 18

abbrev pub type_time2 : ℕ
type_time2 = 19

abbrev pub type_json : ℕ
type_json = 245

abbrev pub type_new_decimal : ℕ
type_new_decimal = 246

abbrev pub type_enum : ℕ
type_enum = 247

abbrev pub type_set : ℕ
type_set = 248

abbrev pub type_tiny_blob : ℕ
type_tiny_blob = 249

abbrev pub type_medium_blob : ℕ
type_medium_blob = 250

abbrev pub type_long_blob : ℕ
type_long_blob = 251

abbrev pub type_blob : ℕ
type_blob = 252

abbrev pub type_var_string : ℕ
type_var_string = 253

abbrev pub type_string : ℕ
type_string = 254

abbrev pub type_geometry : ℕ
type_geometry = 255

abbrev pub table_map_event : ℕ
table_map_event = 19

abbrev pub write_rows_v0 : ℕ
write_rows_v0 = 20

abbrev pub update_rows_v0 : ℕ
update_rows_v0 = 21

abbrev pub delete_rows_v0 : ℕ
delete_rows_v0 = 22

abbrev pub write_rows_v1 : ℕ
write_rows_v1 = 23

abbrev pub update_rows_v1 : ℕ
update_rows_v1 = 24

abbrev pub delete_rows_v1 : ℕ
delete_rows_v1 = 25

abbrev pub write_rows_v2 : ℕ
write_rows_v2 = 30

abbrev pub update_rows_v2 : ℕ
update_rows_v2 = 31

abbrev pub delete_rows_v2 : ℕ
delete_rows_v2 = 32

abbrev pub partial_update_rows : ℕ
partial_update_rows = 39
