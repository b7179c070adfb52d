-- ===== src/Mysql/Compressed.antt =====
-- The compressed rows events of mysql/plugin/mariadb/plugin.go. The decompression of compress/zlib is
-- the parameter `inflate`, with an error as none.
pub mod Plain
use go_dblog.Prelude.{
  ℕ, zero, suc, ◌+◌, ◌-◌, ◌/◌, ◌%◌, ◌^◌, Bool, true, false, Option, none, some, List, [], ◌∷◌, ◌++◌,
  length, drop, ◌==◌, if◌then◌else◌,
}
use go_dblog.Prelude.Result.{Result, ok, err, panic, ◌>>=◌}
use go_dblog.Prelude.Text.{Bytes}
use go_dblog.Mysql.Bytes.{Decoded, byte_at, from, slice, uint, require_data, require_from}
use go_dblog.Mysql.Util.{fixed_length_int, length_encoded_int}
use go_dblog.Mysql.TableMap.{TableMapEvent, Tables}
use go_dblog.Mysql.Rows.Event.{Row, bitmap_size_of, next_row, and_then, table_at}
use go_dblog.Mysql.Mariadb.{inflated}

abbrev pub update_rows_compressed : ℕ
update_rows_compressed = 167

-- `RowsCompressedLogEvent`; `unknown_table` is the table id of `DecodeError`.
pub record CompressedRows : Type 0 where
  pub event_type : ℕ
  pub table_id : ℕ
  pub flags : ℕ
  pub column_count : ℕ
  pub columns_bitmap1 : Bytes
  pub columns_bitmap2 : Bytes
  pub compression_header : ℕ
  pub compression_algorithm : ℕ
  pub compression_header_size : ℕ
  pub uncompressed_length_data : Bytes
  pub compressed_payload : Bytes
  pub uncompressed_payload : Bytes
  pub rows : List Row
  pub before_rows : List Row
  pub after_rows : List Row
  pub unknown_table : Option ℕ

-- A bitmap of columns, which a byte has to follow; a negative size passes the check, and the
-- slice's bounds are out of order.
unfoldable pub compressed_bitmap : Bytes → ℕ → Option ℕ → Decoded (Bytes × ℕ)
unfolding require_from slice
compressed_bitmap s pos none = panic
compressed_bitmap s pos (some size) = do
  _ ← require_from s pos (size + 1)
  bitmap ← slice s pos size
  ok (bitmap, pos + size)

-- `Decode` up to the compressed payload.
unfoldable pub compressed_head : ℕ → Bytes → Decoded CompressedRows
unfolding require_data require_from slice uint from fixed_length_int length_encoded_int
    bitmap_size_of compressed_bitmap
compressed_head typ s = do
  _ ← require_data s 9
  id ← slice s 0 6
  flags ← uint 2 s 6
  rest ← from s 8
  count ← length_encoded_int rest
  present ← compressed_bitmap s (8 + count.2) (bitmap_size_of count.0)
  images ←
      (if typ == update_rows_compressed
        then compressed_bitmap s present.1 (bitmap_size_of count.0)
        else ok ([], present.1))
  header ← byte_at s images.1
  _ ← require_from s (images.1 + 1) (header % 8)
  length_data ← slice s (images.1 + 1) (header % 8)
  payload ← from s (images.1 + 1 + header % 8)
  ok (record {
    event_type = typ;
    table_id = fixed_length_int id;
    flags = flags;
    column_count = count.0;
    columns_bitmap1 = present.0;
    columns_bitmap2 = images.0;
    compression_header = header;
    compression_algorithm = header / 16 % 8;
    compression_header_size = header % 8;
    uncompressed_length_data = length_data;
    compressed_payload = payload;
    uncompressed_payload = [];
    rows = [];
    before_rows = [];
    after_rows = [];
    unknown_table = none;
  })

-- One round of the loop over the payload: the event with the row in it, and what is behind.
unfoldable pub compressed_round :
    ℕ → TableMapEvent → CompressedRows → Bytes → Decoded (CompressedRows × Bytes)
unfolding next_row
compressed_round typ table event s = do
  r ← next_row s table event.column_count event.columns_bitmap1
  if typ == update_rows_compressed
      then (do
        r' ← next_row r.1 table event.column_count event.columns_bitmap2
        ok (
          record event {
            before_rows = event.before_rows ++ (r.0 ∷ []);
            after_rows = event.after_rows ++ (r'.0 ∷ []);
          },
          r'.1,
        ))
      else ok (record event { rows = event.rows ++ (r.0 ∷ []) }, r.1)

-- The loop over the payload, on fuel; none where the fuel is used up.
unfoldable pub compressed_loop :
    ℕ → ℕ → TableMapEvent → CompressedRows → Bytes → Option (Decoded CompressedRows)
unfolding compressed_round and_then
compressed_loop fuel typ table event [] = some (ok event)
compressed_loop zero typ table event (b ∷ s) = none
compressed_loop (suc fuel) typ table event (b ∷ s) =
    and_then (compressed_round typ table event (b ∷ s)) λ r. compressed_loop fuel typ table r.0 r.1

-- The rows of the payload, with the table that was found.
unfoldable pub payload_rows :
    ℕ → CompressedRows → Bytes → Option TableMapEvent → Option (Decoded CompressedRows)
unfolding compressed_loop
payload_rows typ event payload none =
    some (ok (record event { uncompressed_payload = payload; unknown_table = some event.table_id }))
payload_rows typ event payload (some table) =
    compressed_loop (length payload) typ table (record event { uncompressed_payload = payload })
      payload

-- `RowsCompressedLogEvent.Decode`; an algorithm other than zlib is left as it is.
unfoldable pub decode_rows_compressed :
    (Bytes → Option Bytes) → Option Tables → ℕ → Bytes → Option (Decoded CompressedRows)
unfolding compressed_head inflated payload_rows table_at and_then
decode_rows_compressed inflate tables typ s = and_then (compressed_head typ s) λ event.
    if event.compression_algorithm == 0
    then (and_then (inflated inflate event.compressed_payload)
        λ payload. payload_rows typ event payload (table_at tables event.table_id))
    else some (ok event)
