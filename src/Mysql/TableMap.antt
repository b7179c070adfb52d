-- ===== src/Mysql/TableMap.antt =====
-- mysql/decode/events/types/E_TABLE_MAP_EVENT.go. The map `TableInfo` of the event context is a
-- function from table ids; it is absent where there is no context or no map.
pub mod Shape
use go_dblog.Prelude.{
  ℕ, ◌+◌, ◌*◌, ◌≡◌, Bool, ◌||◌, Option, none, some, List, [], ◌∷◌, length, ◌==◌, leb, if◌then◌else◌,
}
use go_dblog.Prelude.Result.{Result, ok, err, ◌>>=◌}
use go_dblog.Prelude.Text.{Bytes}
use go_dblog.Mysql.Bytes.{Decoded, eof, byte_at, from, slice, uint}
use go_dblog.Mysql.Util.{
  fixed_length_int, length_encoded_int, length_encoded_string, bitmap_byte_size,
}
use go_dblog.Mysql.Column as C

pub record TableMapEvent : Type 0 where
  pub table_id : ℕ
  pub table_id_len : ℕ
  pub flags : ℕ
  pub schema : Bytes
  pub table : Bytes
  pub column_count : ℕ
  pub column_type_def : Bytes
  pub column_meta_def : List ℕ
  pub null_bitmap : Bytes
  pub optional_meta : Bytes

-- `int(h.EventTypeHeader[typ-1]) == 6`, of the `init` of a table map and the `Init` of rows.
unfoldable pub table_id_length : Bytes → ℕ → Decoded ℕ
table_id_length type_header i = do size ← byte_at type_header i; ok (if size == 6 then 4 else 6)

-- The types with two bytes of metadata, the first one high.
unfoldable pub has_pair_meta : ℕ → Bool
has_pair_meta t = t == C.type_string || t == C.type_new_decimal

-- The types with a little-endian number of two bytes.
unfoldable pub has_word_meta : ℕ → Bool
has_word_meta t = t == C.type_var_string || t == C.type_varchar || t == C.type_bit

unfoldable pub has_byte_meta : ℕ → Bool
has_byte_meta t =
    t == C.type_blob
    || t == C.type_double
    || t == C.type_float
    || t == C.type_geometry
    || t == C.type_json
    || t == C.type_time2
    || t == C.type_datetime2
    || t == C.type_timestamp2

-- The metadata of one column, and the position behind it.
unfoldable pub column_meta : ℕ → Bytes → ℕ → Decoded (ℕ × ℕ)
unfolding has_pair_meta has_word_meta has_byte_meta uint
column_meta t s pos =
    if has_pair_meta t
    then (do hi ← byte_at s pos; lo ← byte_at s (pos + 1); ok (hi * 256 + lo, pos + 2))
    else if has_word_meta t
    then (do v ← uint 2 s pos; ok (v, pos + 2))
    else if has_byte_meta t
    then (do v ← byte_at s pos; ok (v, pos + 1))
    else ok (0, pos)

-- `decodeMeta`, from position `pos`.
unfoldable pub decode_meta : Bytes → Bytes → ℕ → Decoded (List ℕ)
unfolding column_meta
decode_meta [] s pos = ok []
decode_meta (t ∷ ts) s pos = do
  r ← column_meta t s pos
  metas ← decode_meta ts s r.1
  ok (r.0 ∷ metas)

-- A name behind the byte of its length, with a zero behind it that is skipped.
unfoldable pub read_name : Bytes → ℕ → Decoded (Bytes × ℕ)
unfolding slice
read_name s pos = do n ← byte_at s pos; name ← slice s (pos + 1) n; ok (name, pos + 1 + n + 1)

-- The end of `Decode`: the bitmap of `column_count` bits and what is behind it.
unfoldable pub read_bitmap : Bytes → ℕ → ℕ → Decoded (Bytes × Bytes)
unfolding from slice bitmap_byte_size
read_bitmap s pos column_count = do
  rest ← from s pos
  if leb (bitmap_byte_size column_count) (length rest)
      then (do
        bitmap ← slice s pos (bitmap_byte_size column_count)
        optional ← from s (pos + bitmap_byte_size column_count)
        ok (bitmap, optional))
      else err eof

-- `Decode`, as far as the event it returns, with `type_header` from the format description.
unfoldable pub decode_table_map : Bytes → Bytes → Decoded TableMapEvent
unfolding table_id_length read_name read_bitmap decode_meta uint fixed_length_int length_encoded_int
    length_encoded_string
decode_table_map type_header s = do
  id_len ← table_id_length type_header 18
  id ← slice s 0 id_len
  flags ← uint 2 s id_len
  schema ← read_name s (id_len + 2)
  table ← read_name s schema.1
  rest ← from s table.1
  count ← length_encoded_int rest
  types ← slice s (table.1 + count.2) count.0
  let pos = table.1 + count.2 + count.0
  rest' ← from s pos
  meta ← length_encoded_string rest'
  metas ← decode_meta types meta.0 0
  tail ← read_bitmap s (pos + meta.2) count.0
  ok (record {
    table_id = fixed_length_int id;
    table_id_len = id_len;
    flags = flags;
    schema = schema.0;
    table = table.0;
    column_count = count.0;
    column_type_def = types;
    column_meta_def = metas;
    null_bitmap = tail.0;
    optional_meta = tail.1;
  })

-- `map[uint64]*TableMapEvent`
abbrev pub Tables : Type 0
Tables = ℕ → Option TableMapEvent

unfoldable pub put_table : Tables → TableMapEvent → Tables
put_table tables event = λ id. if id == event.table_id then some event else tables id

-- `Decode` with the map that it stores the event in.
unfoldable pub table_map_decode :
    Bytes → Bytes → Option Tables → Decoded (TableMapEvent × Option Tables)
unfolding decode_table_map put_table
table_map_decode type_header s tables = do
  event ← decode_table_map type_header s
  ok (event, elim tables [ none ↦ none | some known ↦ some (put_table known event) ])
