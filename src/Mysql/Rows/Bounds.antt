-- ===== src/Mysql/Rows/Bounds.antt =====
-- The reads of a column value: their bounds and their panics outside the decimals.
use go_dblog.Prelude.{
  ℕ, ◌+◌, ◌*◌, ◌/◌, ◌%◌, ◌^◌, ◌≤◌, ◌≡◌, ◌≢◌, refl, false, ◌||◌, length, ltb, arith, ◌==◌, ==_iff,
  if◌then◌else◌,
}
use go_dblog.Prelude.Text.{Bytes}
use go_dblog.Mysql.Bytes.{
  slice, uint, require_data, unexpected_eof, unsupported_column, unsupported_enum_size,
}
use go_dblog.Mysql.Bytes.Post.{
  Post, Post-ok, Post-bind, Post-if, Post-err, Any, data-Post, slice-Post, slice_head-Post,
  uint_head-Post,
}
use go_dblog.Mysql.Util.{fixed_length_int}
use go_dblog.Mysql.Column as C
use go_dblog.Mysql.Rows.Value.{
  Value, ColumnValue, read_number, read_three, decode_raw_fixed, raw_behind, decode_string_raw,
  decode_length_prefixed_raw, decode_enum_value, decode_bit, decode_sized, decode_typed, real_type,
  decode_column_value, blob_length_size, fractional_bytes, int64, signed, uint64, uint32,
  date_value, year_value, float32_bits, float64_bits, timestamp_value, datetime_value,
}

-- The position behind the read is within the data; type, metadata and presence are as they were.
unfoldable pub Reads : Bytes → ColumnValue → ColumnValue × ℕ → Type 0
Reads s v r =
    (r.1 ≤ length s) × (r.0.kind ≡ v.kind) × (r.0.meta ≡ v.meta) × (r.0.skipped ≡ v.skipped)

ltb-false : (a b : ℕ) → ltb a b ≡ false → b ≤ a
ltb-false a b e = ground (arith, e)

read_number-Post :
    (n : ℕ) (make : ℕ → Value) (s : Bytes) (v : ColumnValue)
    → Post (Reads s v) (read_number n make s v)
unfolding read_number Reads
read_number-Post n make s v =
    Post-if (ltb (length s) n) (λ _. Post-err unexpected_eof)
      λ e.
        let fits : n ≤ length s = ltb-false (length s) n e in
        Post-bind Any (uint n s 0) (uint_head-Post n s fits)
          λ _ _. Post-ok _ (fits, refl, refl, refl)

read_three-Post :
    (make : ℕ → Value) (s : Bytes) (v : ColumnValue) → Post (Reads s v) (read_three make s v)
unfolding read_three Reads
read_three-Post make s v =
    Post-if (ltb (length s) 3) (λ _. Post-err unexpected_eof)
      λ e.
        let fits : 3 ≤ length s = ltb-false (length s) 3 e in
        Post-bind Any (slice s 0 3) (slice_head-Post s 3 fits)
          λ _ _. Post-ok _ (fits, refl, refl, refl)

raw_fixed-Post :
    (s : Bytes) (v : ColumnValue) (size : ℕ) → Post (Reads s v) (decode_raw_fixed s v size)
unfolding decode_raw_fixed Reads
raw_fixed-Post s v size =
    Post-if (ltb (length s) size) (λ _. Post-err unexpected_eof)
      λ e.
        let fits : size ≤ length s = ltb-false (length s) size e in
        Post-bind Any (slice s 0 size) (slice_head-Post s size fits)
          λ _ _. Post-ok _ (fits, refl, refl, refl)

raw_behind-Post :
    (s : Bytes) (v : ColumnValue) (size n : ℕ) → Post (Reads s v) (raw_behind s v size n)
unfolding raw_behind Reads
raw_behind-Post s v size n =
    Post-if (ltb (length s) (size + n)) (λ _. Post-err unexpected_eof)
      λ e.
        let fits : size + n ≤ length s = ltb-false (length s) (size + n) e in
        Post-bind Any (slice s size n) (slice-Post s size n fits)
          λ _ _. Post-ok _ (fits, refl, refl, refl)

string_raw-Post :
    (s : Bytes) (v : ColumnValue) (max : ℕ) → Post (Reads s v) (decode_string_raw s v max)
unfolding decode_string_raw
string_raw-Post s v max =
    let size : ℕ = (if ltb 255 max then 2 else 1) in
    Post-if (ltb (length s) size) (λ _. Post-err unexpected_eof)
      λ e.
        Post-bind Any (uint size s 0) (uint_head-Post size s (ltb-false (length s) size e))
          λ n _. raw_behind-Post s v size n

prefixed_raw-Post :
    (s : Bytes) (v : ColumnValue) (size : ℕ)
    → Post (Reads s v) (decode_length_prefixed_raw s v size)
unfolding decode_length_prefixed_raw
prefixed_raw-Post s v size =
    Post-if (ltb size 1 || ltb 4 size || ltb (length s) size) (λ _. Post-err unexpected_eof)
      λ e.
        let fits : size ≤ length s = ground (arith, e) in
        Post-bind Any (slice s 0 size) (slice_head-Post s size fits)
          λ bs _. raw_behind-Post s v size (fixed_length_int bs)

enum-Post : (s : Bytes) (v : ColumnValue) (size : ℕ) → Post (Reads s v) (decode_enum_value s v size)
unfolding decode_enum_value
enum-Post s v size =
    Post-if (size == 1 || size == 2) (λ _. read_number-Post size uint64 s v)
      λ _. Post-err (unsupported_enum_size size)

bit-Post : (s : Bytes) (v : ColumnValue) (meta : ℕ) → Post (Reads s v) (decode_bit s v meta)
unfolding decode_bit Reads
bit-Post s v meta =
    let size : ℕ = ((meta / 256 * 8 + meta % 256) % 2 ^ 16 + 7) % 2 ^ 16 / 8 in
    Post-bind (λ _. size ≤ length s) (require_data s size) (data-Post s size)
      λ _ fits.
        Post-bind Any (slice s 0 size) (slice_head-Post s size fits)
          λ _ _. Post-ok _ (fits, refl, refl, refl)

decode_sized-Post :
    (tp n : ℕ) (s : Bytes) (v : ColumnValue)
    → tp ≢ C.type_new_decimal
    → Post (Reads s v) (decode_sized tp n s v)
unfolding decode_sized
decode_sized-Post tp n s v h =
    Post-if (tp == C.type_timestamp2) (λ _. raw_fixed-Post s v (4 + fractional_bytes v.meta))
      λ _.
        Post-if (tp == C.type_datetime2) (λ _. raw_fixed-Post s v (5 + fractional_bytes v.meta))
          λ _.
            Post-if (tp == C.type_time2) (λ _. raw_fixed-Post s v (3 + fractional_bytes v.meta))
              λ _.
                Post-if (tp == C.type_new_decimal)
                  (λ e. absurd (h ((==_iff tp C.type_new_decimal).0 e)))
                  λ _.
                    Post-if (tp == C.type_bit) (λ _. bit-Post s v v.meta)
                      λ _.
                        Post-if (tp == C.type_enum) (λ _. enum-Post s v (v.meta % 256))
                          λ _.
                            Post-if (tp == C.type_set) (λ _. raw_fixed-Post s v (v.meta % 256))
                              λ _.
                                Post-if
                                  (tp == C.type_blob
                                    || tp == C.type_tiny_blob
                                    || tp == C.type_medium_blob
                                    || tp == C.type_long_blob
                                    || tp == C.type_json
                                    || tp == C.type_geometry)
                                  (λ _. prefixed_raw-Post s v (blob_length_size tp v.meta))
                                  λ _.
                                    Post-if
                                      (tp == C.type_varchar
                                        || tp == C.type_var_string
                                        || tp == C.type_string)
                                      (λ _. string_raw-Post s v n)
                                      λ _. Post-err (unsupported_column tp)

decode_typed-Post :
    (tp n : ℕ) (s : Bytes) (v : ColumnValue)
    → tp ≢ C.type_new_decimal
    → Post (Reads s v) (decode_typed tp n s v)
unfolding decode_typed Reads
decode_typed-Post tp n s v h =
    Post-if (tp == C.type_null) (λ _. Post-ok _ (omega arith, refl, refl, refl))
      λ _.
        Post-if (tp == C.type_tiny) (λ _. read_number-Post 1 (λ x. int64 (signed 1 x)) s v)
          λ _.
            Post-if (tp == C.type_short) (λ _. read_number-Post 2 (λ x. int64 (signed 2 x)) s v)
              λ _.
                Post-if (tp == C.type_long) (λ _. read_number-Post 4 (λ x. int64 (signed 4 x)) s v)
                  λ _.
                    Post-if (tp == C.type_longlong)
                      (λ _. read_number-Post 8 (λ x. int64 (signed 8 x)) s v)
                      λ _.
                        Post-if (tp == C.type_int24)
                          (λ _. read_number-Post 3 (λ x. int64 (signed 3 x)) s v)
                          λ _.
                            Post-if (tp == C.type_year) (λ _. read_number-Post 1 year_value s v)
                              λ _.
                                Post-if (tp == C.type_float)
                                  (λ _. read_number-Post 4 float32_bits s v)
                                  λ _.
                                    Post-if (tp == C.type_double)
                                      (λ _. read_number-Post 8 float64_bits s v)
                                      λ _.
                                        Post-if (tp == C.type_timestamp)
                                          (λ _. read_number-Post 4 timestamp_value s v)
                                          λ _.
                                            Post-if (tp == C.type_date || tp == C.type_new_date)
                                              (λ _. read_three-Post date_value s v)
                                              λ _.
                                                Post-if (tp == C.type_datetime)
                                                  (λ _. read_number-Post 8 datetime_value s v)
                                                  λ _.
                                                    Post-if (tp == C.type_time)
                                                      (λ _. read_three-Post uint32 s v)
                                                      λ _. decode_sized-Post tp n s v h

pub decode_column_value-Post :
    (s : Bytes) (v : ColumnValue)
    → (real_type v.kind v.meta).0 ≢ C.type_new_decimal
    → Post (Reads s v) (decode_column_value s v)
unfolding decode_column_value
decode_column_value-Post s v h = decode_typed-Post _ _ s v h
