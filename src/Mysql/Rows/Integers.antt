-- ===== src/Mysql/Rows/Integers.antt =====
-- The integer columns: what the server writes for a number against what the decoder reads.
use go_dblog.Prelude.{
  ℕ, ◌+◌, ◌-◌, ◌*◌, ◌^◌, ◌<◌, ◌≡◌, refl, ap, ◌∙◌, false, ◌++◌, length, length-append, ltb, ltb_ge,
  arith,
}
use go_dblog.Prelude.Int.{ℤ, pos, negsuc}
use go_dblog.Prelude.Result.{ok}
use go_dblog.Prelude.Text.{Bytes}
use go_dblog.Mysql.Bytes.{put_le}
use go_dblog.Mysql.Bytes.At.{At-start, At-uint, length-put_le}
use go_dblog.Mysql.Column as C
use go_dblog.Mysql.Rows.Value.{
  Value, int64, ColumnValue, signed, read_number, decode_typed, real_type, decode_column_value,
}

-- The types of integer columns, with their sizes.
pub data IntegerType : ℕ → ℕ → Type 0 where
  tiny : IntegerType C.type_tiny 1
  short : IntegerType C.type_short 2
  int24 : IntegerType C.type_int24 3
  long : IntegerType C.type_long 4
  longlong : IntegerType C.type_longlong 8

-- A number in two's complement of `n` bytes.
unfoldable pub complement : ℕ → ℤ → ℕ
complement n (pos a) = a
complement n (negsuc a) = 2 ^ (8 * n) - 1 - a

-- It fits: from -2^(8n-1) to 2^(8n-1) - 1.
unfoldable pub Fits : ℕ → ℤ → Type 0
Fits n (pos a) = a < 2 ^ (8 * n - 1)
Fits n (negsuc a) = a < 2 ^ (8 * n - 1)

signed-complement :
    {kind n : ℕ} → IntegerType kind n → (z : ℤ) → Fits n z → signed n (complement n z) ≡ z
unfolding signed complement Fits
signed-complement tiny (pos a) h = ground (arith, h)
signed-complement tiny (negsuc a) h = ground (arith, h)
signed-complement short (pos a) h = ground (arith, h)
signed-complement short (negsuc a) h = ground (arith, h)
signed-complement int24 (pos a) h = ground (arith, h)
signed-complement int24 (negsuc a) h = ground (arith, h)
signed-complement long (pos a) h = ground (arith, h)
signed-complement long (negsuc a) h = ground (arith, h)
signed-complement longlong (pos a) h = ground (arith, h)
signed-complement longlong (negsuc a) h = ground (arith, h)

read_number-put :
    (n w : ℕ) (make : ℕ → Value) (rest : Bytes) (v : ColumnValue)
    → w < 256 ^ n
    → read_number n make (put_le n w ++ rest) v ≡ ok (record v { value = make w }, n)
unfolding read_number
read_number-put n w make rest v h =
    let long : length (put_le n w ++ rest) ≡ n + length rest =
      length-append (put_le n w) rest ∙ ap (λ k. k + length rest) (length-put_le n w) in
    let enough : ltb (length (put_le n w ++ rest)) n ≡ false = ltb_ge _ n (omega (arith, long)) in
    rw (enough, At-uint n w rest h (At-start (put_le n w ++ rest))) refl

as_kind :
    (s : Bytes) (v : ColumnValue) {k : ℕ}
    → v.kind ≡ k
    → decode_column_value s v ≡ decode_typed (real_type k v.meta).0 (real_type k v.meta).1 s v
unfolding decode_column_value
as_kind s v e = ap (λ (k : ℕ). decode_typed (real_type k v.meta).0 (real_type k v.meta).1 s v) e

-- The type of an integer column is its real one, and decides the case.
decode-IntegerType :
    {kind n : ℕ} (t : IntegerType kind n) (s : Bytes) (v : ColumnValue)
    → v.kind ≡ kind
    → decode_column_value s v ≡ read_number n (λ x. int64 (signed n x)) s v
unfolding decode_column_value decode_typed real_type
decode-IntegerType tiny s v e = as_kind s v e
decode-IntegerType short s v e = as_kind s v e
decode-IntegerType int24 s v e = as_kind s v e
decode-IntegerType long s v e = as_kind s v e
decode-IntegerType longlong s v e = as_kind s v e

complement_lt : {kind n : ℕ} → IntegerType kind n → (z : ℤ) → Fits n z → complement n z < 256 ^ n
unfolding complement Fits
complement_lt tiny (pos a) h = ground (arith, h)
complement_lt tiny (negsuc a) h = ground (arith, h)
complement_lt short (pos a) h = ground (arith, h)
complement_lt short (negsuc a) h = ground (arith, h)
complement_lt int24 (pos a) h = ground (arith, h)
complement_lt int24 (negsuc a) h = ground (arith, h)
complement_lt long (pos a) h = ground (arith, h)
complement_lt long (negsuc a) h = ground (arith, h)
complement_lt longlong (pos a) h = ground (arith, h)
complement_lt longlong (negsuc a) h = ground (arith, h)

-- A value of each integer type, written in two's complement in as many bytes as the type has, is
-- read back by `decodeColumnValue`, which takes exactly these bytes, whatever is behind them.
pub decode_column_value-integer :
    {kind n : ℕ} (t : IntegerType kind n) (z : ℤ) (rest : Bytes) (v : ColumnValue)
    → v.kind ≡ kind
    → Fits n z
    → decode_column_value (put_le n (complement n z) ++ rest) v
      ≡ ok (record v { value = int64 z }, n)
decode_column_value-integer {n = n} t z rest v e h =
    decode-IntegerType t (put_le n (complement n z) ++ rest) v e
    ∙ read_number-put n (complement n z) (λ x. int64 (signed n x)) rest v (complement_lt t z h)
    ∙ ap (λ (x : ℤ). ok (record v { value = int64 x }, n)) (signed-complement t z h)
