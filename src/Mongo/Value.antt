-- ===== src/Mongo/Value.antt =====
-- The Go values in a decoded document, with `normalizeValue` and its family of
-- mongo/decode/decoder/parser.go and the clones of mongo/decode/events/types/event.go. A map is an
-- association list with one entry for a key; a nil map that stands as a value of its own is
-- `nil_object`. Values of all other types, which the code hands on as they are, are of the parameter
-- `F`: numbers, and the other types of `bson` (ObjectID, Timestamp, DateTime, ...).
pub mod Clone
pub mod Plain
use go_dblog.Prelude.{ℕ, Bool, true, false, ◌&&◌, Option, none, some, if◌then◌else◌}
use go_dblog.Prelude.Text.{Bytes, same}

mutual
  -- An `any`: nil, a string, `[]any`, `bson.A`, `map[string]any`, `bson.M` and `bson.D`.
  pub data Value (F : Type 0) : Type 0 where
    null : Value F
    text : Bytes → Value F
    other : F → Value F
    array : Values F → Value F
    bson_array : Values F → Value F
    nil_object : Value F
    object : Fields F → Value F
    bson_map : Fields F → Value F
    bson_document : Fields F → Value F

  pub data Values (F : Type 0) : Type 0 where
    nil : Values F
    cons : Value F → Values F → Values F

  -- The entries of a map or of a `bson.D`.
  pub data Fields (F : Type 0) : Type 0 where
    end : Fields F
    field : Bytes → Value F → Fields F → Fields F

module _ {F : Type 0} where
  -- `value, ok := fields[key]`
  unfoldable pub get : Bytes → Fields F → Option (Value F)
  get key end = none
  get key (field k v fields) = if same k key then some v else get key fields

  -- `fields[key] = value`
  unfoldable pub put : Bytes → Value F → Fields F → Fields F
  put key value end = field key value end
  put key value (field k v fields) =
      let behind = put key value fields in
      if same k key then field k value fields else field k v behind

-- `len(fields) == 0`
abbrev pub has_no_fields : {F : Type 0} → Fields F → Bool
has_no_fields end = true
has_no_fields (field k v fields) = false

-- `normalizeMap` and `normalizeD`, on what their loop gives.
abbrev pub object_or_nil : {F : Type 0} → Fields F → Fields F → Value F
object_or_nil end out = nil_object
object_or_nil (field k v fields) out = object out

unfoldable mutual
  unfolding put

  pub normalize_value : {F : Type 0} → Value F → Value F
  normalize_value null = null
  normalize_value (text s) = text s
  normalize_value (other x) = other x
  normalize_value (array xs) = array (normalize_values xs)
  normalize_value (bson_array xs) = array (normalize_values xs)
  normalize_value nil_object = nil_object
  normalize_value (object fields) = object fields
  normalize_value (bson_map fields) = object_or_nil fields (normalize_fields end fields)
  normalize_value (bson_document fields) = object_or_nil fields (normalize_fields end fields)

  pub normalize_values : {F : Type 0} → Values F → Values F
  normalize_values nil = nil
  normalize_values (cons x xs) = cons (normalize_value x) (normalize_values xs)

  -- The loop over the entries, which puts them into `out`.
  pub normalize_fields : {F : Type 0} → Fields F → Fields F → Fields F
  normalize_fields out end = out
  normalize_fields out (field k v fields) = normalize_fields (put k (normalize_value v) out) fields

unfoldable mutual
  unfolding put

  pub clone_value : {F : Type 0} → Value F → Value F
  clone_value null = null
  clone_value (text s) = text s
  clone_value (other x) = other x
  clone_value (array xs) = array (clone_values xs)
  clone_value (bson_array xs) = bson_array xs
  clone_value nil_object = object end
  clone_value (object fields) = object (clone_fields end fields)
  clone_value (bson_map fields) = bson_map fields
  clone_value (bson_document fields) = bson_document fields

  pub clone_values : {F : Type 0} → Values F → Values F
  clone_values nil = nil
  clone_values (cons x xs) = cons (clone_value x) (clone_values xs)

  pub clone_fields : {F : Type 0} → Fields F → Fields F → Fields F
  clone_fields out end = out
  clone_fields out (field k v fields) = clone_fields (put k (clone_value v) out) fields

-- `cloneMap`
unfoldable pub clone_map : {F : Type 0} → Fields F → Fields F
unfolding clone_value
clone_map fields = clone_fields end fields
