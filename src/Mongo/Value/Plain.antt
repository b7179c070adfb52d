-- ===== src/Mongo/Value/Plain.antt =====
-- What `normalizeValue` leaves of `bson.A`, `bson.M` and `bson.D`. The other types of `bson`, which it
-- hands on as they are, are values of the parameter `F`.
use go_dblog.Prelude.{Bool-cases, inl, inr}
use go_dblog.Prelude.Text.{Bytes, same}
use go_dblog.Mongo.Value.{
  Value, null, text, other, array, bson_array, nil_object, object, bson_map, bson_document, Values,
  nil, cons, Fields, end, field, put, object_or_nil, normalize_value, normalize_values,
  normalize_fields,
}

unfoldable mutual
  -- No `bson.A`, `bson.M` or `bson.D` stands in it.
  pub IsPlain : {F : Type 0} → Value F → Type 0
  IsPlain null = Unit {0}
  IsPlain (text s) = Unit {0}
  IsPlain (other x) = Unit {0}
  IsPlain (array xs) = ArePlain xs
  IsPlain (bson_array xs) = ⊥
  IsPlain nil_object = Unit {0}
  IsPlain (object fields) = HasPlain fields
  IsPlain (bson_map fields) = ⊥
  IsPlain (bson_document fields) = ⊥

  pub ArePlain : {F : Type 0} → Values F → Type 0
  ArePlain nil = Unit {0}
  ArePlain (cons x xs) = IsPlain x × ArePlain xs

  pub HasPlain : {F : Type 0} → Fields F → Type 0
  HasPlain end = Unit {0}
  HasPlain (field k v fields) = IsPlain v × HasPlain fields

unfoldable mutual
  unfolding IsPlain

  -- No `bson.A`, `bson.M` or `bson.D` stands below a `map[string]any` in it.
  pub IsDecoded : {F : Type 0} → Value F → Type 0
  IsDecoded null = Unit {0}
  IsDecoded (text s) = Unit {0}
  IsDecoded (other x) = Unit {0}
  IsDecoded (array xs) = AreDecoded xs
  IsDecoded (bson_array xs) = AreDecoded xs
  IsDecoded nil_object = Unit {0}
  IsDecoded (object fields) = HasPlain fields
  IsDecoded (bson_map fields) = HasDecoded fields
  IsDecoded (bson_document fields) = HasDecoded fields

  pub AreDecoded : {F : Type 0} → Values F → Type 0
  AreDecoded nil = Unit {0}
  AreDecoded (cons x xs) = IsDecoded x × AreDecoded xs

  pub HasDecoded : {F : Type 0} → Fields F → Type 0
  HasDecoded end = Unit {0}
  HasDecoded (field k v fields) = IsDecoded v × HasDecoded fields

put-HasPlain :
    {F : Type 0} (k : Bytes) (v : Value F) (out : Fields F)
    → IsPlain v
    → HasPlain out
    → HasPlain (put k v out)
unfolding put IsPlain
put-HasPlain k v end p h = (p, tt)
put-HasPlain k v (field j w out) p h = elim (Bool-cases (same j k)) [
  | inl e ↦ rw e (p, h.1)
  | inr e ↦ rw e (h.0, put-HasPlain k v out p h.1)
]

object_or_nil-IsPlain :
    {F : Type 0} (fields out : Fields F) → HasPlain out → IsPlain (object_or_nil fields out)
unfolding IsPlain
object_or_nil-IsPlain end out h = tt
object_or_nil-IsPlain (field k v fields) out h = h

mutual
  unfolding normalize_value IsPlain IsDecoded

  value-IsPlain : {F : Type 0} (v : Value F) → IsDecoded v → IsPlain (normalize_value v)
  value-IsPlain null d = tt
  value-IsPlain (text s) d = tt
  value-IsPlain (other x) d = tt
  value-IsPlain (array xs) d = values-ArePlain xs d
  value-IsPlain (bson_array xs) d = values-ArePlain xs d
  value-IsPlain nil_object d = tt
  value-IsPlain (object fields) d = d
  value-IsPlain (bson_map fields) d =
      object_or_nil-IsPlain fields _ (fields-HasPlain fields end d tt)
  value-IsPlain (bson_document fields) d =
      object_or_nil-IsPlain fields _ (fields-HasPlain fields end d tt)

  values-ArePlain : {F : Type 0} (xs : Values F) → AreDecoded xs → ArePlain (normalize_values xs)
  values-ArePlain nil d = tt
  values-ArePlain (cons x xs) d = (value-IsPlain x d.0, values-ArePlain xs d.1)

  pub fields-HasPlain :
      {F : Type 0} (fields out : Fields F)
      → HasDecoded fields
      → HasPlain out
      → HasPlain (normalize_fields out fields)
  fields-HasPlain end out d h = h
  fields-HasPlain (field k v fields) out d h =
      fields-HasPlain fields (put k (normalize_value v) out) d.1
        (put-HasPlain k (normalize_value v) out (value-IsPlain v d.0) h)

-- `normalizeValue` leaves no `bson.A`, `bson.M` or `bson.D`, however deep, where every
-- `map[string]any` in its argument holds none.
pub normalize_value-IsPlain : {F : Type 0} (v : Value F) → IsDecoded v → IsPlain (normalize_value v)
normalize_value-IsPlain v d = value-IsPlain v d

mutual
  unfolding IsPlain IsDecoded

  plain-IsDecoded : {F : Type 0} (v : Value F) → IsPlain v → IsDecoded v
  plain-IsDecoded null p = tt
  plain-IsDecoded (text s) p = tt
  plain-IsDecoded (other x) p = tt
  plain-IsDecoded (array xs) p = plain-AreDecoded xs p
  plain-IsDecoded (bson_array xs) p = absurd p
  plain-IsDecoded nil_object p = tt
  plain-IsDecoded (object fields) p = p
  plain-IsDecoded (bson_map fields) p = absurd p
  plain-IsDecoded (bson_document fields) p = absurd p

  plain-AreDecoded : {F : Type 0} (xs : Values F) → ArePlain xs → AreDecoded xs
  plain-AreDecoded nil p = tt
  plain-AreDecoded (cons x xs) p = (plain-IsDecoded x p.0, plain-AreDecoded xs p.1)

pub plain-HasDecoded : {F : Type 0} (fields : Fields F) → HasPlain fields → HasDecoded fields
unfolding IsPlain IsDecoded
plain-HasDecoded end p = tt
plain-HasDecoded (field k v fields) p = (plain-IsDecoded v p.0, plain-HasDecoded fields p.1)
