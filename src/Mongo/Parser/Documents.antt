-- ===== src/Mongo/Parser/Documents.antt =====
-- The maps in a change: what is left of the types of `bson`.
use mathlib.Core.Path.{subst}
use go_dblog.Prelude.{Option, none, some, Bool-cases, inl, inr, Option-cases}
use go_dblog.Prelude.Text.{Bytes, codes, same, is_empty, trim_space, to_lower}
use go_dblog.Mongo.Value.{
  Value, null, text, other, array, bson_array, nil_object, object, bson_map, bson_document, Fields,
  end, field, get,
}
use go_dblog.Mongo.Value.Plain.{
  IsPlain, HasPlain, IsDecoded, HasDecoded, fields-HasPlain, plain-HasDecoded,
}
use go_dblog.Mongo.Types.{Parsed, failed, parsed, ◌>>=◌, Change}
use go_dblog.Mongo.Parser.{
  get_or_nil, or_nil, as_map, keep_empty, optional_map, oplog_operation, string_value, oplog_key,
  document_or_before, stream_change, oplog_change, change_of, parse_change,
}

-- What holds of a value, where there is one.
abbrev pub Holds : {A : Type 0} → (A → Type 0) → Parsed A → Type 0
Holds P (failed e) = Unit {0}
Holds P (parsed a) = P a

module _ {F : Type 0} where
  abbrev pub MapIsPlain : Option (Fields F) → Type 0
  MapIsPlain none = Unit {0}
  MapIsPlain (some fields) = HasPlain fields

  get-IsDecoded : (k : Bytes) (raw : Fields F) → HasDecoded raw → IsDecoded (get_or_nil k raw)
  unfolding get IsDecoded
  get-IsDecoded k end d = tt
  get-IsDecoded k (field j v raw) d = elim (Bool-cases (same j k)) [
    | inl e ↦ rw (e, get_or_nil) d.0
    | inr e ↦ rw (e, get_or_nil) (get-IsDecoded k raw d.1)
  ]

  or_nil-IsPlain : (fields out : Fields F) → HasPlain out → MapIsPlain (or_nil fields out)
  or_nil-IsPlain end out h = tt
  or_nil-IsPlain (field k v fields) out h = h

  as_map-IsPlain : (v : Value F) → IsDecoded v → MapIsPlain (as_map v)
  unfolding as_map IsDecoded IsPlain
  as_map-IsPlain null d = tt
  as_map-IsPlain (text s) d = tt
  as_map-IsPlain (other x) d = tt
  as_map-IsPlain (array xs) d = tt
  as_map-IsPlain (bson_array xs) d = tt
  as_map-IsPlain nil_object d = tt
  as_map-IsPlain (object fields) d = or_nil-IsPlain fields fields d
  as_map-IsPlain (bson_map fields) d = or_nil-IsPlain fields _ (fields-HasPlain fields end d tt)
  as_map-IsPlain (bson_document fields) d =
      or_nil-IsPlain fields _ (fields-HasPlain fields end d tt)

  keep_empty-IsPlain :
      (name : Bytes) (v : Value F) → IsDecoded v → Holds MapIsPlain (keep_empty name v)
  unfolding keep_empty IsDecoded IsPlain
  keep_empty-IsPlain name null d = tt
  keep_empty-IsPlain name (text s) d = tt
  keep_empty-IsPlain name (other x) d = tt
  keep_empty-IsPlain name (array xs) d = tt
  keep_empty-IsPlain name (bson_array xs) d = tt
  keep_empty-IsPlain name nil_object d = tt
  keep_empty-IsPlain name (object fields) d =
      fields-HasPlain fields end (plain-HasDecoded fields d) tt
  keep_empty-IsPlain name (bson_map fields) d = fields-HasPlain fields end d tt
  keep_empty-IsPlain name (bson_document fields) d = fields-HasPlain fields end d tt

  -- No `bson.A`, `bson.M` or `bson.D` stands in the maps of the change but `Raw`.
  pub record ChangeIsPlain (c : Change F) : Type 0 where
    pub document_plain : MapIsPlain c.document
    pub before_plain : MapIsPlain c.before_document
    pub key_plain : MapIsPlain c.document_key
    pub update_plain : MapIsPlain c.update

  document_or_before-IsPlain :
      (document before : Option (Fields F))
      → MapIsPlain document
      → MapIsPlain before
      → MapIsPlain (document_or_before document before)
  document_or_before-IsPlain none before p q = q
  document_or_before-IsPlain (some d) before p q = p

  abbrev ValueIsPlain : Option (Value F) → Type 0
  ValueIsPlain none = Unit {0}
  ValueIsPlain (some v) = IsPlain v

  get-IsPlain : (k : Bytes) (fields : Fields F) → HasPlain fields → ValueIsPlain (get k fields)
  unfolding get IsPlain
  get-IsPlain k end p = tt
  get-IsPlain k (field j w fields) p = elim (Bool-cases (same j k)) [
    | inl here ↦ rw here p.0
    | inr behind ↦ rw behind (get-IsPlain k fields p.1)
  ]

  oplog_key-IsPlain :
      (key document : Option (Fields F))
      → MapIsPlain key
      → MapIsPlain document
      → MapIsPlain (oplog_key key document)
  unfolding oplog_key IsPlain
  oplog_key-IsPlain (some key) document p q = p
  oplog_key-IsPlain none none p q = tt
  oplog_key-IsPlain none (some document) p q = elim (Option-cases (get (codes "_id") document)) [
    | inl e ↦ rw (e, MapIsPlain) tt
    | inr (id, e) ↦
        let here : ValueIsPlain (some id) =
          subst ValueIsPlain e (get-IsPlain (codes "_id") document q) in
        rw (e, MapIsPlain) (here, tt)
  ]

  update-Holds :
      (m : Parsed (Option (Fields F))) (next : Option (Fields F) → Change F)
      → Holds MapIsPlain m
      → ((u : Option (Fields F)) → MapIsPlain u → ChangeIsPlain (next u))
      → Holds ChangeIsPlain (m >>= λ u. parsed (next u))
  update-Holds (failed e) next h k = tt
  update-Holds (parsed u) next h k = k u h

  stream_change-IsPlain :
      (raw : Fields F) (op : Bytes) → HasDecoded raw → Holds ChangeIsPlain (stream_change raw op)
  unfolding stream_change optional_map
  stream_change-IsPlain raw op d = elim (Bool-cases (is_empty (to_lower (trim_space op)))) [
    | inl e ↦ rw (e, stream_change) tt
    | inr e ↦
        let plain = λ (k : Bytes). as_map-IsPlain (get_or_nil k raw) (get-IsDecoded k raw d) in
        rw (e, stream_change)
          (update-Holds (optional_map raw (codes "updateDescription")) _
            (keep_empty-IsPlain (codes "updateDescription") _ (get-IsDecoded _ raw d))
            (λ u p. record {
              document_plain =
                  document_or_before-IsPlain _ _ (plain (codes "fullDocument"))
                    (plain (codes "fullDocumentBeforeChange"));
              before_plain = plain (codes "fullDocumentBeforeChange");
              key_plain = plain (codes "documentKey");
              update_plain = p;
            }))
  ]

  oplog_change-IsPlain : (raw : Fields F) → HasDecoded raw → Holds ChangeIsPlain (oplog_change raw)
  unfolding oplog_change
  oplog_change-IsPlain raw d =
      let plain = λ (k : Bytes). as_map-IsPlain (get_or_nil k raw) (get-IsDecoded k raw d) in
      elim (Bool-cases (is_empty (oplog_operation (string_value (get_or_nil (codes "op") raw))))) [
        | inl e ↦ rw (e, oplog_change) tt
        | inr e ↦
            rw (e, oplog_change)
              (record {
                document_plain = plain (codes "o");
                before_plain = tt;
                key_plain = oplog_key-IsPlain _ _ (plain (codes "o2")) (plain (codes "o"));
                update_plain = tt;
              })
      ]

  change_of-IsPlain :
      (raw : Fields F) (op : Option Bytes) → HasDecoded raw → Holds ChangeIsPlain (change_of raw op)
  change_of-IsPlain raw none d = oplog_change-IsPlain raw d
  change_of-IsPlain raw (some op) d = stream_change-IsPlain raw op d

  -- In a change that `parseChange` returns, no `bson.A`, `bson.M` or `bson.D` stands in the document,
  -- the document before the change, the key or the update, however deep, where none stands below a
  -- `map[string]any` in the values of the raw document.
  pub parse_change-IsPlain :
      (raw : Fields F) → HasDecoded raw → Holds ChangeIsPlain (parse_change raw)
  unfolding parse_change
  parse_change-IsPlain raw d = change_of-IsPlain raw _ d
