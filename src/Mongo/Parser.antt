-- ===== src/Mongo/Parser.antt =====
-- mongo/decode/decoder/parser.go. `json.Decoder.Decode` into a map and `json.Marshal` are the
-- parameters `decode_json`, with an error as none, and `encode_json`.
pub mod Documents
use go_dblog.Prelude.{ℕ, Bool, true, false, not, Option, none, some, List, [], ◌∷◌, if◌then◌else◌}
use go_dblog.Prelude.Text.{Bytes, codes, same, cut, is_empty, trim_space, to_lower}
use go_dblog.Dblog.Types.{Source}
use go_dblog.Mongo.Value.{
  Value, null, text, other, array, bson_array, nil_object, object, bson_map, bson_document, Fields,
  end, field, get, normalize_value, normalize_fields,
}
use go_dblog.Mongo.Types.{
  operation_insert, operation_update, operation_delete, operation_command, operation_noop,
  MongoError, invalid_json, unsupported_operation, not_an_object, plugin_failed, Parsed, failed,
  parsed, ◌>>=◌, Change, EventPlugin, MongoEvent, with_driver, new_event,
}

module _ {F : Type 0} where
  -- `fields[key]`, with nil for a missing one.
  abbrev pub get_or_nil : Bytes → Fields F → Value F
  get_or_nil key fields = elim (get key fields) [ none ↦ null | some v ↦ v ]

  -- `v.(string)`, with its `ok`.
  abbrev pub as_string : Value F → Option Bytes
  as_string (text s) = some s
  as_string _ = none

  unfoldable pub string_value : Value F → Bytes
  string_value v = elim (as_string v) [ none ↦ [] | some s ↦ s ]

  abbrev pub or_nil : Fields F → Fields F → Option (Fields F)
  or_nil end out = none
  or_nil (field k v fields) out = some out

  unfoldable pub as_map : Value F → Option (Fields F)
  unfolding normalize_value
  as_map (object fields) = or_nil fields fields
  as_map (bson_map fields) = or_nil fields (normalize_fields end fields)
  as_map (bson_document fields) = or_nil fields (normalize_fields end fields)
  as_map _ = none

  -- The switch of `optionalMap`, with `normalizeMapKeepEmpty` and `normalizeDKeepEmpty`.
  unfoldable pub keep_empty : Bytes → Value F → Parsed (Option (Fields F))
  unfolding normalize_value
  keep_empty name null = parsed none
  keep_empty name nil_object = parsed (some end)
  keep_empty name (object fields) = parsed (some (normalize_fields end fields))
  keep_empty name (bson_map fields) = parsed (some (normalize_fields end fields))
  keep_empty name (bson_document fields) = parsed (some (normalize_fields end fields))
  keep_empty name (text s) = failed (not_an_object name)
  keep_empty name (other x) = failed (not_an_object name)
  keep_empty name (array xs) = failed (not_an_object name)
  keep_empty name (bson_array xs) = failed (not_an_object name)

  unfoldable pub optional_map : Fields F → Bytes → Parsed (Option (Fields F))
  unfolding get keep_empty
  optional_map raw name = keep_empty name (get_or_nil name raw)

unfoldable pub oplog_operation : Bytes → Bytes
oplog_operation op =
    if same op (codes "i")
    then operation_insert
    else if same op (codes "u")
    then operation_update
    else if same op (codes "d")
    then operation_delete
    else if same op (codes "c")
    then operation_command
    else if same op (codes "n")
    then operation_noop
    else []

unfoldable pub split_namespace : Bytes → Bytes × Bytes
unfolding cut
split_namespace ns = elim (cut ns (codes ".")) [ none ↦ (ns, []) | some parts ↦ parts ]

module _ {F : Type 0} where
  -- `asMap(ns)` with the strings in it; a nil map leaves both empty.
  unfoldable pub namespace_of : Option (Fields F) → Bytes × Bytes
  unfolding get string_value
  namespace_of none = ([], [])
  namespace_of (some ns) =
      (string_value (get_or_nil (codes "db") ns), string_value (get_or_nil (codes "coll") ns))

  -- `if change.BeforeDocument != nil && change.Document == nil`
  abbrev document_or_before : Option (Fields F) → Option (Fields F) → Option (Fields F)
  document_or_before none before = before
  document_or_before (some d) before = some d

  -- A change of a change stream, with the text of its operation type.
  unfoldable pub stream_change : Fields F → Bytes → Parsed (Change F)
  unfolding namespace_of as_map optional_map get
  stream_change raw op =
      if is_empty (to_lower (trim_space op)) then failed (unsupported_operation op) else (do
        let ns = namespace_of (as_map (get_or_nil (codes "ns") raw))
        let before = as_map (get_or_nil (codes "fullDocumentBeforeChange") raw)
        update ← optional_map raw (codes "updateDescription")
        parsed (record {
          operation = to_lower (trim_space op);
          database = ns.0;
          collection = ns.1;
          document = document_or_before (as_map (get_or_nil (codes "fullDocument") raw)) before;
          before_document = before;
          document_key = as_map (get_or_nil (codes "documentKey") raw);
          update = update;
          raw = raw;
        }))

  -- The key of an oplog entry: `o2`, or the `_id` of the document.
  unfoldable pub oplog_key : Option (Fields F) → Option (Fields F) → Option (Fields F)
  unfolding get
  oplog_key (some key) document = some key
  oplog_key none none = none
  oplog_key none (some document) = elim (get (codes "_id") document) [
    | none ↦ none
    | some id ↦ some (field (codes "_id") id end)
  ]

  -- An entry of the oplog.
  unfoldable pub oplog_change : Fields F → Parsed (Change F)
  unfolding get string_value as_map oplog_operation split_namespace oplog_key
  oplog_change raw =
      let op = string_value (get_or_nil (codes "op") raw) in
      let ns = split_namespace (string_value (get_or_nil (codes "ns") raw)) in
      let document = as_map (get_or_nil (codes "o") raw) in
      if is_empty (oplog_operation op)
      then failed (unsupported_operation op)
      else parsed (record {
        operation = oplog_operation op;
        database = ns.0;
        collection = ns.1;
        document = document;
        before_document = none;
        document_key = oplog_key (as_map (get_or_nil (codes "o2") raw)) document;
        update = none;
        raw = raw;
      })

  abbrev change_of : Fields F → Option Bytes → Parsed (Change F)
  change_of raw (some op) = stream_change raw op
  change_of raw none = oplog_change raw

  -- `parseChange`
  unfoldable pub parse_change : Fields F → Parsed (Change F)
  unfolding get stream_change oplog_change
  parse_change raw = change_of raw (as_string (get_or_nil (codes "operationType") raw))

  -- The loop goes on with what `Apply` made of the change; a nil plugin is `none`.
  unfoldable pub apply_event_plugins :
      Fields F → Change F → List (Option (EventPlugin F)) → Parsed (Change F)
  apply_event_plugins raw change [] = parsed change
  apply_event_plugins raw change (none ∷ plugins) = apply_event_plugins raw change plugins
  apply_event_plugins raw change (some p ∷ plugins) =
      if not (p.matches_raw raw)
      then apply_event_plugins raw change plugins
      else elim (p.apply change) [
        | none ↦ failed (plugin_failed p.name)
        | some change' ↦ apply_event_plugins raw change' plugins
      ]

  module _ (encode_json : Fields F → Bytes) where
    abbrev pub bytes_of : Fields F → Option Bytes → Bytes
    bytes_of raw (some bytes) = bytes
    bytes_of raw none = encode_json raw

    -- `parseRaw`; nil bytes are `none`.
    unfoldable pub parse_raw :
        Source → ℕ → Option Bytes → Fields F → List (Option (EventPlugin F)) → Parsed (MongoEvent F)
    unfolding parse_change apply_event_plugins new_event with_driver
    parse_raw source position raw_bytes raw plugins = do
      change ← parse_change raw
      change' ← apply_event_plugins raw change plugins
      parsed (new_event (with_driver source) position (bytes_of raw raw_bytes) change')

    -- `parseLine`
    unfoldable pub parse_line :
        (Bytes → Option (Fields F))
        → Source
        → ℕ
        → Bytes
        → List (Option (EventPlugin F))
        → Parsed (MongoEvent F)
    unfolding parse_raw
    parse_line decode_json source position line plugins = elim (decode_json line) [
      | none ↦ failed invalid_json
      | some raw ↦ parse_raw source position (some line) raw plugins
    ]
