-- ===== src/Tests/Mongo.antt =====
-- The theorems on mongo/ at concrete inputs.
use go_dblog.Prelude.{ℕ, ◌+◌, ◌≡◌, refl, Bool, true, false, Option, none, some, List, [], ◌∷◌}
use go_dblog.Prelude.Text.{Bytes, codes, same, trim_space, lower}
use go_dblog.Prelude.Result as Go
use go_dblog.Dblog.Types.{Source}
use go_dblog.Dblog.Stream.{of_list}
use go_dblog.Mongo.Value.{
  Value, text, bson_map, bson_document, bson_array, cons, nil, Fields, end, field,
}
use go_dblog.Mongo.Value.Plain.{IsPlain, IsDecoded}
use go_dblog.Mongo.Types.{
  Change, Command, MongoEvent, operation_insert, operation_delete, operation_replace,
  operation_update, with_driver,
}
use go_dblog.Mongo.Parser.{parse_change}
use go_dblog.Mongo.Parser.Documents.{Holds, ChangeIsPlain, parse_change-IsPlain}
use go_dblog.Mongo.Event.{reverse_change}
use go_dblog.Mongo.Event.Restore.{Documents, key_of}
use go_dblog.Mongo.Stream.{Item}
use go_dblog.Mongo.Live.{new_live_decoder, live_events, with_name}
use go_dblog.Mongo.Live.Resume.{stream_items, mongo_live_resume}

abbrev source : Source
source = record { driver = []; name = codes "shop.orders" }

-- An insert of the document {_id: "7"}, as the driver gives it.
abbrev insert_raw : Fields ℕ
insert_raw = field (codes "operationType") (text (codes "insert")) (
    field (codes "documentKey") (bson_document (field (codes "_id") (text (codes "7")) end)) (
      field (codes "fullDocument")
        (bson_map (
          field (codes "_id") (text (codes "7"))
            (field (codes "tags") (bson_array (cons (text (codes "a")) nil)) end)))
        end))

abbrev decode_json : Bytes → Option (Fields ℕ)
decode_json s = some insert_raw

abbrev encode_json : Fields ℕ → Bytes
encode_json raw = codes "insert"

-- A consumer that counts the items.
abbrev counting : ℕ → Item ℕ → ℕ × Bool
counting n item = (n + 1, true)

parse_change-IsPlain_example : Holds ChangeIsPlain (parse_change insert_raw)
parse_change-IsPlain_example =
    parse_change-IsPlain insert_raw
      (unfold IsDecoded IsPlain in (tt, ((tt, tt), ((tt, ((tt, tt), tt)), tt))))

-- The insert is compensated by a delete of its key.
insert_reversed :
    Holds
      (λ c.
        reverse_change c
        ≡ some (record {
          operation = operation_delete;
          database = [];
          collection = [];
          filter = some (key_of (text (codes "7")));
          document = none;
          update = none;
        }))
      (parse_change insert_raw)
unfolding parse_change reverse_change same trim_space lower
insert_reversed = refl

abbrev event : MongoEvent ℕ
event = record {
  source = source;
  position = 2;
  raw = codes "insert";
  change = record {
    operation = operation_insert;
    database = [];
    collection = [];
    document = none;
    before_document = none;
    document_key = none;
    update = none;
    raw = end;
  };
}

abbrev lines : List Bytes
lines = codes "one" ∷ codes "two" ∷ codes "three" ∷ []

mongo_live_resume_example :
    live_events encode_json
      (new_live_decoder source (codes "shop.orders") [] 1)
      (some (record {
        documents = some insert_raw ∷ some insert_raw ∷ none ∷ [];
        failed_behind = true;
      }))
      counting
      0
    ≡ of_list
        (stream_items encode_json
          (with_name (codes "shop.orders") (with_driver source))
          []
          1
          (some insert_raw ∷ none ∷ [])
          true)
        counting
        0
mongo_live_resume_example =
    mongo_live_resume encode_json source (codes "shop.orders") [] (insert_raw ∷ [])
      (some insert_raw ∷ none ∷ []) true counting 0

abbrev id : Value ℕ
id = text (codes "7")

abbrev old : Fields ℕ
old = field (codes "_id") id (field (codes "n") (text (codes "1")) end)

abbrev new : Fields ℕ
new = field (codes "_id") id (field (codes "n") (text (codes "2")) end)

abbrev change : Change ℕ
change = record {
  operation = operation_update;
  database = codes "shop";
  collection = codes "orders";
  document = some new;
  before_document = some old;
  document_key = some (key_of id);
  update = none;
  raw = end;
}

abbrev command : Command ℕ
command = record {
  operation = operation_replace;
  database = codes "shop";
  collection = codes "orders";
  filter = some (key_of id);
  document = some old;
  update = none;
}

-- A collection whose only document may be of the id.
abbrev only : Option (Fields ℕ) → Documents ℕ
only d (text s) = elim (same s (codes "7")) [ true ↦ d | false ↦ none ]
only d _ = none
