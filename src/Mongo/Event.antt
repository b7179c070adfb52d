-- ===== src/Mongo/Event.antt =====
-- The methods of mongo/decode/events/types/event.go.
pub mod Restore
use go_dblog.Prelude.{Bool, true, false, ◌||◌, Option, none, some, if◌then◌else◌}
use go_dblog.Prelude.Text.{Bytes, same}
use go_dblog.Prelude.Decimal.{itoa}
use go_dblog.Dblog.Types.{Event}
use go_dblog.Mongo.Value.{Fields, has_no_fields, clone_map}
use go_dblog.Mongo.Types.{
  driver, operation_insert, operation_update, operation_replace, operation_delete, Change, Command,
  MongoEvent, with_driver,
}

module _ {F : Type 0} where
  -- `len(m) == 0`, with its map where it has entries.
  abbrev pub entries : Option (Fields F) → Option (Fields F)
  entries none = none
  entries (some fields) = if has_no_fields fields then none else some fields

  -- The three commands that compensate; none where the maps that they need have no entries.
  unfoldable pub reverse_insert : Change F → Option (Fields F) → Option (Command F)
  unfolding clone_map
  reverse_insert c none = none
  reverse_insert c (some key) = some (record {
    operation = operation_delete;
    database = c.database;
    collection = c.collection;
    filter = some (clone_map key);
    document = none;
    update = none;
  })

  unfoldable pub reverse_update :
      Change F → Option (Fields F) → Option (Fields F) → Option (Command F)
  unfolding clone_map
  reverse_update c none before = none
  reverse_update c (some key) none = none
  reverse_update c (some key) (some before) = some (record {
    operation = operation_replace;
    database = c.database;
    collection = c.collection;
    filter = some (clone_map key);
    document = some (clone_map before);
    update = none;
  })

  unfoldable pub reverse_delete : Change F → Option (Fields F) → Option (Command F)
  unfolding clone_map
  reverse_delete c none = none
  reverse_delete c (some document) = some (record {
    operation = operation_insert;
    database = c.database;
    collection = c.collection;
    filter = none;
    document = some (clone_map document);
    update = none;
  })

  -- `Event.Reverse`
  unfoldable pub reverse_change : Change F → Option (Command F)
  unfolding reverse_insert reverse_update reverse_delete
  reverse_change c =
      if same c.operation operation_insert
      then reverse_insert c (entries c.document_key)
      else if same c.operation operation_update || same c.operation operation_replace
      then reverse_update c (entries c.document_key) (entries c.before_document)
      else if same c.operation operation_delete
      then reverse_delete c (entries c.document)
      else none

  -- The methods of `Event`.
  unfoldable pub as_event : MongoEvent F → Event (Change F) (Command F)
  unfolding with_driver reverse_change
  as_event e = record {
    source_driver = (with_driver e.source).driver;
    source_name = e.source.name;
    position_driver = driver;
    position_string = itoa e.position;
    kind = e.change.operation;
    raw = e.raw;
    body = e.change;
    reverse = some (reverse_change e.change);
  }
