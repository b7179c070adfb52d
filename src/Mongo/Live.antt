-- ===== src/Mongo/Live.antt =====
-- mongo/decode/decoder/live.go: the events of a change stream. The cursor is the documents that it
-- gives, one that `Decode` refuses as none, and whether `Err` answers an error behind the last. The
-- context is not cancelled. The position that a call of `Events` leaves in the decoder is not kept.
pub mod Resume
use go_dblog.Prelude.{
  ℕ, ◌+◌, Bool, true, false, Option, none, some, List, [], ◌∷◌, leb, length, if◌then◌else◌, ◌||◌,
}
use go_dblog.Prelude.Text.{Bytes, codes, cut, is_empty, trim_space}
use go_dblog.Dblog.Types.{Source, Event}
use go_dblog.Dblog.Stream.{Seq, Round, skip, emit, last}
use go_dblog.Dblog.Numbered.{numbered}
use go_dblog.Mongo.Value.{Fields}
use go_dblog.Mongo.Types.{
  MongoError, collection_required, watch_failed, decode_failed, read_failed, Parsed, failed, parsed,
  Change, Command, EventPlugin, with_driver,
}
use go_dblog.Mongo.Parser.{parse_raw}
use go_dblog.Mongo.Event.{as_event}
use go_dblog.Mongo.Stream.{Item, item_of, failure_item}

pub record LiveDecoder (F : Type 0) : Type 0 where
  pub source : Source
  pub plugins : List (Option (EventPlugin F))
  pub start_position : ℕ
  pub position : ℕ

-- `source.Name = namespace` where it has none.
abbrev pub with_name : Bytes → Source → Source
with_name namespace s = if is_empty s.name then record s { name = namespace } else s

-- `newLiveDecoder`, with the options applied.
unfoldable pub new_live_decoder :
    {F : Type 0} → Source → Bytes → List (Option (EventPlugin F)) → ℕ → LiveDecoder F
unfolding with_driver
new_live_decoder s namespace ps start = record {
  source = with_name namespace (with_driver s);
  plugins = ps;
  start_position = start;
  position = 0;
}

-- `splitLiveNamespace`
unfoldable pub split_live_namespace : Bytes → Parsed (Bytes × Bytes)
unfolding cut trim_space
split_live_namespace namespace = elim (cut (trim_space namespace) (codes ".")) [
  | none ↦ failed collection_required
  | some (db, collection) ↦
      if is_empty db || is_empty collection
      then failed collection_required
      else parsed (db, collection)
]

-- What the server answers to `Watch`: an error, or a cursor.
pub record Cursor (F : Type 0) : Type 0 where
  pub documents : List (Option (Fields F))
  pub failed_behind : Bool

module _ {F : Type 0} (encode_json : Fields F → Bytes) where
  -- The body of the loop, at the position of the document.
  unfoldable pub document_round : LiveDecoder F → ℕ → Option (Fields F) → Round (Item F)
  unfolding parse_raw as_event
  document_round d position none = last (none, some decode_failed)
  document_round d position (some raw) =
      if leb position d.start_position
      then skip
      else item_of (parse_raw encode_json d.source position none raw d.plugins)

  -- `LiveDecoder.Events`; `Watch` with an error is `none`.
  unfoldable pub live_events :
      {S : Type 0}
      → LiveDecoder F
      → Option (Cursor F)
      → Seq S (Option (Event (Change F) (Command F))) MongoError
  unfolding document_round numbered
  live_events d none yield s = (yield s (none, some watch_failed)).0
  live_events d (some c) yield s =
      numbered (document_round d) yield d.position c.documents
        (failure_item (if c.failed_behind then some read_failed else none)) s
