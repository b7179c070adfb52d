-- ===== src/Mongo/Stream/Resume.antt =====
-- Resuming a file of MongoDB changes from the checkpoint of an event.
use go_dblog.Prelude.{◌≡◌, Bool, Option, some, List}
use go_dblog.Prelude.Text.{Bytes}
use go_dblog.Prelude.Result as Go
use go_dblog.Dblog.Stream.{of_list}
use go_dblog.Dblog.Numbered.{items, numbered-items}
use go_dblog.Mongo.Value.{Fields}
use go_dblog.Mongo.Types.{MongoError}
use go_dblog.Mongo.Stream.{Decoder, Item, failure_item, line_round, decoder_events}

module _ {F : Type 0} (decode_json : Bytes → Option (Fields F))
    (encode_json : Fields F → Bytes) where
  -- `Events` yields the items of the lines, and stops when the consumer does.
  pub decoder_events-items :
      {S : Type 0} (d : Decoder F) (lines : List Bytes) (failure : Option MongoError)
      (yield : S → Item F → S × Bool) (s : S)
      → decoder_events decode_json encode_json (some d) lines failure yield s
        ≡ of_list
            (items (line_round decode_json encode_json d) 0 lines (failure_item failure))
            yield
            s
  unfolding decoder_events
  decoder_events-items d lines failure yield s =
      numbered-items (line_round decode_json encode_json d) yield 0 lines (failure_item failure) s
