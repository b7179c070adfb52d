-- ===== src/Mongo/Live/Resume.antt =====
-- The events of a change stream, and starting behind a number of its documents.
use go_dblog.Prelude.{
  ℕ, ◌+◌, ◌≤◌, ◌≡◌, refl, ap, ◌∙◌, Bool, Option, none, some, List, [], ◌∷◌, ◌++◌, map, length,
  le→leb, leb_lt, arith, if◌then◌else◌,
}
use go_dblog.Prelude.Text.{Bytes}
use go_dblog.Dblog.Types.{Source}
use go_dblog.Dblog.Stream.{skip, of_list}
use go_dblog.Dblog.Numbered.{items, after_round, numbered-items}
use go_dblog.Mongo.Value.{Fields}
use go_dblog.Mongo.Types.{
  EventPlugin, MongoEvent, Parsed, failed, parsed, decode_failed, read_failed, with_driver,
}
use go_dblog.Mongo.Parser.{parse_raw}
use go_dblog.Mongo.Event.{as_event}
use go_dblog.Mongo.Stream.{Item, item_of, failure_item}
use go_dblog.Mongo.Live.{LiveDecoder, with_name, new_live_decoder, document_round, live_events}

module _ {F : Type 0} (encode_json : Fields F → Bytes) where
  -- The event of a parsed document and what follows it, or the error that ends the stream.
  unfoldable or_end : Parsed (MongoEvent F) → List (Item F) → List (Item F)
  or_end (failed e) rest = (none, some e) ∷ []
  or_end (parsed e) rest = (some (as_event e), none) ∷ rest

  -- The events of documents with `k` in front of them: each document's, numbered from `k + 1`, up to
  -- the first that the driver or the parser refuses, whose error is the last; else the cursor's.
  unfoldable pub stream_items :
      Source → List (Option (EventPlugin F)) → ℕ → List (Option (Fields F)) → Bool → List (Item F)
  unfolding or_end
  stream_items source plugins k [] broken = if broken then (none, some read_failed) ∷ [] else []
  stream_items source plugins k (none ∷ documents) broken = (none, some decode_failed) ∷ []
  stream_items source plugins k (some raw ∷ documents) broken =
      or_end (parse_raw encode_json source (k + 1) none raw plugins)
        (stream_items source plugins (k + 1) documents broken)

  after_round-item_of :
      (p : Parsed (MongoEvent F)) (rest : List (Item F))
      → after_round (item_of p) rest ≡ or_end p rest
  unfolding or_end
  after_round-item_of (failed e) rest = refl
  after_round-item_of (parsed e) rest = refl

  document_round-skip :
      (d : LiveDecoder F) (position : ℕ) (raw : Fields F)
      → position ≤ d.start_position
      → document_round encode_json d position (some raw) ≡ skip
  unfolding document_round
  document_round-skip d position raw h = rw (le→leb position d.start_position h) refl

  -- The documents up to the start position yield nothing.
  items-behind :
      (d : LiveDecoder F) (k n : ℕ) (before : List (Fields F)) (rest : List (Option (Fields F)))
      (failure : Option (Item F))
      → k + length before ≡ n
      → n ≤ d.start_position
      → items (document_round encode_json d) k (map (λ r. some r) before ++ rest) failure
        ≡ items (document_round encode_json d) n rest failure
  unfolding items
  items-behind d k n [] rest failure e h =
      ap (λ (j : ℕ). items (document_round encode_json d) j rest failure) (omega (arith, e))
  items-behind d k n (raw ∷ before) rest failure e h =
      rw (document_round-skip d (k + 1) raw (omega (arith, e, h)))
        (items-behind d (k + 1) n before rest failure (omega (arith, e)) h)

  -- Those behind it yield their events.
  items-stream :
      (d : LiveDecoder F) (k : ℕ) (documents : List (Option (Fields F))) (broken : Bool)
      → d.start_position ≤ k
      → items
          (document_round encode_json d)
          k
          documents
          (failure_item (if broken then some read_failed else none))
        ≡ stream_items d.source d.plugins k documents broken
  unfolding items stream_items document_round
  items-stream d k [] broken h = ground arith
  items-stream d k (none ∷ documents) broken h = refl
  items-stream d k (some raw ∷ documents) broken h =
      rw
        (
          leb_lt (k + 1) d.start_position (omega (arith, h)),
          items-stream d (k + 1) documents broken (omega (arith, h)),
        )
        (after_round-item_of (parse_raw encode_json d.source (k + 1) none raw d.plugins)
          (stream_items d.source d.plugins (k + 1) documents broken))

  -- A live decoder that starts at position `n` yields, of a cursor whose first `n` documents are
  -- decoded by the driver, one event for each document behind them, with its number in the cursor,
  -- up to the first that the driver or the parser refuses, whose error it yields last; and where
  -- none is refused, the error of the cursor, if it has one; and it stops when the consumer does.
  pub mongo_live_resume :
      {S : Type 0} (source : Source) (namespace : Bytes) (plugins : List (Option (EventPlugin F)))
      (before : List (Fields F)) (rest : List (Option (Fields F))) (broken : Bool)
      (yield : S → Item F → S × Bool) (s : S)
      → live_events encode_json
          (new_live_decoder source namespace plugins (length before))
          (some (record { documents = map (λ r. some r) before ++ rest; failed_behind = broken }))
          yield
          s
        ≡ of_list
            (stream_items
              (with_name namespace (with_driver source))
              plugins
              (length before)
              rest
              broken)
            yield
            s
  unfolding live_events
  mongo_live_resume source namespace plugins before rest broken yield s =
      unfold new_live_decoder in
      (numbered-items
        (document_round encode_json (new_live_decoder source namespace plugins (length before)))
        yield 0 (map (λ r. some r) before ++ rest)
        (failure_item (if broken then some read_failed else none)) s)
      ∙ ap (λ is. of_list is yield s)
          (items-behind (new_live_decoder source namespace plugins (length before)) 0
              (length before) before rest (failure_item (if broken then some read_failed else none))
              (omega arith) (omega arith)
            ∙ items-stream (new_live_decoder source namespace plugins (length before))
                (length before) rest broken (omega arith))
