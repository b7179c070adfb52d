-- ===== src/Mongo.antt =====
-- mongo/: lines of a MongoDB oplog or change stream. `Mongo.Value` has the values of a decoded
-- document, `Mongo.Types` the changes, `Mongo.Parser` the parser, `Mongo.Event` the event with its
-- compensation, `Mongo.Stream` the decoder of lines, `Mongo.Live` that of a change stream.
pub mod Value
pub mod Types
pub mod Parser
pub mod Event
pub mod Stream
pub mod Live
