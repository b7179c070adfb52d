-- ===== src/Lib.antt =====
-- go-dblog decodes the logs of databases (MySQL binary logs, PostgreSQL logical decoding, Redis
-- append-only files, MongoDB change streams) into events with checkpoints and compensating
-- operations. This library models the parts of it that are pure or work on explicit state.
--
-- The parts and where they stand:
--
-- dblog.go. Dblog.Types: Source, Position, Checkpoint, and an event as the answers of its
-- methods. Dblog.Open: the options of Open. Dblog.Registry: Registry.Register and Registry.Open
-- as steps on the map of backends. Dblog.Stream: iter.Seq2 is a function of the loop body, which
-- takes the consumer's state and says whether to go on; Filter, Bodies, Flashbacks, RecoveryPlan
-- and Events are one round for each item. Dblog.Start: startPosition of redis/backend and
-- postgres/backend, which differ in the driver name.
-- redis/decode. Redis.Reader and Redis.Resp: readLine, readBulkString and parseCommand of
-- decoder/resp.go over the bytes still to come and the noted raw bytes, and send of
-- decoder/live.go. Redis.Live: the handshake of decoder/live.go, skipRDB, discardUntil, and the
-- loop of the events behind them with the position that it keeps, over a connection that is a
-- script of what the server sends.
-- Redis.Command: Command.Reverse of events/types/command.go. Redis.Stream: NewDecoder,
-- Decoder.Events and applyCommandPlugins of decoder/decoder.go with the event of
-- events/types/event.go.
-- postgres/decode. Postgres.Columns and Postgres.Line: decoder/parser.go, where a position in
-- the line is the suffix that begins there. Postgres.Sql: events/types/sql.go and Event.Reverse.
-- Postgres.Stream: decoder/decoder.go over the lines that the scanner gives. Postgres.Wire and
-- Postgres.Replication: the messages of decoder/wire.go, and the loop that receives and answers
-- them.
-- mysql. Mysql.Util: the integers of common/util.go, common/checksum.go and Event.ValidateData
-- of decode/events/event.go. Mysql.Header: decode/events/event_header.go. Mysql.Misc,
-- Mysql.UserVar, Mysql.Load, Mysql.XaPrepare, Mysql.Gtid, Mysql.PreviousGtids: the events of
-- decode/events/types/E_MISC_EVENTS.go. Mysql.Small: E_XID_EVENT.go, E_INTVAR_EVENT.go,
-- E_ROTATE_EVENT.go, E_METADATA_EVENT.go. Mysql.Query and Mysql.StatusVars: E_QUERY_EVENT.go.
-- Mysql.Column and Mysql.TableMap: the column types of common/const.go and E_TABLE_MAP_EVENT.go.
-- Mysql.Rows: E_ROWS_EVENT.go, with a child module for the decimals, the values, the rows, the
-- event and the compensation. Mysql.EventTypes: the names of event types in common/const.go.
-- Mysql.Description: E_FORMAT_DESCRIPTION_EVENT.go, and the versions of common/checksum.go.
-- Mysql.Registry: base_event_factory.go and base_event_context.go. Mysql.File:
-- decode/decoder/file_decoder.go and options.go over the bytes of a file. Mysql.Event and
-- Mysql.Backend: decode/decoder/dblog.go and backend/backend.go, an event as it is seen from
-- outside and the start at its checkpoint. Mysql.Live: decode/decoder/live.go over what the
-- server answers and a stream that is a script. Mysql.Mariadb and Mysql.Compressed:
-- plugin/mariadb/plugin.go. Mysql.Bytes: reads at a position of a slice, which panic past its
-- length.
-- mongo. Mongo.Value: normalizeValue, the clones and the maps of decode/decoder/parser.go and
-- decode/events/types/event.go. Mongo.Types, Mongo.Parser, Mongo.Event: the changes, parseChange
-- and the compensation. Mongo.Stream and Mongo.Live: the loops of decode/decoder/decoder.go and
-- live.go, which share Dblog.Numbered, a loop that numbers its inputs.
-- Prelude: byte strings, decimals and 64-bit integers, results, lists over native numbers.
-- Tests: the theorems at concrete inputs.
--
-- A client of an iterator meets it as Seq of Dblog.Stream: the decoders of Redis.Stream,
-- Redis.Live, Postgres.Stream, Postgres.Replication, Mongo.Stream and Mongo.Live are such
-- sequences, and their checkpoints go back through Dblog.Start. The loops of Mysql.File and
-- Mysql.Live also tell whether there was a panic; Mysql.Event and Mysql.Backend take them as
-- they are, and checkpoints go back through Mysql.Backend. The map of tables that Mysql.TableMap
-- fills is the one that Mysql.Rows reads.
--
-- Conventions. A Go string is a list of bytes. A result is ok, an error or panic; panic is an
-- index, a slice bound or a length out of range. Errors are told apart by what refuses the
-- input, not by their texts. The loops over an input run on fuel. Those of Redis.Stream,
-- Redis.Live, Postgres.Columns and Mysql.File have one round more than there are bytes, those of
-- Mysql.Rows and Mysql.StatusVars as many as there are bytes: each round takes a byte at least.
-- Where fuel ran out, Redis.Stream and Redis.Live would yield no more events, Postgres.Columns
-- would give panic, and the loops of mysql give none. Numbers are natural; a sum that the source
-- computes in 32 bits is taken modulo 2^32, and where a sum may leave int this is a case of its
-- own. Letters and blanks are those of ASCII.
--
-- Parameters: strconv.ParseFloat and fmt.Sprint on floats, hash/crc32, the decompression of
-- compress/zlib, encoding/json, net/url, the room that make finds, the plugins, the types of
-- bson but A, M and D, and the body decoders that Mysql.File dispatches to. What
-- math.Float32frombits, math.Float64frombits, time.Unix and time.Date give is kept as the
-- arguments of the call.
--
-- Not modelled: connections, files and goroutines (the replication client of MySQL, the polling
-- of PostgreSQL, Backend.Open), logging, the driver of MongoDB, and of MySQL the unknown and
-- unsupported events and the walk over the bodies of nested events.
pub mod Prelude
pub mod Dblog
pub mod Redis
pub mod Postgres
pub mod Mysql
pub mod Mongo
mod Tests
