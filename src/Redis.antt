-- ===== src/Redis.antt =====
-- redis/: the RESP decoder for AOF files and replication streams. `Redis.Resp` parses and writes
-- commands, `Redis.Command` has commands with their compensation, `Redis.Stream` the events of a
-- decoder with checkpoints.
pub mod Reader
pub mod Command
pub mod Resp
pub mod Stream
pub mod Live
