-- ===== src/Postgres.antt =====
-- postgres/: logical decoding. `Postgres.Types` has changes and events, `Postgres.Columns` and
-- `Postgres.Line` parse a line of test_decoding output, `Postgres.Sql` writes compensating SQL,
-- `Postgres.Stream` is the decoder over a scanned text, `Postgres.Wire` the replication messages
-- and `Postgres.Replication` the decoder that receives them.
pub mod Types
pub mod Columns
pub mod Line
pub mod Sql
pub mod Stream
pub mod Wire
pub mod Replication
