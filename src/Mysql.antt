-- ===== src/Mysql.antt =====
-- mysql/: the binary log. `Mysql.Bytes` has reads at a position of a byte slice, `Mysql.Util` the
-- integers and checksums of mysql/common with the check of an event's size and checksum,
-- `Mysql.Header` the event header. The events of E_MISC_EVENTS.go: `Mysql.Misc` those of a fixed
-- layout, `Mysql.UserVar`, `Mysql.Load`, `Mysql.XaPrepare`,
-- `Mysql.Gtid`, `Mysql.PreviousGtids` the others. `Mysql.Small` has the XID,
-- INTVAR, ROTATE and metadata events, `Mysql.Column` the codes of column and event types,
-- `Mysql.TableMap` and `Mysql.Rows` the table maps and the rows, `Mysql.Query` with
-- `Mysql.StatusVars` the query events,
-- `Mysql.Description` the format description, `Mysql.Registry` the decoders by event type,
-- `Mysql.File` the events of a file, `Mysql.Mariadb` and `Mysql.Compressed` the plugin,
-- `Mysql.Event` the events as they are seen from outside, `Mysql.Backend` the start at a checkpoint.
pub mod Bytes
pub mod Util
pub mod Header
pub mod Misc
pub mod UserVar
pub mod Load
pub mod XaPrepare
pub mod Gtid
pub mod PreviousGtids
pub mod Small
pub mod Column
pub mod TableMap
pub mod Rows
pub mod EventTypes
pub mod Description
pub mod Registry
pub mod File
pub mod StatusVars
pub mod Query
pub mod Mariadb
pub mod Compressed
pub mod Event
pub mod Backend
pub mod Live
