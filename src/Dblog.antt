-- ===== src/Dblog.antt =====
-- dblog.go: the contracts that the backends share. `Dblog.Types` has the event
-- shape with its positions and checkpoints, `Dblog.Open` the open options, `Dblog.Registry` the
-- backend registry, `Dblog.Stream` the event iterators with their adapters; the modules below these
-- hold the proofs.
pub mod Types
pub mod Open
pub mod Start
pub mod Numbered
pub mod Registry
pub mod Stream
