-- ===== src/Postgresql.antt =====
-- patroni/postgresql: the parts that decide, apart from the processes and queries that they run.
pub mod Version
pub mod Lsn
pub mod LsnText
pub mod Timelines
pub mod Rewind
pub mod SyncStandby
pub mod SyncStandbyLaws
pub mod SlotSync
pub mod SlotDrops
pub mod SlotOutcome
pub mod Cancellable
pub mod CancelLaws
