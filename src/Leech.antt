-- ===== src/Leech.antt =====
-- lib/leech.c: the operations of the library.
pub mod Config
pub mod Merge
pub mod Carries
pub mod MergeDeltas
pub mod Missing
pub mod Commit
pub mod TableDelta
pub mod CommitTables
pub mod StoredChain
pub mod Consistent
pub mod Partial
pub mod Rebase
pub mod History
pub mod HistoryChain
pub mod Patch
pub mod PatchSessions
pub mod Purge
pub mod Chain
pub mod Diff
pub mod Checksum
pub mod DiffChain
pub mod Tests
pub mod DiffTests
mod PatchTests
mod HistoryTests
mod CommitTests
