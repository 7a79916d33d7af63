-- ===== src/Table.antt =====
-- lib/table.c and lib/utils.c: the states of the tables.
pub mod Rows
pub mod RowLaws
pub mod Keyed
pub mod States
pub mod Patch
pub mod Protocol
pub mod Transaction
pub mod Destination
pub mod Synced
mod Tests
mod SyncedTests
