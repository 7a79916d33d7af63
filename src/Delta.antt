-- ===== src/Delta.antt =====
-- lib/delta.c: the difference of two states of a table, and the merge of two deltas.
pub mod Names
pub mod Create
pub mod Merge
pub mod Reference
pub mod Room
pub mod Lossless
pub mod Same
pub mod Cells
pub mod Loop
pub mod Compose
pub mod Parts
pub mod Correct
pub mod Weight
pub mod Difference
pub mod Idle
pub mod Count
pub mod Conflict
mod Tests
