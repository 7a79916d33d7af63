-- ===== src/Block.antt =====
-- lib/block.c and lib/patch.c: blocks and patches.
pub mod Names
pub mod Create
pub mod Patch
pub mod Identify
pub mod Store
mod Tests
