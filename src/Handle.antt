-- ===== src/Handle.antt =====
-- The smart pointers: arena_box.rs, arena_arc.rs, arena_rc.rs and `PoolBox` of pool.rs. They know a
-- page only by its blocks and free a block by `Block::drop_block`, so they are written once for the
-- pages of all three arenas.
pub mod ArenaBox
pub mod ArenaArc
pub mod ArenaRc
pub mod ArcCounter
pub mod Drops
pub mod New
pub mod PoolBox
