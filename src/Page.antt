-- ===== src/Page.antt =====
-- The pages of the three arenas (page/*.rs).
pub mod Arena
pub mod Pool
pub mod SharedMemory
pub mod SharedArena
