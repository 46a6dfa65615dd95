-- ===== src/Page/SharedArena/Safety.antt =====
-- Blocks and the page of page/shared_arena.rs in the states that interleavings reach.
