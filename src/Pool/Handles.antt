-- ===== src/Pool/Handles.antt =====
-- The smart pointers to blocks of a pool, each call on the branch that a valid pool takes.
use shared_arena.Base.{ℕ, ◌+◌, ◌-◌, ◌^◌, ◌<◌, ◌≡◌, true, arith, ltb, if◌then◌else◌}
use shared_arena.Word.{block_per_page}
use shared_arena.Memory.{Memory, BlockPtr}
use shared_arena.Run.{ok, panic}
use shared_arena.Page.Pool.{PagePool, PoolCmd, pool_blocks}
use shared_arena.Handle.New
use shared_arena.Handle.PoolBox
use shared_arena.Handle.ArenaRc
use shared_arena.Pool.Write.{block_at, wrote, read_block-eq}

module _ {T : Type 0} (m : Memory (PagePool T)) (b : BlockPtr) where
  -- The memory after the counter of the block was set to `n`.
  abbrev pub counted : ℕ → Memory (PagePool T)
  counted n = wrote m b (record (block_at m b) { counter = n })

  module _ (alive : m.live b.page ≡ true) (below : b.index < block_per_page) where
    pub box_new : (block_at m b).counter ≡ 0 → PoolBox.new pool_blocks b m ≡ ok b (counted 1)
    unfolding PoolBox.new
    box_new e = ground (arith, read_block-eq m b alive below)

    pub rc_new : (block_at m b).counter ≡ 0 → ArenaRc.new pool_blocks b m ≡ ok b (counted 1)
    rc_new = New.rc_new pool_blocks m b alive below

    pub rc_clone : ArenaRc.clone pool_blocks b m ≡ (
        if ltb (block_at m b).counter (2 ^ 63 - 1)
        then ok b (counted ((block_at m b).counter + 1))
        else panic m)
    unfolding ArenaRc.clone
    rc_clone = ground (arith, read_block-eq m b alive below)

    module _ (drop_block : BlockPtr → PoolCmd T (Unit {0})) where
      pub box_drop :
          (block_at m b).counter ≡ 1
          → PoolBox.drop pool_blocks drop_block b m ≡ drop_block b (counted 0)
      unfolding PoolBox.drop
      box_drop e = ground (arith, read_block-eq m b alive below)

      pub rc_drop_last :
          (block_at m b).counter ≡ 1
          → ArenaRc.drop pool_blocks drop_block b m ≡ drop_block b (counted 0)
      unfolding ArenaRc.drop
      rc_drop_last e = ground (arith, read_block-eq m b alive below)

      pub rc_drop_more :
          1 < (block_at m b).counter
          → ArenaRc.drop pool_blocks drop_block b m ≡ ok tt (counted ((block_at m b).counter - 1))
      unfolding ArenaRc.drop
      rc_drop_more more = ground (arith, read_block-eq m b alive below)
