-- ===== src/Handle/New.antt =====
-- `new` of the smart pointers, on a block that no pointer counts.
use shared_arena.Base.{◌<◌, ◌≡◌, refl, true}
use shared_arena.Word.{block_per_page}
use shared_arena.Block.{Block}
use shared_arena.Memory.{Memory, BlockPtr, HasBlocks}
use shared_arena.Memory.Write.{block_at, wrote, read_block-eq, write_block-eq}
use shared_arena.Run.{ok}
use shared_arena.Handle.ArenaBox
use shared_arena.Handle.ArenaArc
use shared_arena.Handle.ArenaRc

module _ {P T : Type 0} (h : HasBlocks P T) (m : Memory P) (b : BlockPtr) where
  abbrev counted : Block T
  counted = record (block_at h m b) { counter = 1 }

  -- The memory after the first pointer was made.
  abbrev pub owned : Memory P
  owned = wrote h m b counted

  module _ (alive : m.live b.page ≡ true) (below : b.index < block_per_page)
      (idle : (block_at h m b).counter ≡ 0) where
    pub box_new : ArenaBox.new h b m ≡ ok b owned
    unfolding ArenaBox.new
    box_new =
        rw (read_block-eq h m b alive below, idle, write_block-eq h m b alive below counted) refl

    pub arc_new : ArenaArc.new h b m ≡ ok b owned
    unfolding ArenaArc.new
    arc_new =
        rw (read_block-eq h m b alive below, idle, write_block-eq h m b alive below counted) refl

    pub rc_new : ArenaRc.new h b m ≡ ok b owned
    unfolding ArenaRc.new
    rc_new =
        rw (read_block-eq h m b alive below, idle, write_block-eq h m b alive below counted) refl
