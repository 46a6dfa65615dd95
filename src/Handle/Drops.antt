-- ===== src/Handle/Drops.antt =====
-- `clone` and `drop` of the smart pointers of arena_box.rs and arena_arc.rs, on a block that is
-- counted.
use shared_arena.Base.{ℕ, ◌+◌, ◌-◌, ◌%◌, ◌^◌, ◌<◌, ◌≡◌, refl, true, false, arith, ltb, ◌==◌}
use shared_arena.Word.{block_per_page}
use shared_arena.Memory.{Memory, BlockPtr, HasBlocks}
use shared_arena.Memory.Write.{block_at, wrote, read_block-eq, write_block-eq}
use shared_arena.Run.{Cmd, ok}
use shared_arena.Handle.ArenaBox
use shared_arena.Handle.ArenaArc

module _ {P T : Type 0} (h : HasBlocks P T) (m : Memory P) (b : BlockPtr) where
  -- The memory after the counter of the block was set to `n`.
  abbrev pub counted : ℕ → Memory P
  counted n = wrote h m b (record (block_at h m b) { counter = n })

  module _ (alive : m.live b.page ≡ true) (below : b.index < block_per_page) where
    abbrev count : ℕ
    count = (block_at h m b).counter

    pub arc_clone : count < 2 ^ 63 - 1 → ArenaArc.clone h b m ≡ ok b (counted (count + 1))
    unfolding ArenaArc.clone
    arc_clone lt =
        let few : ltb count (2 ^ 63 - 1) ≡ true = ground arith in
        let sum : (count + 1) % 2 ^ 64 ≡ count + 1 = omega (arith, lt) in
        rw
          (
            read_block-eq h m b alive below,
            sum,
            write_block-eq h m b alive below (record (block_at h m b) { counter = count + 1 }),
            few,
          )
          refl

    module _ (drop_block : BlockPtr → Cmd (Memory P) (Unit {0})) where
      pub box_drop : count ≡ 1 → ArenaBox.drop h drop_block b m ≡ drop_block b (counted 0)
      unfolding ArenaBox.drop
      box_drop one =
          rw
            (
              read_block-eq h m b alive below,
              one,
              write_block-eq h m b alive below (record (block_at h m b) { counter = 0 }),
            )
            refl

      pub arc_drop_last : count ≡ 1 → ArenaArc.drop h drop_block b m ≡ drop_block b (counted 0)
      unfolding ArenaArc.drop
      arc_drop_last one =
          rw
            (
              read_block-eq h m b alive below,
              one,
              write_block-eq h m b alive below (record (block_at h m b) { counter = 0 }),
            )
            refl

      pub arc_drop_more :
          1 < count → count < 2 ^ 64 → ArenaArc.drop h drop_block b m ≡ ok tt (counted (count - 1))
      unfolding ArenaArc.drop
      arc_drop_more more word =
          let many : (count == 1) ≡ false = ground arith in
          let less : (count + 2 ^ 64 - 1) % 2 ^ 64 ≡ count - 1 = omega (arith, more, word) in
          rw
            (
              read_block-eq h m b alive below,
              less,
              write_block-eq h m b alive below (record (block_at h m b) { counter = count - 1 }),
              many,
            )
            refl
