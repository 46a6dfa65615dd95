-- ===== src/Memory/Write.antt =====
-- Reading and writing a block of a page that is allocated, for any type of page.
use shared_arena.Base.{
  ℕ, ◌<◌, ◌≡◌, refl, ◌∙◌, inl, inr, true, Option, none, some, arith, ◌==◌, ◌&&◌, if◌then◌else◌,
  Bool-cases, ==_iff, ==_refl,
}
use shared_arena.Word.{block_per_page}
use shared_arena.Block.{Block}
use shared_arena.Memory.{
  Memory, BlockPtr, HasBlocks, update, with_page, deref, store, read_block, write_block,
  write_value, drop_in_place,
}
use shared_arena.Run.{ok}

module _ {P T : Type 0} (h : HasBlocks P T) where
  -- The block at `b`, and the memory after it was written.
  abbrev pub block_at : Memory P → BlockPtr → Block T
  block_at m b = h.blocks (m.page b.page) b.index

  abbrev pub wrote : Memory P → BlockPtr → Block T → Memory P
  wrote m b k =
      with_page m b.page
        (h.with_blocks (m.page b.page) (update (h.blocks (m.page b.page)) b.index k))

  module _ (m : Memory P) (b : BlockPtr) (alive : m.live b.page ≡ true)
      (below : b.index < block_per_page) where
    pub read_block-eq : read_block h b m ≡ ok (block_at m b) m
    unfolding read_block deref
    read_block-eq = ground arith

    pub write_block-eq : (k : Block T) → write_block h b k m ≡ ok tt (wrote m b k)
    unfolding write_block deref store
    write_block-eq k = ground arith

    pub write_value-eq :
        (v : Option T)
        → write_value h b v m ≡ ok tt (wrote m b (record (block_at m b) { value = v }))
    unfolding write_value
    write_value-eq v = ground arith

    pub drop_in_place-eq :
        (v : T)
        → (block_at m b).value ≡ some v
        → drop_in_place h b m ≡ ok tt (wrote m b (record (block_at m b) { value = none }))
    unfolding drop_in_place
    drop_in_place-eq v e = ground arith

  -- Every block but the one written is as it was.
  pub blocks-wrote :
      (m : Memory P) (b : BlockPtr) (k : Block T) (p i : ℕ)
      → h.blocks ((wrote m b k).page p) i
        ≡ (if p == b.page && i == b.index then k else h.blocks (m.page p) i)
  blocks-wrote m b k p i = elim (Bool-cases (p == b.page)) [
    | inl e ↦
        let same = (==_iff p b.page).0 e in
        rw (same, ==_refl b.page, h.blocks-with_blocks) (ground arith)
    | inr e ↦ rw e
  ]

  pub block_at-wrote : (m : Memory P) (b : BlockPtr) (k : Block T) → block_at (wrote m b k) b ≡ k
  block_at-wrote m b k =
      blocks-wrote m b k b.page b.index ∙ rw (==_refl b.page, ==_refl b.index) refl
