-- ===== src/Pool/Release.antt =====
-- The steps of `PagePool::drop_block` (page/pool.rs) on a block of a valid pool.
use shared_arena.Base.{
  ℕ, ◌^◌, ◌<◌, bit_or, ◌≡◌, ap, ◌∙◌, inl, inr, true, false, none, some, arith, ◌==◌, if◌then◌else◌,
  Bool-cases, ==_refl, ==-eq-false,
}
use shared_arena.Word.{bit_not, mask_arena_bit, block_per_page}
use shared_arena.Word.Bits.{test_bit_above}
use shared_arena.Word.Ext.{test_bit_set, set-lt}
use shared_arena.Block.Kind.{pool_kind}
use shared_arena.Block.PageTaggedPtr
use shared_arena.Block.Tagged.{page_ptr-new_iff}
use shared_arena.Memory.{Memory, BlockPtr, with_page}
use shared_arena.Run.{ok}
use shared_arena.Page.Pool as Page
use shared_arena.Page.Pool.{PagePool, PoolCmd, pool_blocks, put_in_free_list}
use shared_arena.Page.Pool.Acquire.{IsBitfield}
use shared_arena.Pool.Valid.{IsPage}
use shared_arena.Pool.Write.{block_at, wrote, read_block-eq, drop_in_place-eq}

-- A page of an existing pool is not the one to be deallocated.
not_last_reference : (w : ℕ) → IsBitfield w → (bit_not w == mask_arena_bit) ≡ false
not_last_reference w (word, top) =
    ==-eq-false (bit_not w) mask_arena_bit
      (λ e. cc (top, test_bit_above 63 63 w (omega arith) (omega arith)))

module _ {T : Type 0} where
  pub put_in_free_list-eq :
      (s : Memory (PagePool T)) (p first : ℕ)
      → s.live p ≡ true
      → s.list ≡ some first
      → put_in_free_list p s
        ≡ ok tt (record s {
          page =
              (with_page
                (with_page s p (record (s.page p) { in_free_list = true }))
                p
                (record (s.page p) { in_free_list = true; next_free = first })).page;
          list = some p;
        })
  unfolding put_in_free_list
  put_in_free_list-eq s p first alive head = ground arith

module _ {T : Type 0} (m : Memory (PagePool T)) (b : BlockPtr) where
  abbrev pub emptied : Memory (PagePool T)
  emptied = wrote m b (record (block_at m b) { value = none })

  abbrev pub freed_bits : ℕ
  freed_bits = bit_or (m.page b.page).bitfield (2 ^ b.index)

  -- The memory after the block was freed, before a look at the free list.
  abbrev pub freed : Memory (PagePool T)
  freed = with_page emptied b.page (record (emptied.page b.page) { bitfield = freed_bits })

  -- The same with the page put in front of a free list that began at `first`.
  abbrev pub relisted : ℕ → Memory (PagePool T)
  relisted first = record freed {
    page =
        (with_page (with_page freed b.page (record (freed.page b.page) { in_free_list = true }))
          b.page (record (freed.page b.page) { in_free_list = true; next_free = first })).page;
    list = some b.page;
  }

  module _ (page : IsPage m b.page) (below : b.index < block_per_page) (value : T)
      (holds : (block_at m b).value ≡ some value) where
    index : PageTaggedPtr.index_block (block_at emptied b).page ≡ b.index
    index =
        ap PageTaggedPtr.index_block (tag ∙ page.tags b.index below)
        ∙ (page_ptr-new_iff b.page b.index pool_kind page.word (omega arith)).2
      where
        tag : (block_at emptied b).page ≡ (block_at m b).page
        tag = ground (arith, ==_refl b.page, ==_refl b.index)

    pub IsBitfield-freed : IsBitfield freed_bits
    IsBitfield-freed = (
      set-lt (m.page b.page).bitfield b.index page.bits.0 (omega arith),
      ground (arith, test_bit_set (m.page b.page).bitfield b.index 63, page.bits.1),
    )

    -- The call up to the look at the free list.
    pub page_drop :
        Page.drop_block b.page b m
        ≡ (if (m.page b.page).in_free_list then ok tt freed else put_in_free_list b.page freed)
    unfolding Page.drop_block
    page_drop = elim (Bool-cases (m.page b.page).in_free_list) [
      | inl e ↦ rw e (
          ground (
            arith,
            e,
            drop_in_place-eq m b page.alive below value holds,
            read_block-eq emptied b page.alive below,
            index,
            not_last_reference freed_bits IsBitfield-freed,
            ==_refl b.page,
          ))
      | inr e ↦ rw e (
          ground (
            arith,
            e,
            drop_in_place-eq m b page.alive below value holds,
            read_block-eq emptied b page.alive below,
            index,
            not_last_reference freed_bits IsBitfield-freed,
            ==_refl b.page,
          ))
    ]
