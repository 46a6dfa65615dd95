-- ===== src/Arena/Release.antt =====
-- The steps of `PageArena::drop_block` (page/arena.rs) on a block of a valid arena.
use mathlib.Core.Path.{subst}
use shared_arena.Base.{
  ℕ, suc, ◌+◌, ◌%◌, ◌^◌, ◌<◌, bit_or, ◌≡◌, sym, ap, ◌∙◌, true, false, none, some, arith, ◌==◌,
  ==_refl, ==-eq-false,
}
use shared_arena.Word.{block_per_page, all_ones, u64_mod, test_bit}
use shared_arena.Word.Bits.{bit_or-lt}
use shared_arena.Word.Ext.{add_bit_word, pow-lt}
use shared_arena.Block.Kind.{arena_kind}
use shared_arena.Block.PageTaggedPtr
use shared_arena.Block.Tagged.{page_ptr-new_iff}
use shared_arena.Memory.{Memory, BlockPtr, with_page, deref, store}
use shared_arena.Memory.Write.{block_at, wrote, read_block-eq, drop_in_place-eq}
use shared_arena.Run.{ok}
use shared_arena.Page.Arena as Page
use shared_arena.Page.Arena.{
  PageArena, arena_blocks, put_in_pending, push_pending, exchange_pending,
}
use shared_arena.Arena.Valid.{IsPage}

module _ {T : Type 0} where
  abbrev listed : Memory (PageArena T) → ℕ → Memory (PageArena T)
  listed s p = with_page s p (record (s.page p) { in_free_list = true })

  -- The memory with the page `p` put in front of a pending list that began at `first`.
  abbrev pub pushed : Memory (PageArena T) → (p first : ℕ) → Memory (PageArena T)
  pushed s p first = record s {
    page =
        (with_page (listed s p) p
          (record (s.page p) { in_free_list = true; next_free = first })).page;
    list = some p;
  }

  pub stays-eq :
      (s : Memory (PageArena T)) (tries p : ℕ)
      → s.live p ≡ true
      → (s.page p).in_free_list ≡ true
      → put_in_pending tries p s ≡ ok tt s
  unfolding put_in_pending deref
  stays-eq s tries p alive flag = ground arith

  moves-first :
      (s : Memory (PageArena T)) (tries p first : ℕ)
      → s.live p ≡ true
      → (s.page p).in_free_list ≡ false
      → put_in_pending (suc tries) p (record s { list = some first }) ≡ ok tt (pushed s p first)
  unfolding put_in_pending push_pending exchange_pending deref store
  moves-first s tries p first alive flag = ground (arith, ==_refl p, ==_refl first)

  pub moves-eq :
      (s : Memory (PageArena T)) (tries p first : ℕ)
      → s.live p ≡ true
      → (s.page p).in_free_list ≡ false
      → s.list ≡ some first
      → put_in_pending (suc tries) p s ≡ ok tt (pushed s p first)
  moves-eq s tries p first alive flag head =
      subst (λ l. put_in_pending (suc tries) p (record s { list = l }) ≡ ok tt (pushed s p first))
        (sym head) (moves-first s tries p first alive flag)

module _ {T : Type 0} (m : Memory (PageArena T)) (b : BlockPtr) where
  abbrev pub emptied : Memory (PageArena T)
  emptied = wrote arena_blocks m b (record (block_at arena_blocks m b) { value = none })

  abbrev pub freed_bits : ℕ
  freed_bits = bit_or (m.page b.page).bitfield_atomic (2 ^ b.index)

  -- The memory after the block was freed, before a look at the lists.
  abbrev pub freed : Memory (PageArena T)
  freed = with_page emptied b.page (record (emptied.page b.page) { bitfield_atomic = freed_bits })

  module _ (page : IsPage m b.page) (below : b.index < block_per_page) where
    index : PageTaggedPtr.index_block (block_at arena_blocks emptied b).page ≡ b.index
    index =
        ap PageTaggedPtr.index_block (tag ∙ page.tags b.index below)
        ∙ (page_ptr-new_iff b.page b.index arena_kind page.word (omega arith)).2
      where
        tag : (block_at arena_blocks emptied b).page ≡ (block_at arena_blocks m b).page
        tag = ground (arith, ==_refl b.page, ==_refl b.index)

    -- The bit of the arena is not in `bitfield_atomic`, so that no drop frees the page.
    pub freed-lt : freed_bits < 2 ^ 63
    freed-lt =
        bit_or-lt 63 (m.page b.page).bitfield_atomic (2 ^ b.index) page.bits.atomic
          (pow-lt b.index 63 below)

    not_all : (freed_bits == all_ones) ≡ false
    not_all = ==-eq-false freed_bits all_ones (λ e. absurd (omega (arith, freed-lt, e)))

    module _ (value : T) (holds : (block_at arena_blocks m b).value ≡ some value)
        (off : test_bit (m.page b.page).bitfield_atomic b.index ≡ false) where
      added : ((m.page b.page).bitfield_atomic + 2 ^ b.index) % u64_mod ≡ freed_bits
      added =
          add_bit_word (m.page b.page).bitfield_atomic b.index (omega (arith, page.bits.atomic))
            (omega (arith, below)) off

      -- The call up to the look at the lists.
      pub page_drop :
          (tries : ℕ) → Page.drop_block tries b.page b m ≡ put_in_pending tries b.page freed
      unfolding Page.drop_block deref store
      page_drop tries =
          rw
            (
              page.alive,
              drop_in_place-eq arena_blocks m b page.alive below value holds,
              read_block-eq arena_blocks emptied b page.alive below,
              index,
              page.alive,
            )
            (ground (arith, ==_refl b.page, added, not_all))
