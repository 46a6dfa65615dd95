-- ===== src/Pool/Freed.antt =====
-- `Block::drop_block` (block.rs) on a block of a valid pool.
use mathlib.Core.Path.{subst₂}
use shared_arena.Base.{
  ℕ, ◌<◌, ◌≡◌, refl, sym, ap, ◌∙◌, inl, inr, Bool, true, false, ◌||◌, none, some, List, ◌∷◌, arith,
  if◌then◌else◌, has, Bool-cases, ==_refl,
}
use shared_arena.Word.{test_bit, block_per_page}
use shared_arena.Block
use shared_arena.Block.{Block}
use shared_arena.Block.Kind.{pool_kind}
use shared_arena.Block.Tagged.{page_ptr-new_iff}
use shared_arena.Memory.{Memory, BlockPtr}
use shared_arena.Run.{Run, ok}
use shared_arena.Run.Returns.{Returns, returns}
use shared_arena.Page.Pool as Page
use shared_arena.Page.Pool.{PagePool, pool_blocks, put_in_free_list}
use shared_arena.Pool.{Pool, drop_block}
use shared_arena.Pool.Valid.{IsPage, IsValid, BlockOk, Filled}
use shared_arena.Pool.Place.{is_at, is_at_eq}
use shared_arena.Pool.Write.{block_at, read_block-eq}
use shared_arena.Pool.Release.{freed, relisted, page_drop, put_in_free_list-eq}
use shared_arena.Pool.Released.{
  freed_bit, freed_other, block_at-freed, IsValid-freed, IsValid-relisted, relisted_bits,
  relisted_blocks,
}

-- The block `b` is free and holds nothing, its page is in the free list, and nothing else changed.
pub record Freed {T : Type 0} (m : Memory (PagePool T)) (pool : Pool) (all : List ℕ) (b : BlockPtr)
    (m' : Memory (PagePool T)) : Type 0 where
  pub free : List ℕ
  pub valid : IsValid m' pool all free
  pub filled : Filled m' all
  pub listed : has b.page free ≡ true
  pub bits :
      (p j : ℕ) → test_bit (m'.page p).bitfield j ≡ (test_bit (m.page p).bitfield j || is_at b p j)
  pub others : (p i : ℕ) → is_at b p i ≡ false → (m'.page p).blocks i ≡ (m.page p).blocks i
  pub emptied : (block_at m' b).value ≡ none
  pub live : m'.live ≡ m.live
  pub supply : m'.supply ≡ m.supply

module _ {T : Type 0} {m : Memory (PagePool T)} {pool : Pool} {all free : List ℕ}
    (v : IsValid m pool all free) (b : BlockPtr) (member : has b.page all ≡ true)
    (below : b.index < block_per_page) (value : T) (holds : (block_at m b).value ≡ some value) where
  page : IsPage m b.page
  page = v.pages b.page member

  -- The tag of the block leads to the page's own `drop_block`.
  pub dispatch : drop_block b m ≡ Page.drop_block b.page b m
  unfolding drop_block Block.drop_block
  dispatch =
      let (address, kind, i) = page_ptr-new_iff b.page b.index pool_kind page.word (omega arith) in
      rw
        (
          read_block-eq m b page.alive below,
          page.tags b.index below,
          kind,
          address.1 (page.not_null, page.canonical),
        )
        refl

  looked : Bool → Run (Memory (PagePool T)) (Unit {0})
  looked t = if t then ok tt (freed m b) else put_in_free_list b.page (freed m b)

  stays : has b.page free ≡ true → Page.drop_block b.page b m ≡ ok tt (freed m b)
  unfolding looked
  stays h = page_drop m b page below value holds ∙ ap looked (v.flags b.page member ∙ h)

  moves : has b.page free ≡ false → Page.drop_block b.page b m ≡ ok tt (relisted m b v.first)
  unfolding looked
  moves h =
      page_drop m b page below value holds
      ∙ ap looked (v.flags b.page member ∙ h)
      ∙ put_in_free_list-eq (freed m b) b.page v.first page.alive v.list

  module _ (idle : (block_at m b).counter ≡ 0)
      (others : (p i : ℕ)
        → has p all ≡ true
        → i < block_per_page
        → is_at b p i ≡ false
        → BlockOk (test_bit (m.page p).bitfield i) ((m.page p).blocks i)) where
    Filled-freed : Filled (freed m b) all
    Filled-freed p i h lt = elim (Bool-cases (is_at b p i)) [
      | inl at ↦
          let (e, e') = is_at_eq b p i at in
          subst₂
            (λ q j.
              BlockOk (test_bit ((freed m b).page q).bitfield j) (((freed m b).page q).blocks j))
            (sym e) (sym e')
            (rw
              (freed_bit m b page below value holds b.page b.index, ==_refl b.page, ==_refl b.index)
              (ground (arith, idle)))
      | inr ne ↦
          rw
            (
              freed_bit m b page below value holds p i,
              freed_other m b page below value holds p i ne,
              ne,
            )
            (ground (arith, others p i h lt ne))
    ]

    pub drop_block-Freed : Returns (λ _ m'. Freed m pool all b m') (drop_block b m)
    drop_block-Freed = elim (Bool-cases (has b.page free)) [
      | inl listed ↦ rw (dispatch ∙ stays listed) (
          returns (record {
            free = free;
            valid = IsValid-freed m b page below value holds v member listed;
            filled = Filled-freed;
            listed = listed;
            bits = freed_bit m b page below value holds;
            others = freed_other m b page below value holds;
            emptied = ap (λ k. k.value) (block_at-freed m b page below value holds);
            live = refl;
            supply = refl;
          }))
      | inr out ↦ rw (dispatch ∙ moves out) (
          returns (record {
            free = b.page ∷ free;
            valid = IsValid-relisted m b page below value holds v member out;
            filled = λ p i h lt. rw (relisted_bit p, relisted_block p) (Filled-freed p i h lt);
            listed = ground (arith, ==_refl b.page);
            bits = λ p j.
                ap (λ w. test_bit w j) (relisted_bit p) ∙ freed_bit m b page below value holds p j;
            others = λ p i ne.
                ap (λ f. f i) (relisted_block p) ∙ freed_other m b page below value holds p i ne;
            emptied =
                ap (λ f. (f b.index).value) (relisted_block b.page)
                ∙ ap (λ k. k.value) (block_at-freed m b page below value holds);
            live = refl;
            supply = refl;
          }))
    ]
      where
        relisted_bit :
            (p : ℕ) → ((relisted m b v.first).page p).bitfield ≡ ((freed m b).page p).bitfield
        relisted_bit = relisted_bits m b page below value holds v member

        relisted_block :
            (p : ℕ) → ((relisted m b v.first).page p).blocks ≡ ((freed m b).page p).blocks
        relisted_block = relisted_blocks m b page below value holds v member
