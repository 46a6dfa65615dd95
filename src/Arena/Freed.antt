-- ===== src/Arena/Freed.antt =====
-- `Block::drop_block` (block.rs) on a block of a valid arena.
use mathlib.Core.Path.{subst₂}
use shared_arena.Base.{
  ℕ, suc, ◌<◌, ◌≡◌, refl, sym, ap, ◌∙◌, inl, inr, true, false, ◌||◌, none, some, List, ◌∷◌, arith,
  has, Bool-cases, ==_refl,
}
use shared_arena.Word.{block_per_page}
use shared_arena.Block
use shared_arena.Block.{Block}
use shared_arena.Block.Kind.{arena_kind}
use shared_arena.Block.Tagged.{page_ptr-new_iff}
use shared_arena.Memory.{Memory, BlockPtr}
use shared_arena.Memory.Write.{block_at, read_block-eq}
use shared_arena.Run.Returns.{Returns, returns}
use shared_arena.Page.Arena as Page
use shared_arena.Page.Arena.{PageArena, arena_blocks}
use shared_arena.Page.Arena.Acquire.{is_free}
use shared_arena.Pool.Place.{is_at, is_at_eq}
use shared_arena.Pool.Valid.{BlockOk}
use shared_arena.Arena.{Arena, drop_block}
use shared_arena.Arena.Release.{freed, page_drop, stays-eq, moves-eq}
use shared_arena.Arena.Released.{
  freed_bit, freed_other, block_at-freed, IsValid-freed, IsValid-pushed, pushed_bit, pushed_blocks,
}
use shared_arena.Arena.Valid.{IsPage, IsValid}
use shared_arena.Arena.Write.{Filled}

-- The block `b` is free and holds nothing, its page is in one of the two lists, and nothing else
-- changed.
pub record Freed {T : Type 0} (m : Memory (PageArena T)) (arena : Arena) (all free : List ℕ)
    (b : BlockPtr) (m' : Memory (PageArena T)) : Type 0 where
  pub pending : List ℕ
  pub valid : IsValid m' arena all free pending
  pub filled : Filled m' all
  pub listed : (has b.page free || has b.page pending) ≡ true
  pub bits : (p j : ℕ) → is_free (m'.page p) j ≡ (is_free (m.page p) j || is_at b p j)
  pub others : (p i : ℕ) → is_at b p i ≡ false → (m'.page p).blocks i ≡ (m.page p).blocks i
  pub emptied : (block_at arena_blocks m' b).value ≡ none
  pub live : m'.live ≡ m.live
  pub supply : m'.supply ≡ m.supply

module _ {T : Type 0} {m : Memory (PageArena T)} {arena : Arena} {all free pending : List ℕ}
    (v : IsValid m arena all free pending) (b : BlockPtr) (member : has b.page all ≡ true)
    (below : b.index < block_per_page) where
  page : IsPage m b.page
  page = v.pages b.page member

  -- The tag of the block leads to the page's own `drop_block`.
  pub dispatch : (tries : ℕ) → drop_block tries b m ≡ Page.drop_block tries b.page b m
  unfolding drop_block Block.drop_block
  dispatch tries =
      let (address, kind, i) = page_ptr-new_iff b.page b.index arena_kind page.word (omega arith) in
      rw
        (
          read_block-eq arena_blocks m b page.alive below,
          page.tags b.index below,
          kind,
          address.1 (page.not_null, page.canonical),
        )
        refl

  module _ (value : T) (holds : (block_at arena_blocks m b).value ≡ some value)
      (off : is_free (m.page b.page) b.index ≡ false)
      (idle : (block_at arena_blocks m b).counter ≡ 0)
      (others : (p i : ℕ)
        → has p all ≡ true
        → i < block_per_page
        → is_at b p i ≡ false
        → BlockOk (is_free (m.page p) i) ((m.page p).blocks i)) where
    Filled-freed : Filled (freed m b) all
    Filled-freed p i h lt = elim (Bool-cases (is_at b p i)) [
      | inl at ↦
          let (e, e') = is_at_eq b p i at in
          subst₂ (λ q j. BlockOk (is_free ((freed m b).page q) j) (((freed m b).page q).blocks j))
            (sym e) (sym e') here
      | inr ne ↦
          let same : is_free ((freed m b).page p) i ≡ is_free (m.page p) i =
            freed_bit m b p i ∙ ground (arith, ne) in
          subst₂ (λ t k. BlockOk t k) (sym same) (sym (freed_other m b p i ne)) (others p i h lt ne)
    ]
      where
        here :
            BlockOk
              (is_free ((freed m b).page b.page) b.index)
              (((freed m b).page b.page).blocks b.index)
        here =
            let set : is_free ((freed m b).page b.page) b.index ≡ true =
              freed_bit m b b.page b.index ∙ ground (arith, ==_refl b.page, ==_refl b.index) in
            subst₂ (λ t k. BlockOk t k) (sym set) (sym (block_at-freed m b)) idle

    dropped : (tries : ℕ) → drop_block tries b m ≡ Page.put_in_pending tries b.page (freed m b)
    dropped tries = dispatch tries ∙ page_drop m b page below value holds (ground arith) tries

    pub drop_block-Freed :
        (tries : ℕ) → Returns (λ _ m'. Freed m arena all free b m') (drop_block (suc tries) b m)
    drop_block-Freed tries = elim (Bool-cases (has b.page free || has b.page pending)) [
      | inl listed ↦
          rw
            (dropped (suc tries)
              ∙ stays-eq (freed m b) (suc tries) b.page page.alive (flag ∙ listed))
            (returns (record {
              pending = pending;
              valid = IsValid-freed m b page below off v member listed;
              filled = Filled-freed;
              listed = listed;
              bits = freed_bit m b;
              others = freed_other m b;
              emptied = ap (λ k. k.value) (block_at-freed m b);
              live = refl;
              supply = refl;
            }))
      | inr out ↦
          let first = v.first_pending in
          rw
            (dropped (suc tries)
              ∙ moves-eq (freed m b) tries b.page first page.alive (flag ∙ out) v.list)
            (returns (record {
              pending = b.page ∷ pending;
              valid = IsValid-pushed m b page below off v member out;
              filled = λ p i h lt.
                  subst₂ (λ t k. BlockOk t k) (sym (pushed_bit m b first p i))
                    (sym (ap (λ f. f i) (pushed_blocks m b first p))) (Filled-freed p i h lt);
              listed = ground (arith, ==_refl b.page);
              bits = λ p j. pushed_bit m b first p j ∙ freed_bit m b p j;
              others = λ p i ne. ap (λ f. f i) (pushed_blocks m b first p) ∙ freed_other m b p i ne;
              emptied =
                  ap (λ f. (f b.index).value) (pushed_blocks m b first b.page)
                  ∙ ap (λ k. k.value) (block_at-freed m b);
              live = refl;
              supply = refl;
            }))
    ]
      where
        flag : ((freed m b).page b.page).in_free_list ≡ (has b.page free || has b.page pending)
        flag = ground (arith, ==_refl b.page) ∙ v.flags b.page member
