-- ===== src/Arena/Store.antt =====
-- The memory after an allocating function of arena.rs.
use mathlib.Core.Path.{subst, subst₂}
use shared_arena.Base.{
  ℕ, ◌<◌, ◌≡◌, refl, sym, ap, ◌∙◌, ◌⊎◌, inl, inr, true, false, not, ◌&&◌, some, List, [], ◌++◌,
  arith, has, Bool-cases, ==_refl,
}
use shared_arena.Word.{block_per_page}
use shared_arena.Block.{Block}
use shared_arena.Memory.{Memory, BlockPtr}
use shared_arena.Memory.Chain.{has-append}
use shared_arena.Memory.Write.{block_at, block_at-wrote, wrote, blocks-wrote}
use shared_arena.Page.Arena.{PageArena, arena_blocks}
use shared_arena.Page.Arena.Acquire.{is_free}
use shared_arena.Pool.Valid.{BlockOk}
use shared_arena.Pool.Place.{is_at, is_at_eq}
use shared_arena.Arena.{Arena}
use shared_arena.Arena.Valid.{IsValid}
use shared_arena.Arena.Place.{Placed}
use shared_arena.Arena.Write.{Filled, is_free-wrote, wrote-IsValid}

-- The value is in the block `b`, which was free; one pointer counts it; every other block of the old
-- pages has its value and its counter, and is free or not as it was.
pub record Stored {T : Type 0} (m : Memory (PageArena T)) (all : List ℕ) (value : T)
    (arena' : Arena) (b : BlockPtr) (m' : Memory (PageArena T)) : Type 0 where
  pub news : List ℕ
  pub free : List ℕ
  pub pending : List ℕ
  pub valid : IsValid m' arena' (news ++ all) free pending
  pub filled : Filled m' (news ++ all)
  pub member : has b.page (news ++ all) ≡ true
  pub below : b.index < block_per_page
  pub holds : (block_at arena_blocks m' b).value ≡ some value
  pub counts : (block_at arena_blocks m' b).counter ≡ 1
  pub taken : is_free (m'.page b.page) b.index ≡ false
  pub was_free : has b.page all ≡ true → is_free (m.page b.page) b.index ≡ true
  pub old_blocks :
      (p i : ℕ)
      → has p all ≡ true
      → is_at b p i ≡ false
      → (m'.page p).blocks i ≡ (m.page p).blocks i
  pub old_bits :
      (p j : ℕ)
      → has p all ≡ true
      → is_free (m'.page p) j ≡ (is_free (m.page p) j && not (is_at b p j))
  pub new_bits :
      (p i : ℕ) → has p news ≡ true → i < block_per_page → is_free (m'.page p) i ≡ not (is_at b p i)
  pub unused : (p : ℕ) → has p news ≡ true → m.live p ≡ false
  pub needed :
      (news ≡ [])
      ⊎ ((p i : ℕ) → has p all ≡ true → i < block_per_page → is_free (m.page p) i ≡ false)

module _ {T : Type 0} {m m₁ : Memory (PageArena T)} {all : List ℕ} {arena' : Arena} {b : BlockPtr}
    (filled : Filled m all) (p : Placed m all arena' b m₁) where
  -- What `find_place` marked as in use is counted by no pointer yet, and is not free.
  taken₁ : is_free (m₁.page b.page) b.index ≡ false
  taken₁ = elim (Bool-cases (has b.page all)) [
    | inl h ↦ p.old_bits b.page b.index h ∙ rw (p.was_free h, ==_refl b.page, ==_refl b.index) refl
    | inr n ↦
        let new : has b.page p.news ≡ true =
          ground (arith, p.member, has-append b.page p.news all, n) in
        p.new_bits b.page b.index new p.below ∙ rw (==_refl b.page, ==_refl b.index) refl
  ]

  other_ok :
      (q i : ℕ)
      → has q (p.news ++ all) ≡ true
      → i < block_per_page
      → is_at b q i ≡ false
      → BlockOk (is_free (m₁.page q) i) ((m₁.page q).blocks i)
  other_ok q i h lt ne = elim (Bool-cases (has q p.news)) [
    | inl new ↦
        let free : is_free (m₁.page q) i ≡ true = p.new_bits q i new lt ∙ rw ne refl in
        subst₂ (λ t k. BlockOk t k) (sym free) (sym (ap (λ f. f i) (p.new_blocks q new))) refl
    | inr old ↦
        let i_all : has q all ≡ true = ground (arith, h, has-append q p.news all, old) in
        let same : is_free (m₁.page q) i ≡ is_free (m.page q) i =
          p.old_bits q i i_all ∙ ground (arith, ne) in
        subst₂ (λ t k. BlockOk t k) (sym same) (sym (ap (λ f. f i) (p.old_blocks q i_all)))
          (filled q i i_all lt)
  ]

  pub idle : (block_at arena_blocks m₁ b).counter ≡ 0
  idle = elim (Bool-cases (has b.page p.news)) [
    | inl new ↦ ap (λ f. (f b.index).counter) (p.new_blocks b.page new)
    | inr old ↦
        let i_all : has b.page all ≡ true =
          ground (arith, p.member, has-append b.page p.news all, old) in
        ap (λ f. (f b.index).counter) (p.old_blocks b.page i_all)
        ∙ subst (λ t. BlockOk t ((m.page b.page).blocks b.index)) (p.was_free i_all)
            (filled b.page b.index i_all p.below)
  ]

  -- The memory after the block was written twice.
  module _ (value : T) (k₁ k₂ : Block T) (tag₁ : k₁.page ≡ (block_at arena_blocks m₁ b).page)
      (tag₂ : k₂.page ≡ k₁.page) (counts : k₂.counter ≡ 1) (holds : k₂.value ≡ some value) where
    abbrev once : Memory (PageArena T)
    once = wrote arena_blocks m₁ b k₁

    abbrev stored : Memory (PageArena T)
    stored = wrote arena_blocks once b k₂

    at_stored : block_at arena_blocks stored b ≡ k₂
    at_stored = block_at-wrote arena_blocks once b k₂

    stored_bit : (q j : ℕ) → is_free (stored.page q) j ≡ is_free (m₁.page q) j
    stored_bit q j = is_free-wrote once b k₂ q j ∙ is_free-wrote m₁ b k₁ q j

    stored_other : (q i : ℕ) → is_at b q i ≡ false → (stored.page q).blocks i ≡ (m₁.page q).blocks i
    stored_other q i ne =
        let outer : (stored.page q).blocks i ≡ (once.page q).blocks i =
          blocks-wrote arena_blocks once b k₂ q i ∙ rw ne in
        outer ∙ blocks-wrote arena_blocks m₁ b k₁ q i ∙ rw ne

    BlockOk-stored : BlockOk (is_free (stored.page b.page) b.index) (block_at arena_blocks stored b)
    BlockOk-stored =
        subst₂ (λ t k. BlockOk t k) (sym (stored_bit b.page b.index ∙ taken₁)) (sym at_stored)
          (λ e. absurd (omega (arith, counts)), λ e. cc)

    Filled-stored : Filled stored (p.news ++ all)
    Filled-stored q i h lt = elim (Bool-cases (is_at b q i)) [
      | inl at ↦
          let (e, e') = is_at_eq b q i at in
          subst₂ (λ r j. BlockOk (is_free (stored.page r) j) ((stored.page r).blocks j)) (sym e)
            (sym e') BlockOk-stored
      | inr ne ↦
          subst₂ (λ t k. BlockOk t k) (sym (stored_bit q i)) (sym (stored_other q i ne))
            (other_ok q i h lt ne)
    ]

    pub Stored-stored : Stored m all value arena' b stored
    Stored-stored = record {
      news = p.news;
      free = p.free;
      pending = p.pending;
      valid =
          wrote-IsValid b k₂ (wrote-IsValid b k₁ p.valid tag₁)
            (tag₂ ∙ sym (ap (λ k. k.page) (block_at-wrote arena_blocks m₁ b k₁)));
      filled = Filled-stored;
      member = p.member;
      below = p.below;
      holds = ap (λ k. k.value) at_stored ∙ holds;
      counts = ap (λ k. k.counter) at_stored ∙ counts;
      taken = stored_bit b.page b.index ∙ taken₁;
      was_free = p.was_free;
      old_blocks = λ q i h ne. stored_other q i ne ∙ ap (λ f. f i) (p.old_blocks q h);
      old_bits = λ q j h. stored_bit q j ∙ p.old_bits q j h;
      new_bits = λ q i h lt. stored_bit q i ∙ p.new_bits q i h lt;
      unused = p.unused;
      needed = p.needed;
    }
