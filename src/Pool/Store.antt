-- ===== src/Pool/Store.antt =====
-- The memory after an allocating function of pool.rs.
use shared_arena.Memory.Supply.{Supply}
use mathlib.Core.Path.{subst₂}
use shared_arena.Base.{
  ℕ, ◌<◌, ◌≡◌, sym, ap, ◌∙◌, ◌⊎◌, inl, inr, true, false, not, ◌&&◌, some, List, [], ◌++◌, arith,
  has, Bool-cases, ◌+◌, min, max, length,
}
use shared_arena.Word.{test_bit, block_per_page}
use shared_arena.Block.{Block}
use shared_arena.Memory.{Memory, BlockPtr}
use shared_arena.Page.Pool.{PagePool}
use shared_arena.Pool.{Pool}
use shared_arena.Pool.Valid.{IsValid, BlockOk, Filled}
use shared_arena.Pool.Place.{is_at, is_at_eq, Placed}
use shared_arena.Pool.Write.{
  block_at, block_at-wrote, wrote, blocks-wrote, bitfield-wrote, wrote-IsValid,
}

-- The value is in the block `b`, which was not in use; one pointer counts it; every other block that
-- was in use has its value and its counter, and is in use.
pub record Stored {T : Type 0} (m : Memory (PagePool T)) (all : List ℕ) (value : T) (pool' : Pool)
    (b : BlockPtr) (m' : Memory (PagePool T)) : Type 0 where
  pub news : List ℕ
  pub free : List ℕ
  pub valid : IsValid m' pool' (news ++ all) free
  pub filled : Filled m' (news ++ all)
  pub member : has b.page (news ++ all) ≡ true
  pub below : b.index < block_per_page
  pub holds : (block_at m' b).value ≡ some value
  pub counts : (block_at m' b).counter ≡ 1
  pub taken : test_bit (m'.page b.page).bitfield b.index ≡ false
  pub was_free : has b.page all ≡ true → test_bit (m.page b.page).bitfield b.index ≡ true
  pub old_blocks :
      (p i : ℕ)
      → has p all ≡ true
      → is_at b p i ≡ false
      → (m'.page p).blocks i ≡ (m.page p).blocks i
  pub old_bits :
      (p j : ℕ)
      → has p all ≡ true
      → test_bit (m'.page p).bitfield j ≡ (test_bit (m.page p).bitfield j && not (is_at b p j))
  pub new_bits :
      (p i : ℕ)
      → has p news ≡ true
      → i < block_per_page
      → test_bit (m'.page p).bitfield i ≡ not (is_at b p i)
  pub unused : (p : ℕ) → has p news ≡ true → m.live p ≡ false
  pub growth : (news ≡ []) ⊎ (length news ≡ min (max (length all) 1) 900_000)
  pub rest : (k : ℕ) → Supply (length news + k) m.supply m.live → Supply k m'.supply m'.live
  pub needed :
      (news ≡ [])
      ⊎ ((p i : ℕ) → has p all ≡ true → i < block_per_page → test_bit (m.page p).bitfield i ≡ false)

-- The memory after the block that `find_place` gave was written twice.
module _ {T : Type 0} {m m₁ : Memory (PagePool T)} {all : List ℕ} {pool' : Pool} {b : BlockPtr}
    (value : T) (p : Placed m all pool' b m₁) (k₁ k₂ : Block T)
    (tag₁ : k₁.page ≡ (block_at m₁ b).page) (tag₂ : k₂.page ≡ k₁.page) (counts : k₂.counter ≡ 1)
    (holds : k₂.value ≡ some value) where
  abbrev stored : Memory (PagePool T)
  stored = wrote (wrote m₁ b k₁) b k₂

  block_at-stored : block_at stored b ≡ k₂
  block_at-stored = block_at-wrote (wrote m₁ b k₁) b k₂

  stored_bits : (q : ℕ) → (stored.page q).bitfield ≡ (m₁.page q).bitfield
  stored_bits q = bitfield-wrote (wrote m₁ b k₁) b k₂ q ∙ bitfield-wrote m₁ b k₁ q

  stored_other : (q i : ℕ) → is_at b q i ≡ false → (stored.page q).blocks i ≡ (m₁.page q).blocks i
  stored_other q i ne =
      let outer : (stored.page q).blocks i ≡ ((wrote m₁ b k₁).page q).blocks i =
        blocks-wrote (wrote m₁ b k₁) b k₂ q i ∙ rw ne in
      outer ∙ blocks-wrote m₁ b k₁ q i ∙ rw ne

  BlockOk-stored : BlockOk (test_bit (stored.page b.page).bitfield b.index) (block_at stored b)
  BlockOk-stored =
      rw (stored_bits b.page, p.taken, block_at-stored) (λ e. absurd (omega arith), λ e. cc)

  Filled-stored : Filled stored (p.news ++ all)
  Filled-stored q i h lt = elim (Bool-cases (is_at b q i)) [
    | inl at ↦
        let (e, e') = is_at_eq b q i at in
        subst₂ (λ r j. BlockOk (test_bit (stored.page r).bitfield j) ((stored.page r).blocks j))
          (sym e) (sym e') BlockOk-stored
    | inr ne ↦ rw (stored_bits q, stored_other q i ne) (p.others q i h lt ne)
  ]

  pub Stored-stored : Stored m all value pool' b stored
  Stored-stored = record {
    news = p.news;
    free = p.free;
    valid =
        wrote-IsValid b k₂ (wrote-IsValid b k₁ p.valid tag₁)
          (tag₂ ∙ sym (ap (λ k. k.page) (block_at-wrote m₁ b k₁)));
    filled = Filled-stored;
    member = p.member;
    below = p.below;
    holds = ap (λ k. k.value) block_at-stored ∙ holds;
    counts = ap (λ k. k.counter) block_at-stored ∙ counts;
    taken = rw (bitfield-wrote (wrote m₁ b k₁) b k₂ b.page, bitfield-wrote m₁ b k₁ b.page) p.taken;
    was_free = p.was_free;
    old_blocks = λ q i h ne. stored_other q i ne ∙ ap (λ f. f i) (p.old_blocks q h);
    old_bits = λ q j h. ground (arith, p.old_bits q j h);
    new_bits = λ q i h lt. ap (λ w. test_bit w i) (stored_bits q) ∙ p.new_bits q i h lt;
    unused = p.unused;
    growth = p.growth;
    rest = p.rest;
    needed = p.needed;
  }
