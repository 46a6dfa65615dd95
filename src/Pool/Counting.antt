-- ===== src/Pool/Counting.antt =====
-- The counters of blocks of a pool in use, under clones and drops (pool.rs, arena_rc.rs).
use shared_arena.Base.{
  ℕ, ◌+◌, ◌-◌, ◌^◌, ◌≤◌, ◌<◌, ◌≡◌, ◌≢◌, refl, sym, ap, ◌∙◌, ◌⊎◌, inl, inr, true, false, ◌||◌,
  Option, none, some, List, arith, ltb, ◌==◌, has, Bool-cases, ==_refl,
}
use mathlib.Core.Path.{subst, subst₂}
use shared_arena.Word.{test_bit, block_per_page}
use shared_arena.Memory.{Memory, BlockPtr}
use shared_arena.Run.{ok, panic}
use shared_arena.Run.Returns
use shared_arena.Run.Returns.{Returns, returns}
use shared_arena.Page.Pool.{PagePool, pool_blocks}
use shared_arena.Handle.PoolBox
use shared_arena.Handle.ArenaRc
use shared_arena.Pool.{Pool, drop_block}
use shared_arena.Pool.Valid.{IsValid, BlockOk, Filled}
use shared_arena.Pool.Place.{is_at, is_at_eq}
use shared_arena.Pool.Write.{block_at, blocks-wrote, bitfield-wrote, wrote-IsValid}
use shared_arena.Pool.Handles.{counted, box_drop, rc_drop_last, rc_drop_more, rc_clone}
use shared_arena.Pool.Freed.{Freed, drop_block-Freed}

-- The block is of a page of the pool and is in use.
pub record InUse {T : Type 0} (m : Memory (PagePool T)) (all : List ℕ) (b : BlockPtr) : Type 0 where
  pub member : has b.page all ≡ true
  pub below : b.index < block_per_page
  pub taken : test_bit (m.page b.page).bitfield b.index ≡ false

module _ {T : Type 0} {m : Memory (PagePool T)} {pool : Pool} {all free : List ℕ} {b : BlockPtr}
    (v : IsValid m pool all free) (filled : Filled m all) (u : InUse m all b) where
  alive : m.live b.page ≡ true
  alive = (v.pages b.page u.member).alive

  in_use : BlockOk false (block_at m b)
  in_use = subst (λ t. BlockOk t (block_at m b)) u.taken (filled b.page b.index u.member u.below)

  pub has_value : (value : T) × ((block_at m b).value ≡ some value)
  has_value = go (block_at m b).value in_use.1
    where
      go : (o : Option T) → o ≢ none → (value : T) × (o ≡ some value)
      go none ne = absurd (ne refl)
      go (some value) ne = (value, refl)

  block_at-counted : (n : ℕ) → block_at (counted m b n) b ≡ record (block_at m b) { counter = n }
  block_at-counted n = ground (arith, ==_refl b.page, ==_refl b.index)

  counted_other :
      (n p i : ℕ) → is_at b p i ≡ false → ((counted m b n).page p).blocks i ≡ (m.page p).blocks i
  counted_other n p i ne = blocks-wrote m b _ p i ∙ rw ne

  counted_bits : (n p : ℕ) → ((counted m b n).page p).bitfield ≡ (m.page p).bitfield
  counted_bits n p = bitfield-wrote m b _ p

  -- The pool takes no notice of a counter,
  pub counted-IsValid : (n : ℕ) → IsValid (counted m b n) pool all free
  counted-IsValid n = wrote-IsValid b _ v refl

  -- and the block stays in order while it is counted.
  pub counted-Filled : (n : ℕ) → n ≢ 0 → Filled (counted m b n) all
  counted-Filled n ne p i h lt = elim (Bool-cases (is_at b p i)) [
    | inl at ↦
        let (e, e') = is_at_eq b p i at in
        subst₂
          (λ q j.
            BlockOk (test_bit ((counted m b n).page q).bitfield j)
              (((counted m b n).page q).blocks j))
          (sym e) (sym e') (rw (counted_bits n b.page, u.taken, block_at-counted n) (ne, in_use.1))
    | inr other ↦ rw (counted_bits n p, counted_other n p i other) (filled p i h lt)
  ]

  counted-InUse : (n : ℕ) → InUse (counted m b n) all b
  counted-InUse n = record {
    member = u.member;
    below = u.below;
    taken = ap (λ w. test_bit w b.index) (counted_bits n b.page) ∙ u.taken;
  }

  -- The last pointer is gone.
  uncounted-Freed : Returns (λ _ m'. Freed m pool all b m') (drop_block b (counted m b 0))
  uncounted-Freed =
      let (value, holds) = has_value in
      Returns.mono
        (drop_block-Freed (counted-IsValid 0) b u.member u.below value
          (ap (λ k. k.value) (block_at-counted 0) ∙ holds)
          (ap (λ k. k.counter) (block_at-counted 0))
          (λ p i h lt ne. rw (counted_bits 0 p, counted_other 0 p i ne) (filled p i h lt)))
        λ _ m' f. record {
          free = f.free;
          valid = f.valid;
          filled = f.filled;
          listed = f.listed;
          bits = λ p j. f.bits p j ∙ ap (λ w. test_bit w j || is_at b p j) (counted_bits 0 p);
          others = λ p i ne. f.others p i ne ∙ counted_other 0 p i ne;
          emptied = f.emptied;
          live = f.live;
          supply = f.supply;
        }

  -- Dropping a `PoolBox` of a block in use with counter 1, in a valid pool whose blocks agree with
  -- their bits, returns: the block is free and empty, its page is in the free list, every other
  -- block and bit is as it was, the pool is valid, and no page is allocated or deallocated.
  pub PoolBox_drop-Freed :
      (block_at m b).counter ≡ 1
      → Returns (λ _ m'. Freed m pool all b m') (PoolBox.drop pool_blocks drop_block b m)
  PoolBox_drop-Freed one = rw (box_drop m b alive u.below drop_block one) uncounted-Freed

  -- Dropping an `ArenaRc` of a block in use, in a valid pool whose blocks agree with their bits,
  -- returns: with counter 1 the block is freed as by a `PoolBox`; with a larger counter only the
  -- counter changes, by one less, the pool is valid and the block is in use.
  pub ArenaRc_drop_cases :
      Returns
        (λ _ m'.
          (((block_at m b).counter ≡ 1) × Freed m pool all b m')
          ⊎ ((1 < (block_at m b).counter)
              × (m' ≡ counted m b ((block_at m b).counter - 1))
              × IsValid m' pool all free
              × Filled m' all
              × InUse m' all b))
        (ArenaRc.drop pool_blocks drop_block b m)
  ArenaRc_drop_cases = elim (Bool-cases ((block_at m b).counter == 1)) [
    | inl e ↦
        let one : (block_at m b).counter ≡ 1 = ground arith in
        rw (rc_drop_last m b alive u.below drop_block one)
          (Returns.mono uncounted-Freed λ _ m' f. inl (one, f))
    | inr e ↦
        let more : 1 < (block_at m b).counter = ground (arith, in_use.0) in
        let n = (block_at m b).counter - 1 in
        rw (rc_drop_more m b alive u.below drop_block more) (
          returns (
            inr (
              more,
              refl,
              counted-IsValid n,
              counted-Filled n (λ z. absurd (omega arith)),
              counted-InUse n,
            )))
  ]

  -- Cloning an `ArenaRc` of a block in use, in a valid pool whose blocks agree with their bits:
  -- with a counter below 2^63 - 1 the call returns the same block, only the counter changes, by
  -- one more, the pool is valid and the block is in use; otherwise the call panics and changes
  -- nothing.
  pub ArenaRc_clone_cases :
      (((block_at m b).counter < 2 ^ 63 - 1)
        × Returns
            (λ p m'.
              (p ≡ b)
              × (m' ≡ counted m b ((block_at m b).counter + 1))
              × IsValid m' pool all free
              × Filled m' all
              × InUse m' all b)
            (ArenaRc.clone pool_blocks b m))
      ⊎ ((2 ^ 63 - 1 ≤ (block_at m b).counter) × (ArenaRc.clone pool_blocks b m ≡ panic m))
  ArenaRc_clone_cases = elim (Bool-cases (ltb (block_at m b).counter (2 ^ 63 - 1))) [
    | inl e ↦
        let n = (block_at m b).counter + 1 in
        let step : ArenaRc.clone pool_blocks b m ≡ ok b (counted m b n) =
          rc_clone m b alive u.below ∙ rw e in
        inl (
          ground arith,
          rw step (
              returns (
                refl,
                refl,
                counted-IsValid n,
                counted-Filled n (λ z. absurd (omega arith)),
                counted-InUse n,
              )),
        )
    | inr e ↦ inr (ground arith, rc_clone m b alive u.below ∙ rw e)
  ]
