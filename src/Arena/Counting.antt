-- ===== src/Arena/Counting.antt =====
-- The counters of blocks of an arena in use, under clones and drops (arena_arc.rs, arena_box.rs).
use mathlib.Core.Path.{subst, subst₂}
use shared_arena.Base.{
  ℕ, suc, ◌+◌, ◌-◌, ◌^◌, ◌<◌, ◌≡◌, ◌≢◌, refl, sym, ap, ◌∙◌, ◌⊎◌, inl, inr, true, false, ◌||◌,
  Option, none, some, List, arith, ◌==◌, has, Bool-cases,
}
use shared_arena.Word.{block_per_page}
use shared_arena.Memory.{Memory, BlockPtr}
use shared_arena.Memory.Write.{block_at, block_at-wrote, blocks-wrote}
use shared_arena.Run.Returns
use shared_arena.Run.Returns.{Returns, returns}
use shared_arena.Page.Arena.{PageArena, arena_blocks}
use shared_arena.Page.Arena.Acquire.{is_free}
use shared_arena.Handle.ArenaBox
use shared_arena.Handle.ArenaArc
use shared_arena.Handle.Drops.{counted, box_drop, arc_drop_last, arc_drop_more, arc_clone}
use shared_arena.Pool.Place.{is_at, is_at_eq}
use shared_arena.Pool.Valid.{BlockOk}
use shared_arena.Arena.{Arena, drop_block}
use shared_arena.Arena.Freed.{Freed, drop_block-Freed}
use shared_arena.Arena.Valid.{IsValid}
use shared_arena.Arena.Write.{Filled, is_free-wrote, wrote-IsValid}

-- The block is of a page of the arena and is in use.
pub record InUse {T : Type 0} (m : Memory (PageArena T)) (all : List ℕ) (b : BlockPtr)
    : Type 0 where
  pub member : has b.page all ≡ true
  pub below : b.index < block_per_page
  pub taken : is_free (m.page b.page) b.index ≡ false

-- The arena is in order, and so is the block.
pub record Counted {T : Type 0} (m : Memory (PageArena T)) (arena : Arena)
    (all free pending : List ℕ) (b : BlockPtr) (n : ℕ) (m' : Memory (PageArena T)) : Type 0 where
  pub only : m' ≡ counted arena_blocks m b n
  pub counts : (block_at arena_blocks m' b).counter ≡ n
  pub valid : IsValid m' arena all free pending
  pub filled : Filled m' all
  pub in_use : InUse m' all b

module _ {T : Type 0} {m : Memory (PageArena T)} {arena : Arena} {all free pending : List ℕ}
    {b : BlockPtr} (v : IsValid m arena all free pending) (filled : Filled m all)
    (u : InUse m all b) where
  abbrev count : ℕ
  count = (block_at arena_blocks m b).counter

  abbrev set : ℕ → Memory (PageArena T)
  set = counted arena_blocks m b

  alive : m.live b.page ≡ true
  alive = (v.pages b.page u.member).alive

  in_use : BlockOk false (block_at arena_blocks m b)
  in_use =
      subst (λ t. BlockOk t (block_at arena_blocks m b)) u.taken
        (filled b.page b.index u.member u.below)

  has_value : (value : T) × ((block_at arena_blocks m b).value ≡ some value)
  has_value = go (block_at arena_blocks m b).value in_use.1
    where
      go : (o : Option T) → o ≢ none → (value : T) × (o ≡ some value)
      go none ne = absurd (ne refl)
      go (some value) ne = (value, refl)

  at_set :
      (n : ℕ) → block_at arena_blocks (set n) b ≡ record (block_at arena_blocks m b) { counter = n }
  at_set n = block_at-wrote arena_blocks m b _

  set_other : (n p i : ℕ) → is_at b p i ≡ false → ((set n).page p).blocks i ≡ (m.page p).blocks i
  set_other n p i ne = blocks-wrote arena_blocks m b _ p i ∙ rw ne

  set_bit : (n p j : ℕ) → is_free ((set n).page p) j ≡ is_free (m.page p) j
  set_bit n = is_free-wrote m b _

  set-IsValid : (n : ℕ) → IsValid (set n) arena all free pending
  set-IsValid n = wrote-IsValid b _ v refl

  set-Filled : (n : ℕ) → n ≢ 0 → Filled (set n) all
  set-Filled n ne p i h lt = elim (Bool-cases (is_at b p i)) [
    | inl at ↦
        let (e, e') = is_at_eq b p i at in
        subst₂ (λ q j. BlockOk (is_free ((set n).page q) j) (((set n).page q).blocks j)) (sym e)
          (sym e')
          (subst₂ (λ t k. BlockOk t k) (sym (set_bit n b.page b.index ∙ u.taken)) (sym (at_set n))
            (ne, in_use.1))
    | inr other ↦
        subst₂ (λ t k. BlockOk t k) (sym (set_bit n p i)) (sym (set_other n p i other))
          (filled p i h lt)
  ]

  set-Counted : (n : ℕ) → n ≢ 0 → Counted m arena all free pending b n (set n)
  set-Counted n ne = record {
    only = refl;
    counts = ap (λ k. k.counter) (at_set n);
    valid = set-IsValid n;
    filled = set-Filled n ne;
    in_use = record {
      member = u.member;
      below = u.below;
      taken = set_bit n b.page b.index ∙ u.taken;
    };
  }

  -- The last pointer is gone.
  uncounted-Freed :
      (tries : ℕ) → Returns (λ _ m'. Freed m arena all free b m') (drop_block (suc tries) b (set 0))
  uncounted-Freed tries =
      let (value, holds) = has_value in
      Returns.mono
        (drop_block-Freed (set-IsValid 0) b u.member u.below value
          (ap (λ k. k.value) (at_set 0) ∙ holds) (set_bit 0 b.page b.index ∙ u.taken)
          (ap (λ k. k.counter) (at_set 0))
          (λ p i h lt ne.
            subst₂ (λ t k. BlockOk t k) (sym (set_bit 0 p i)) (sym (set_other 0 p i ne))
              (filled p i h lt))
          tries)
        λ _ m' f. record {
          pending = f.pending;
          valid = f.valid;
          filled = f.filled;
          listed = f.listed;
          bits = λ p j. f.bits p j ∙ ap (λ t. t || is_at b p j) (set_bit 0 p j);
          others = λ p i ne. f.others p i ne ∙ set_other 0 p i ne;
          emptied = f.emptied;
          live = f.live;
          supply = f.supply;
        }

  pub ArenaBox_drop-Freed :
      (tries : ℕ)
      → count ≡ 1
      → Returns
          (λ _ m'. Freed m arena all free b m')
          (ArenaBox.drop arena_blocks (drop_block (suc tries)) b m)
  ArenaBox_drop-Freed tries one =
      rw (box_drop arena_blocks m b alive u.below (drop_block (suc tries)) one)
        (uncounted-Freed tries)

  -- Dropping an `ArenaArc` of a block in use whose counter is a 64-bit word, in a valid arena
  -- whose blocks agree with their bits, with at least one try, where no other thread comes between
  -- the steps, returns: with counter 1 the block is free and empty, its page is in the free list
  -- or in the pending list, every other block and bit is as it was, the arena is valid, and no
  -- page is allocated or deallocated; with a larger counter only the counter changes, by one less,
  -- the arena is valid and the block is in use.
  pub ArenaArc_drop_cases :
      (tries : ℕ)
      → count < 2 ^ 64
      → Returns
          (λ _ m'.
            ((count ≡ 1) × Freed m arena all free b m')
            ⊎ ((1 < count) × Counted m arena all free pending b (count - 1) m'))
          (ArenaArc.drop arena_blocks (drop_block (suc tries)) b m)
  ArenaArc_drop_cases tries word = elim (Bool-cases (count == 1)) [
    | inl e ↦
        let one : count ≡ 1 = ground arith in
        rw (arc_drop_last arena_blocks m b alive u.below (drop_block (suc tries)) one)
          (Returns.mono (uncounted-Freed tries) λ _ m' f. inl (one, f))
    | inr e ↦
        let more : 1 < count = ground (arith, in_use.0) in
        rw (arc_drop_more arena_blocks m b alive u.below (drop_block (suc tries)) more word)
          (returns (inr (more, set-Counted (count - 1) (λ z. absurd (omega (arith, more, z))))))
  ]

  pub ArenaArc_clone-Counted :
      count < 2 ^ 63 - 1
      → Returns
          (λ p m'. (p ≡ b) × Counted m arena all free pending b (count + 1) m')
          (ArenaArc.clone arena_blocks b m)
  ArenaArc_clone-Counted few =
      rw (arc_clone arena_blocks m b alive u.below few)
        (returns (refl, set-Counted (count + 1) (λ z. absurd (omega arith))))
