-- ===== src/Arena/RoundTrip.antt =====
-- Pointers of arena.rs that are allocated, cloned and dropped.
use mathlib.Core.Path.{subst}
use shared_arena.Base.{
  ℕ, suc, ◌<◌, ◌≡◌, sym, ap, ◌∙◌, inl, inr, true, false, List, ◌++◌, arith, length, has,
}
use shared_arena.Memory.{Memory, BlockPtr}
use shared_arena.Memory.Supply.{Supply}
use shared_arena.Memory.Write.{blocks-wrote}
use shared_arena.Run.{◌>>=◌, ◌>>◌, pure}
use shared_arena.Run.Returns
use shared_arena.Run.Returns.{Returns, returns}
use shared_arena.Page.Arena.{PageArena, ArenaCmd, arena_blocks}
use shared_arena.Page.Arena.Acquire.{is_free}
use shared_arena.Handle.ArenaArc
use shared_arena.Pool.Place.{is_at, is_at_eq}
use shared_arena.Arena.{Arena, drop_block}
use shared_arena.Arena.Alloc.{alloc_arc}
use shared_arena.Arena.Counting.{Counted, ArenaArc_drop_cases, ArenaArc_clone-Counted}
use shared_arena.Arena.Freed.{Freed}
use shared_arena.Arena.Grow.{to_allocate}
use shared_arena.Arena.Store.{Stored}
use shared_arena.Arena.Stores.{arena_allocs-Stored}
use shared_arena.Arena.Valid.{IsValid}
use shared_arena.Arena.Write.{Filled, is_free-wrote}

-- The pages that the arena had are in use as before: the same blocks are free, and a block that was
-- not free has its value and its counter.
pub record Restored {T : Type 0} (m : Memory (PageArena T)) (all : List ℕ) (arena' : Arena)
    (m' : Memory (PageArena T)) : Type 0 where
  pub news : List ℕ
  pub free : List ℕ
  pub pending : List ℕ
  pub valid : IsValid m' arena' (news ++ all) free pending
  pub filled : Filled m' (news ++ all)
  pub bits : (p j : ℕ) → has p all ≡ true → is_free (m'.page p) j ≡ is_free (m.page p) j
  pub blocks :
      (p i : ℕ)
      → has p all ≡ true
      → is_free (m.page p) i ≡ false
      → (m'.page p).blocks i ≡ (m.page p).blocks i

-- All but the block `b` is as it was.
pub record Elsewhere {T : Type 0} (b : BlockPtr) (m m' : Memory (PageArena T)) : Type 0 where
  pub bits : (q j : ℕ) → is_free (m'.page q) j ≡ is_free (m.page q) j
  pub others : (q i : ℕ) → is_at b q i ≡ false → (m'.page q).blocks i ≡ (m.page q).blocks i

module _ {T : Type 0} {b : BlockPtr} where
  Elsewhere-counted :
      {m m' : Memory (PageArena T)} {arena : Arena} {all free pending : List ℕ} {n : ℕ}
      → Counted m arena all free pending b n m'
      → Elsewhere b m m'
  Elsewhere-counted {m} c = record {
    bits = λ q j. ap (λ s. is_free (s.page q) j) c.only ∙ is_free-wrote m b _ q j;
    others = λ q i ne.
        ap (λ s. (s.page q).blocks i) c.only ∙ blocks-wrote arena_blocks m b _ q i ∙ rw ne;
  }

  Elsewhere-trans :
      {m₁ m₂ m₃ : Memory (PageArena T)} → Elsewhere b m₁ m₂ → Elsewhere b m₂ m₃ → Elsewhere b m₁ m₃
  Elsewhere-trans e f = record {
    bits = λ q j. f.bits q j ∙ e.bits q j;
    others = λ q i ne. f.others q i ne ∙ e.others q i ne;
  }

module _ {T : Type 0} {m m₁ m₂ m₃ : Memory (PageArena T)} {all free : List ℕ} {value : T}
    {arena' : Arena} {b : BlockPtr} (s : Stored m all value arena' b m₁) (e : Elsewhere b m₁ m₂)
    (f : Freed m₂ arena' (s.news ++ all) free b m₃) where
  was_free : (p i : ℕ) → has p all ≡ true → is_at b p i ≡ true → is_free (m.page p) i ≡ true
  was_free p i h at =
      let (e, e') = is_at_eq b p i at in
      let was : is_free (m.page b.page) b.index ≡ true =
        s.was_free (ap (λ q. has q all) (sym e) ∙ h) in
      cc (was, e, e')

  elsewhere : (p i : ℕ) → has p all ≡ true → is_free (m.page p) i ≡ false → is_at b p i ≡ false
  elsewhere p i h used = ground (arith, was_free p i h)

  pub Restored-Freed : Restored m all arena' m₃
  Restored-Freed = record {
    news = s.news;
    free = free;
    pending = f.pending;
    valid = f.valid;
    filled = f.filled;
    bits = λ p j h. f.bits p j ∙ ground (arith, e.bits p j, s.old_bits p j h, was_free p j h);
    blocks = λ p i h used.
        let ne = elsewhere p i h used in f.others p i ne ∙ e.others p i ne ∙ s.old_blocks p i h ne;
  }

-- The drops of a pointer and of its clone.
module _ {T : Type 0} {m m₁ : Memory (PageArena T)} {all : List ℕ} {value : T} {arena' : Arena}
    {b : BlockPtr} (s : Stored m all value arena' b m₁) (tries : ℕ) where
  abbrev InOrder : ℕ → Memory (PageArena T) → Memory (PageArena T) → Type 0
  InOrder n m₂ m₃ = Counted m₂ arena' (s.news ++ all) s.free s.pending b n m₃

  abbrev drop_arc : BlockPtr → ArenaCmd T (Unit {0})
  drop_arc = ArenaArc.drop arena_blocks (drop_block (suc tries))

  drop_second :
      {m₂ m₃ : Memory (PageArena T)}
      → Elsewhere b m₁ m₂
      → InOrder 1 m₂ m₃
      → Returns (λ r m'. Restored m all r m') ((do drop_arc b; pure arena') m₃)
  drop_second e d =
      Returns.bind (ArenaArc_drop_cases d.valid d.filled d.in_use tries (omega (arith, d.counts)))
        λ _ m₄ r. elim r [
          | inl last ↦ returns (Restored-Freed s (Elsewhere-trans e (Elsewhere-counted d)) last.1)
          | inr more ↦ absurd (omega (arith, more.0, d.counts))
        ]

  drop_both :
      {m₂ : Memory (PageArena T)}
      → InOrder 2 m₁ m₂
      → Returns (λ r m'. Restored m all r m') ((do drop_arc b; drop_arc b; pure arena') m₂)
  drop_both {m₂} c =
      Returns.bind (ArenaArc_drop_cases c.valid c.filled c.in_use tries (omega (arith, c.counts)))
        λ _ m₃ r. elim r [
          | inl last ↦ absurd (omega (arith, last.0, c.counts))
          | inr more ↦
              drop_second (Elsewhere-counted c)
                (subst (λ n. InOrder n m₂ m₃) (omega (arith, c.counts)) more.1)
        ]

-- `Arena::alloc_arc`, a clone of the pointer, and the drop of both.
abbrev pub shared_once : {T : Type 0} → (rounds fuel tries : ℕ) → T → Arena → ArenaCmd T Arena
shared_once rounds fuel tries value arena = do
  (arena', handle) ← alloc_arc rounds fuel tries value arena
  other ← ArenaArc.clone arena_blocks handle
  ArenaArc.drop arena_blocks (drop_block tries) handle
  ArenaArc.drop arena_blocks (drop_block tries) other
  pure arena'

-- `Arena::alloc_arc`, a clone of the pointer, and the drop of both, where the arena is valid, its
-- blocks agree with their bits, the allocator's next addresses are good and no other thread comes
-- between the steps, with three rounds or more, two tries or more, and more rounds of the inner
-- loop than there are pages in the free list, in the pending list, or to make, returns a valid
-- arena in which each page that there was has the same free blocks as before, and each block that
-- was in use its value and its counter.
pub arena_arc_round_trip :
    {T : Type 0} (rounds fuel tries : ℕ) (m : Memory (PageArena T)) (arena : Arena)
    (all free pending : List ℕ)
    → IsValid m arena all free pending
    → Filled m all
    → Supply (to_allocate arena) m.supply m.live
    → 2 < rounds
    → 0 < tries
    → length free < fuel
    → length pending < fuel
    → to_allocate arena < fuel
    → (value : T)
    → Returns
        (λ arena' m'. Restored m all arena' m')
        (shared_once rounds fuel (suc tries) value arena m)
arena_arc_round_trip rounds fuel tries m arena all free pending v filled good three one ef ep en
      value =
    Returns.bind
      ((arena_allocs-Stored rounds fuel (suc tries) m arena all free pending v filled good three
        (omega arith) ef ep en value).1)
      λ (arena', b) m₁ s.
        Returns.bind
          (ArenaArc_clone-Counted s.valid s.filled
            (record { member = s.member; below = s.below; taken = s.taken })
            (omega (arith, s.counts)))
          λ other m₂ (same, c).
            rw same
              (drop_both s tries (subst (λ n. InOrder s tries n m₁ m₂) (omega (arith, s.counts)) c))
