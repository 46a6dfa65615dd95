-- ===== src/Pool/RoundTrip.antt =====
-- A box of pool.rs that is allocated and dropped.
use shared_arena.Memory.Supply.{Supply}
use shared_arena.Base.{
  ℕ, ◌<◌, ◌≡◌, sym, ap, ◌∙◌, inl, inr, true, false, List, ◌++◌, arith, length, has, Bool-cases,
}
use shared_arena.Word.{test_bit}
use shared_arena.Memory.{Memory, BlockPtr}
use shared_arena.Run.{◌>>=◌, ◌>>◌, pure}
use shared_arena.Run.Returns
use shared_arena.Run.Returns.{Returns, returns}
use shared_arena.Page.Pool.{PagePool, pool_blocks}
use shared_arena.Handle.PoolBox
use shared_arena.Pool.{Pool, drop_block}
use shared_arena.Pool.Alloc.{alloc}
use shared_arena.Pool.Grow.{to_allocate}
use shared_arena.Pool.Valid.{IsValid, Filled}
use shared_arena.Pool.Place.{is_at, is_at_eq}
use shared_arena.Pool.Store.{Stored}
use shared_arena.Pool.Stores.{alloc-Stored}
use shared_arena.Pool.Freed.{Freed}
use shared_arena.Pool.Counting.{PoolBox_drop-Freed}

-- The pages that the pool had are in use as before: the same bits, and the same block where a bit
-- is clear.
pub record Restored {T : Type 0} (m : Memory (PagePool T)) (all : List ℕ) (pool' : Pool)
    (m' : Memory (PagePool T)) : Type 0 where
  pub news : List ℕ
  pub free : List ℕ
  pub valid : IsValid m' pool' (news ++ all) free
  pub filled : Filled m' (news ++ all)
  pub bits :
      (p j : ℕ)
      → has p all ≡ true
      → test_bit (m'.page p).bitfield j ≡ test_bit (m.page p).bitfield j
  pub blocks :
      (p i : ℕ)
      → has p all ≡ true
      → test_bit (m.page p).bitfield i ≡ false
      → (m'.page p).blocks i ≡ (m.page p).blocks i

module _ {T : Type 0} {m m₁ m₂ : Memory (PagePool T)} {all : List ℕ} {value : T} {pool' : Pool}
    {b : BlockPtr} (s : Stored m all value pool' b m₁)
    (f : Freed m₁ pool' (s.news ++ all) b m₂) where
  elsewhere :
      (p i : ℕ) → has p all ≡ true → test_bit (m.page p).bitfield i ≡ false → is_at b p i ≡ false
  elsewhere p i h used = elim (Bool-cases (is_at b p i)) [
    | inl at ↦
        let (e, e') = is_at_eq b p i at in
        let was : test_bit (m.page b.page).bitfield b.index ≡ true =
          s.was_free (ap (λ q. has q all) (sym e) ∙ h) in
        cc (was, used, e, e')
    | inr ne ↦ ne
  ]

  pub Restored-Freed : Restored m all pool' m₂
  Restored-Freed = record {
    news = s.news;
    free = f.free;
    valid = f.valid;
    filled = f.filled;
    bits = λ p j h. elim (Bool-cases (is_at b p j)) [
      | inl at ↦
          let (e, e') = is_at_eq b p j at in
          let was : test_bit (m.page b.page).bitfield b.index ≡ true =
            s.was_free (ap (λ q. has q all) (sym e) ∙ h) in
          let is : test_bit (m.page p).bitfield j ≡ true = cc (was, e, e') in
          f.bits p j ∙ rw (at, is) (ground arith)
      | inr ne ↦ f.bits p j ∙ rw (ne, s.old_bits p j h) (ground (arith, ne))
    ];
    blocks = λ p i h used.
        f.others p i (elsewhere p i h used) ∙ s.old_blocks p i h (elsewhere p i h used);
  }

-- `Pool::alloc` followed by the drop of its box, where the pool is valid, its blocks agree with
-- their bits, the allocator's next addresses are good, two rounds or more and more rounds of the
-- inner loop than the free list has pages are given, returns a valid pool in which each page that
-- there was has its old bits, and each block that was in use its value and its counter.
pub alloc-drop-Restored :
    {T : Type 0} (rounds fuel : ℕ) (m : Memory (PagePool T)) (pool : Pool) (all free : List ℕ)
    → IsValid m pool all free
    → Filled m all
    → Supply (to_allocate pool) m.supply m.live
    → 1 < rounds
    → length free < fuel
    → (value : T)
    → Returns
        (λ pool' m'. Restored m all pool' m')
        ((do
          (pool', handle) ← alloc rounds fuel value pool
          PoolBox.drop pool_blocks drop_block handle
          pure pool')
          m)
alloc-drop-Restored rounds fuel m pool all free v filled good two enough value =
    Returns.bind (alloc-Stored rounds fuel m pool all free v filled good two enough value)
      λ (pool', b) m₁ s.
        Returns.bind
          (PoolBox_drop-Freed s.valid s.filled
            (record { member = s.member; below = s.below; taken = s.taken }) s.counts)
          λ _ m₂ f. returns (Restored-Freed s f)
