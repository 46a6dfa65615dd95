-- ===== src/Pool/StatsRuns.antt =====
-- `Pool::stats` of pool.rs around an allocation and a drop.
use shared_arena.Memory.Supply.{Supply}
use shared_arena.Base.{
  ℕ, ◌+◌, ◌<◌, ◌≡◌, refl, sym, ap, ◌∙◌, inl, inr, true, false, not, ◌&&◌, List, [], ◌∷◌, ◌++◌,
  arith, if◌then◌else◌, length, length-append, has, Bool-cases, ==_refl, max,
}
use shared_arena.Word.{test_bit, all_ones, block_per_page}
use shared_arena.Word.Ext.{test_bit-all_ones}
use shared_arena.Memory.{Memory, BlockPtr}
use shared_arena.Memory.Chain.{has-append}
use shared_arena.Run.{pure, ◌>>=◌, ◌>>◌}
use shared_arena.Run.Returns
use shared_arena.Run.Returns.{Returns, returns}
use shared_arena.Page.Pool.{PagePool, pool_blocks}
use shared_arena.Handle.PoolBox
use shared_arena.Pool.{Pool, drop_block}
use shared_arena.Pool.Alloc.{alloc}
use shared_arena.Pool.Counting.{InUse, PoolBox_drop-Freed}
use shared_arena.Pool.Counts.{clear_bits-all_ones, clear_on_more, clear_on_same}
use shared_arena.Pool.Freed.{Freed}
use shared_arena.Pool.Grow.{to_allocate}
use shared_arena.Pool.Place.{is_at, is_at_eq}
use shared_arena.Pool.Stats.{clear_bits, clear_on, in_use, stats-eq}
use shared_arena.Pool.Store.{Stored}
use shared_arena.Pool.Stores.{alloc-Stored}
use shared_arena.Pool.Valid.{IsValid, Filled}
use shared_arena.Pool.Walk.{stats}

clear_on-append :
    (w : ℕ → ℕ) (ps qs : List ℕ) → clear_on w (ps ++ qs) ≡ clear_on w ps + clear_on w qs
clear_on-append w [] qs = omega arith
clear_on-append w (p ∷ ps) qs = omega (arith, clear_on-append w ps qs)

clear_on_full :
    (w : ℕ → ℕ) (ps : List ℕ) → ((q : ℕ) → has q ps ≡ true → w q ≡ all_ones) → clear_on w ps ≡ 0
clear_on_full w [] full = refl
clear_on_full w (p ∷ ps) full = omega (
  arith,
  ap (clear_bits 63) (full p (ground (arith, ==_refl p))),
  clear_bits-all_ones 63 (omega arith),
  clear_on_full w ps (λ q h. full q (ground (arith, h))),
)

module _ {T : Type 0} {m m' : Memory (PagePool T)} {pool pool' : Pool} {all free : List ℕ}
    {value : T} {b : BlockPtr} (v : IsValid m pool all free)
    (s : Stored m all value pool' b m') where
  -- The words of the old pages, and of the new ones as they were made.
  abbrev before : ℕ → ℕ
  before q = if has q all then (m.page q).bitfield else all_ones

  apart : (q : ℕ) → has q s.news ≡ true → has q all ≡ false
  apart q h = elim (Bool-cases (has q all)) [
    | inl i ↦ cc (s.unused q h, (v.pages q i).alive)
    | inr o ↦ o
  ]

  before_total : clear_on before (s.news ++ all) ≡ in_use m all
  before_total = omega (
    arith,
    clear_on-append before s.news all,
    clear_on_full before s.news (λ q h. rw (apart q h)),
    clear_on_same (λ q. (m.page q).bitfield) before all (λ q j h lt. rw h),
  )

  before_bits :
      (q j : ℕ)
      → has q (s.news ++ all) ≡ true
      → j < block_per_page
      → test_bit (m'.page q).bitfield j ≡ (test_bit (before q) j && not (is_at b q j))
  before_bits q j h lt = elim (Bool-cases (has q all)) [
    | inl i ↦ s.old_bits q j i ∙ rw i
    | inr o ↦
        let new : has q s.news ≡ true = ground (arith, has-append q s.news all) in
        s.new_bits q j new lt ∙ rw (o, test_bit-all_ones j (omega arith))
  ]

  before_on : test_bit (before b.page) b.index ≡ true
  before_on = elim (Bool-cases (has b.page all)) [
    | inl i ↦ rw i (s.was_free i)
    | inr o ↦ rw o (test_bit-all_ones b.index (omega (arith, s.below)))
  ]

  pub in_use-alloc : in_use m' (s.news ++ all) ≡ in_use m all + 1
  in_use-alloc =
      clear_on_more before (λ q. (m'.page q).bitfield) (s.news ++ all) b s.valid.all_distinct
        s.member s.below before_on before_bits
      ∙ ap (λ n. n + 1) before_total

pub in_use-drop :
    {T : Type 0} {m m' : Memory (PagePool T)} {pool : Pool} {all free : List ℕ} {b : BlockPtr}
    → IsValid m pool all free
    → InUse m all b
    → Freed m pool all b m'
    → in_use m' all + 1 ≡ in_use m all
in_use-drop {m} {m'} {all} {b} v u f = sym (
    clear_on_more (λ q. (m'.page q).bitfield) (λ q. (m.page q).bitfield) all b v.all_distinct
      u.member u.below (f.bits b.page b.index ∙ rw (==_refl b.page, ==_refl b.index) (ground arith))
      (λ q j h lt. elim (Bool-cases (is_at b q j)) [
        | inl at ↦
            let (e, e') = is_at_eq b q j at in
            let off : test_bit (m.page q).bitfield j ≡ false = cc (u.taken, e, e') in
            rw (at, off) (ground arith)
        | inr ne ↦ rw (f.bits q j, ne) (ground arith)
      ]))

-- In a valid pool whose blocks agree with their bits, where the allocator's next addresses are
-- good and there are two rounds or more, more rounds of the inner loop than the free list has
-- pages and of the walk than there may be pages: `Pool::alloc`, `Pool::stats`, the drop of the box
-- and `Pool::stats` again return, the first count of blocks in use is one more than it was before
-- the allocation, and the second is what it was.
pub stats_around_box :
    {T : Type 0} (rounds fuel walk : ℕ) (m : Memory (PagePool T)) (pool : Pool) (all free : List ℕ)
    → IsValid m pool all free
    → Filled m all
    → Supply (to_allocate pool) m.supply m.live
    → 1 < rounds
    → length free < fuel
    → length all + max (length all) 1 < walk
    → (value : T)
    → Returns
        (λ (used, used') m'. (used ≡ in_use m all + 1) × (used' ≡ in_use m all))
        ((do
          (pool', handle) ← alloc rounds fuel value pool
          (used, _) ← stats walk pool'
          PoolBox.drop pool_blocks drop_block handle
          (used', _) ← stats walk pool'
          pure (used, used'))
          m)
stats_around_box rounds fuel walk m pool all free v filled good two enough long value =
    Returns.bind (alloc-Stored rounds fuel m pool all free v filled good two enough value)
      λ (pool', b) m₁ s.
        let walked : length (s.news ++ all) < walk = elim (s.growth) [
          | inl e ↦ rw e (omega arith)
          | inr e ↦ omega (arith, length-append {0} s.news all)
        ] in
        let u : InUse m₁ (s.news ++ all) b = record {
          member = s.member;
          below = s.below;
          taken = s.taken;
        } in
        rw (stats-eq m₁ walk pool' (s.news ++ all) s.free s.valid walked) (
          Returns.bind (PoolBox_drop-Freed s.valid s.filled u s.counts) λ _ m₂ f.
            rw (stats-eq m₂ walk pool' (s.news ++ all) f.free f.valid walked) (
              returns (in_use-alloc v s, omega (arith, in_use-alloc v s, in_use-drop s.valid u f))))
