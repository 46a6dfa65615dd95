-- ===== src/Pool/Examples.antt =====
-- The theorems on pool.rs at a pool with one page.
use shared_arena.Base.{
  ℕ, ◌+◌, ◌-◌, ◌*◌, ◌^◌, ◌≡◌, ◌<◌, ◌⊎◌, refl, arith, true, some, List, ◌++◌, ◌/◌, ◌≤◌, max, has,
  length,
}
use shared_arena.Run.{ok, panic, pure, ◌>>=◌, ◌>>◌}
use shared_arena.Run.Returns.{Returns}
use shared_arena.Page.Pool.{pool_blocks}
use shared_arena.Page.Pool.Make.{IsFresh, Grown}
use shared_arena.Handle.PoolBox
use shared_arena.Handle.ArenaRc
use shared_arena.Pool.{drop_block, with_capacity, alloc_new_page, find_place}
use shared_arena.Pool.Alloc.{Initializer, alloc, alloc_with}
use shared_arena.Pool.Counting.{InUse, PoolBox_drop-Freed, ArenaRc_drop_cases, ArenaRc_clone_cases}
use shared_arena.Pool.Create.{with_capacity-IsValid}
use shared_arena.Pool.Freed.{Freed}
use shared_arena.Pool.Handles.{counted}
use shared_arena.Pool.Grow.{to_allocate, alloc_new_page-IsValid}
use shared_arena.Pool.Place.{Placed, find_place-Placed}
use shared_arena.Pool.RoundTrip.{Restored, alloc-drop-Restored}
use shared_arena.Pool.Stats.{in_use, stats-eq}
use shared_arena.Pool.Store.{Stored}
use shared_arena.Pool.Stores.{alloc-Stored, alloc_with-Stored}
use shared_arena.Pool.Valid.{IsValid, Filled}
use shared_arena.Pool.Walk.{stats, shrink_to_fit}
use shared_arena.Pool.Shrink.{Shrunk, shrink_to_fit-Shrunk}
use shared_arena.Pool.Write.{block_at}
use shared_arena.Pool.StatsRuns.{stats_around_box}
use shared_arena.Pool.Sample.{
  used, one_page, IsValid-used, Filled-used, InUse-used, Supply-used, Supply-used_with_capacity,
  used_pages, box,
}

abbrev one_or_two : Initializer ℕ
one_or_two b = (some (b.index + 1), b)

with_capacity-IsValid_example :
    Returns
      (λ pool m'.
        (news : List ℕ) × IsValid m' pool news news
        × ((q : ℕ) → has q news ≡ true → IsFresh m' q)
        × (pool.npages ≡ (max 100 1 - 1) / 63 + 1))
      (with_capacity 100 used)
with_capacity-IsValid_example = with_capacity-IsValid used 100 Supply-used_with_capacity

alloc_new_page-IsValid_example :
    Returns
      (λ pool' m'.
        (news : List ℕ) × IsValid m' pool' (news ++ used_pages) (news ++ used_pages)
        × Grown used m' news
        × (length news ≡ to_allocate one_page))
      (alloc_new_page one_page used)
alloc_new_page-IsValid_example =
    alloc_new_page-IsValid used one_page used_pages used_pages IsValid-used Supply-used

find_place-Placed_example :
    Returns (λ (pool', b) m'. Placed used used_pages pool' b m') (find_place 2 2 one_page used)
find_place-Placed_example =
    find_place-Placed 2 2 used one_page used_pages used_pages IsValid-used Filled-used Supply-used
      (omega arith) (omega arith)

alloc-Stored_example :
    Returns (λ (pool', b) m'. Stored used used_pages 7 pool' b m') (alloc 2 2 7 one_page used)
alloc-Stored_example =
    alloc-Stored 2 2 used one_page used_pages used_pages IsValid-used Filled-used Supply-used
      (omega arith) (omega arith) 7

alloc_with-Stored_example :
    Returns
      (λ (pool', b) m'. Stored used used_pages (b.index + 1) pool' b m')
      (alloc_with 2 2 one_or_two one_page used)
alloc_with-Stored_example =
    alloc_with-Stored 2 2 used one_page used_pages used_pages IsValid-used Filled-used Supply-used
      (omega arith) (omega arith) one_or_two (λ b. b.index + 1) (λ b. refl)

PoolBox_drop-Freed_example :
    Returns
      (λ _ m'. Freed used one_page used_pages box m')
      (PoolBox.drop pool_blocks drop_block box used)
PoolBox_drop-Freed_example = PoolBox_drop-Freed IsValid-used Filled-used InUse-used refl

ArenaRc_drop_cases_example :
    Returns
      (λ _ m'.
        (((block_at used box).counter ≡ 1) × Freed used one_page used_pages box m')
        ⊎ ((1 < 1)
            × (m' ≡ counted used box (1 - 1))
            × IsValid m' one_page used_pages used_pages
            × Filled m' used_pages
            × InUse m' used_pages box))
      (ArenaRc.drop pool_blocks drop_block box used)
ArenaRc_drop_cases_example = ArenaRc_drop_cases IsValid-used Filled-used InUse-used

ArenaRc_clone_cases_example :
    ((1 < 2 ^ 63 - 1)
      × Returns
          (λ p m'.
            (p ≡ box)
            × (m' ≡ counted used box (1 + 1))
            × IsValid m' one_page used_pages used_pages
            × Filled m' used_pages
            × InUse m' used_pages box)
          (ArenaRc.clone pool_blocks box used))
    ⊎ ((2 ^ 63 - 1 ≤ 1) × (ArenaRc.clone pool_blocks box used ≡ panic used))
ArenaRc_clone_cases_example = ArenaRc_clone_cases IsValid-used Filled-used InUse-used

alloc-drop-Restored_example :
    Returns
      (λ pool' m'. Restored used used_pages pool' m')
      ((do
        (pool', handle) ← alloc 2 2 7 one_page
        PoolBox.drop pool_blocks drop_block handle
        pure pool')
        used)
alloc-drop-Restored_example =
    alloc-drop-Restored 2 2 used one_page used_pages used_pages IsValid-used Filled-used Supply-used
      (omega arith) (omega arith) 7

stats-eq_example :
    stats 2 one_page used ≡ ok (in_use used used_pages, 1 * 63 - in_use used used_pages) used
stats-eq_example = stats-eq used 2 one_page used_pages used_pages IsValid-used (omega arith)

stats_around_box_example :
    Returns
      (λ (used_before, used_after) m'.
        (used_before ≡ in_use used used_pages + 1) × (used_after ≡ in_use used used_pages))
      ((do
        (pool', handle) ← alloc 2 2 7 one_page
        (used_before, _) ← stats 3 pool'
        PoolBox.drop pool_blocks drop_block handle
        (used_after, _) ← stats 3 pool'
        pure (used_before, used_after))
        used)
stats_around_box_example =
    stats_around_box 2 2 3 used one_page used_pages used_pages IsValid-used Filled-used Supply-used
      (omega arith) (omega arith) (omega arith) 7

shrink_to_fit-Shrunk_example :
    Returns (λ pool' m'. Shrunk used used_pages used_pages pool' m') (shrink_to_fit 2 one_page used)
shrink_to_fit-Shrunk_example =
    shrink_to_fit-Shrunk 2 used one_page used_pages used_pages IsValid-used Filled-used
      (omega arith)
