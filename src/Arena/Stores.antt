-- ===== src/Arena/Stores.antt =====
-- `Arena::alloc`, `Arena::alloc_arc` and `Arena::alloc_rc` (arena.rs) on a valid arena.
use shared_arena.Base.{ℕ, ◌<◌, ◌≡◌, refl, true, ap, ◌∙◌, some, List, length}
use shared_arena.Word.{block_per_page}
use shared_arena.Memory.{Memory, BlockPtr, write_value}
use shared_arena.Memory.Supply.{Supply}
use shared_arena.Memory.Write.{block_at, block_at-wrote, wrote, write_value-eq}
use shared_arena.Run.{ok, pure, ◌>>=◌, ◌>>◌}
use shared_arena.Run.Returns
use shared_arena.Run.Returns.{Returns, returns}
use shared_arena.Page.Arena.{PageArena, ArenaCmd, arena_blocks}
use shared_arena.Handle.ArenaBox
use shared_arena.Handle.ArenaArc
use shared_arena.Handle.ArenaRc
use shared_arena.Handle.New.{owned, box_new, arc_new, rc_new}
use shared_arena.Arena.{Arena, find_place}
use shared_arena.Arena.Alloc.{alloc, alloc_arc, alloc_rc}
use shared_arena.Arena.Find.{arena_find_place-Placed}
use shared_arena.Arena.Grow.{to_allocate}
use shared_arena.Arena.Store.{Stored, Stored-stored, idle}
use shared_arena.Arena.Valid.{IsValid}
use shared_arena.Arena.Write.{Filled}

module _ {T : Type 0} (rounds fuel tries : ℕ) (m : Memory (PageArena T)) (arena : Arena)
    (all free pending : List ℕ) (v : IsValid m arena all free pending) (filled : Filled m all)
    (good : Supply (to_allocate arena) m.supply m.live) (three : 2 < rounds) (two : 1 < tries)
    (enough_free : length free < fuel) (enough_pending : length pending < fuel)
    (enough_new : to_allocate arena < fuel) (value : T) where
  -- An allocating function, where `new` makes the smart pointer.
  abbrev alloc_by : (BlockPtr → ArenaCmd T BlockPtr) → ArenaCmd T (Arena × BlockPtr)
  alloc_by new = do
    (arena', block) ← find_place rounds fuel tries arena
    write_value arena_blocks block (some value)
    handle ← new block
    pure (arena', handle)

  alloc_by-Stored :
      (new : BlockPtr → ArenaCmd T BlockPtr)
      → ((s : Memory (PageArena T)) (b : BlockPtr)
          → s.live b.page ≡ true
          → b.index < block_per_page
          → (block_at arena_blocks s b).counter ≡ 0
          → new b s ≡ ok b (owned arena_blocks s b))
      → Returns (λ (arena', b) m'. Stored m all value arena' b m') (alloc_by new m)
  alloc_by-Stored new makes =
      Returns.bind
        (arena_find_place-Placed rounds fuel tries m arena all free pending v good three two
          enough_free enough_pending enough_new)
        λ (arena', b) m₁ p.
          let alive = (p.valid.pages b.page p.member).alive in
          let k = record (block_at arena_blocks m₁ b) { value = some value } in
          let e = block_at-wrote arena_blocks m₁ b k in
          rw
            (
              write_value-eq arena_blocks m₁ b alive p.below (some value),
              makes (wrote arena_blocks m₁ b k) b alive p.below
                  (ap (λ k. k.counter) e ∙ idle filled p),
            )
            (returns (
              Stored-stored filled p value k _ refl (ap (λ k. k.page) e) refl
                (ap (λ k. k.value) e)))

  -- `Arena::alloc`, `Arena::alloc_arc` and `Arena::alloc_rc`, where the arena is valid, its blocks
  -- agree with their bits, the allocator's next addresses are good and no other thread comes
  -- between the steps, with three rounds or more, two tries or more, and more rounds of the inner
  -- loop than there are pages in the free list, in the pending list, or to make, each return a
  -- valid arena and a block: the block was free, holds the value and is counted once; every other
  -- block of the old pages has its value and its counter, and is free or not as it was; new pages
  -- are at addresses that were not live, and were made only if no block was free.
  pub arena_allocs-Stored :
      Returns
        (λ (arena', b) m'. Stored m all value arena' b m')
        (alloc rounds fuel tries value arena m)
      × Returns
          (λ (arena', b) m'. Stored m all value arena' b m')
          (alloc_arc rounds fuel tries value arena m)
      × Returns
          (λ (arena', b) m'. Stored m all value arena' b m')
          (alloc_rc rounds fuel tries value arena m)
  unfolding alloc alloc_arc alloc_rc
  arena_allocs-Stored = (
    alloc_by-Stored (ArenaBox.new arena_blocks) (box_new arena_blocks),
    alloc_by-Stored (ArenaArc.new arena_blocks) (arc_new arena_blocks),
    alloc_by-Stored (ArenaRc.new arena_blocks) (rc_new arena_blocks),
  )
