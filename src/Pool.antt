-- ===== src/Pool.antt =====
-- pool.rs: the single threaded pool. Its `free` is the `list` of the memory, shared with the pages.
-- Each loop is given its rounds.
pub mod Alloc
pub mod RoundTrip
pub mod Counts
pub mod Create
pub mod Cursors
pub mod Freed
pub mod Client
pub mod Counting
mod Endings
mod Examples
pub mod Fresh
pub mod Grow
pub mod Handles
pub mod LetGo
pub mod Lifetime
pub mod Link
pub mod Orphan
pub mod Panics
pub mod Place
pub mod Release
pub mod Released
pub mod Sample
pub mod Stats
pub mod StatsRuns
pub mod Store
pub mod Stores
pub mod Take
pub mod Taken
pub mod Shrink
pub mod Unlink
pub mod Unlinked
pub mod Unlist
pub mod Relinked
pub mod Valid
pub mod Walk
pub mod Write
use shared_arena.Base.{
  ℕ, zero, suc, ◌+◌, ◌-◌, ◌*◌, ◌/◌, min, max, Bool, true, false, Option, none, some, List, [], ◌∷◌,
  ◌++◌, ◌==◌, if◌then◌else◌, length, has,
}
use shared_arena.Word.{block_per_page, all_ones, count_zeros}
use shared_arena.Block
use shared_arena.Block.{Block}
use shared_arena.Memory.{null, Memory, BlockPtr, deref, store, checked_sub, read_block, write_value}
use shared_arena.Run.{
  Run, Cmd, ok, panic, fault, out_of_fuel, and_then, pure, ◌>>=◌, ◌>>◌, get, put, assert, unwrap,
}
use shared_arena.Page.Pool as Page
use shared_arena.Page.Pool.{PagePool, PoolCmd, pool_blocks}
use shared_arena.Handle.PoolBox
use shared_arena.Handle.ArenaRc

pub record Pool : Type 0 where
  pub page_list : ℕ
  pub npages : ℕ

module _ {T : Type 0} where
  -- The head of `free`; the pool holds the cell, so that it exists.
  unfoldable pub free_get : PoolCmd T ℕ
  free_get m = elim (m.list) [ none ↦ fault | some p ↦ ok p m ]

  unfoldable pub free_set : ℕ → PoolCmd T (Unit {0})
  free_set p m = ok tt (record m { list = some p })

  -- `Block::drop_block` of a block whose page belongs to a pool.
  unfoldable pub drop_block : BlockPtr → PoolCmd T (Unit {0})
  drop_block block = do
    b ← read_block pool_blocks block
    Block.drop_block b.page (λ _ _. fault) (λ _ _. fault) (λ page. Page.drop_block page block)

  -- `Pool::with_capacity`
  unfoldable pub with_capacity : (cap : ℕ) → PoolCmd T Pool
  unfolding free_set
  with_capacity cap = do
    let npages = (max cap 1 - 1) / block_per_page + 1
    free_set null
    (first, _) ← Page.make_list npages
    free_set first
    pure (record { page_list = first; npages = npages })

  -- `Pool::new`
  unfoldable pub new : PoolCmd T Pool
  unfolding with_capacity
  new = with_capacity 1

  -- The part of `alloc_new_page` that puts a list of pages in front of both lists of the pool.
  unfoldable pub link_pages : (first last page_list : ℕ) → PoolCmd T (Unit {0})
  unfolding free_get free_set deref store
  link_pages first last page_list = do
    free ← free_get
    g ← deref last
    store last (record g { next_free = free })
    g ← deref last
    store last (record g { next = page_list })
    free_set first

  -- `Pool::alloc_new_page`
  unfoldable pub alloc_new_page : Pool → PoolCmd T Pool
  alloc_new_page pool = do
    let len = pool.npages
    let to_allocate = min (max len 1) 900_000
    (first, last) ← Page.make_list to_allocate
    link_pages first last pool.page_list
    pure (record { page_list = first; npages = len + to_allocate })

  -- The inner loop of `find_place`: full pages leave the free list until one has a free block.
  unfoldable pub take_from_free : (fuel : ℕ) → PoolCmd T (Option BlockPtr)
  unfolding free_get free_set deref store
  take_from_free zero = λ _. out_of_fuel
  take_from_free (suc fuel) = do
    page ← free_get
    if page == null then pure none else do
      found ← Page.acquire_free_block page
      elim found [
        | some block ↦ pure (some block)
        | none ↦ do
          g ← deref page
          free_set g.next_free
          store page (record g { in_free_list = false })
          take_from_free fuel
      ]

  -- `Pool::find_place`: `rounds` bounds the outer loop, `fuel` each run of the inner one.
  unfoldable pub find_place : (rounds fuel : ℕ) → Pool → PoolCmd T (Pool × BlockPtr)
  find_place zero fuel pool = λ _. out_of_fuel
  find_place (suc rounds) fuel pool = do
    found ← take_from_free fuel
    elim found [
      | some block ↦ pure (pool, block)
      | none ↦ do pool' ← alloc_new_page pool; find_place rounds fuel pool'
    ]
