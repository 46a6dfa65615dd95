-- ===== src/Arena.antt =====
-- arena.rs: the arena that one thread owns. Its `pending_free_list` is the `list` of the memory,
-- shared with the pages. Each loop is given its rounds.
pub mod Alloc
mod Examples
pub mod Counting
pub mod Find
pub mod Grow
pub mod LetGo
pub mod Place
pub mod Freed
pub mod Release
pub mod Released
pub mod RoundTrip
pub mod Stats
pub mod Store
pub mod Stores
pub mod Take
pub mod Taken
pub mod Valid
pub mod Walk
pub mod Write
use shared_arena.Base.{
  ℕ, zero, suc, ◌+◌, ◌-◌, ◌*◌, ◌/◌, min, max, Bool, true, false, Option, none, some, ◌==◌,
  if◌then◌else◌,
}
use shared_arena.Word.{block_per_page}
use shared_arena.Block
use shared_arena.Block.{Block}
use shared_arena.Memory.{null, Memory, BlockPtr, deref, store, read_block}
use shared_arena.Run.{Run, Cmd, ok, fault, out_of_fuel, pure, ◌>>=◌, ◌>>◌, get, put, assert}
use shared_arena.Page.Arena as Page
use shared_arena.Page.Arena.{PageArena, ArenaCmd, arena_blocks}

pub record Arena : Type 0 where
  pub free_list : ℕ
  pub full_list : ℕ
  pub npages : ℕ

module _ {T : Type 0} where
  -- The head of `pending_free_list`; the arena holds the cell, so that it exists.
  unfoldable pub pending_load : ArenaCmd T ℕ
  pending_load m = elim (m.list) [ none ↦ fault | some p ↦ ok p m ]

  unfoldable pub pending_swap : ℕ → ArenaCmd T ℕ
  pending_swap p m = elim (m.list) [ none ↦ fault | some old ↦ ok old (record m { list = some p }) ]

  -- `Block::drop_block` of a block whose page belongs to an arena.
  unfoldable pub drop_block : (tries : ℕ) → BlockPtr → ArenaCmd T (Unit {0})
  drop_block tries block = do
    b ← read_block arena_blocks block
    Block.drop_block b.page (λ _ _. fault) (λ page. Page.drop_block tries page block) (λ _ _. fault)

  -- `Arena::with_capacity`
  unfoldable pub with_capacity : (cap : ℕ) → ArenaCmd T Arena
  with_capacity cap = do
    let npages = (max cap 1 - 1) / block_per_page + 1
    m ← get
    put (record m { list = some null })
    (first, _) ← Page.make_list npages
    pure (record { npages = npages; free_list = first; full_list = first })

  -- `Arena::new`
  unfoldable pub new : ArenaCmd T Arena
  new = with_capacity block_per_page

  -- `Arena::alloc_new_page`
  unfoldable pub alloc_new_page : Arena → ArenaCmd T Arena
  alloc_new_page arena = do
    let to_allocate = min (max arena.npages 1) 900_000
    (first, last) ← Page.make_list to_allocate
    g ← deref last
    store last (record g { next = arena.full_list })
    assert (arena.free_list == null)
    pure (record { free_list = first; full_list = first; npages = arena.npages + to_allocate })

  -- The inner loop of `find_place`: full pages leave the free list until one has a free block.
  unfoldable pub take_from_free : (fuel tries : ℕ) → Arena → ArenaCmd T (Arena × Option BlockPtr)
  take_from_free zero tries arena = λ _. out_of_fuel
  take_from_free (suc fuel) tries arena =
      let page = arena.free_list in
      if page == null then pure (arena, none) else do
        found ← Page.acquire_free_block tries page
        elim found [
          | some block ↦ pure (arena, some block)
          | none ↦ do
            g ← deref page
            store page (record g { in_free_list = false })
            take_from_free fuel tries (record arena { free_list = g.next_free })
        ]

  -- `Arena::find_place`: the pending pages become the free ones, or new pages are made.
  unfoldable pub find_place : (rounds fuel tries : ℕ) → Arena → ArenaCmd T (Arena × BlockPtr)
  find_place zero fuel tries arena = λ _. out_of_fuel
  find_place (suc rounds) fuel tries arena = do
    (arena', found) ← take_from_free fuel tries arena
    elim found [
      | some block ↦ pure (arena', block)
      | none ↦ do
        pending ← pending_load
        if pending == null
            then (do arena'' ← alloc_new_page arena'; find_place rounds fuel tries arena'')
            else do
              pending' ← pending_swap null
              find_place rounds fuel tries (record arena' { free_list = pending' })
    ]
