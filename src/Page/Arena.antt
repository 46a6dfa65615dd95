-- ===== src/Page/Arena.antt =====
-- page/arena.rs: a page of an `Arena` and its block operations. The owner of the arena takes blocks
-- from `bitfield`; drops, on any thread, give them back in `bitfield_atomic`. `Weak<AtomicPtr<_>>`
-- is the `list` of the memory. An atomic operation is one step; no other thread comes between the
-- steps of a call. `tries` bounds the loops.
pub mod Acquire
pub mod Gives
pub mod Make
pub mod Merged
mod Runs
pub mod Safety
pub mod Sim
pub mod Simulates
pub mod Steps
mod Examples
use shared_arena.Base.{
  ℕ, zero, suc, ◌+◌, ◌%◌, ◌^◌, bit_and, bit_or, refl, Bool, true, false, Option, none, some, ltb,
  ◌==◌, if◌then◌else◌,
}
use shared_arena.Word.{block_per_page, u64_mod, all_ones, bit_not, trailing_zeros}
use shared_arena.Block.{Block}
use shared_arena.Block.Kind.{arena_kind}
use shared_arena.Block.PageTaggedPtr
use shared_arena.Memory.{
  null, Memory, BlockPtr, deref, store, dealloc, alloc, checked_sub, HasBlocks, read_block,
  drop_in_place,
}
use shared_arena.Run.{Cmd, fault, out_of_fuel, pure, ◌>>=◌, ◌>>◌, get, put, assert}

pub record PageArena (T : Type 0) : Type 0 where
  pub bitfield : ℕ
  pub bitfield_atomic : ℕ
  pub blocks : ℕ → Block T
  pub next_free : ℕ
  pub next : ℕ
  pub in_free_list : Bool

-- Fresh memory holds no values; the rest of it is what it was.
abbrev pub uninit : {T : Type 0} → PageArena T → PageArena T
uninit g = record g { blocks = λ i. record (g.blocks i) { value = none } }

abbrev pub arena_blocks : {T : Type 0} → HasBlocks (PageArena T) T
arena_blocks = record {
  blocks = λ g. g.blocks;
  with_blocks = λ g bs. record g { blocks = bs };
  blocks-with_blocks = λ g bs. refl;
}

abbrev pub ArenaCmd : Type 0 → Type 0 → Type 0
ArenaCmd T A = Cmd (Memory (PageArena T)) A

module _ {T : Type 0} where
  -- `PageArena::new`
  unfoldable pub new : (next : ℕ) → ArenaCmd T ℕ
  new next = do
    page ← alloc uninit
    g ← deref page
    store page (record {
      bitfield = all_ones;
      bitfield_atomic = 0;
      blocks = λ i. record (g.blocks i) { page = PageTaggedPtr.new page i arena_kind; counter = 0 };
      next_free = next;
      next = next;
      in_free_list = true;
    })
    pure page

  -- The loop of `make_list`.
  unfoldable pub make_list_loop : ℕ → (previous : ℕ) → ArenaCmd T ℕ
  make_list_loop zero previous = pure previous
  make_list_loop (suc n) previous = do page ← new previous; make_list_loop n page

  -- `PageArena::make_list`: the first and the last page of a new list.
  unfoldable pub make_list : (npages : ℕ) → ArenaCmd T (ℕ × ℕ)
  make_list npages = do
    last ← new null
    rounds ← checked_sub npages 1
    first ← make_list_loop rounds last
    pure (first, last)

  -- `PageArena::acquire_free_block`. An index out of range panics.
  unfoldable pub acquire_free_block : (tries page : ℕ) → ArenaCmd T (Option BlockPtr)
  acquire_free_block zero page = λ _. out_of_fuel
  acquire_free_block (suc tries) page = do
    g ← deref page
    let index_free = trailing_zeros g.bitfield
    if index_free == block_per_page
        then (if g.bitfield_atomic == 0 then pure none else do
          store page
              (record g { bitfield = bit_or g.bitfield g.bitfield_atomic; bitfield_atomic = 0 })
          acquire_free_block tries page)
        else do
          assert (ltb index_free 64)
          store page (record g { bitfield = bit_and g.bitfield (bit_not (2 ^ index_free)) })
          assert (ltb index_free block_per_page)
          pure (some (record { page = page; index = index_free }))

  -- `deallocate_page`
  unfoldable pub deallocate_page : (page : ℕ) → ArenaCmd T (Unit {0})
  deallocate_page page = dealloc page

  -- `arena_pending_list.compare_exchange(current, page)`: whether it stored the page.
  unfoldable pub exchange_pending : (current page : ℕ) → ArenaCmd T Bool
  exchange_pending current page = do
    m ← get
    elim (m.list) [
      | none ↦ λ _. fault
      | some p ↦
          if p == current then (do put (record m { list = some page }); pure true) else pure false
    ]

  -- The loop that puts a page in front of the pending list, which the `upgrade` keeps alive.
  unfoldable pub push_pending : (tries page : ℕ) → ArenaCmd T (Unit {0})
  push_pending zero page = λ _. out_of_fuel
  push_pending (suc tries) page = do
    m ← get
    elim (m.list) [
      | none ↦ λ _. fault
      | some current ↦ do
        g ← deref page
        store page (record g { next_free = current })
        done ← exchange_pending current page
        if done then pure tt else push_pending tries page
    ]

  -- The end of `drop_block`: the page goes to the pending list, if the arena still exists.
  unfoldable pub put_in_pending : (tries page : ℕ) → ArenaCmd T (Unit {0})
  put_in_pending tries page = do
    g ← deref page
    if g.in_free_list then pure tt else do
      g ← deref page
      store page (record g { in_free_list = true })
      if g.in_free_list
          then pure tt
          else do m ← get; elim (m.list) [ none ↦ pure tt | some _ ↦ push_pending tries page ]

  -- `PageArena::drop_block`. `fetch_add` wraps.
  unfoldable pub drop_block : (tries page : ℕ) → (block : BlockPtr) → ArenaCmd T (Unit {0})
  drop_block tries page block = do
    deref page
    drop_in_place arena_blocks block
    b ← read_block arena_blocks block
    let bit = 2 ^ PageTaggedPtr.index_block b.page
    g ← deref page
    let old_bitfield = g.bitfield_atomic
    store page (record g { bitfield_atomic = (old_bitfield + bit) % u64_mod })
    let new_bitfield = bit_or old_bitfield bit
    if new_bitfield == all_ones then deallocate_page page else put_in_pending tries page

  -- `drop_page`: the arena lets go of a page and gives it its own bitfield.
  unfoldable pub drop_page : (page : ℕ) → ArenaCmd T (Unit {0})
  drop_page page = do
    g ← deref page
    let bitfield = bit_or g.bitfield_atomic g.bitfield
    store page (record g { bitfield_atomic = bitfield })
    if bitfield == all_ones then deallocate_page page else pure tt
