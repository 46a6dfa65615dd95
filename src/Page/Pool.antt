-- ===== src/Page/Pool.antt =====
-- page/pool.rs: a page of a `Pool` and its block operations. `Weak<Pointer<PagePool>>` is the
-- `list` of the memory that the page lives in.
pub mod Acquire
pub mod Make
use shared_arena.Base.{
  ℕ, zero, suc, ◌+◌, ◌-◌, ◌^◌, bit_and, bit_or, refl, Bool, true, false, Option, none, some, List,
  [], ◌∷◌, ltb, ◌==◌, if◌then◌else◌,
}
use shared_arena.Word.{block_per_page, mask_arena_bit, all_ones, bit_not, trailing_zeros}
use shared_arena.Block.{Block}
use shared_arena.Block.Kind.{pool_kind}
use shared_arena.Block.PageTaggedPtr
use shared_arena.Memory.{
  null, Memory, BlockPtr, deref, store, dealloc, alloc, checked_sub, HasBlocks, read_block,
  drop_in_place,
}
use shared_arena.Run.{Cmd, fault, pure, ◌>>=◌, ◌>>◌, get, put, assert}

pub record PagePool (T : Type 0) : Type 0 where
  pub bitfield : ℕ
  pub blocks : ℕ → Block T
  pub next_free : ℕ
  pub next : ℕ
  pub in_free_list : Bool

-- Fresh memory holds no values; the rest of it is what it was.
abbrev pub uninit : {T : Type 0} → PagePool T → PagePool T
uninit g = record g { blocks = λ i. record (g.blocks i) { value = none } }

abbrev pub pool_blocks : {T : Type 0} → HasBlocks (PagePool T) T
pool_blocks = record {
  blocks = λ g. g.blocks;
  with_blocks = λ g bs. record g { blocks = bs };
  blocks-with_blocks = λ g bs. refl;
}

abbrev pub PoolCmd : Type 0 → Type 0 → Type 0
PoolCmd T A = Cmd (Memory (PagePool T)) A

module _ {T : Type 0} where
  -- `PagePool::new`
  unfoldable pub new : (next : ℕ) → PoolCmd T ℕ
  unfolding alloc deref store
  new next = do
    page ← alloc uninit
    g ← deref page
    store page (record {
      bitfield = all_ones;
      blocks = λ i. record (g.blocks i) { page = PageTaggedPtr.new page i pool_kind; counter = 0 };
      next_free = next;
      next = next;
      in_free_list = true;
    })
    pure page

  -- The loop of `make_list`.
  unfoldable pub make_list_loop : ℕ → (previous : ℕ) → PoolCmd T ℕ
  make_list_loop zero previous = pure previous
  make_list_loop (suc n) previous = do page ← new previous; make_list_loop n page

  -- `PagePool::make_list`: the first and the last page of a new list.
  unfoldable pub make_list : (npages : ℕ) → PoolCmd T (ℕ × ℕ)
  make_list npages = do
    last ← new null
    rounds ← checked_sub npages 1
    first ← make_list_loop rounds last
    pure (first, last)

  -- `PagePool::acquire_free_block`. `1 << 64` and an index out of range panic.
  unfoldable pub acquire_free_block : (page : ℕ) → PoolCmd T (Option BlockPtr)
  unfolding deref store
  acquire_free_block page = do
    g ← deref page
    let index_free = trailing_zeros g.bitfield
    if index_free == block_per_page then pure none else do
      assert (ltb index_free 64)
      store page (record g { bitfield = bit_and g.bitfield (bit_not (2 ^ index_free)) })
      assert (ltb index_free block_per_page)
      pure (some (record { page = page; index = index_free }))

  -- `PagePool::deallocate_page`
  unfoldable pub deallocate_page : (page : ℕ) → PoolCmd T (Unit {0})
  unfolding dealloc
  deallocate_page page = dealloc page

  -- The end of `drop_block`: the page goes back to the free list, if the pool still exists.
  unfoldable pub put_in_free_list : (page : ℕ) → PoolCmd T (Unit {0})
  unfolding deref store
  put_in_free_list page = do
    g ← deref page
    store page (record g { in_free_list = true })
    m ← get
    elim (m.list) [
      | none ↦ pure tt
      | some current ↦ do
        store page (record g { in_free_list = true; next_free = current })
        m ← get
        put (record m { list = some page })
    ]

  -- `PagePool::drop_block`
  unfoldable pub drop_block : (page : ℕ) → (block : BlockPtr) → PoolCmd T (Unit {0})
  unfolding deref store
  drop_block page block = do
    deref page
    drop_in_place pool_blocks block
    b ← read_block pool_blocks block
    let index_in_page = PageTaggedPtr.index_block b.page
    g ← deref page
    let bitfield = bit_or g.bitfield (2 ^ index_in_page)
    store page (record g { bitfield = bitfield })
    if bit_not bitfield == mask_arena_bit
        then deallocate_page page
        else if g.in_free_list
        then pure tt
        else put_in_free_list page

  -- `drop_page`: the pool lets go of a page.
  unfoldable pub drop_page : (page : ℕ) → PoolCmd T (Unit {0})
  unfolding deref store
  drop_page page = do
    g ← deref page
    let new_bitfield = bit_and g.bitfield (bit_not mask_arena_bit)
    store page (record g { bitfield = new_bitfield })
    if bit_not new_bitfield == mask_arena_bit then deallocate_page page else pure tt
