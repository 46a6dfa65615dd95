-- ===== src/Page/SharedMemory.antt =====
-- page/shared_arena.rs: a page of a `SharedArena` in memory, and its operations where no other thread
-- comes between the steps of a call; `Page.SharedArena` has them interleaved. `tries` bounds the
-- loops. `Weak<AtomicPtr<_>>` is the `list` of the memory.
use shared_arena.Base.{
  List, [], ◌∷◌, first_of, last_of, bit_and, ◌-◌, ℕ, zero, suc, ◌+◌, ◌%◌, ◌^◌, bit_or, refl, Bool,
  true, false, Option, none, some, ltb, ◌==◌, if◌then◌else◌,
}
use shared_arena.Word.{block_per_page, u64_mod, mask_arena_bit, all_ones, bit_not, trailing_zeros}
use shared_arena.Block.{Block}
use shared_arena.Block.Kind.{shared_arena_kind}
use shared_arena.Block.PageTaggedPtr
use shared_arena.Memory.{
  null, Memory, BlockPtr, deref, store, dealloc, alloc, checked_sub, HasBlocks, read_block,
  drop_in_place,
}
use shared_arena.Run.{Cmd, fault, out_of_fuel, pure, ◌>>=◌, ◌>>◌, get, put, assert, unwrap}

pub record PageSharedArena (T : Type 0) : Type 0 where
  pub bitfield : ℕ
  pub blocks : ℕ → Block T
  pub next_free : ℕ
  pub next : ℕ
  pub in_free_list : Bool

-- Fresh memory holds no values; the rest of it is what it was.
abbrev pub uninit : {T : Type 0} → PageSharedArena T → PageSharedArena T
uninit g = record g { blocks = λ i. record (g.blocks i) { value = none } }

abbrev pub shared_blocks : {T : Type 0} → HasBlocks (PageSharedArena T) T
shared_blocks = record {
  blocks = λ g. g.blocks;
  with_blocks = λ g bs. record g { blocks = bs };
  blocks-with_blocks = λ g bs. refl;
}

abbrev pub SharedCmd : Type 0 → Type 0 → Type 0
SharedCmd T A = Cmd (Memory (PageSharedArena T)) A

module _ {T : Type 0} where
  -- `PageSharedArena::new`
  unfoldable pub new : (next : ℕ) → SharedCmd T ℕ
  new next = do
    page ← alloc uninit
    g ← deref page
    store page (record {
      bitfield = all_ones;
      blocks = λ i. record (g.blocks i) {
        page = PageTaggedPtr.new page i shared_arena_kind;
        counter = 0;
      };
      next_free = next;
      next = next;
      in_free_list = true;
    })
    pure page

  -- The loop of `make_list`.
  unfoldable pub make_list_loop : ℕ → (previous : ℕ) → SharedCmd T ℕ
  make_list_loop zero previous = pure previous
  make_list_loop (suc n) previous = do page ← new previous; make_list_loop n page

  -- `PageSharedArena::make_list`: the first and the last page of a new list.
  unfoldable pub make_list : (npages : ℕ) → SharedCmd T (ℕ × ℕ)
  make_list npages = do
    last ← new null
    rounds ← checked_sub npages 1
    first ← make_list_loop rounds last
    pure (first, last)

  -- The loop of `make_list_from_slice`: each page is linked to the next one of the slice.
  unfoldable pub relink : List ℕ → SharedCmd T (Unit {0})
  relink [] = pure tt
  relink (p ∷ ps) = do
    let next : ℕ = elim ps [ [] ↦ null | q ∷ _ ↦ q ]
    g ← deref p
    store p (record g { next_free = next; next = next; in_free_list = true })
    relink ps

  -- `PageSharedArena::make_list_from_slice`
  unfoldable pub make_list_from_slice : (pages : List ℕ) → SharedCmd T (ℕ × ℕ)
  make_list_from_slice pages = do
    relink pages
    first ← unwrap (first_of pages)
    last ← unwrap (last_of pages)
    pure (first, last)

  -- `PageSharedArena::acquire_free_block`. `get(index)` is `None` out of range.
  unfoldable pub acquire_free_block : (tries page : ℕ) → SharedCmd T (Option BlockPtr)
  acquire_free_block zero page = λ _. out_of_fuel
  acquire_free_block (suc tries) page = do
    g ← deref page
    let bitfield = g.bitfield
    let index_free = trailing_zeros bitfield
    if index_free == block_per_page then pure none else do
      assert (ltb index_free 64)
      let bit = 2 ^ index_free
      g ← deref page
      let previous_bitfield = g.bitfield
      store page (record g { bitfield = bit_and previous_bitfield (bit_not bit) })
      if bit_and previous_bitfield bit == 0
          then acquire_free_block tries page
          else pure (
              if ltb index_free block_per_page
              then some (record { page = page; index = index_free })
              else none)

  -- `deallocate_page`
  unfoldable pub deallocate_page : (page : ℕ) → SharedCmd T (Unit {0})
  deallocate_page page = dealloc page

  -- `arena_pending_list.compare_exchange(current, page)`: whether it stored the page.
  unfoldable pub exchange_pending : (current page : ℕ) → SharedCmd T Bool
  exchange_pending current page = do
    m ← get
    elim (m.list) [
      | none ↦ λ _. fault
      | some p ↦
          if p == current then (do put (record m { list = some page }); pure true) else pure false
    ]

  -- The loop that puts a page in front of the pending list, which the `upgrade` keeps alive.
  unfoldable pub push_pending : (tries page : ℕ) → SharedCmd T (Unit {0})
  push_pending zero page = λ _. out_of_fuel
  push_pending (suc tries) page = do
    m ← get
    elim (m.list) [
      | none ↦ λ _. fault
      | some current ↦ do
        g ← deref page
        store page (record g { next_free = current })
        done ← exchange_pending current page
        if done then pure tt else push_pending tries page
    ]

  -- The end of `drop_block`: the page goes to the pending list, if the arena still exists.
  unfoldable pub put_in_pending : (tries page : ℕ) → SharedCmd T (Unit {0})
  put_in_pending tries page = do
    g ← deref page
    if g.in_free_list then pure tt else do
      g ← deref page
      store page (record g { in_free_list = true })
      if g.in_free_list
          then pure tt
          else do m ← get; elim (m.list) [ none ↦ pure tt | some _ ↦ push_pending tries page ]

  -- `PageSharedArena::drop_block`. `fetch_add` wraps.
  unfoldable pub drop_block : (tries page : ℕ) → (block : BlockPtr) → SharedCmd T (Unit {0})
  drop_block tries page block = do
    deref page
    drop_in_place shared_blocks block
    b ← read_block shared_blocks block
    let bit = 2 ^ PageTaggedPtr.index_block b.page
    g ← deref page
    let old_bitfield = g.bitfield
    store page (record g { bitfield = (old_bitfield + bit) % u64_mod })
    let new_bitfield = bit_or old_bitfield bit
    if bit_not new_bitfield == mask_arena_bit
        then deallocate_page page
        else put_in_pending tries page

  -- `drop_page`. `fetch_sub` wraps.
  unfoldable pub drop_page : (page : ℕ) → SharedCmd T (Unit {0})
  drop_page page = do
    g ← deref page
    let old_bitfield = g.bitfield
    store page (record g { bitfield = (old_bitfield + u64_mod - mask_arena_bit) % u64_mod })
    if bit_not old_bitfield == 0 then deallocate_page page else pure tt
