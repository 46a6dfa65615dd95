-- ===== src/SharedArena.antt =====
-- shared_arena.rs: the arena that threads share, each call where no other thread comes between its
-- steps. Its `pending_free_list` is the `list` of the memory, shared with the pages. Each loop is
-- given its rounds.
pub mod Alloc
pub mod Walk
use shared_arena.Base.{
  ℕ, zero, suc, ◌+◌, ◌-◌, ◌%◌, ◌*◌, ◌/◌, ◌^◌, min, max, Bool, true, false, not, ◌&&◌, Option, none,
  some, List, [], ◌∷◌, ◌==◌, ltb, if◌then◌else◌, length, take, skip,
}
use shared_arena.Word.{block_per_page, u64_mod}
use shared_arena.Block
use shared_arena.Memory.{null, Memory, BlockPtr, deref, store, read_block}
use shared_arena.Run.{Run, Cmd, ok, fault, out_of_fuel, pure, ◌>>=◌, ◌>>◌, get, put, assert}
use shared_arena.Page.SharedMemory as Page
use shared_arena.Page.SharedMemory.{PageSharedArena, SharedCmd, shared_blocks}

-- `DELAY_DROP_SHRINK`
abbrev pub delay_drop_shrink : ℕ
delay_drop_shrink = 10

-- `to_free` is `none` for the null pointer.
pub record SharedArena : Type 0 where
  pub free_list : ℕ
  pub full_list : ℕ
  pub npages : ℕ
  pub writer : Bool
  pub shrinking : Bool
  pub to_free : Option (List ℕ)
  pub to_free_delay : ℕ

-- `WriterGuard::new`: whether the caller is the writer now. Its drop clears the flag.
unfoldable pub writer_new : SharedArena → SharedArena × Bool
writer_new arena =
    if not arena.writer then (record arena { writer = true }, true) else (arena, false)

unfoldable pub writer_drop : SharedArena → SharedArena
writer_drop arena = record arena { writer = false }

-- `WriterGuard::new_blocking`
unfoldable pub writer_new_blocking :
    {T : Type 0} → (tries : ℕ) → SharedArena → SharedCmd T SharedArena
writer_new_blocking zero arena = λ _. out_of_fuel
writer_new_blocking (suc tries) arena =
    if not arena.writer
    then pure (record arena { writer = true })
    else writer_new_blocking tries arena

module _ {T : Type 0} where
  -- The head of `pending_free_list`; the arena holds the cell, so that it exists.
  unfoldable pub pending_load : SharedCmd T ℕ
  pending_load m = elim (m.list) [ none ↦ fault | some p ↦ ok p m ]

  unfoldable pub pending_swap : ℕ → SharedCmd T ℕ
  pending_swap p m = elim (m.list) [ none ↦ fault | some old ↦ ok old (record m { list = some p }) ]

  -- `Block::drop_block` of a block whose page belongs to a shared arena.
  unfoldable pub drop_block : (tries : ℕ) → BlockPtr → SharedCmd T (Unit {0})
  drop_block tries block = do
    b ← read_block shared_blocks block
    Block.drop_block b.page (λ page. Page.drop_block tries page block) (λ _ _. fault) (λ _ _. fault)

  -- `SharedArena::put_pages_in_lists`. `fetch_add` wraps.
  unfoldable pub put_pages_in_lists :
      (npages first last : ℕ) → SharedArena → SharedCmd T SharedArena
  put_pages_in_lists npages first last arena = do
    let current = arena.full_list
    g ← deref last
    store last (record g { next = current })
    assert (current == arena.full_list)
    let arena₁ = record arena { full_list = first }
    assert (arena₁.free_list == null)
    pure (record arena₁ { free_list = first; npages = (arena₁.npages + npages) % u64_mod })

  -- `SharedArena::alloc_new_page`
  unfoldable pub alloc_new_page : SharedArena → SharedCmd T SharedArena
  alloc_new_page arena = do
    let to_allocate = min (max arena.npages 1) 900_000
    (first, last) ← Page.make_list to_allocate
    put_pages_in_lists to_allocate first last arena

  -- The loops that let go of the pages of a vector.
  unfoldable pub drop_pages : List ℕ → SharedCmd T (Unit {0})
  drop_pages [] = pure tt
  drop_pages (p ∷ ps) = do Page.drop_page p; drop_pages ps

  -- `SharedArena::maybe_free_pages`. The delay is a `u16`.
  unfoldable pub maybe_free_pages : SharedArena → SharedCmd T SharedArena
  maybe_free_pages arena =
      if ltb arena.to_free_delay delay_drop_shrink
      then (let old = arena.to_free_delay in
          let arena₁ = record arena { to_free_delay = (old + 1) % 2 ^ 16 } in
          if old == delay_drop_shrink - 1
          then elim (arena₁.to_free) [
            | none ↦ pure arena₁
            | some to_free ↦ do drop_pages to_free; pure (record arena₁ { to_free = none })
          ]
          else pure arena₁)
      else pure arena

  -- `SharedArena::take_pages_to_be_freed`
  unfoldable pub take_pages_to_be_freed : SharedArena → SharedCmd T SharedArena
  take_pages_to_be_freed arena = elim (arena.to_free) [
    | none ↦ pure arena
    | some to_free ↦ do
      let npages = max arena.npages 1
      let truncate_at = length to_free - npages
      let to_reinsert = skip truncate_at to_free
      (first, last) ← Page.make_list_from_slice to_reinsert
      arena₁ ← put_pages_in_lists (length to_reinsert) first last (record arena { to_free = none })
      if not (truncate_at == 0)
          then pure (record arena₁ { to_free = some (take truncate_at to_free); to_free_delay = 0 })
          else pure (record arena₁ { to_free_delay = delay_drop_shrink })
  ]

  -- The inner loop of `find_place`: full pages leave the free list until one has a free block.
  unfoldable pub take_from_free :
      (fuel tries : ℕ) → SharedArena → SharedCmd T (SharedArena × Option BlockPtr)
  take_from_free zero tries arena = λ _. out_of_fuel
  take_from_free (suc fuel) tries arena =
      let page = arena.free_list in
      if page == null then pure (arena, none) else do
        found ← Page.acquire_free_block tries page
        elim found [
          | some block ↦ pure (arena, some block)
          | none ↦ do
            g ← deref page
            let next = g.next_free
            if arena.free_list == page
                then (do
                  g ← deref page
                  store page (record g { in_free_list = false })
                  take_from_free fuel tries (record arena { free_list = next }))
                else take_from_free fuel tries arena
        ]

  -- What the writer does in `find_place` where the free list is empty.
  unfoldable pub get_pages : SharedArena → SharedCmd T SharedArena
  get_pages arena = do
    pending ← pending_load
    if not (pending == null)
        then (do
          pending' ← pending_swap null
          assert (arena.free_list == null)
          maybe_free_pages (record arena { free_list = pending' }))
        else elim (arena.to_free) [
          | some _ ↦ take_pages_to_be_freed arena
          | none ↦ alloc_new_page arena
        ]

  -- `SharedArena::find_place`
  unfoldable pub find_place :
      (rounds fuel tries : ℕ) → SharedArena → SharedCmd T (SharedArena × BlockPtr)
  find_place zero fuel tries arena = λ _. out_of_fuel
  find_place (suc rounds) fuel tries arena = do
    (arena₁, found) ← take_from_free fuel tries arena
    elim found [
      | some block ↦ pure (arena₁, block)
      | none ↦
          let (arena₂, guard) = writer_new arena₁ in
          if guard
          then (do
            arena₃ ← (if arena₂.free_list == null then get_pages arena₂ else pure arena₂)
            find_place rounds fuel tries (writer_drop arena₃))
          else do
            arena₃ ← (if arena₂.free_list == null then pure arena₂ else maybe_free_pages arena₂)
            find_place rounds fuel tries arena₃
    ]

  -- `SharedArena::with_capacity`
  unfoldable pub with_capacity : (cap : ℕ) → SharedCmd T SharedArena
  with_capacity cap = do
    let npages = (max cap 1 - 1) / block_per_page + 1
    m ← get
    put (record m { list = some null })
    (first, _) ← Page.make_list npages
    pure (record {
      npages = npages;
      free_list = first;
      full_list = first;
      writer = false;
      shrinking = false;
      to_free = none;
      to_free_delay = delay_drop_shrink;
    })

  -- `SharedArena::new`
  unfoldable pub new : SharedCmd T SharedArena
  new = with_capacity block_per_page
