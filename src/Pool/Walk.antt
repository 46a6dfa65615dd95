-- ===== src/Pool/Walk.antt =====
-- pool.rs: the functions that walk the list of all pages: `stats`, the figures of `Debug`,
-- `shrink_to_fit` and `Drop`. `fuel` bounds the walk.
use mathlib.Core.List.{reverse}
use shared_arena.Base.{
  ℕ, zero, suc, ◌+◌, ◌*◌, none, List, [], ◌∷◌, ◌++◌, ◌==◌, if◌then◌else◌, length, has,
}
use shared_arena.Word.{block_per_page, all_ones, count_zeros}
use shared_arena.Memory.{null, deref, store, checked_sub}
use shared_arena.Run.{out_of_fuel, pure, ◌>>=◌, ◌>>◌, get, put, assert}
use shared_arena.Page.Pool as Page
use shared_arena.Page.Pool.{PagePool, PoolCmd}
use shared_arena.Pool.{Pool, free_get, free_set}

-- A page as `Debug` shows it.
pub record PageStats : Type 0 where
  pub free : ℕ
  pub used : ℕ

-- A `&Pointer<PagePool<T>>`: the head of a list, or the link that a page holds.
pub data Cursor : Type 0 where
  head : Cursor
  link : ℕ → Cursor

module _ {T : Type 0} where
  -- The loop of `stats`: the zeros and the number of pages.
  unfoldable pub stats_loop : (fuel next used npages : ℕ) → PoolCmd T (ℕ × ℕ)
  unfolding deref
  stats_loop zero next used npages = λ _. out_of_fuel
  stats_loop (suc fuel) next used npages =
      if next == null
      then pure (used, npages)
      else do g ← deref next; stats_loop fuel g.next (used + count_zeros g.bitfield) (npages + 1)

  -- `Pool::stats`
  unfoldable pub stats : (fuel : ℕ) → Pool → PoolCmd T (ℕ × ℕ)
  unfolding stats_loop
  stats fuel pool = do
    (used, npages) ← stats_loop fuel pool.page_list 0 0
    assert (npages == pool.npages)
    free ← checked_sub (npages * block_per_page) used
    pure (used, free)

  -- The pages that `Debug for Pool` lists.
  unfoldable pub debug_pages : (fuel next : ℕ) → PoolCmd T (List PageStats)
  unfolding deref
  debug_pages zero next = λ _. out_of_fuel
  debug_pages (suc fuel) next = if next == null then pure [] else do
    g ← deref next
    let used = count_zeros g.bitfield
    free ← checked_sub block_per_page used
    rest ← debug_pages fuel g.next
    pure (record { free = free; used = used } ∷ rest)

  -- Reading and writing through a cursor on the free list,
  unfoldable pub free_at : Cursor → PoolCmd T ℕ
  unfolding deref free_get
  free_at head = free_get
  free_at (link p) = do g ← deref p; pure g.next_free

  unfoldable pub set_free_at : Cursor → ℕ → PoolCmd T (Unit {0})
  unfolding deref store free_set
  set_free_at head q = free_set q
  set_free_at (link p) q = do g ← deref p; store p (record g { next_free = q })

  -- and on the list of all pages, whose head is passed along.
  unfoldable pub next_at : Cursor → (page_list : ℕ) → PoolCmd T ℕ
  unfolding deref
  next_at head page_list = pure page_list
  next_at (link p) page_list = do g ← deref p; pure g.next

  unfoldable pub set_next_at : Cursor → ℕ → (page_list : ℕ) → PoolCmd T ℕ
  unfolding deref store
  set_next_at head q page_list = pure q
  set_next_at (link p) q page_list = do g ← deref p; store p (record g { next = q }); pure page_list

  -- The first loop of `shrink_to_fit`: pages with no block in use leave the free list.
  unfoldable pub unlink_unused : (fuel : ℕ) → Cursor → (to_drop : List ℕ) → PoolCmd T (List ℕ)
  unfolding deref free_at set_free_at
  unlink_unused zero current to_drop = λ _. out_of_fuel
  unlink_unused (suc fuel) current to_drop = do
    page ← free_at current
    if page == null then pure to_drop else do
      g ← deref page
      let next_value = g.next_free
      if g.bitfield == all_ones
          then (do
            set_free_at current next_value
            unlink_unused fuel current (to_drop ++ page ∷ []))
          else unlink_unused fuel (link page) to_drop

  -- The second loop: those pages leave the list of all pages.
  unfoldable pub unlink_dropped :
      (fuel : ℕ) → Cursor → (page_list : ℕ) → (to_drop : List ℕ) → PoolCmd T ℕ
  unfolding deref next_at set_next_at
  unlink_dropped zero current page_list to_drop = λ _. out_of_fuel
  unlink_dropped (suc fuel) current page_list to_drop = do
    page ← next_at current page_list
    if page == null then pure page_list else do
      g ← deref page
      let next_value = g.next
      if has page to_drop
          then (do
            page_list' ← set_next_at current next_value page_list
            unlink_dropped fuel current page_list' to_drop)
          else unlink_dropped fuel (link page) page_list to_drop

  unfoldable pub drop_pages : List ℕ → PoolCmd T (Unit {0})
  unfolding Page.drop_page
  drop_pages [] = pure tt
  drop_pages (p ∷ ps) = do Page.drop_page p; drop_pages ps

  -- `Pool::shrink_to_fit`
  unfoldable pub shrink_to_fit : (fuel : ℕ) → Pool → PoolCmd T Pool
  unfolding unlink_unused unlink_dropped drop_pages
  shrink_to_fit fuel pool = do
    to_drop ← unlink_unused fuel head []
    page_list ← unlink_dropped fuel head pool.page_list to_drop
    npages ← checked_sub pool.npages (length to_drop)
    drop_pages (reverse to_drop)
    pure (record { page_list = page_list; npages = npages })

  unfoldable pub drop_loop : (fuel next : ℕ) → PoolCmd T (Unit {0})
  unfolding deref Page.drop_page
  drop_loop zero next = λ _. out_of_fuel
  drop_loop (suc fuel) next =
      if next == null
      then pure tt
      else do g ← deref next; let next_next = g.next; Page.drop_page next; drop_loop fuel next_next

  -- `Drop for Pool`, and then the drop of its field `free`: the last strong reference to the cell.
  unfoldable pub drop : (fuel : ℕ) → Pool → PoolCmd T (Unit {0})
  unfolding drop_loop
  drop fuel pool = do drop_loop fuel pool.page_list; m ← get; put (record m { list = none })
