-- ===== src/Arena/Walk.antt =====
-- arena.rs: the functions that walk the lists: `shrink_to_fit`, `stats`, the figures of `Debug`,
-- and `Drop`. `fuel` bounds each walk.
use shared_arena.Base.{
  ℕ, zero, suc, ◌+◌, ◌*◌, bit_or, Bool, true, none, List, [], ◌∷◌, ◌++◌, ◌==◌, if◌then◌else◌,
  length, has,
}
use shared_arena.Word.{block_per_page, all_ones, count_zeros}
use shared_arena.Memory.{null, deref, checked_sub}
use shared_arena.Memory.Cursor.{Field, Cursor, head, link, load, compare_exchange}
use shared_arena.Run.{out_of_fuel, pure, ◌>>=◌, ◌>>◌, get, put, assert}
use shared_arena.Page.Arena as Page
use shared_arena.Page.Arena.{PageArena, ArenaCmd}
use shared_arena.Arena.{Arena}

-- A page as `Debug` shows it.
pub record PageStats : Type 0 where
  pub free : ℕ
  pub used : ℕ

module _ {T : Type 0} where
  abbrev pub free_link : Field (PageArena T)
  free_link = record { get_field = λ g. g.next_free; set_field = λ q g. record g { next_free = q } }

  abbrev pub full_link : Field (PageArena T)
  full_link = record { get_field = λ g. g.next; set_field = λ q g. record g { next = q } }

  -- The first loop of `shrink_to_fit`: pages with no block in use leave the free list. Returned are
  -- the head of the list and the pages that left it.
  unfoldable pub unlink_unused :
      (fuel : ℕ) → Cursor → (start : ℕ) → (to_drop : List ℕ) → ArenaCmd T (ℕ × List ℕ)
  unlink_unused zero current start to_drop = λ _. out_of_fuel
  unlink_unused (suc fuel) current start to_drop = do
    page ← load free_link current start
    if page == null then pure (start, to_drop) else do
      g ← deref page
      let next_value = g.next_free
      if bit_or g.bitfield g.bitfield_atomic == all_ones
          then (do
            (done, start') ← compare_exchange free_link current start page next_value
            unlink_unused fuel current start' (if done then to_drop ++ page ∷ [] else to_drop))
          else unlink_unused fuel (link page) start to_drop

  -- The second loop: those pages leave the list of all pages, whose head is returned.
  unfoldable pub unlink_dropped :
      (fuel : ℕ) → Cursor → (full_list : ℕ) → (to_drop : List ℕ) → ArenaCmd T ℕ
  unlink_dropped zero current full_list to_drop = λ _. out_of_fuel
  unlink_dropped (suc fuel) current full_list to_drop = do
    page ← load full_link current full_list
    if page == null then pure full_list else do
      g ← deref page
      let next_value = g.next
      if has page to_drop
          then (do
            (done, full_list') ← compare_exchange full_link current full_list page next_value
            assert done
            unlink_dropped fuel current full_list' to_drop)
          else unlink_dropped fuel (link page) full_list to_drop

  -- The third loop: the arena lets go of them.
  unfoldable pub drop_pages : List ℕ → ArenaCmd T (Unit {0})
  drop_pages [] = pure tt
  drop_pages (p ∷ ps) = do
    g ← deref p
    assert (bit_or g.bitfield g.bitfield_atomic == all_ones)
    Page.drop_page p
    drop_pages ps

  -- `Arena::shrink_to_fit`
  unfoldable pub shrink_to_fit : (fuel : ℕ) → Arena → ArenaCmd T (Arena × Bool)
  shrink_to_fit fuel arena = do
    (start, to_drop) ← unlink_unused fuel head arena.free_list []
    full_list ← unlink_dropped fuel head arena.full_list to_drop
    drop_pages to_drop
    npages ← checked_sub arena.npages (length to_drop)
    pure (record { free_list = start; full_list = full_list; npages = npages }, true)

  -- The loop of `stats`: the zeros and the number of pages.
  unfoldable pub stats_loop : (fuel next used npages : ℕ) → ArenaCmd T (ℕ × ℕ)
  stats_loop zero next used npages = λ _. out_of_fuel
  stats_loop (suc fuel) next used npages = if next == null then pure (used, npages) else do
    g ← deref next
    let zeros = count_zeros (bit_or g.bitfield g.bitfield_atomic)
    stats_loop fuel g.next (used + zeros) (npages + 1)

  -- `Arena::stats`
  unfoldable pub stats : (fuel : ℕ) → Arena → ArenaCmd T (ℕ × ℕ)
  stats fuel arena = do
    (used, npages) ← stats_loop fuel arena.full_list 0 0
    assert (npages == arena.npages)
    free ← checked_sub (npages * block_per_page) used
    pure (used, free)

  -- The pages that `Debug for Arena` lists.
  unfoldable pub debug_pages : (fuel next : ℕ) → ArenaCmd T (List PageStats)
  debug_pages zero next = λ _. out_of_fuel
  debug_pages (suc fuel) next = if next == null then pure [] else do
    g ← deref next
    let used = count_zeros (bit_or g.bitfield g.bitfield_atomic)
    free ← checked_sub block_per_page used
    rest ← debug_pages fuel g.next
    pure (record { free = free; used = used } ∷ rest)

  unfoldable pub drop_loop : (fuel next : ℕ) → ArenaCmd T (Unit {0})
  drop_loop zero next = λ _. out_of_fuel
  drop_loop (suc fuel) next =
      if next == null
      then pure tt
      else do g ← deref next; let next_next = g.next; Page.drop_page next; drop_loop fuel next_next

  -- `Drop for Arena`, and then the drop of its field `pending_free_list`, the last strong reference
  -- to the cell.
  unfoldable pub drop : (fuel : ℕ) → Arena → ArenaCmd T (Unit {0})
  drop fuel arena = do drop_loop fuel arena.full_list; m ← get; put (record m { list = none })
