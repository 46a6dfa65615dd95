-- ===== src/SharedArena/Walk.antt =====
-- shared_arena.rs: the functions that walk the lists: `shrink_to_fit`, `stats`, the figures of
-- `Debug`, and `Drop`. `fuel` bounds each walk.
use shared_arena.Base.{
  ℕ, zero, suc, ◌+◌, ◌-◌, ◌*◌, ◌%◌, Bool, true, false, not, none, some, List, [], ◌∷◌, ◌++◌, ◌==◌,
  if◌then◌else◌, length, has,
}
use shared_arena.Word.{block_per_page, u64_mod, all_ones, count_ones, count_zeros}
use shared_arena.Memory.{null, deref, checked_sub}
use shared_arena.Memory.Cursor.{Field, Cursor, head, link, load, compare_exchange}
use shared_arena.Run.{out_of_fuel, pure, ◌>>=◌, ◌>>◌, get, put, assert}
use shared_arena.Page.SharedMemory as Page
use shared_arena.Page.SharedMemory.{PageSharedArena, SharedCmd}
use shared_arena.SharedArena.{
  SharedArena, writer_new_blocking, writer_drop, drop_pages, pending_load,
}

-- A page as `Debug` shows it.
pub record PageStats : Type 0 where
  pub free : ℕ
  pub used : ℕ

-- The pages that were unlinked are kept for `maybe_free_pages` and `take_pages_to_be_freed`.
unfoldable pub keep_for_later : (to_drop : List ℕ) → SharedArena → SharedArena
keep_for_later to_drop arena =
    if not (length to_drop == 0)
    then elim (arena.to_free) [
      | some to_free ↦ record arena { to_free_delay = 0; to_free = some (to_free ++ to_drop) }
      | none ↦ record arena { to_free_delay = 0; to_free = some to_drop }
    ]
    else arena

module _ {T : Type 0} where
  abbrev pub free_link : Field (PageSharedArena T)
  free_link = record { get_field = λ g. g.next_free; set_field = λ q g. record g { next_free = q } }

  abbrev pub full_link : Field (PageSharedArena T)
  full_link = record { get_field = λ g. g.next; set_field = λ q g. record g { next = q } }

  -- The first loop of `shrink_to_fit`: pages with no block in use leave the free list. Returned are
  -- the head of the list and the pages that left it.
  unfoldable pub unlink_unused :
      (fuel : ℕ) → Cursor → (start : ℕ) → (to_drop : List ℕ) → SharedCmd T (ℕ × List ℕ)
  unlink_unused zero current start to_drop = λ _. out_of_fuel
  unlink_unused (suc fuel) current start to_drop = do
    page ← load free_link current start
    if page == null then pure (start, to_drop) else do
      g ← deref page
      let next_value = g.next_free
      if g.bitfield == all_ones
          then (do
            (done, start') ← compare_exchange free_link current start page next_value
            unlink_unused fuel current start' (if done then to_drop ++ page ∷ [] else to_drop))
          else unlink_unused fuel (link page) start to_drop

  -- `to_drop.retain(..)`: the pages that still have no block in use.
  unfoldable pub retain_unused : List ℕ → SharedCmd T (List ℕ)
  retain_unused [] = pure []
  retain_unused (p ∷ ps) = do
    g ← deref p
    rest ← retain_unused ps
    pure (if g.bitfield == all_ones then p ∷ rest else rest)

  -- The second loop: those pages leave the list of all pages, whose head is returned.
  unfoldable pub unlink_dropped :
      (fuel : ℕ) → Cursor → (full_list : ℕ) → (to_drop : List ℕ) → SharedCmd T ℕ
  unlink_dropped zero current full_list to_drop = λ _. out_of_fuel
  unlink_dropped (suc fuel) current full_list to_drop = do
    page ← load full_link current full_list
    if page == null then pure full_list else do
      g ← deref page
      let next_value = g.next
      if has page to_drop
          then (do
            (done, full_list') ← compare_exchange full_link current full_list page next_value
            assert done
            unlink_dropped fuel current full_list' to_drop)
          else unlink_dropped fuel (link page) full_list to_drop

  -- `SharedArena::shrink_to_fit`. `fetch_sub` wraps.
  unfoldable pub shrink_to_fit : (fuel tries : ℕ) → SharedArena → SharedCmd T (SharedArena × Bool)
  shrink_to_fit fuel tries arena = if arena.shrinking then pure (arena, false) else do
    arena₁ ← writer_new_blocking tries (record arena { shrinking = true })
    let arena₂ = record arena₁ { free_list = null }
    (start, unused) ← unlink_unused fuel head arena₁.free_list []
    to_drop ← retain_unused unused
    full_list ← unlink_dropped fuel head arena₂.full_list to_drop
    let nfreed = length to_drop
    let arena₃ = keep_for_later to_drop (record arena₂ { full_list = full_list })
    assert (arena₃.free_list == null)
    pure (
      writer_drop (record arena₃ {
        free_list = start;
        npages = (arena₃.npages + u64_mod - nfreed) % u64_mod;
        shrinking = false;
      }),
      true,
    )

  -- The loops of `stats`: the ones, less the arena's bit, of the pages of a free list.
  unfoldable pub stats_loop : (fuel next free : ℕ) → SharedCmd T ℕ
  stats_loop zero next free = λ _. out_of_fuel
  stats_loop (suc fuel) next free = if next == null then pure free else do
    g ← deref next
    ones ← checked_sub (count_ones g.bitfield) 1
    stats_loop fuel g.next_free (free + ones)

  -- `SharedArena::stats`
  unfoldable pub stats : (fuel : ℕ) → SharedArena → SharedCmd T (ℕ × ℕ)
  stats fuel arena = do
    in_free ← stats_loop fuel arena.free_list 0
    pending ← pending_load
    free ← stats_loop fuel pending in_free
    used ← checked_sub (arena.npages * block_per_page) free
    pure (used, free)

  -- The pages that `Debug for SharedArena` lists.
  unfoldable pub debug_pages : (fuel next : ℕ) → SharedCmd T (List PageStats)
  debug_pages zero next = λ _. out_of_fuel
  debug_pages (suc fuel) next = if next == null then pure [] else do
    g ← deref next
    let used = count_zeros g.bitfield
    free ← checked_sub block_per_page used
    rest ← debug_pages fuel g.next
    pure (record { free = free; used = used } ∷ rest)

  unfoldable pub drop_loop : (fuel next : ℕ) → SharedCmd T (Unit {0})
  drop_loop zero next = λ _. out_of_fuel
  drop_loop (suc fuel) next =
      if next == null
      then pure tt
      else do g ← deref next; let next_next = g.next; Page.drop_page next; drop_loop fuel next_next

  -- `Drop for SharedArena`, and then the drop of its field `pending_free_list`, the last strong
  -- reference to the cell.
  unfoldable pub drop : (fuel : ℕ) → SharedArena → SharedCmd T (Unit {0})
  drop fuel arena = do
    elim (arena.to_free) [ none ↦ pure tt | some to_free ↦ drop_pages to_free ]
    drop_loop fuel arena.full_list
    m ← get
    put (record m { list = none })
