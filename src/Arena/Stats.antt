-- ===== src/Arena/Stats.antt =====
-- `Arena::stats` of arena.rs and the figures of its `Debug`.
use mathlib.Core.Path.{ap₂}
use shared_arena.Base.{
  ℕ, zero, suc, ◌+◌, ◌-◌, ◌*◌, ◌≤◌, ◌<◌, bit_or, ◌≡◌, ◌≢◌, ap, ◌∙◌, true, List, [], ◌∷◌, arith,
  length, has, ==_refl,
}
use shared_arena.Word.{block_per_page, count_zeros}
use shared_arena.Word.Bits.{test_bit-bit_or, bit_or-lt}
use shared_arena.Memory.{Memory, deref}
use shared_arena.Memory.Chain.{Chain}
use shared_arena.Run.{ok}
use shared_arena.Page.Arena.{PageArena}
use shared_arena.Page.Pool.Acquire.{IsBitfield}
use shared_arena.Pool.Stats.{clear_bits, clear_on, clear_bits-le, count_zeros-clear_bits}
use shared_arena.Arena.{Arena}
use shared_arena.Arena.Valid.{IsPage, IsValid}
use shared_arena.Arena.Walk.{PageStats, stats_loop, stats, debug_pages}

module _ {T : Type 0} (m : Memory (PageArena T)) where
  -- The blocks that are free, in one word.
  abbrev pub free_word : ℕ → ℕ
  free_word p = bit_or (m.page p).bitfield (m.page p).bitfield_atomic

  -- The number of blocks in use on some pages.
  abbrev pub in_use : List ℕ → ℕ
  in_use = clear_on free_word

  -- What `Debug` shows of some pages.
  abbrev pub shown : List ℕ → List PageStats
  shown [] = []
  shown (p ∷ ps) =
      record {
        free = block_per_page - clear_bits block_per_page (free_word p);
        used = clear_bits block_per_page (free_word p);
      }
      ∷ shown ps

  in_use-le : (ps : List ℕ) → in_use ps ≤ length ps * block_per_page
  in_use-le [] = omega arith
  in_use-le (p ∷ ps) = omega (arith, in_use-le ps, clear_bits-le 63 (free_word p))

  zeros : (p : ℕ) → IsPage m p → count_zeros (free_word p) ≡ clear_bits block_per_page (free_word p)
  zeros p page = count_zeros-clear_bits (free_word p) merged
    where
      merged : IsBitfield (free_word p)
      merged = (
        bit_or-lt 64 (m.page p).bitfield (m.page p).bitfield_atomic page.bits.word
            (omega (arith, page.bits.atomic)),
        ground (
          arith,
          test_bit-bit_or 63 (m.page p).bitfield (m.page p).bitfield_atomic,
          page.bits.top,
        ),
      )

  stats_next :
      (fuel p used n : ℕ)
      → p ≢ 0
      → m.live p ≡ true
      → stats_loop (suc fuel) p used n m
        ≡ stats_loop fuel (m.page p).next (used + count_zeros (free_word p)) (n + 1) m
  unfolding stats_loop deref
  stats_next fuel p used n ne alive = ground arith

  stats_loop-eq :
      (fuel first : ℕ) (ps : List ℕ) (used n : ℕ)
      → Chain (λ p. (m.page p).next) first ps
      → ((p : ℕ) → has p ps ≡ true → IsPage m p)
      → length ps < fuel
      → stats_loop fuel first used n m ≡ ok (used + in_use ps, n + length ps) m
  unfolding stats_loop
  stats_loop-eq zero first ps used n chain pages enough = absurd (omega arith)
  stats_loop-eq (suc fuel) first [] used n chain pages enough = ground arith
  stats_loop-eq (suc fuel) first (p ∷ ps) used n (e, ne, chain) pages enough =
      let page : IsPage m p = pages p (ground (arith, ==_refl p)) in
      let rest =
        stats_loop-eq fuel (m.page p).next ps (used + count_zeros (free_word p)) (n + 1) chain
          (λ q h. pages q (ground arith)) (omega arith) in
      let here = zeros p page in
      ap (λ q. stats_loop (suc fuel) q used n m) e
      ∙ stats_next fuel p used n ne page.alive
      ∙ rest
      ∙ ap₂ (λ a b. ok (a, b) m) (omega (arith, here)) (omega arith)

  debug_pages-eq :
      (fuel first : ℕ) (ps : List ℕ)
      → Chain (λ p. (m.page p).next) first ps
      → ((p : ℕ) → has p ps ≡ true → IsPage m p)
      → length ps < fuel
      → debug_pages fuel first m ≡ ok (shown ps) m
  unfolding debug_pages deref
  debug_pages-eq zero first ps chain pages enough = absurd (omega arith)
  debug_pages-eq (suc fuel) first [] chain pages enough = ground arith
  debug_pages-eq (suc fuel) first (p ∷ ps) (e, ne, chain) pages enough =
      let page : IsPage m p = pages p (ground (arith, ==_refl p)) in
      let rest =
        debug_pages-eq fuel (m.page p).next ps chain (λ q h. pages q (ground arith))
          (omega arith) in
      ground (arith, page.alive, zeros p page, clear_bits-le 63 (free_word p))

  -- `Arena::stats` of a valid arena, with more rounds than there are pages, returns the number of
  -- blocks of all pages that neither bitfield has, and the rest of 63 times the number of pages,
  -- and `Debug` shows for each page, in the order of the list, the same two figures of that page;
  -- neither changes anything, and no assertion and no difference panics.
  pub arena_stats-eq :
      (fuel : ℕ) (arena : Arena) (all free pending : List ℕ)
      → IsValid m arena all free pending
      → length all < fuel
      → (stats fuel arena m ≡ ok (in_use all, arena.npages * block_per_page - in_use all) m)
        × (debug_pages fuel arena.full_list m ≡ ok (shown all) m)
  unfolding stats
  arena_stats-eq fuel arena all free pending v enough = (
    rw (stats_loop-eq fuel arena.full_list all 0 0 v.all_chain v.pages enough)
        (ground (arith, v.count, in_use-le all, ==_refl arena.npages)),
    debug_pages-eq fuel arena.full_list all v.all_chain v.pages enough,
  )
