-- ===== src/Pool/Stats.antt =====
-- `Pool::stats` of pool.rs.
use mathlib.Core.Path.{ap₂}
use shared_arena.Base.{
  ℕ, zero, suc, ◌+◌, ◌-◌, ◌*◌, ◌/◌, ◌≤◌, ◌<◌, ◌≡◌, ◌≢◌, refl, ap, ◌∙◌, true, List, [], ◌∷◌, arith,
  if◌then◌else◌, length, has, ==_refl,
}
use shared_arena.Word.{test_bit, block_per_page, ones, count_ones, count_zeros}
use shared_arena.Memory.{Memory, deref}
use shared_arena.Memory.Chain.{Chain}
use shared_arena.Run.{ok}
use shared_arena.Page.Pool.{PagePool}
use shared_arena.Page.Pool.Acquire.{IsBitfield}
use shared_arena.Pool.{Pool}
use shared_arena.Pool.Valid.{IsPage, IsValid}
use shared_arena.Pool.Walk.{stats_loop, stats}

-- The number of clear bits below bit `k`.
unfoldable pub clear_bits : ℕ → ℕ → ℕ
clear_bits zero w = 0
clear_bits (suc k) w = clear_bits k w + (if test_bit w k then 0 else 1)

ones_last : (k w : ℕ) → ones (suc k) w ≡ ones k w + (if test_bit w k then 1 else 0)
unfolding ones
ones_last zero w = ground arith
ones_last (suc k) w = omega (arith, ones_last k (w / 2))

ones-clear_bits : (k w : ℕ) → ones k w + clear_bits k w ≡ k
unfolding ones clear_bits
ones-clear_bits zero w = refl
ones-clear_bits (suc k) w = ground (arith, ones_last k w, ones-clear_bits k w)

pub clear_bits-le : (k w : ℕ) → clear_bits k w ≤ k
clear_bits-le k w = omega (arith, ones-clear_bits k w)

pub count_zeros-clear_bits : (w : ℕ) → IsBitfield w → count_zeros w ≡ clear_bits block_per_page w
unfolding count_zeros count_ones
count_zeros-clear_bits w (word, top) =
    let below = ones-clear_bits 63 w in
    let last : ones 64 w ≡ ones 63 w + 1 = ones_last 63 w ∙ rw top in omega (arith, below, last)

-- The clear bits of the words `w` on some pages.
abbrev pub clear_on : (ℕ → ℕ) → List ℕ → ℕ
clear_on w [] = 0
clear_on w (p ∷ ps) = clear_bits block_per_page (w p) + clear_on w ps

module _ {T : Type 0} (m : Memory (PagePool T)) where
  -- The number of blocks in use on some pages.
  abbrev pub in_use : List ℕ → ℕ
  in_use = clear_on (λ p. (m.page p).bitfield)

  in_use-le : (ps : List ℕ) → in_use ps ≤ length ps * block_per_page
  in_use-le [] = omega arith
  in_use-le (p ∷ ps) = omega (arith, in_use-le ps, clear_bits-le 63 (m.page p).bitfield)

  stats_next :
      (fuel p used n : ℕ)
      → p ≢ 0
      → m.live p ≡ true
      → stats_loop (suc fuel) p used n m
        ≡ stats_loop fuel (m.page p).next (used + count_zeros (m.page p).bitfield) (n + 1) m
  unfolding stats_loop deref
  stats_next fuel p used n ne alive = ground arith

  stats_loop-eq :
      (fuel first : ℕ) (ps : List ℕ) (used n : ℕ)
      → Chain (λ p. (m.page p).next) first ps
      → ((p : ℕ) → has p ps ≡ true → IsPage m p)
      → length ps < fuel
      → stats_loop fuel first used n m ≡ ok (used + in_use ps, n + length ps) m
  unfolding stats_loop
  stats_loop-eq zero first ps used n chain pages enough = absurd (omega arith)
  stats_loop-eq (suc fuel) first [] used n chain pages enough = ground arith
  stats_loop-eq (suc fuel) first (p ∷ ps) used n (e, ne, chain) pages enough =
      let page : IsPage m p = pages p (ground (arith, ==_refl p)) in
      let rest =
        stats_loop-eq fuel (m.page p).next ps (used + count_zeros (m.page p).bitfield) (n + 1) chain
          (λ q h. pages q (ground arith)) (omega arith) in
      let here = count_zeros-clear_bits (m.page p).bitfield page.bits in
      ap (λ q. stats_loop (suc fuel) q used n m) e
      ∙ stats_next fuel p used n ne page.alive
      ∙ rest
      ∙ ap₂ (λ a b. ok (a, b) m) (omega arith) (omega arith)

  -- `Pool::stats` of a valid pool, with more rounds than there are pages, returns the number of
  -- clear bits below bit 63 on all pages, and the rest of 63 times the number of pages; it changes
  -- nothing, and neither its assertion nor its difference panics.
  pub stats-eq :
      (fuel : ℕ) (pool : Pool) (all free : List ℕ)
      → IsValid m pool all free
      → length all < fuel
      → stats fuel pool m ≡ ok (in_use all, pool.npages * block_per_page - in_use all) m
  unfolding stats
  stats-eq fuel pool all free v enough =
      rw (stats_loop-eq fuel pool.page_list all 0 0 v.all_chain v.pages enough)
        (ground (arith, v.count, in_use-le all, ==_refl pool.npages))
