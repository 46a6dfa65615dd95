-- ===== src/Page/SharedArena/Invariant.antt =====
-- The invariant of a page of a `SharedArena` (page/shared_arena.rs) between two atomic operations.
use shared_arena.Base.{ℕ, ◌<◌, ◌≡◌, ◌≢◌, refl, ◌⊎◌, true, false, arith}
use shared_arena.Word.{test_bit, block_per_page, IsWord}
use shared_arena.Word.Ext.{test_bit-all_ones}
use shared_arena.Page.SharedArena.{loaded, holds, last, Shared, start}

-- No block of the page is in use.
abbrev pub AllFree : Shared → Type 0
AllFree s = (i : ℕ) → i < block_per_page → test_bit s.bitfield i ≡ true

pub record Inv (s : Shared) : Type 0 where
  pub word : IsWord s.bitfield
  pub top : test_bit s.bitfield 63 ≡ s.arena_holds
  pub below : (t i : ℕ) → s.local t ≡ loaded i → (i < block_per_page) × (s.arena_holds ≡ true)
  pub owned :
      (t i : ℕ) → s.local t ≡ holds i → (i < block_per_page) × (test_bit s.bitfield i ≡ false)
  pub unique : (t u i : ℕ) → s.local t ≡ holds i → s.local u ≡ holds i → t ≡ u
  pub owner :
      (i : ℕ) → i < block_per_page → test_bit s.bitfield i ≡ false → (t : ℕ) × (s.local t ≡ holds i)
  pub last_free :
      (t : ℕ)
      → s.local t ≡ last
      → AllFree s × (s.arena_holds ≡ false) × (s.live ≡ true) × ((u : ℕ) → s.local u ≡ last → u ≡ t)
  pub dead_free :
      s.live ≡ false → AllFree s × (s.arena_holds ≡ false) × ((t : ℕ) → s.local t ≢ last)
  pub no_leak :
      AllFree s → s.arena_holds ≡ false → ((t : ℕ) × (s.local t ≡ last)) ⊎ (s.live ≡ false)

pub Inv-start : Inv start
Inv-start = record {
  word = omega arith;
  top = refl;
  below = λ t i e. cc e;
  owned = λ t i e. cc e;
  unique = λ t u i e e'. cc e;
  owner = λ i lt off. cc (test_bit-all_ones i (omega arith), off);
  last_free = λ t e. cc e;
  dead_free = λ e. cc e;
  no_leak = λ all e. cc e;
}
