-- ===== src/Page/Arena/Steps.antt =====
-- page/arena.rs: the two bitfields of one page under the operations of its arena and of the pointers
-- to its blocks, on any threads. Each step is one atomic operation and what the task does with the
-- value that it returned. Where a task is is told as for page/shared_arena.rs; none is `loaded`.
use shared_arena.Base.{
  ℕ, ◌+◌, ◌%◌, ◌^◌, bit_and, bit_or, ◌≡◌, ◌≢◌, Bool, true, false, not, ◌==◌, if◌then◌else◌,
}
use shared_arena.Word.{block_per_page, u64_mod, all_ones, bit_not, trailing_zeros}
use shared_arena.Memory.{update}
use shared_arena.Page.SharedArena.{Local, outside, holds, listing, last}

-- `arena_holds` says that the arena has not called `drop_page`, and `merging` that
-- `acquire_free_block` has seen that `bitfield_atomic` is not 0 and not yet swapped it.
pub record TwoBitfields : Type 0 where
  pub bitfield : ℕ
  pub bitfield_atomic : ℕ
  pub live : Bool
  pub arena_holds : Bool
  pub merging : Bool
  pub local : ℕ → Local

-- `acquire_free_block` where a bit is set: `bitfield` without it.
unfoldable pub without_bit : (bitfield index : ℕ) → ℕ
without_bit bitfield index = bit_and bitfield (bit_not (2 ^ index))

-- `drop_block`: `fetch_add(bit)`, and the test for the last reference.
unfoldable pub fetch_add_bit : (bitfield_atomic index : ℕ) → ℕ
fetch_add_bit bitfield_atomic index = (bitfield_atomic + 2 ^ index) % u64_mod

unfoldable pub after_fetch_add : (old_bitfield index : ℕ) → Local
after_fetch_add old_bitfield index =
    if bit_or old_bitfield (2 ^ index) == all_ones then last else listing

-- `drop_page`: the test after `fetch_or(bitfield)`.
unfoldable pub after_fetch_or : (old_bitfield bitfield : ℕ) → Local
after_fetch_or old_bitfield bitfield =
    if bit_or old_bitfield bitfield == all_ones then last else outside

abbrev pub moved : TwoBitfields → ℕ → Local → TwoBitfields
moved s t l = record s { local = update s.local t l }

-- A step, of the task `t` or of the one thread that owns the arena. That thread is in one call at a
-- time, so that it is not between the load and the swap when it begins another one.
pub data Step (s : TwoBitfields) : TwoBitfields → Type 0 where
  take :
      {t : ℕ}
      → s.local t ≡ outside
      → s.arena_holds ≡ true
      → s.merging ≡ false
      → trailing_zeros s.bitfield ≢ block_per_page
      → Step s (record (moved s t (holds (trailing_zeros s.bitfield))) {
        bitfield = without_bit s.bitfield (trailing_zeros s.bitfield);
      })
  look :
      s.arena_holds ≡ true
      → s.merging ≡ false
      → trailing_zeros s.bitfield ≡ block_per_page
      → Step s (record s { merging = not (s.bitfield_atomic == 0) })
  merge :
      s.arena_holds ≡ true
      → s.merging ≡ true
      → Step s (record s {
        bitfield = bit_or s.bitfield s.bitfield_atomic;
        bitfield_atomic = 0;
        merging = false;
      })
  give :
      {t i : ℕ}
      → s.local t ≡ holds i
      → Step s (record (moved s t (after_fetch_add s.bitfield_atomic i)) {
        bitfield_atomic = fetch_add_bit s.bitfield_atomic i;
      })
  let_go :
      {t : ℕ}
      → s.local t ≡ outside
      → s.arena_holds ≡ true
      → s.merging ≡ false
      → Step s (record (moved s t (after_fetch_or s.bitfield_atomic s.bitfield)) {
        bitfield_atomic = bit_or s.bitfield_atomic s.bitfield;
        arena_holds = false;
      })
  list : {t : ℕ} → s.local t ≡ listing → Step s (moved s t outside)
  deallocate : {t : ℕ} → s.local t ≡ last → Step s (record (moved s t outside) { live = false })

-- `PageArena::new`: all blocks are free and the arena holds the page.
abbrev pub start : TwoBitfields
start = record {
  bitfield = all_ones;
  bitfield_atomic = 0;
  live = true;
  arena_holds = true;
  merging = false;
  local = λ _. outside;
}

-- The states that some interleaving of the tasks leads to.
pub data Reachable : TwoBitfields → Type 0 where
  begin : Reachable start
  next : {s s' : TwoBitfields} → Reachable s → Step s s' → Reachable s'
