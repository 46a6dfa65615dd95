-- ===== src/Page/SharedArena.antt =====
-- page/shared_arena.rs: the bitfield of one page under its atomic operations. Tasks are pointers to
-- blocks and calls under way, on any threads; each step is one atomic operation and what the task
-- does with the value that it returned.
pub mod Bits
pub mod Give
pub mod Invariant
pub mod LetGo
pub mod Moves
pub mod Preserve
mod Runs
pub mod Safety
pub mod Take
pub mod Uses
use shared_arena.Base.{
  ℕ, ◌+◌, ◌-◌, ◌%◌, ◌^◌, bit_and, bit_or, ◌≡◌, ◌≢◌, Bool, true, false, Option, none, some, ◌==◌,
  if◌then◌else◌,
}
use shared_arena.Word.{block_per_page, u64_mod, mask_arena_bit, all_ones, bit_not, trailing_zeros}
use shared_arena.Memory.{update}

-- Where a task is: not at this page, in `acquire_free_block` between the load of the bitfield and
-- the `fetch_and`, the owner of a block, in `drop_block` after the `fetch_add` and about to read
-- `in_free_list`, or about to deallocate the page.
pub data Local : Type 0 where
  outside : Local
  loaded : ℕ → Local
  holds : ℕ → Local
  listing : Local
  last : Local

-- `arena_holds` says that the arena has not called `drop_page`.
pub record Shared : Type 0 where
  pub bitfield : ℕ
  pub live : Bool
  pub arena_holds : Bool
  pub local : ℕ → Local

-- `acquire_free_block` up to the test: the load.
unfoldable pub after_load : ℕ → Local
after_load bitfield =
    let index_free = trailing_zeros bitfield in
    if index_free == block_per_page then outside else loaded index_free

-- `fetch_and(!bit)`, and the test that the bit was still set. Where it was not, the loop begins
-- again with a load.
unfoldable pub fetch_and_bit : ℕ → ℕ → ℕ
fetch_and_bit bitfield index = bit_and bitfield (bit_not (2 ^ index))

unfoldable pub after_fetch_and : ℕ → ℕ → Local
after_fetch_and previous_bitfield index =
    if bit_and previous_bitfield (2 ^ index) == 0 then outside else holds index

-- `drop_block`: `fetch_add(bit)`, and the test for the last reference.
unfoldable pub fetch_add_bit : ℕ → ℕ → ℕ
fetch_add_bit bitfield index = (bitfield + 2 ^ index) % u64_mod

unfoldable pub after_fetch_add : ℕ → ℕ → Local
after_fetch_add old_bitfield index =
    if bit_not (bit_or old_bitfield (2 ^ index)) == mask_arena_bit then last else listing

-- `drop_page`: `fetch_sub(MASK_ARENA_BIT)`, and the test for the last reference.
unfoldable pub fetch_sub_mask : ℕ → ℕ
fetch_sub_mask bitfield = (bitfield + u64_mod - mask_arena_bit) % u64_mod

unfoldable pub after_fetch_sub : ℕ → Local
after_fetch_sub old_bitfield = if bit_not old_bitfield == 0 then last else outside

abbrev pub moved : Shared → ℕ → Local → Shared
moved s t l = record s { local = update s.local t l }

-- A step of the task `t`. The arena calls `acquire_free_block` on pages that it holds, and
-- `drop_page` where no call of `acquire_free_block` is under way.
pub data Step (s : Shared) (t : ℕ) : Shared → Type 0 where
  load : s.local t ≡ outside → s.arena_holds ≡ true → Step s t (moved s t (after_load s.bitfield))
  take :
      {i : ℕ}
      → s.local t ≡ loaded i
      → Step s t (record (moved s t (after_fetch_and s.bitfield i)) {
        bitfield = fetch_and_bit s.bitfield i;
      })
  give :
      {i : ℕ}
      → s.local t ≡ holds i
      → Step s t (record (moved s t (after_fetch_add s.bitfield i)) {
        bitfield = fetch_add_bit s.bitfield i;
      })
  let_go :
      s.local t ≡ outside
      → s.arena_holds ≡ true
      → ((u i : ℕ) → s.local u ≢ loaded i)
      → Step s t (record (moved s t (after_fetch_sub s.bitfield)) {
        bitfield = fetch_sub_mask s.bitfield;
        arena_holds = false;
      })
  list : s.local t ≡ listing → Step s t (moved s t outside)
  deallocate : s.local t ≡ last → Step s t (record (moved s t outside) { live = false })

-- `PageSharedArena::new`: all blocks are free and the arena holds the page.
abbrev pub start : Shared
start = record { bitfield = all_ones; live = true; arena_holds = true; local = λ _. outside }

-- The states that some interleaving of the tasks leads to.
pub data Reachable : Shared → Type 0 where
  begin : Reachable start
  next : {s s' : Shared} {t : ℕ} → Reachable s → Step s t s' → Reachable s'
