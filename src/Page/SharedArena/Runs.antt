-- ===== src/Page/SharedArena/Runs.antt =====
-- Runs of the tasks at one page (page/shared_arena.rs).
use shared_arena.Base.{ℕ, ◌-◌, ◌^◌, ◌≡◌, ◌≢◌, arith, refl, false}
use shared_arena.Word.{trailing, trailing_zeros}
use shared_arena.Page.SharedArena.{
  outside, loaded, holds, listing, last, Shared, after_load, after_fetch_and, fetch_and_bit,
  after_fetch_add, fetch_add_bit, after_fetch_sub, fetch_sub_mask, load, take, give, let_go,
  deallocate, Reachable, begin, next, start, moved,
}

-- Task 0 and task 1 load the same index; task 0 takes the block, and task 1 begins again.
abbrev loaded_0 : Shared
loaded_0 = moved start 0 (loaded 0)

abbrev loaded_both : Shared
loaded_both = moved loaded_0 1 (loaded 0)

abbrev taken_0 : Shared
taken_0 = record (moved loaded_both 0 (holds 0)) { bitfield = 2 ^ 64 - 2 }

Reachable-loaded_0 : Reachable loaded_0
unfolding after_load trailing_zeros trailing
Reachable-loaded_0 = next {t = 0} begin (load refl refl)

Reachable-loaded_both : Reachable loaded_both
unfolding after_load trailing_zeros trailing
Reachable-loaded_both = next {t = 1} Reachable-loaded_0 (load refl refl)

Reachable-taken_0 : Reachable taken_0
unfolding after_fetch_and fetch_and_bit
Reachable-taken_0 = next {t = 0} Reachable-loaded_both (take refl)

abbrev again_1 : Shared
again_1 = record (moved taken_0 1 outside) { bitfield = 2 ^ 64 - 2 }

Reachable-again_1 : Reachable again_1
unfolding after_fetch_and fetch_and_bit
Reachable-again_1 = next {t = 1} Reachable-taken_0 (take refl)

-- Task 1 takes the next block, and the arena lets go of the page.
abbrev loaded_1 : Shared
loaded_1 = moved again_1 1 (loaded 1)

Reachable-loaded_1 : Reachable loaded_1
unfolding after_load trailing_zeros trailing
Reachable-loaded_1 = next {t = 1} Reachable-again_1 (load refl refl)

abbrev taken_1 : Shared
taken_1 = record (moved loaded_1 1 (holds 1)) { bitfield = 2 ^ 64 - 4 }

Reachable-taken_1 : Reachable taken_1
unfolding after_fetch_and fetch_and_bit
Reachable-taken_1 = next {t = 1} Reachable-loaded_1 (take refl)

-- The arena lets go of the page: no call of `acquire_free_block` is under way.
abbrev let_go_2 : Shared
let_go_2 = record (moved taken_1 2 outside) { bitfield = 2 ^ 63 - 4; arena_holds = false }

nobody_loaded : (u i : ℕ) → taken_1.local u ≢ loaded i
nobody_loaded u i e = ground arith

Reachable-let_go_2 : Reachable let_go_2
unfolding after_fetch_sub fetch_sub_mask
Reachable-let_go_2 = next {t = 2} Reachable-taken_1 (let_go refl refl nobody_loaded)

-- Task 0 frees its block and is about to read `in_free_list`,
abbrev given_0 : Shared
given_0 = record (moved let_go_2 0 listing) { bitfield = 2 ^ 63 - 3 }

Reachable-given_0 : Reachable given_0
unfolding after_fetch_add fetch_add_bit
Reachable-given_0 = next {t = 0} Reachable-let_go_2 (give refl)

-- when task 1 frees the last block and with it the page,
abbrev given_1 : Shared
given_1 = record (moved given_0 1 last) { bitfield = 2 ^ 63 - 1 }

Reachable-given_1 : Reachable given_1
unfolding after_fetch_add fetch_add_bit
Reachable-given_1 = next {t = 1} Reachable-given_0 (give refl)

abbrev freed_1 : Shared
freed_1 = record (moved given_1 1 outside) { live = false }

Reachable-freed_1 : Reachable freed_1
Reachable-freed_1 = next {t = 1} Reachable-given_1 (deallocate refl)

-- and then task 0 reads it.
read_after_free : Reachable freed_1 × (freed_1.live ≡ false) × (freed_1.local 0 ≡ listing)
read_after_free = (Reachable-freed_1, refl, refl)
