-- ===== src/Page/Arena/Runs.antt =====
-- A run of page/arena.rs on one page, with the two bitfields and the end of the page.
use shared_arena.Base.{ℕ, ◌+◌, ◌-◌, ◌^◌, bit_or, ◌≡◌, ◌≢◌, refl, ◌⊎◌, ◌↔◌, inr, true, false, arith}
use shared_arena.Word.{test_bit, trailing_zeros, trailing}
use shared_arena.Page.SharedArena.{outside, holds, listing, last}
use shared_arena.Page.Arena.Steps.{
  TwoBitfields, without_bit, fetch_add_bit, after_fetch_add, after_fetch_or, moved, take, give,
  let_go, start, Reachable, begin, next,
}
use shared_arena.Page.Arena.Safety.{
  page_live_while_used, page_freed_when_unused, takers_differ, block_free_iff_unowned,
  atomic_fetch_add-bit_or,
}

-- Tasks 0 and 1 take the first two blocks,
abbrev taken_0 : TwoBitfields
taken_0 = record (moved start 0 (holds 0)) { bitfield = 2 ^ 64 - 2 }

Reachable-taken_0 : Reachable taken_0
unfolding without_bit trailing_zeros trailing
Reachable-taken_0 = next begin (take {t = 0} refl refl refl (λ e. absurd (omega arith)))

abbrev taken_1 : TwoBitfields
taken_1 = record (moved taken_0 1 (holds 1)) { bitfield = 2 ^ 64 - 4 }

Reachable-taken_1 : Reachable taken_1
unfolding without_bit trailing_zeros trailing
Reachable-taken_1 = next Reachable-taken_0 (take {t = 1} refl refl refl (λ e. absurd (omega arith)))

-- task 0 gives its block back,
abbrev given_0 : TwoBitfields
given_0 = record (moved taken_1 0 listing) { bitfield_atomic = 1 }

Reachable-given_0 : Reachable given_0
unfolding fetch_add_bit after_fetch_add
Reachable-given_0 = next Reachable-taken_1 (give {t = 0} refl)

-- the arena lets go of the page,
abbrev let_go_2 : TwoBitfields
let_go_2 = record (moved given_0 2 outside) { bitfield_atomic = 2 ^ 64 - 3; arena_holds = false }

Reachable-let_go_2 : Reachable let_go_2
unfolding after_fetch_or
Reachable-let_go_2 = next Reachable-given_0 (let_go {t = 2} refl refl refl)

-- and task 1 gives the last block back.
abbrev given_1 : TwoBitfields
given_1 = record (moved let_go_2 1 last) { bitfield_atomic = 2 ^ 64 - 1 }

Reachable-given_1 : Reachable given_1
unfolding fetch_add_bit after_fetch_add
Reachable-given_1 = next Reachable-let_go_2 (give {t = 1} refl)

page_live_while_used_example : (let_go_2.live ≡ true) × ((t : ℕ) → let_go_2.local t ≢ last)
page_live_while_used_example = page_live_while_used Reachable-let_go_2 (inr (1, 1, refl))

page_freed_when_unused_example :
    ((t : ℕ) × (given_1.local t ≡ last)
      × (given_1.live ≡ true)
      × ((u : ℕ) → given_1.local u ≡ last → u ≡ t))
    ⊎ (given_1.live ≡ false)
page_freed_when_unused_example =
    page_freed_when_unused Reachable-given_1 refl (λ t i e. ground arith)

takers_differ_example : ◌≡◌ {A = ℕ} 1 1
takers_differ_example = takers_differ Reachable-let_go_2 1 1 1 refl refl

block_free_iff_unowned_example :
    (test_bit (2 ^ 64 - 3) 1 ≡ false) ↔ ((t : ℕ) × (let_go_2.local t ≡ holds 1))
block_free_iff_unowned_example = block_free_iff_unowned Reachable-let_go_2 1 (omega arith)

atomic_fetch_add-bit_or_example :
    (fetch_add_bit (2 ^ 64 - 3) 1 ≡ bit_or (2 ^ 64 - 3) (2 ^ 1))
    × (fetch_add_bit (2 ^ 64 - 3) 1 ≡ (2 ^ 64 - 3) + 2 ^ 1)
atomic_fetch_add-bit_or_example = atomic_fetch_add-bit_or Reachable-let_go_2 1 1 refl
