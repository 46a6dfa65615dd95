-- ===== src/Handle/ArcCounter/Runs.antt =====
-- A run of arena_arc.rs on one block.
use shared_arena.Base.{◌+◌, ◌<◌, ◌^◌, ◌≡◌, refl, ◌⊎◌, true, false, [], ◌∷◌, arith, length}
use shared_arena.Handle.ArcCounter.{
  Counted, fetch_add_one, may_clone, fetch_sub_one, was_last, clone, drop, Reachable, begin, next,
}
use shared_arena.Handle.ArcCounter.Safety.{arc_counts_owners, arc_kept_while_owned, arc_freed_once}

-- The pointer 0 is cloned to 1 and dropped,
abbrev cloned : Counted
cloned = record { counter = 2; owners = 1 ∷ 0 ∷ []; freeing = false; freed = 0; lost = 0 }

Reachable-cloned : Reachable cloned
unfolding fetch_add_one may_clone
Reachable-cloned = next begin (clone 0 {u = 1} refl refl refl)

abbrev dropped_0 : Counted
dropped_0 = record { counter = 1; owners = 1 ∷ []; freeing = false; freed = 0; lost = 0 }

Reachable-dropped_0 : Reachable dropped_0
unfolding fetch_sub_one was_last
Reachable-dropped_0 = next Reachable-cloned (drop 0 refl)

-- and the pointer 1 is dropped after it.
abbrev dropped_1 : Counted
dropped_1 = record { counter = 0; owners = []; freeing = true; freed = 0; lost = 0 }

Reachable-dropped_1 : Reachable dropped_1
unfolding fetch_sub_one was_last
Reachable-dropped_1 = next Reachable-dropped_0 (drop 1 refl)

arc_counts_owners_example :
    (cloned.counter ≡ length cloned.owners + cloned.lost) × (length cloned.owners < 2 ^ 63)
arc_counts_owners_example = arc_counts_owners Reachable-cloned (omega arith)

arc_kept_while_owned_example : (dropped_0.freeing ≡ false) × (dropped_0.freed ≡ 0)
arc_kept_while_owned_example = arc_kept_while_owned Reachable-dropped_0 (omega arith) 1 refl

arc_freed_once_example :
    ((dropped_1.freeing ≡ true) × (dropped_1.freed ≡ 0))
    ⊎ ((dropped_1.freeing ≡ false) × (dropped_1.freed ≡ 1))
arc_freed_once_example = arc_freed_once Reachable-dropped_1 refl refl
