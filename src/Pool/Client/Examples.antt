-- ===== src/Pool/Client/Examples.antt =====
-- A client of pool.rs on concrete calls.
use shared_arena.Base.{ℕ, ◌≡◌, none, some, List, [], ◌∷◌, arith}
use shared_arena.Run.{◌>>=◌}
use shared_arena.Run.Returns.{Returns}
use shared_arena.Pool.{with_capacity}
use shared_arena.Pool.Client.{Op, alloc, clone, read, drop, shrink, spec_step, spec_run, run}
use shared_arena.Pool.Client.Refines.{run_refines}
use shared_arena.Pool.Sample.{used, Supply-used_with_capacity}

-- A pointer is made and cloned, the pool is shrunk, the first of the two is dropped, and the other is read.
abbrev calls : List (Op ℕ)
calls = alloc 5 ∷ clone 0 ∷ shrink ∷ drop 1 ∷ read 0 ∷ drop 0 ∷ read 0 ∷ []

run_refines_example :
    Returns
      (λ replies m'. replies ≡ none ∷ none ∷ none ∷ none ∷ some 5 ∷ none ∷ none ∷ [])
      ((do pool ← with_capacity 1; run 2 5 calls pool []) used)
unfolding spec_run spec_step
run_refines_example =
    run_refines (omega arith) 1 calls used Supply-used_with_capacity (omega arith) (omega arith)
