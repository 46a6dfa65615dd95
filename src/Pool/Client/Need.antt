-- ===== src/Pool/Client/Need.antt =====
-- What a sequence of calls of a client may need of the allocator, and how long its free list may get
-- (pool.rs).
use shared_arena.Base.{ℕ, ◌+◌, ◌≤◌, List, [], ◌∷◌, arith, min, max}
use shared_arena.Pool.Client.{Op, alloc, clone, read, drop, shrink}

-- The number of pages that a pool of `n` pages adds when it is full.
abbrev pub growth : ℕ → ℕ
growth n = min (max n 1) 900_000

-- Enough addresses for the calls on a pool of `n` pages: as if every allocation found it full.
abbrev pub need : {T : Type 0} → List (Op T) → ℕ → ℕ
need [] n = 0
need (alloc value ∷ ops) n = growth n + need ops (n + growth n)
need (clone i ∷ ops) n = need ops n
need (read i ∷ ops) n = need ops n
need (drop i ∷ ops) n = need ops n
need (shrink ∷ ops) n = need ops n

pub need_mono : {T : Type 0} (ops : List (Op T)) (n k : ℕ) → n ≤ k → need ops n ≤ need ops k
need_mono [] n k le = omega arith
need_mono (alloc value ∷ ops) n k le =
    omega (arith, need_mono ops (n + growth n) (k + growth k) (omega arith))
need_mono (clone i ∷ ops) n k le = need_mono ops n k le
need_mono (read i ∷ ops) n k le = need_mono ops n k le
need_mono (drop i ∷ ops) n k le = need_mono ops n k le
need_mono (shrink ∷ ops) n k le = need_mono ops n k le
