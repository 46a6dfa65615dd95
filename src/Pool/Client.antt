-- ===== src/Pool/Client.antt =====
-- A client of pool.rs: any sequence of calls that make, clone, read and drop `ArenaRc` pointers and
-- shrink the pool, and what it may rely on, which knows values and no memory.
pub mod Counted
mod Examples
pub mod Held
pub mod Need
pub mod Ready
pub mod Rep
pub mod Steps
pub mod Refines
use shared_arena.Base.{ℕ, Option, none, some, List, [], ◌∷◌, get_elem?, remove_at}
use shared_arena.Memory.{BlockPtr}
use shared_arena.Run.{pure, ◌>>=◌, ◌>>◌}
use shared_arena.Page.Pool.{PoolCmd, pool_blocks}
use shared_arena.Handle.ArenaRc
use shared_arena.Pool.{Pool, drop_block}
use shared_arena.Pool.Alloc.{alloc_rc}
use shared_arena.Pool.Walk.{shrink_to_fit}

-- Pointers are named by their place in the list of the client's pointers, the newest first.
pub data Op (T : Type 0) : Type 0 where
  alloc : T → Op T
  clone read drop : ℕ → Op T
  shrink : Op T

-- The specification: each pointer is its value.
module _ {T : Type 0} where
  unfoldable pub spec_step : Op T → List T → Option T × List T
  spec_step (alloc value) held = (none, value ∷ held)
  spec_step (clone i) held = elim (get_elem? held i) [
    | none ↦ (none, held)
    | some value ↦ (none, value ∷ held)
  ]
  spec_step (read i) held = (get_elem? held i, held)
  spec_step (drop i) held = (none, remove_at held i)
  spec_step shrink held = (none, held)

  -- The replies to a sequence of calls.
  unfoldable pub spec_run : List (Op T) → List T → List (Option T)
  spec_run [] held = []
  spec_run (op ∷ ops) held = let (reply, held') = spec_step op held in reply ∷ spec_run ops held'

-- The same calls on a pool.
module _ {T : Type 0} (rounds fuel : ℕ) where
  unfoldable pub step : Op T → Pool → List BlockPtr → PoolCmd T (Option T × Pool × List BlockPtr)
  step (alloc value) pool held = do
    (pool', handle) ← alloc_rc rounds fuel value pool
    pure (none, pool', handle ∷ held)
  step (clone i) pool held = elim (get_elem? held i) [
    | none ↦ pure (none, pool, held)
    | some handle ↦ do handle' ← ArenaRc.clone pool_blocks handle; pure (none, pool, handle' ∷ held)
  ]
  step (read i) pool held = elim (get_elem? held i) [
    | none ↦ pure (none, pool, held)
    | some handle ↦ do value ← ArenaRc.deref pool_blocks handle; pure (some value, pool, held)
  ]
  step (drop i) pool held = elim (get_elem? held i) [
    | none ↦ pure (none, pool, held)
    | some handle ↦ do
      ArenaRc.drop pool_blocks drop_block handle
      pure (none, pool, remove_at held i)
  ]
  step shrink pool held = do pool' ← shrink_to_fit fuel pool; pure (none, pool', held)

  unfoldable pub run : List (Op T) → Pool → List BlockPtr → PoolCmd T (List (Option T))
  run [] pool held = pure []
  run (op ∷ ops) pool held = do
    (reply, pool', held') ← step op pool held
    replies ← run ops pool' held'
    pure (reply ∷ replies)
