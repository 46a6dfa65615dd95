-- ===== src/Pool/Alloc.antt =====
-- pool.rs: `alloc`, `alloc_with`, `alloc_rc` and `alloc_rc_with`.
use shared_arena.Base.{ℕ, Bool, ◌&&◌, Option, some, ◌==◌, if◌then◌else◌}
use shared_arena.Memory.{BlockPtr, write_value}
use shared_arena.Run.{panic, pure, ◌>>=◌, ◌>>◌}
use shared_arena.Page.Pool.{PoolCmd, pool_blocks}
use shared_arena.Handle.PoolBox
use shared_arena.Handle.ArenaRc
use shared_arena.Pool.{Pool, drop_block, find_place}

-- `F: Fn(&mut MaybeUninit<T>) -> &T`: what the caller's function leaves at the place that it is
-- given, and the address of the reference that it returns.
abbrev pub Initializer : Type 0 → Type 0
Initializer T = BlockPtr → Option T × BlockPtr

-- `ptr as *const T == reference as *const T`
abbrev pub same_place : BlockPtr → BlockPtr → Bool
same_place a b = a.page == b.page && a.index == b.index

module _ {T : Type 0} where
  -- The rest of an `alloc_with` function, with `drop` the destructor of `result`, which the panic of
  -- the assertion runs.
  unfoldable pub initialize :
      (drop : BlockPtr → PoolCmd T (Unit {0})) → Initializer T → BlockPtr → PoolCmd T (Unit {0})
  initialize drop initializer block = do
    let (value, reference) = initializer block
    write_value pool_blocks block value
    if same_place block reference then pure tt else do drop block; (λ m. panic m)

  module _ (rounds fuel : ℕ) where
    -- `Pool::alloc`
    unfoldable pub alloc : T → Pool → PoolCmd T (Pool × BlockPtr)
    alloc value pool = do
      (pool', block) ← find_place rounds fuel pool
      write_value pool_blocks block (some value)
      handle ← PoolBox.new pool_blocks block
      pure (pool', handle)

    -- `Pool::alloc_with`
    unfoldable pub alloc_with : Initializer T → Pool → PoolCmd T (Pool × BlockPtr)
    alloc_with initializer pool = do
      (pool', block) ← find_place rounds fuel pool
      result ← PoolBox.new pool_blocks block
      initialize (PoolBox.drop pool_blocks drop_block) initializer block
      pure (pool', result)

    -- `Pool::alloc_rc`
    unfoldable pub alloc_rc : T → Pool → PoolCmd T (Pool × BlockPtr)
    alloc_rc value pool = do
      (pool', block) ← find_place rounds fuel pool
      write_value pool_blocks block (some value)
      handle ← ArenaRc.new pool_blocks block
      pure (pool', handle)

    -- `Pool::alloc_rc_with`
    unfoldable pub alloc_rc_with : Initializer T → Pool → PoolCmd T (Pool × BlockPtr)
    alloc_rc_with initializer pool = do
      (pool', block) ← find_place rounds fuel pool
      result ← ArenaRc.new pool_blocks block
      initialize (ArenaRc.drop pool_blocks drop_block) initializer block
      pure (pool', result)
