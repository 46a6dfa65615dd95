-- ===== src/SharedArena/Alloc.antt =====
-- shared_arena.rs: the six functions that allocate. An initializer is a function as in pool.rs.
use shared_arena.Base.{ℕ, some, if◌then◌else◌}
use shared_arena.Memory.{BlockPtr, write_value}
use shared_arena.Run.{panic, pure, ◌>>=◌, ◌>>◌}
use shared_arena.Page.SharedMemory.{SharedCmd, shared_blocks}
use shared_arena.Handle.ArenaBox
use shared_arena.Handle.ArenaArc
use shared_arena.Handle.ArenaRc
use shared_arena.Pool.Alloc.{Initializer, same_place}
use shared_arena.SharedArena.{SharedArena, drop_block, find_place}

module _ {T : Type 0} where
  -- The rest of an `alloc_with` function, with `drop` the destructor of `result`, which the panic of
  -- the assertion runs.
  unfoldable pub initialize :
      (drop : BlockPtr → SharedCmd T (Unit {0})) → Initializer T → BlockPtr → SharedCmd T (Unit {0})
  initialize drop initializer block = do
    let (value, reference) = initializer block
    write_value shared_blocks block value
    if same_place block reference then pure tt else do drop block; (λ m. panic m)

  module _ (rounds fuel tries : ℕ) where
    -- `SharedArena::alloc`
    unfoldable pub alloc : T → SharedArena → SharedCmd T (SharedArena × BlockPtr)
    alloc value arena = do
      (arena', block) ← find_place rounds fuel tries arena
      write_value shared_blocks block (some value)
      handle ← ArenaBox.new shared_blocks block
      pure (arena', handle)

    -- `SharedArena::alloc_with`
    unfoldable pub alloc_with : Initializer T → SharedArena → SharedCmd T (SharedArena × BlockPtr)
    alloc_with initializer arena = do
      (arena', block) ← find_place rounds fuel tries arena
      result ← ArenaBox.new shared_blocks block
      initialize (ArenaBox.drop shared_blocks (drop_block tries)) initializer block
      pure (arena', result)

    -- `SharedArena::alloc_arc`
    unfoldable pub alloc_arc : T → SharedArena → SharedCmd T (SharedArena × BlockPtr)
    alloc_arc value arena = do
      (arena', block) ← find_place rounds fuel tries arena
      write_value shared_blocks block (some value)
      handle ← ArenaArc.new shared_blocks block
      pure (arena', handle)

    -- `SharedArena::alloc_arc_with`
    unfoldable pub alloc_arc_with :
        Initializer T → SharedArena → SharedCmd T (SharedArena × BlockPtr)
    alloc_arc_with initializer arena = do
      (arena', block) ← find_place rounds fuel tries arena
      result ← ArenaArc.new shared_blocks block
      initialize (ArenaArc.drop shared_blocks (drop_block tries)) initializer block
      pure (arena', result)

    -- `SharedArena::alloc_rc`
    unfoldable pub alloc_rc : T → SharedArena → SharedCmd T (SharedArena × BlockPtr)
    alloc_rc value arena = do
      (arena', block) ← find_place rounds fuel tries arena
      write_value shared_blocks block (some value)
      handle ← ArenaRc.new shared_blocks block
      pure (arena', handle)

    -- `SharedArena::alloc_rc_with`
    unfoldable pub alloc_rc_with :
        Initializer T → SharedArena → SharedCmd T (SharedArena × BlockPtr)
    alloc_rc_with initializer arena = do
      (arena', block) ← find_place rounds fuel tries arena
      result ← ArenaRc.new shared_blocks block
      initialize (ArenaRc.drop shared_blocks (drop_block tries)) initializer block
      pure (arena', result)
