-- ===== src/Pool/Panics.antt =====
-- `alloc_with` of pool.rs where the initializer returns another reference.
use shared_arena.Memory.Supply.{Supply}
use shared_arena.Base.{◌≡◌, false, some}
use shared_arena.Memory.{Memory, BlockPtr}
use shared_arena.Handle.PoolBox
use shared_arena.Pool.{Pool}
use shared_arena.Pool.Alloc.{Initializer, same_place}

-- The initializer writes a value at the place and returns a reference to another one.
abbrev pub Strays : {T : Type 0} → Initializer T → (BlockPtr → T) → (BlockPtr → BlockPtr) → Type 0
Strays initializer make other =
    (b : BlockPtr) → (initializer b ≡ (some (make b), other b)) × (same_place b (other b) ≡ false)
