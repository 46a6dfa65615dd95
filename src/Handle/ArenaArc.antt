-- ===== src/Handle/ArenaArc.antt =====
-- arena_arc.rs: a shared pointer with an atomic counter, whose sums and differences wrap.
use shared_arena.Base.{◌+◌, ◌-◌, ◌%◌, ◌^◌, ltb, ◌==◌, if◌then◌else◌, none, some}
use shared_arena.Memory.{Memory, BlockPtr, HasBlocks, read_block, write_block}
use shared_arena.Run.{Cmd, pure, ◌>>=◌, ◌>>◌, assert, fault}

module _ {P T : Type 0} (h : HasBlocks P T) where
  -- `ArenaArc::new`
  unfoldable pub new : BlockPtr → Cmd (Memory P) BlockPtr
  unfolding read_block write_block
  new block = do
    b ← read_block h block
    assert (b.counter == 0)
    write_block h block (record b { counter = 1 })
    pure block

  -- `Clone for ArenaArc`: the sum is made before the test.
  unfoldable pub clone : BlockPtr → Cmd (Memory P) BlockPtr
  unfolding read_block write_block
  clone block = do
    b ← read_block h block
    let old = b.counter
    write_block h block (record b { counter = (old + 1) % 2 ^ 64 })
    assert (ltb old (2 ^ 63 - 1))
    pure block

  -- `Drop for ArenaArc`
  unfoldable pub drop :
      (BlockPtr → Cmd (Memory P) (Unit {0})) → BlockPtr → Cmd (Memory P) (Unit {0})
  unfolding read_block write_block
  drop drop_block block = do
    b ← read_block h block
    let count = b.counter
    write_block h block (record b { counter = (count + 2 ^ 64 - 1) % 2 ^ 64 })
    if count == 1 then drop_block block else pure tt

  -- `Deref for ArenaArc`: the value; undefined where the block holds none.
  unfoldable pub deref : BlockPtr → Cmd (Memory P) T
  deref block = do
    b ← read_block h block
    elim (b.value) [ none ↦ λ _. fault | some value ↦ pure value ]
