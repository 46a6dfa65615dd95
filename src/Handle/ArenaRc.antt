-- ===== src/Handle/ArenaRc.antt =====
-- arena_rc.rs: a shared pointer with a plain counter.
use shared_arena.Base.{◌+◌, ◌-◌, ◌^◌, ltb, ◌==◌, if◌then◌else◌, none, some}
use shared_arena.Memory.{Memory, BlockPtr, HasBlocks, checked_sub, read_block, write_block}
use shared_arena.Run.{Cmd, pure, ◌>>=◌, ◌>>◌, assert, fault}

module _ {P T : Type 0} (h : HasBlocks P T) where
  -- `ArenaRc::new`
  unfoldable pub new : BlockPtr → Cmd (Memory P) BlockPtr
  unfolding read_block write_block
  new block = do
    b ← read_block h block
    assert (b.counter == 0)
    write_block h block (record b { counter = 1 })
    pure block

  -- `Clone for ArenaRc`: the test comes before the sum.
  unfoldable pub clone : BlockPtr → Cmd (Memory P) BlockPtr
  unfolding read_block write_block
  clone block = do
    b ← read_block h block
    assert (ltb b.counter (2 ^ 63 - 1))
    write_block h block (record b { counter = b.counter + 1 })
    pure block

  -- `Drop for ArenaRc`
  unfoldable pub drop :
      (BlockPtr → Cmd (Memory P) (Unit {0})) → BlockPtr → Cmd (Memory P) (Unit {0})
  unfolding read_block write_block
  drop drop_block block = do
    b ← read_block h block
    count ← checked_sub b.counter 1
    write_block h block (record b { counter = count })
    if count == 0 then drop_block block else pure tt

  -- `Deref for ArenaRc`: the value; undefined where the block holds none.
  unfoldable pub deref : BlockPtr → Cmd (Memory P) T
  deref block = do
    b ← read_block h block
    elim (b.value) [ none ↦ λ _. fault | some value ↦ pure value ]
