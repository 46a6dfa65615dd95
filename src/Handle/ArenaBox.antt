-- ===== src/Handle/ArenaBox.antt =====
-- arena_box.rs: a pointer that owns its value. The counter is touched as a sanity check.
use shared_arena.Base.{◌==◌, none, some}
use shared_arena.Memory.{Memory, BlockPtr, HasBlocks, read_block, write_block}
use shared_arena.Run.{Cmd, pure, ◌>>=◌, ◌>>◌, assert, fault}

module _ {P T : Type 0} (h : HasBlocks P T) where
  -- `ArenaBox::new`
  unfoldable pub new : BlockPtr → Cmd (Memory P) BlockPtr
  unfolding read_block write_block
  new block = do
    b ← read_block h block
    assert (b.counter == 0)
    write_block h block (record b { counter = 1 })
    pure block

  -- `Drop for ArenaBox`
  unfoldable pub drop :
      (BlockPtr → Cmd (Memory P) (Unit {0})) → BlockPtr → Cmd (Memory P) (Unit {0})
  unfolding read_block write_block
  drop drop_block block = do
    b ← read_block h block
    assert (b.counter == 1)
    write_block h block (record b { counter = 0 })
    drop_block block

  -- `Deref for ArenaBox`: the value; undefined where the block holds none.
  unfoldable pub deref : BlockPtr → Cmd (Memory P) T
  deref block = do
    b ← read_block h block
    elim (b.value) [ none ↦ λ _. fault | some value ↦ pure value ]
