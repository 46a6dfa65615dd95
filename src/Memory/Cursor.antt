-- ===== src/Memory/Cursor.antt =====
-- `&AtomicPtr<Page>` in the walks of `shrink_to_fit` (arena.rs): the head of a list or a page's link.
use shared_arena.Base.{ℕ, Bool, true, false, ◌==◌, if◌then◌else◌}
use shared_arena.Memory.{Memory, deref, store}
use shared_arena.Run.{Cmd, pure, ◌>>=◌, ◌>>◌}

-- Which of a page's links the list runs through.
pub record Field (P : Type 0) : Type 0 where
  pub get_field : P → ℕ
  pub set_field : ℕ → P → P

-- `head` is the cell that a function holds outside the pages; its value is passed along.
pub data Cursor : Type 0 where
  head : Cursor
  link : ℕ → Cursor

module _ {P : Type 0} (f : Field P) where
  -- `load`
  unfoldable pub load : Cursor → (first : ℕ) → Cmd (Memory P) ℕ
  load head first = pure first
  load (link p) first = do g ← deref p; pure (f.get_field g)

  -- `compare_exchange`: whether it stored the value, and the value of the head after it.
  unfoldable pub compare_exchange : Cursor → (first current value : ℕ) → Cmd (Memory P) (Bool × ℕ)
  compare_exchange head first current value =
      if first == current then pure (true, value) else pure (false, first)
  compare_exchange (link p) first current value = do
    g ← deref p
    if f.get_field g == current
        then (do store p (f.set_field value g); pure (true, first))
        else pure (false, first)
