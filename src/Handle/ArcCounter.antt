-- ===== src/Handle/ArcCounter.antt =====
-- arena_arc.rs: the counter of one block under the clones and drops of its `ArenaArc` pointers on any
-- threads. Each step is one atomic operation and what follows from the value that it returned.
mod Runs
pub mod Safety
use shared_arena.Base.{
  ℕ, ◌+◌, ◌-◌, ◌%◌, ◌^◌, ◌≡◌, Bool, true, false, ◌||◌, List, [], ◌∷◌, ltb, ◌==◌, if◌then◌else◌, has,
}
use shared_arena.Memory.Select.{without}

-- `owners` are the pointers that exist, by name. `freeing` says that a drop has seen the last one and
-- not yet called `Block::drop_block`, `freed` how often it was called, and `lost` how many clones have
-- panicked: those have counted a pointer that does not exist.
pub record Counted : Type 0 where
  pub counter : ℕ
  pub owners : List ℕ
  pub freeing : Bool
  pub freed : ℕ
  pub lost : ℕ

-- `clone`: `fetch_add(1)`, and the assertion on the old value.
unfoldable pub fetch_add_one : ℕ → ℕ
fetch_add_one counter = (counter + 1) % 2 ^ 64

unfoldable pub may_clone : ℕ → Bool
may_clone old = ltb old (2 ^ 63 - 1)

-- `drop`: `fetch_sub(1)`, and the test for the last reference.
unfoldable pub fetch_sub_one : ℕ → ℕ
fetch_sub_one counter = (counter + 2 ^ 64 - 1) % 2 ^ 64

unfoldable pub was_last : ℕ → Bool
was_last count = count == 1

-- A step: the pointer `t` is cloned to a pointer `u`, or dropped; the value is freed.
pub data Step (s : Counted) : Counted → Type 0 where
  clone :
      (t : ℕ) {u : ℕ}
      → has t s.owners ≡ true
      → has u s.owners ≡ false
      → may_clone s.counter ≡ true
      → Step s (record s { counter = fetch_add_one s.counter; owners = u ∷ s.owners })
  clone_panic :
      (t : ℕ)
      → has t s.owners ≡ true
      → may_clone s.counter ≡ false
      → Step s (record s { counter = fetch_add_one s.counter; lost = s.lost + 1 })
  drop :
      (t : ℕ)
      → has t s.owners ≡ true
      → Step s (record s {
        counter = fetch_sub_one s.counter;
        owners = without t s.owners;
        freeing = was_last s.counter || s.freeing;
      })
  free : s.freeing ≡ true → Step s (record s { freeing = false; freed = s.freed + 1 })

-- `ArenaArc::new`: one pointer.
abbrev pub start : Counted
start = record { counter = 1; owners = 0 ∷ []; freeing = false; freed = 0; lost = 0 }

-- The states that some interleaving leads to.
pub data Reachable : Counted → Type 0 where
  begin : Reachable start
  next : {s s' : Counted} → Reachable s → Step s s' → Reachable s'
