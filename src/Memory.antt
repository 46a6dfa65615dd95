-- ===== src/Memory.antt =====
-- The memory that the pages of one arena live in, for any type of page, and pointers to blocks.
-- It stands for what the code reaches through raw pointers: `alloc` and `dealloc`, and the cell of
-- the `Rc` (pool.rs) or `Arc` (arena.rs, shared_arena.rs) that an arena shares with its pages.
pub mod Chain
pub mod Cursor
pub mod Fresh
pub mod Select
pub mod Supply
pub mod Write
use shared_arena.Base.{
  ℕ, ◌-◌, ◌≡◌, Bool, true, false, not, Option, none, some, List, [], ◌∷◌, ltb, ◌==◌, if◌then◌else◌,
}
use shared_arena.Word.{block_per_page}
use shared_arena.Block.{Block}
use shared_arena.Run.{Run, Cmd, ok, panic, fault, pure, ◌>>=◌, ◌>>◌, get, put, assert}

abbrev pub update {ℓ} : {A : Type ℓ} → (ℕ → A) → ℕ → A → ℕ → A
update f p v q = if q == p then v else f q

-- The null pointer. No page is ever allocated there.
abbrev pub null : ℕ
null = 0

-- `page p` is what the memory at `p` holds, garbage where `p` is not live. `list` is the content of
-- the shared cell, the head of a list of pages, and `none` when the arena has dropped the cell, so
-- that `upgrade` of the pages' `Weak` fails. `supply` holds the addresses that calls of `alloc` will
-- return, in order: the allocator's choice.
pub record Memory (P : Type 0) : Type 0 where
  pub page : ℕ → P
  pub live : ℕ → Bool
  pub list : Option ℕ
  pub supply : List ℕ

-- The memory `m` with the page at `p` given anew.
abbrev pub with_page : {P : Type 0} → Memory P → ℕ → P → Memory P
with_page m p g = record m { page = update m.page p g }

-- A `NonNull<Block<T>>`: the address of `blocks[index]` of the page at `page`.
pub record BlockPtr : Type 0 where
  pub page : ℕ
  pub index : ℕ

module _ {P : Type 0} where
  -- A reference to the page at `p`; undefined if no page is allocated there.
  unfoldable pub deref : ℕ → Cmd (Memory P) P
  deref p m = if m.live p then ok (m.page p) m else fault

  unfoldable pub store : ℕ → P → Cmd (Memory P) (Unit {0})
  store p g m = if m.live p then ok tt (record m { page = update m.page p g }) else fault

  -- `dealloc`; freeing what is not allocated is undefined.
  unfoldable pub dealloc : ℕ → Cmd (Memory P) (Unit {0})
  dealloc p m = if m.live p then ok tt (record m { live = update m.live p false }) else fault

  -- `alloc`, with `uninit` for the loss of what the memory held before. Where the supply is at its
  -- end `alloc` returns null, which the code dereferences.
  unfoldable pub alloc : (P → P) → Cmd (Memory P) ℕ
  alloc uninit m = elim (m.supply) [
    | [] ↦ fault
    | p ∷ rest ↦ ok p (record m {
      page = update m.page p (uninit (m.page p));
      live = update m.live p true;
      supply = rest;
    })
  ]

  -- `a - b` on `usize`, with the panic on overflow of a build that checks.
  abbrev pub checked_sub : ℕ → ℕ → Cmd (Memory P) ℕ
  checked_sub a b = assert (not (ltb a b)) >> pure (a - b)

-- What the smart pointers use of a page: its array of blocks.
pub record HasBlocks (P T : Type 0) : Type 0 where
  pub blocks : P → ℕ → Block T
  pub with_blocks : P → (ℕ → Block T) → P
  pub blocks-with_blocks : (g : P) (bs : ℕ → Block T) → blocks (with_blocks g bs) ≡ bs

module _ {P T : Type 0} (h : HasBlocks P T) where
  unfoldable pub read_block : BlockPtr → Cmd (Memory P) (Block T)
  unfolding deref
  read_block b = do
    g ← deref b.page
    if ltb b.index block_per_page then pure (h.blocks g b.index) else λ _. fault

  unfoldable pub write_block : BlockPtr → Block T → Cmd (Memory P) (Unit {0})
  unfolding deref store
  write_block b k = do
    g ← deref b.page
    if ltb b.index block_per_page
        then store b.page (h.with_blocks g (update (h.blocks g) b.index k))
        else λ _. fault

  -- `ptr.write(value)`: what was there is overwritten and not dropped.
  unfoldable pub write_value : BlockPtr → Option T → Cmd (Memory P) (Unit {0})
  unfolding read_block write_block
  write_value b v = do k ← read_block b; write_block b (record k { value = v })

  -- `std::ptr::drop_in_place`: undefined where there is no value.
  unfoldable pub drop_in_place : BlockPtr → Cmd (Memory P) (Unit {0})
  unfolding read_block write_block
  drop_in_place b = do
    k ← read_block b
    elim (k.value) [ none ↦ λ _. fault | some v ↦ write_block b (record k { value = none }) ]
