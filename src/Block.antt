-- ===== src/Block.antt =====
-- block.rs on a 64-bit target: a block, and the tagged pointer that leads from it to its page.
mod Examples
mod Fields
pub mod Kind
pub mod PageTaggedPtr
pub mod Tagged
use shared_arena.Base.{ℕ, Option}
use shared_arena.Run.{Cmd, ◌>>=◌, unwrap}
use Kind.{shared_arena_kind, arena_kind, pool_kind}

-- `value` is `none` while the cell holds no initialised value; `page` is the word of a
-- `PageTaggedPtr`.
pub record Block (T : Type 0) : Type 0 where
  pub value : Option T
  pub counter : ℕ
  pub page : ℕ

-- `Block::drop_block`: the page's kind chooses the handler, which gets the page's address.
unfoldable pub drop_block :
    {S : Type 0} → (word : ℕ) (shared arena pool : ℕ → Cmd S (Unit {0})) → Cmd S (Unit {0})
drop_block word shared arena pool = do
  kind ← unwrap (PageTaggedPtr.page_kind word)
  ptr ← unwrap (PageTaggedPtr.page_ptr word)
  elim kind [ shared_arena_kind ↦ shared ptr | arena_kind ↦ arena ptr | pool_kind ↦ pool ptr ]
