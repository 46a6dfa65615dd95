-- ===== src/Block/Kind.antt =====
-- `PageKind` of block.rs.
use shared_arena.Base.{ℕ}

pub data PageKind : Type 0 where
  shared_arena_kind arena_kind pool_kind : PageKind

-- `Into<usize> for PageKind`
unfoldable pub into : PageKind → ℕ
into shared_arena_kind = 0
into arena_kind = 1
into pool_kind = 2
