-- ===== src/Pool/Endings.antt =====
-- The theorems on the drop of a pool, and on a panic, at a pool with one page.
use shared_arena.Base.{false, ℕ, ◌-◌, ◌^◌, ◌≡◌, refl, arith, none}
use shared_arena.Memory.{Memory}
use shared_arena.Run.{◌>>◌}
use shared_arena.Run.Returns.{Returns}
use shared_arena.Page.Pool.{PagePool, pool_blocks}
use shared_arena.Handle.PoolBox
use shared_arena.Pool.{drop_block}
use shared_arena.Pool.Sample.{
  used, one_page, IsPage-used, IsValid-used, Filled-used, InUse-used, used_pages, box,
}
use shared_arena.Run.Returns.{Panics}
use shared_arena.Pool.{Pool}
use shared_arena.Pool.Alloc.{Initializer}
use shared_arena.Base.{some, ◌+◌}
use shared_arena.Pool.LetGo.{LetGo, drop-LetGo}
use shared_arena.Pool.Orphan.{IsOrphan, OrphanFreed, PoolBox_drop-OrphanFreed}
use shared_arena.Pool.Lifetime.{live_after, drop_both-live}
use shared_arena.Pool.Walk.{drop}

-- The same page after its pool was dropped.
abbrev left : Memory (PagePool ℕ)
left = record used { page = λ q. record (used.page q) { bitfield = 2 ^ 63 - 2 }; list = none }

IsOrphan-left : IsOrphan left box
IsOrphan-left = record {
  alive = refl;
  bits = omega arith;
  below = omega arith;
  tag = refl;
  not_null = IsPage-used.not_null;
  word = IsPage-used.word;
  canonical = IsPage-used.canonical;
  list = refl;
  value = 5;
  holds = refl;
}

drop-LetGo_example :
    Returns (λ _ m'. LetGo used used_pages m' × (m'.list ≡ none)) (drop 2 one_page used)
drop-LetGo_example = drop-LetGo 2 used one_page used_pages used_pages IsValid-used (omega arith)

PoolBox_drop-OrphanFreed_example :
    Returns (λ _ m'. OrphanFreed left box m') (PoolBox.drop pool_blocks drop_block box left)
PoolBox_drop-OrphanFreed_example = PoolBox_drop-OrphanFreed left box IsOrphan-left refl

drop_both-live_example :
    Returns
      (λ _ m'. (q : ℕ) → m'.live q ≡ live_after used used_pages box q)
      ((do drop 2 one_page; PoolBox.drop pool_blocks drop_block box) used)
drop_both-live_example =
    drop_both-live 2 used one_page used_pages used_pages box IsValid-used Filled-used InUse-used
      refl (omega arith)

-- The page is gone: the block was the last one in use.
page_gone : live_after used used_pages box 16 ≡ false
page_gone = refl

-- The reference is to the next block.
abbrev stray : Initializer ℕ
stray b = (some 7, record b { index = b.index + 1 })
