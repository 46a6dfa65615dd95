-- ===== src/Pool/Grow.antt =====
-- `Pool::alloc_new_page` of pool.rs.
use shared_arena.Memory.Supply.{Supply}
use shared_arena.Base.{ℕ, ◌+◌, min, max, ◌≡◌, ◌∙◌, List, [], ◌∷◌, ◌++◌, arith, length}
use shared_arena.Memory.{Memory}
use mathlib.Core.Path.{subst}
use shared_arena.Run.Returns
use shared_arena.Run.Returns.{Returns, returns}
use shared_arena.Page.Pool.{PagePool}
use shared_arena.Page.Pool.Make.{Grown, make_list-Made}
use shared_arena.Pool.{Pool, alloc_new_page}
use shared_arena.Pool.Valid.{IsValid}
use shared_arena.Pool.Link.{linked, link_pages-eq, has_last, IsValid-after, Grown-after}

-- The number of pages that `alloc_new_page` adds.
abbrev pub to_allocate : Pool → ℕ
to_allocate pool = min (max pool.npages 1) 900_000

module _ {T : Type 0} where
  -- `alloc_new_page` of a valid pool, where the allocator's next addresses are good, returns a
  -- valid pool with new pages in front of both lists: as many as there were, at least 1 and at
  -- most 900000; they are fresh, and nothing else changes in the pages that were live.
  pub alloc_new_page-IsValid :
      (m : Memory (PagePool T)) (pool : Pool) (all free : List ℕ)
      → IsValid m pool all free
      → Supply (to_allocate pool) m.supply m.live
      → Returns
          (λ pool' m'.
            (news : List ℕ) × IsValid m' pool' (news ++ all) (news ++ free)
            × Grown m m' news
            × (length news ≡ to_allocate pool))
          (alloc_new_page pool m)
  unfolding alloc_new_page
  alloc_new_page-IsValid m pool all free v good =
      Returns.bind (make_list-Made (to_allocate pool) m (omega arith) good)
        λ (first, last) m' (xs, made, len).
          let alive =
            (made.grown.fresh last (has_last m m' pool all free v first last xs made)).alive in
          rw (link_pages-eq m' first last v.first pool.page_list alive (made.list ∙ v.list)) (
            returns (
              xs ++ last ∷ [],
              subst
                  (λ k.
                    IsValid {T = T} (linked m' first last v.first pool.page_list)
                      (record { page_list = first; npages = pool.npages + k })
                      ((xs ++ last ∷ []) ++ all) ((xs ++ last ∷ []) ++ free))
                  len (IsValid-after m m' pool all free v first last xs made),
              Grown-after m m' pool all free v first last xs made,
              len,
            ))
