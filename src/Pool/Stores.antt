-- ===== src/Pool/Stores.antt =====
-- The four allocating functions of pool.rs, on a valid pool.
use shared_arena.Memory.Supply.{Supply}
use shared_arena.Base.{ℕ, ◌<◌, ◌≡◌, refl, ap, ◌∙◌, true, some, List, arith, length, ==_refl}
use shared_arena.Word.{block_per_page}
use shared_arena.Memory.{Memory, BlockPtr}
use shared_arena.Run.{ok}
use shared_arena.Run.Returns
use shared_arena.Run.Returns.{Returns, returns}
use shared_arena.Page.Pool.{PagePool, PoolCmd, pool_blocks}
use shared_arena.Handle.PoolBox
use shared_arena.Handle.ArenaRc
use shared_arena.Pool.{Pool, drop_block}
use shared_arena.Pool.Alloc.{Initializer, initialize, alloc, alloc_rc, alloc_with, alloc_rc_with}
use shared_arena.Pool.Grow.{to_allocate}
use shared_arena.Pool.Valid.{IsValid, Filled}
use shared_arena.Pool.Place.{find_place-Placed}
use shared_arena.Pool.Write.{block_at, block_at-wrote, wrote, write_value-eq}
use shared_arena.Pool.Handles.{counted, box_new, rc_new}
use shared_arena.Pool.Store.{Stored, Stored-stored}

-- The initializer writes a value at the place that it is given and returns a reference to it.
abbrev pub Works : {T : Type 0} → Initializer T → (BlockPtr → T) → Type 0
Works initializer make = (b : BlockPtr) → initializer b ≡ (some (make b), b)

initialized :
    {T : Type 0} {initializer : Initializer T} {make : BlockPtr → T}
    → Works initializer make
    → (drop : BlockPtr → PoolCmd T (Unit {0})) (b : BlockPtr) (s : Memory (PagePool T))
    → s.live b.page ≡ true
    → b.index < block_per_page
    → initialize drop initializer b s
      ≡ ok tt (wrote s b (record (block_at s b) { value = some (make b) }))
unfolding initialize
initialized {make} works drop b s alive below = ground (
  arith,
  works b,
  write_value-eq s b alive below (some (make b)),
  ==_refl b.page,
  ==_refl b.index,
)

module _ {T : Type 0} (rounds fuel : ℕ) (m : Memory (PagePool T)) (pool : Pool) (all free : List ℕ)
    (v : IsValid m pool all free) (filled : Filled m all)
    (good : Supply (to_allocate pool) m.supply m.live) (two : 1 < rounds)
    (enough : length free < fuel) where
  -- `Pool::alloc`, where the pool is valid, its blocks agree with their bits, the allocator's next
  -- addresses are good, two rounds or more and more rounds of the inner loop than the free list
  -- has pages are given, returns a pool and a block: the pool is valid, with the old pages and
  -- perhaps new ones; the block was not in use, holds the value and is counted once; every other
  -- block of the old pages has its value, its counter and its bit; new pages were made only if no
  -- block was free.
  pub alloc-Stored :
      (value : T)
      → Returns (λ (pool', b) m'. Stored m all value pool' b m') (alloc rounds fuel value pool m)
  unfolding alloc
  alloc-Stored value =
      Returns.bind (find_place-Placed rounds fuel m pool all free v filled good two enough)
        λ (pool', b) m₁ p.
          let alive = (p.valid.pages b.page p.member).alive in
          let k = record (block_at m₁ b) { value = some value } in
          let e = block_at-wrote m₁ b k in
          rw
            (
              write_value-eq m₁ b alive p.below (some value),
              box_new (wrote m₁ b k) b alive p.below (ap (λ k. k.counter) e ∙ p.idle),
            )
            (returns
              (Stored-stored value p k _ refl (ap (λ k. k.page) e) refl (ap (λ k. k.value) e)))

  -- `Pool::alloc_rc`, where the pool is valid, its blocks agree with their bits, the allocator's
  -- next addresses are good, two rounds or more and more rounds of the inner loop than the free
  -- list has pages are given, returns what `Pool::alloc` is stated to return.
  pub alloc_rc-Stored :
      (value : T)
      → Returns (λ (pool', b) m'. Stored m all value pool' b m') (alloc_rc rounds fuel value pool m)
  unfolding alloc_rc
  alloc_rc-Stored value =
      Returns.bind (find_place-Placed rounds fuel m pool all free v filled good two enough)
        λ (pool', b) m₁ p.
          let alive = (p.valid.pages b.page p.member).alive in
          let k = record (block_at m₁ b) { value = some value } in
          let e = block_at-wrote m₁ b k in
          rw
            (
              write_value-eq m₁ b alive p.below (some value),
              rc_new (wrote m₁ b k) b alive p.below (ap (λ k. k.counter) e ∙ p.idle),
            )
            (returns
              (Stored-stored value p k _ refl (ap (λ k. k.page) e) refl (ap (λ k. k.value) e)))

  module _ (initializer : Initializer T) (make : BlockPtr → T)
      (works : Works initializer make) where
    -- `Pool::alloc_with`, where the pool is valid, its blocks agree with their bits, the
    -- allocator's next addresses are good, two rounds or more and more rounds of the inner loop
    -- than the free list has pages are given, and where the initializer writes a value at the
    -- place and returns a reference to the place, returns what `Pool::alloc` of that value is
    -- stated to return.
    pub alloc_with-Stored :
        Returns
          (λ (pool', b) m'. Stored m all (make b) pool' b m')
          (alloc_with rounds fuel initializer pool m)
    unfolding alloc_with
    alloc_with-Stored =
        Returns.bind (find_place-Placed rounds fuel m pool all free v filled good two enough)
          λ (pool', b) m₁ p.
            let alive = (p.valid.pages b.page p.member).alive in
            let k = record (block_at m₁ b) { counter = 1 } in
            let e = block_at-wrote m₁ b k in
            rw
              (
                box_new m₁ b alive p.below p.idle,
                initialized works (PoolBox.drop pool_blocks drop_block) b (counted m₁ b 1) alive
                    p.below,
              )
              (returns (
                Stored-stored (make b) p k _ refl (ap (λ k. k.page) e) (ap (λ k. k.counter) e)
                  refl))

    -- `Pool::alloc_rc_with`, where the pool is valid, its blocks agree with their bits, the
    -- allocator's next addresses are good, two rounds or more and more rounds of the inner loop
    -- than the free list has pages are given, and where the initializer writes a value at the
    -- place and returns a reference to the place, returns what `Pool::alloc` of that value is
    -- stated to return.
    pub alloc_rc_with-Stored :
        Returns
          (λ (pool', b) m'. Stored m all (make b) pool' b m')
          (alloc_rc_with rounds fuel initializer pool m)
    unfolding alloc_rc_with
    alloc_rc_with-Stored =
        Returns.bind (find_place-Placed rounds fuel m pool all free v filled good two enough)
          λ (pool', b) m₁ p.
            let alive = (p.valid.pages b.page p.member).alive in
            let k = record (block_at m₁ b) { counter = 1 } in
            let e = block_at-wrote m₁ b k in
            rw
              (
                rc_new m₁ b alive p.below p.idle,
                initialized works (ArenaRc.drop pool_blocks drop_block) b (counted m₁ b 1) alive
                    p.below,
              )
              (returns (
                Stored-stored (make b) p k _ refl (ap (λ k. k.page) e) (ap (λ k. k.counter) e)
                  refl))
