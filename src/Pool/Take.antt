-- ===== src/Pool/Take.antt =====
-- One round of the inner loop of `Pool::find_place` (pool.rs), and the loop.
use shared_arena.Base.{
  ℕ, zero, suc, ◌<◌, ◌≡◌, ◌≢◌, refl, ap, ◌∙◌, ◌⊎◌, inl, inr, true, not, ◌&&◌, Option, none, some,
  List, [], ◌∷◌, arith, ◌==◌, length, Bool-cases, ==_iff, ==_refl,
}
use shared_arena.Word.{test_bit, trailing_zeros}
use shared_arena.Word.Ext.{test_bit_clear}
use shared_arena.Word.Count.{test_bit-trailing_zeros}
use shared_arena.Memory.{Memory, BlockPtr}
use shared_arena.Run.{ok}
use shared_arena.Run.Returns
use shared_arena.Run.Returns.{Returns, returns}
use shared_arena.Page.Pool.{PagePool}
use shared_arena.Page.Pool.Acquire.{
  IsBitfield, bits, acquired, acquire_none, acquire_some, trailing-le-last,
}
use shared_arena.Pool.{Pool, take_from_free}
use shared_arena.Pool.Valid.{IsValid, SameBlocks}
use shared_arena.Pool.Taken.{
  TookBlock, Took, all_full, took, popped, popped-IsValid, acquired-IsValid, Took-popped,
}

module _ {T : Type 0} where
  -- One round of the loop, on each of its branches.
  module _ (fuel : ℕ) (m : Memory (PagePool T)) (p : ℕ) (head : m.list ≡ some p) where
    take_empty : p ≡ 0 → take_from_free (suc fuel) m ≡ ok none m
    unfolding take_from_free
    take_empty e = ground arith

    module _ (ne : p ≢ 0) (alive : m.live p ≡ true) where
      take_full :
          trailing_zeros (m.page p).bitfield ≡ 63
          → take_from_free (suc fuel) m ≡ take_from_free fuel (popped m p)
      unfolding take_from_free
      take_full e = ground (arith, acquire_none m p alive e)

      take_block :
          trailing_zeros (m.page p).bitfield < 63
          → take_from_free (suc fuel) m
            ≡ ok
                (some (record { page = p; index = trailing_zeros (m.page p).bitfield }))
                (acquired m p (trailing_zeros (m.page p).bitfield))
      unfolding take_from_free
      take_block lt = ground (arith, acquire_some m p alive lt)

  module _ (m : Memory (PagePool T)) (p i : ℕ) (b : IsBitfield (m.page p).bitfield)
      (lt : i < 63) where
    SameBlocks-acquired : SameBlocks m (acquired m p i)
    SameBlocks-acquired = record { live = refl; supply = refl; blocks = λ q. ground arith }

    acquired_bits :
        (q j : ℕ)
        → test_bit ((acquired m p i).page q).bitfield j
          ≡ (test_bit (m.page q).bitfield j && not (q == p && j == i))
    acquired_bits q j = elim (Bool-cases (q == p)) [
      | inl e ↦
          let same = (==_iff q p).0 e in
          ground (arith, test_bit_clear (m.page p).bitfield i j b.0 (omega arith), same)
      | inr e ↦ ground arith
    ]

  -- A head with a free block gives that block at once.
  pub take_head :
      (fuel p : ℕ) (rest : List ℕ) {m : Memory (PagePool T)} {pool : Pool} {all : List ℕ}
      → IsValid m pool all (p ∷ rest)
      → trailing_zeros (m.page p).bitfield < 63
      → (b : BlockPtr) × (m' : Memory (PagePool T)) × (take_from_free (suc fuel) m ≡ ok (some b) m')
        × TookBlock m pool all b m'
  take_head fuel p rest {m} v lt =
      let member = v.free_in_all p (ground (arith, ==_refl p)) in
      let page = v.pages p member in
      let i = trailing_zeros (m.page p).bitfield in
      (
        record { page = p; index = i },
        acquired m p i,
        take_block fuel m p (v.list ∙ ap some v.free_chain.0) page.not_null page.alive lt,
        record {
          free = p ∷ rest;
          valid = acquired-IsValid p i (p ∷ rest) v (ground (arith, ==_refl p)) lt;
          same = SameBlocks-acquired m p i page.bits lt;
          member = member;
          below = lt;
          was_free = test_bit-trailing_zeros (m.page p).bitfield (omega arith);
          bits = acquired_bits m p i page.bits lt;
        },
      )

  -- The inner loop of `find_place` on a valid pool, with more rounds than the free list has pages,
  -- returns: a block that was free and is marked as in use, all other bits and all blocks as they
  -- were; or nothing, where no page is left in the free list, with all bits and blocks as they
  -- were. In both cases the pool is valid.
  pub take_from_free-Took :
      (fuel : ℕ) (free : List ℕ) {m : Memory (PagePool T)} {pool : Pool} {all : List ℕ}
      → IsValid m pool all free
      → length free < fuel
      → Returns (Took m pool all) (take_from_free fuel m)
  take_from_free-Took zero free v enough = absurd (omega arith)
  take_from_free-Took (suc fuel) [] {m} v enough =
      rw (take_empty fuel m v.first v.list v.free_chain) (
        returns
          (all_full v (record { live = refl; supply = refl; blocks = λ p. refl }) (λ p. refl)))
  take_from_free-Took (suc fuel) (p ∷ rest) {m} v enough =
      let member = v.free_in_all p (ground (arith, ==_refl p)) in
      let page = v.pages p member in
      let head : m.list ≡ some p = v.list ∙ ap some v.free_chain.0 in
      elim (Bool-cases (trailing_zeros (m.page p).bitfield == 63)) [
        | inl e ↦
            let full = (==_iff (trailing_zeros (m.page p).bitfield) 63).0 e in
            rw (take_full fuel m p head page.not_null page.alive full) (
              Returns.mono
                (take_from_free-Took fuel rest (popped-IsValid p rest v full) (omega arith))
                (λ o m' t. Took-popped p t))
        | inr e ↦
            let lt : trailing_zeros (m.page p).bitfield < 63 =
              ground (arith, trailing-le-last m p page.alive page.bits) in
            let (b, m', e, t) = take_head fuel p rest v lt in rw e (returns (took b t))
      ]

  -- The two ends of the loop, with the result as an equation.
  pub Took-cases :
      {m m' : Memory (PagePool T)} {pool : Pool} {all : List ℕ} {o : Option BlockPtr}
      → Took m pool all o m'
      → ((o ≡ none)
          × IsValid m' pool all []
          × SameBlocks m m'
          × ((p : ℕ) → (m'.page p).bitfield ≡ (m.page p).bitfield))
        ⊎ ((b : BlockPtr) × (o ≡ some b) × TookBlock m pool all b m')
  Took-cases (all_full v same bits) = inl (refl, v, same, bits)
  Took-cases (took b t) = inr (b, refl, t)
