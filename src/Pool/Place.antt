-- ===== src/Pool/Place.antt =====
-- `Pool::find_place` of pool.rs.
use shared_arena.Memory.Supply.{Supply}
use mathlib.Core.Path.{subst, subst₂}
use shared_arena.Base.{
  ℕ, zero, suc, ◌<◌, ◌≡◌, refl, sym, ap, ◌∙◌, ◌⊎◌, inl, inr, Bool, true, false, not, ◌&&◌, some,
  List, [], ◌∷◌, ◌++◌, arith, ◌==◌, length, has, Bool-cases, ==_refl, ◌+◌, min, max,
}
use shared_arena.Word.{test_bit, block_per_page}
use shared_arena.Memory.{Memory, BlockPtr}
use shared_arena.Memory.Chain.{has-append}
use shared_arena.Run.{ok}
use shared_arena.Run.Returns
use shared_arena.Run.Returns.{Returns, returns}
use shared_arena.Page.Pool.{PagePool}
use shared_arena.Page.Pool.Make.{IsFresh, Grown}
use shared_arena.Pool.{Pool, take_from_free, find_place}
use shared_arena.Pool.Valid.{IsValid, SameBlocks, BlockOk, Filled}
use shared_arena.Pool.Taken.{TookBlock}
use shared_arena.Pool.Take.{Took-cases, take_head, take_from_free-Took}
use shared_arena.Word.Count.{trailing_zeros_below, trailing_zeros-all_ones}
use shared_arena.Word.Ext.{test_bit-all_ones}
use shared_arena.Pool.Grow.{to_allocate, alloc_new_page-IsValid}

-- `p` and `i` are the page and the index of `b`.
abbrev pub is_at : BlockPtr → ℕ → ℕ → Bool
is_at b p i = p == b.page && i == b.index

pub is_at_eq : (b : BlockPtr) (p i : ℕ) → is_at b p i ≡ true → (p ≡ b.page) × (i ≡ b.index)
is_at_eq b p i h = ground arith

-- What `find_place` does to a pool with the pages `all`: the block `b` is marked as in use and is
-- counted by no pointer yet; all else that was in use still is, with its value and its counter.
pub record Placed {T : Type 0} (m : Memory (PagePool T)) (all : List ℕ) (pool' : Pool)
    (b : BlockPtr) (m' : Memory (PagePool T)) : Type 0 where
  pub news : List ℕ
  pub free : List ℕ
  pub valid : IsValid m' pool' (news ++ all) free
  pub member : has b.page (news ++ all) ≡ true
  pub below : b.index < block_per_page
  pub taken : test_bit (m'.page b.page).bitfield b.index ≡ false
  pub idle : ((m'.page b.page).blocks b.index).counter ≡ 0
  pub others :
      (p i : ℕ)
      → has p (news ++ all) ≡ true
      → i < block_per_page
      → is_at b p i ≡ false
      → BlockOk (test_bit (m'.page p).bitfield i) ((m'.page p).blocks i)
  pub was_free : has b.page all ≡ true → test_bit (m.page b.page).bitfield b.index ≡ true
  pub old_blocks : (p : ℕ) → has p all ≡ true → (m'.page p).blocks ≡ (m.page p).blocks
  pub old_bits :
      (p j : ℕ)
      → has p all ≡ true
      → test_bit (m'.page p).bitfield j ≡ (test_bit (m.page p).bitfield j && not (is_at b p j))
  pub unused : (p : ℕ) → has p news ≡ true → m.live p ≡ false
  pub new_bits :
      (p i : ℕ)
      → has p news ≡ true
      → i < block_per_page
      → test_bit (m'.page p).bitfield i ≡ not (is_at b p i)
  pub growth : (news ≡ []) ⊎ (length news ≡ min (max (length all) 1) 900_000)
  pub rest : (k : ℕ) → Supply (length news + k) m.supply m.live → Supply k m'.supply m'.live
  -- Pages are made only when no block of the old ones is free.
  pub needed :
      (news ≡ [])
      ⊎ ((p i : ℕ) → has p all ≡ true → i < block_per_page → test_bit (m.page p).bitfield i ≡ false)

module _ {T : Type 0} where
  module _ {m m' : Memory (PagePool T)} {pool : Pool} {all : List ℕ} {b : BlockPtr}
      (filled : Filled m all) (t : TookBlock m pool all b m') where
    was_idle : ((m.page b.page).blocks b.index).counter ≡ 0
    was_idle =
        subst (λ v. BlockOk v ((m.page b.page).blocks b.index)) t.was_free
          (filled b.page b.index t.member t.below)

    other_bit :
        (p i : ℕ)
        → is_at b p i ≡ false
        → test_bit (m'.page p).bitfield i ≡ test_bit (m.page p).bitfield i
    other_bit p i ne = ground (arith, t.bits p i)

    Placed-old : Placed m all pool b m'
    Placed-old = record {
      news = [];
      free = t.free;
      valid = t.valid;
      member = t.member;
      below = t.below;
      taken = ground (arith, t.bits b.page b.index, ==_refl b.page, ==_refl b.index);
      idle = ap (λ f. (f b.index).counter) (t.same.blocks b.page) ∙ was_idle;
      others = λ p i h lt ne. rw (other_bit p i ne, t.same.blocks p) (filled p i h lt);
      was_free = λ _. t.was_free;
      old_blocks = λ p i. t.same.blocks p;
      old_bits = λ p j i. t.bits p j;
      unused = λ p i. cc;
      new_bits = λ p i h lt. cc h;
      growth = inl refl;
      rest = λ k good.
          subst₂ (λ s l. Supply k s l) (sym t.same.supply) (sym t.same.live)
            (subst (λ n. Supply n m.supply m.live) (omega arith) good);
      needed = inl refl;
    }

  -- Every block of a fresh page is free and idle.
  Filled-fresh :
      {m : Memory (PagePool T)} {p : ℕ}
      → IsFresh m p
      → (i : ℕ) → i < 63
      → BlockOk (test_bit (m.page p).bitfield i) ((m.page p).blocks i)
  Filled-fresh f i lt = rw (f.bitfield, test_bit-all_ones i (omega arith), f.blocks) refl

  module _ {m m₁ m₂ m₃ : Memory (PagePool T)} {pool pool' : Pool} {all news : List ℕ} {b : BlockPtr}
      (filled : Filled m all) (none_left : IsValid m₁ pool all []) (same : SameBlocks m m₁)
      (bits : (p : ℕ) → (m₁.page p).bitfield ≡ (m.page p).bitfield) (grown : Grown m₁ m₂ news)
      (t : TookBlock m₂ pool' (news ++ all) b m₃)
      (size : length news ≡ min (max (length all) 1) 900_000) where
    apart : (p : ℕ) → has p all ≡ true → has p news ≡ false
    apart p i = elim (Bool-cases (has p news)) [
      | inl h ↦ cc (grown.unused p h, (none_left.pages p i).alive)
      | inr h ↦ h
    ]

    kept_bits : (p : ℕ) → has p all ≡ true → (m₂.page p).bitfield ≡ (m.page p).bitfield
    kept_bits p i = ap (λ g. g.bitfield) (grown.kept p (apart p i)) ∙ bits p

    kept_blocks : (p : ℕ) → has p all ≡ true → (m₂.page p).blocks ≡ (m.page p).blocks
    kept_blocks p i = ap (λ g. g.blocks) (grown.kept p (apart p i)) ∙ same.blocks p

    Filled-grown : Filled m₂ (news ++ all)
    Filled-grown p i h lt = elim (Bool-cases (has p news)) [
      | inl new ↦ Filled-fresh (grown.fresh p new) i lt
      | inr old ↦
          let member : has p all ≡ true = ground (arith, has-append p news all) in
          rw (kept_bits p member, kept_blocks p member) (filled p i member lt)
    ]

    Placed-new : Placed m all pool' b m₃
    unfolding Placed-old
    Placed-new = record {
      news = news;
      free = t.free;
      valid = t.valid;
      member = t.member;
      below = t.below;
      taken = (Placed-old Filled-grown t).taken;
      idle = (Placed-old Filled-grown t).idle;
      others = (Placed-old Filled-grown t).others;
      was_free = λ i. ap (λ w. test_bit w b.index) (sym (kept_bits b.page i)) ∙ t.was_free;
      old_blocks = λ p i. t.same.blocks p ∙ kept_blocks p i;
      old_bits = λ p j i. ground (arith, t.bits p j, kept_bits p i);
      unused = λ p i. ap (λ f. f p) (sym same.live) ∙ grown.unused p i;
      new_bits = λ p i h lt.
          t.bits p i ∙ rw ((grown.fresh p h).bitfield, test_bit-all_ones i (omega arith)) refl;
      growth = inr size;
      rest = λ k good.
          subst₂ (λ s l. Supply k s l) (sym t.same.supply) (sym t.same.live)
            (grown.rest k (
              subst₂ (λ s l. Supply (length news + k) s l) (sym same.supply) (sym same.live) good));
      needed = inr λ p i h lt.
          ap (λ w. test_bit w i) (sym (bits p))
          ∙ trailing_zeros_below (m₁.page p).bitfield i (rw (none_left.full p h refl) lt);
    }

  -- After an outer round that made new pages the first of them gives its block 0.
  second_round :
      (fuel : ℕ) (news all : List ℕ) {m : Memory (PagePool T)} {pool : Pool}
      → 0 < length news
      → IsValid m pool (news ++ all) (news ++ [])
      → ((p : ℕ) → has p news ≡ true → IsFresh m p)
      → (b : BlockPtr) × (m' : Memory (PagePool T)) × (take_from_free (suc fuel) m ≡ ok (some b) m')
        × TookBlock m pool (news ++ all) b m'
  second_round fuel [] all ne v fresh = absurd (omega arith)
  second_round fuel (p ∷ rest) all ne v fresh =
      take_head fuel p (rest ++ []) v
        (rw ((fresh p (ground (arith, ==_refl p))).bitfield, trailing_zeros-all_ones) (omega arith))

  -- `Pool::find_place`, where the pool is valid, its blocks agree with their bits, the allocator's
  -- next addresses are good, two rounds or more and more rounds of the inner loop than the free
  -- list has pages are given, returns a valid pool and a block that was free and is marked as in
  -- use, which no pointer counts; the other blocks and bits of the old pages are as they were; new
  -- pages are at addresses that were not live, and were made only if no block was free.
  pub find_place-Placed :
      (rounds fuel : ℕ) (m : Memory (PagePool T)) (pool : Pool) (all free : List ℕ)
      → IsValid m pool all free
      → Filled m all
      → Supply (to_allocate pool) m.supply m.live
      → 1 < rounds
      → length free < fuel
      → Returns (λ (pool', b) m'. Placed m all pool' b m') (find_place rounds fuel pool m)
  unfolding find_place
  find_place-Placed zero fuel m pool all free v filled good two enough = absurd (omega arith)
  find_place-Placed (suc zero) fuel m pool all free v filled good two enough = absurd (omega arith)
  find_place-Placed (suc (suc rounds)) zero m pool all free v filled good two enough =
      absurd (omega arith)
  find_place-Placed (suc (suc rounds)) (suc fuel) m pool all free v filled good two enough =
      Returns.bind (take_from_free-Took (suc fuel) free v enough) λ o m₁ t. elim (Took-cases t) [
        | inr (b, e, t) ↦ rw e (returns (Placed-old filled t))
        | inl (e, v₁, same, bits) ↦
            let good₁ : Supply (to_allocate pool) m₁.supply m₁.live =
              rw (same.supply, same.live) good in
            rw e (
              Returns.bind (alloc_new_page-IsValid m₁ pool all [] v₁ good₁)
                λ pool' m₂ (news, v₂, grown, len).
                  let (b, m₃, e₃, t₃) = second_round fuel news all (omega arith) v₂ grown.fresh in
                  rw e₃ (
                    returns (
                      Placed-new filled v₁ same bits grown t₃
                        (len ∙ ap (λ n. min (max n 1) 900_000) v.count))))
      ]
