-- ===== src/Pool/Released.antt =====
-- The memory after `PagePool::drop_block` (page/pool.rs).
use shared_arena.Base.{
  ℕ, ◌<◌, ◌≡◌, refl, ap, inl, inr, true, false, ◌||◌, none, some, List, ◌∷◌, arith, ◌==◌, has,
  Bool-cases, ==_iff, ==_refl,
}
use shared_arena.Word.{test_bit, block_per_page}
use shared_arena.Word.Ext.{test_bit_set}
use shared_arena.Memory.{Memory, BlockPtr}
use shared_arena.Memory.Chain.{Seg-frame, ne_of_has}
use shared_arena.Page.Pool.{PagePool}
use shared_arena.Page.Pool.Acquire.{IsBitfield}
use shared_arena.Pool.{Pool}
use shared_arena.Pool.Valid.{IsPage, IsValid, IsPage-frame}
use shared_arena.Pool.Place.{is_at, is_at_eq}
use shared_arena.Pool.Write.{block_at}
use shared_arena.Pool.Release.{freed, relisted, IsBitfield-freed}

module _ {T : Type 0} (m : Memory (PagePool T)) (b : BlockPtr) (page : IsPage m b.page)
    (below : b.index < block_per_page) (value : T) (holds : (block_at m b).value ≡ some value) where
  pub freed_bit :
      (q j : ℕ)
      → test_bit ((freed m b).page q).bitfield j ≡ (test_bit (m.page q).bitfield j || is_at b q j)
  freed_bit q j = elim (Bool-cases (q == b.page)) [
    | inl e ↦
        let same = (==_iff q b.page).0 e in
        ground (arith, test_bit_set (m.page b.page).bitfield b.index j, same)
    | inr e ↦ ground arith
  ]

  pub freed_other :
      (q i : ℕ) → is_at b q i ≡ false → ((freed m b).page q).blocks i ≡ (m.page q).blocks i
  freed_other q i ne = elim (Bool-cases (q == b.page)) [
    | inl e ↦ let same = (==_iff q b.page).0 e in rw (same, ==_refl b.page) (ground arith)
    | inr e ↦ rw e
  ]

  pub block_at-freed : block_at (freed m b) b ≡ record (block_at m b) { value = none }
  block_at-freed = ground (arith, ==_refl b.page, ==_refl b.index)

  freed_tag : (q i : ℕ) → (((freed m b).page q).blocks i).page ≡ ((m.page q).blocks i).page
  freed_tag q i = elim (Bool-cases (is_at b q i)) [
    | inl at ↦ let (e, e') = is_at_eq b q i at in rw (e, e', ==_refl b.page, ==_refl b.index)
    | inr ne ↦ ap (λ k. k.page) (freed_other q i ne)
  ]

  module _ {pool : Pool} {all free : List ℕ} (v : IsValid m pool all free)
      (member : has b.page all ≡ true) where
    freed_pages : (q : ℕ) → has q all ≡ true → IsPage (freed m b) q
    freed_pages q h = IsPage-frame (v.pages q h) (v.pages q h).alive kept (λ i lt. freed_tag q i)
      where
        kept : IsBitfield ((freed m b).page q).bitfield
        kept = elim (Bool-cases (q == b.page)) [
          | inl e ↦ rw e (IsBitfield-freed m b page below value holds)
          | inr e ↦ rw e (v.pages q h).bits
        ]

    pub IsValid-freed : has b.page free ≡ true → IsValid (freed m b) pool all free
    IsValid-freed listed = record {
      first = v.first;
      list = v.list;
      free_chain =
          Seg-frame (λ q. (m.page q).next_free) _ 0 _ free (λ q h. ground arith) v.free_chain;
      all_chain = Seg-frame (λ q. (m.page q).next) _ 0 _ all (λ q h. ground arith) v.all_chain;
      free_distinct = v.free_distinct;
      all_distinct = v.all_distinct;
      free_in_all = v.free_in_all;
      count = v.count;
      pages = freed_pages;
      flags = λ q h. ground (arith, v.flags q h);
      full = λ q h o. ground (arith, v.full q h o, ==_iff q b.page);
    }

    pub relisted_bits :
        (q : ℕ) → ((relisted m b v.first).page q).bitfield ≡ ((freed m b).page q).bitfield
    relisted_bits q = elim (Bool-cases (q == b.page)) [
      | inl e ↦ rw ((==_iff q b.page).0 e) (ground (arith, ==_refl b.page))
      | inr e ↦ rw e
    ]

    pub relisted_blocks :
        (q : ℕ) → ((relisted m b v.first).page q).blocks ≡ ((freed m b).page q).blocks
    relisted_blocks q = elim (Bool-cases (q == b.page)) [
      | inl e ↦ rw ((==_iff q b.page).0 e) (ground (arith, ==_refl b.page))
      | inr e ↦ rw e
    ]

    pub IsValid-relisted :
        has b.page free ≡ false → IsValid (relisted m b v.first) pool all (b.page ∷ free)
    IsValid-relisted out = record {
      first = b.page;
      list = refl;
      free_chain = (
        refl,
        page.not_null,
        rw (==_refl b.page) (
            Seg-frame (λ q. (m.page q).next_free) _ 0 _ free
              (λ q h. ground (arith, ne_of_has q b.page free h out)) v.free_chain),
      );
      all_chain = Seg-frame (λ q. (m.page q).next) _ 0 _ all (λ q h. ground arith) v.all_chain;
      free_distinct = (out, v.free_distinct);
      all_distinct = v.all_distinct;
      free_in_all = λ q h. ground (arith, v.free_in_all q, ==_iff q b.page);
      count = v.count;
      pages = λ q h.
          IsPage-frame (freed_pages q h) (freed_pages q h).alive
            (rw (relisted_bits q) (freed_pages q h).bits)
            (λ i lt. ap (λ f. (f i).page) (relisted_blocks q));
      flags = λ q h. ground (arith, v.flags q h);
      full = λ q h o. ground (arith, v.full q h, ==_iff q b.page);
    }
