-- ===== src/Pool/Shrink.antt =====
-- `shrink_to_fit` of pool.rs.
use mathlib.Core.List.{reverse}
use mathlib.Core.Path.{subst}
use shared_arena.Base.{
  ℕ, ◌+◌, ◌-◌, ◌<◌, ◌≡◌, refl, sym, ap, ◌∙◌, inl, inr, true, false, not, ◌&&◌, List, [], ◌∷◌, arith,
  ltb, length, has, Bool-cases, ==_refl, ==_iff,
}
use shared_arena.Word.{all_ones, trailing_zeros}
use shared_arena.Word.Count.{trailing_zeros-all_ones}
use shared_arena.Memory.{Memory}
use shared_arena.Memory.Chain.{Chain, Seg-frame, Distinct}
use shared_arena.Memory.Select.{
  retain, has-retain, retain-same, length-retain, Distinct-retain, length-Distinct, has-reverse,
  Distinct-reverse,
}
use shared_arena.Run.Returns
use shared_arena.Run.Returns.{Returns, returns}
use shared_arena.Page.Pool.{PagePool}
use shared_arena.Page.Pool.Acquire.{IsBitfield}
use shared_arena.Pool.{Pool}
use shared_arena.Pool.LetGo.{LetGo, LetGo-nil, LetGo-cons, still_good, drop_page-LetGo}
use shared_arena.Pool.Unlink.{is_used, FreeUnlinked}
use shared_arena.Pool.Unlinked.{unlink_unused-FreeUnlinked}
use shared_arena.Pool.Relinked.{AllUnlinked}
use shared_arena.Pool.Unlist.{unlink_dropped-AllUnlinked}
use shared_arena.Pool.Valid.{IsValid, Filled, IsPage-frame}
use shared_arena.Pool.Walk.{head, drop_pages, shrink_to_fit}

module _ {T : Type 0} where
  drop_pages-LetGo :
      (ps : List ℕ) (m : Memory (PagePool T))
      → Distinct ps
      → ((q : ℕ) → has q ps ≡ true → (m.live q ≡ true) × IsBitfield (m.page q).bitfield)
      → Returns (λ _ m'. LetGo m ps m' × (m'.list ≡ m.list)) (drop_pages ps m)
  unfolding drop_pages
  drop_pages-LetGo [] m d good = returns (LetGo-nil m, refl)
  drop_pages-LetGo (p ∷ ps) m (out, d) good =
      let (alive, word) = good p (ground (arith, ==_refl p)) in
      Returns.bind (drop_page-LetGo m p alive word) λ _ m₁ (a, e).
        Returns.mono (drop_pages-LetGo ps m₁ d (still_good p ps m m₁ out a good))
          λ _ m₂ (b, e'). (LetGo-cons p ps out a b, e' ∙ e)

-- The pages without blocks in use are deallocated and are in no list; the others are as they were.
pub record Shrunk {T : Type 0} (m : Memory (PagePool T)) (all free : List ℕ) (pool' : Pool)
    (m' : Memory (PagePool T)) : Type 0 where
  pub valid : IsValid m' pool' (retain (is_used m) all) (retain (is_used m) free)
  pub filled : Filled m' (retain (is_used m) all)
  pub live : (q : ℕ) → m'.live q ≡ (m.live q && not (has q all && not (is_used m q)))
  pub bitfield :
      (q : ℕ)
      → (has q all && not (is_used m q)) ≡ false
      → (m'.page q).bitfield ≡ (m.page q).bitfield
  pub blocks : (q : ℕ) → (m'.page q).blocks ≡ (m.page q).blocks
  pub supply : m'.supply ≡ m.supply

module _ {T : Type 0} {m : Memory (PagePool T)} {pool : Pool} {all free : List ℕ}
    (v : IsValid m pool all free) (filled : Filled m all) where
  abbrev dropped : List ℕ
  dropped = retain (λ q. not (is_used m q)) free

  -- A page with no block in use is in the free list.
  unused_free : (q : ℕ) → has q all ≡ true → is_used m q ≡ false → has q free ≡ true
  unused_free q h unused = elim (Bool-cases (has q free)) [
    | inl e ↦ e
    | inr e ↦
        let ones : (m.page q).bitfield ≡ all_ones =
          ground (arith, ==_iff (m.page q).bitfield all_ones) in
        absurd (omega (arith, v.full q h e, ap trailing_zeros ones, trailing_zeros-all_ones))
  ]

  has-dropped : (q : ℕ) → has q dropped ≡ (has q all && not (is_used m q))
  has-dropped q = elim (Bool-cases (has q all)) [
    | inl h ↦ elim (Bool-cases (is_used m q)) [
      | inl e ↦ has-retain _ free q ∙ rw (e, h) (ground arith)
      | inr e ↦ has-retain _ free q ∙ rw (e, h, unused_free q h e) refl
    ]
    | inr h ↦ has-retain _ free q ∙ ground (arith, h, v.free_in_all q)
  ]

  kept_pages : retain (λ q. not (has q dropped)) all ≡ retain (is_used m) all
  kept_pages = retain-same _ _ all λ q h. ap not (has-dropped q) ∙ rw h (ground arith)

  dropped_good : (q : ℕ) → has q dropped ≡ true → (m.live q ≡ true) × IsBitfield (m.page q).bitfield
  dropped_good q h = let page = v.pages q (ground (arith, has-dropped q)) in (page.alive, page.bits)

  -- As many pages are dropped as are not kept.
  count_pages : length (retain (is_used m) all) + length dropped ≡ length all
  count_pages =
      let unused = retain (λ q. not (is_used m q)) all in
      let here : (q : ℕ) → has q unused ≡ (has q all && not (is_used m q)) = has-retain _ all in
      omega (
        arith,
        length-retain (is_used m) all,
        length-Distinct unused dropped (Distinct-retain _ all v.all_distinct)
            (λ q h. has-dropped q ∙ sym (here q) ∙ h),
        length-Distinct dropped unused (Distinct-retain _ free v.free_distinct)
            (λ q h. here q ∙ sym (has-dropped q) ∙ h),
      )

  module _ {m₁ m₂ m₃ : Memory (PagePool T)} {first : ℕ} (u : FreeUnlinked m head free m₁)
      (w : AllUnlinked m₁ head pool.page_list dropped all first m₂)
      (g : LetGo m₂ (reverse dropped) m₃) (list : m₃.list ≡ m₂.list) where
    gone : (q : ℕ) → has q (reverse dropped) ≡ (has q all && not (is_used m q))
    gone q = has-reverse dropped q ∙ has-dropped q

    same_bitfield : (q : ℕ) → (m₂.page q).bitfield ≡ (m.page q).bitfield
    same_bitfield q = w.same.bitfield q ∙ u.same.bitfield q

    blocks : (q : ℕ) → (m₃.page q).blocks ≡ (m.page q).blocks
    blocks q = g.blocks q ∙ w.same.blocks q ∙ u.same.blocks q

    bitfield :
        (q : ℕ)
        → (has q all && not (is_used m q)) ≡ false
        → (m₃.page q).bitfield ≡ (m.page q).bitfield
    bitfield q kept = g.bitfield q ∙ rw (gone q ∙ kept) (same_bitfield q)

    live : (q : ℕ) → m₃.live q ≡ (m.live q && not (has q all && not (is_used m q)))
    live q =
        let before : m₂.live q ≡ m.live q = ap (λ f. f q) (w.same.live ∙ u.same.live) in
        elim (Bool-cases (has q all && not (is_used m q))) [
          | inl e ↦ g.live q ∙ rw (gone q ∙ e, e, same_bitfield q) (ground arith)
          | inr e ↦ g.live q ∙ rw (gone q ∙ e, e) (before ∙ ground arith)
        ]

    module _ (q : ℕ) (h : has q (retain (is_used m) all) ≡ true) where
      in_all : has q all ≡ true
      in_all = ground (arith, has-retain (is_used m) all q)

      used : is_used m q ≡ true
      used = ground (arith, has-retain (is_used m) all q)

      kept : (has q all && not (is_used m q)) ≡ false
      kept = rw (used, in_all) refl

    Shrunk-end :
        Shrunk m all free (record { page_list = first; npages = pool.npages - length dropped }) m₃
    Shrunk-end = record {
      valid = record {
        first = u.first;
        list = list ∙ w.same.list ∙ u.at;
        free_chain = Seg-frame _ _ 0 _ _ (λ q h. g.next_free q ∙ w.same.next_free q) u.chain;
        all_chain =
            Seg-frame _ _ 0 _ _ (λ q h. g.next q)
              (subst (Chain (λ q. (m₂.page q).next) first) kept_pages w.chain);
        free_distinct = Distinct-retain _ free v.free_distinct;
        all_distinct = Distinct-retain _ all v.all_distinct;
        free_in_all = λ q h.
            ground
              (arith, has-retain (is_used m) free q, has-retain (is_used m) all q, v.free_in_all q);
        count = omega (arith, v.count, count_pages);
        pages = λ q h.
            let page = v.pages q (in_all q h) in
            IsPage-frame page (live q ∙ rw (kept q h, page.alive) refl)
              (subst IsBitfield (sym (bitfield q (kept q h))) page.bits)
              (λ i lt. ap (λ f. (f i).page) (blocks q));
        flags = λ q h.
            g.in_free_list q
            ∙ w.same.in_free_list q
            ∙ u.same.in_free_list q
            ∙ v.flags q (in_all q h)
            ∙ sym (has-retain (is_used m) free q ∙ rw (used q h) (ground arith));
        full = λ q h out.
            ap trailing_zeros (bitfield q (kept q h))
            ∙ v.full q (in_all q h) (ground (arith, has-retain (is_used m) free q, used q h));
      };
      filled = λ q i h lt. rw (bitfield q (kept q h), blocks q) (filled q i (in_all q h) lt);
      live = live;
      bitfield = bitfield;
      blocks = blocks;
      supply = g.supply ∙ w.same.supply ∙ u.same.supply;
    }

-- `Pool::shrink_to_fit` of a valid pool whose blocks agree with their bits, with more rounds than
-- there are pages, returns a valid pool with the pages that have a block in use, in their order in
-- both lists. Exactly the other pages of the pool are deallocated; those that are kept have their
-- bits and blocks, and `npages` does not go below 0.
pub shrink_to_fit-Shrunk :
    {T : Type 0} (fuel : ℕ) (m : Memory (PagePool T)) (pool : Pool) (all free : List ℕ)
    → IsValid m pool all free
    → Filled m all
    → length all < fuel
    → Returns (λ pool' m'. Shrunk m all free pool' m') (shrink_to_fit fuel pool m)
unfolding shrink_to_fit
shrink_to_fit-Shrunk fuel m pool all free v filled enough =
    let short = length-Distinct free all v.free_distinct v.free_in_all in
    Returns.bind
      (unlink_unused-FreeUnlinked fuel head [] m v.first free tt v.list v.free_chain v.free_distinct
        refl (λ q h. (v.pages q (v.free_in_all q h)).alive) (omega (arith, short)))
      λ d m₁ (e, u). rw e (
        Returns.bind
          (unlink_dropped-AllUnlinked fuel head pool.page_list (dropped v filled) m₁ all tt
            (Seg-frame _ _ 0 _ all (λ q h. u.same.next q) v.all_chain) v.all_distinct refl
            (λ q h. ap (λ f. f q) u.same.live ∙ (v.pages q h).alive) enough)
          λ first m₂ w.
            let fits : ltb pool.npages (length (dropped v filled)) ≡ false =
              ground (arith, v.count, count_pages v filled) in
            rw fits (
              Returns.bind
                (drop_pages-LetGo (reverse (dropped v filled)) m₂
                  (Distinct-reverse _ (Distinct-retain _ free v.free_distinct))
                  (λ q h.
                    let (alive, word) =
                      dropped_good v filled q (sym (has-reverse (dropped v filled) q) ∙ h) in
                    (
                      ap (λ f. f q) (w.same.live ∙ u.same.live) ∙ alive,
                      subst IsBitfield (sym (w.same.bitfield q ∙ u.same.bitfield q)) word,
                    )))
                λ _ m₃ (g, list). returns (Shrunk-end v filled u w g list)))
