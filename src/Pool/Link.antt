-- ===== src/Pool/Link.antt =====
-- The part of `Pool::alloc_new_page` (pool.rs) that links new pages.
use shared_arena.Base.{
  ℕ, ◌+◌, ◌≡◌, ◌≢◌, refl, sym, ap, ◌∙◌, ◌⊎◌, inl, inr, true, false, some, List, [], ◌∷◌, ◌++◌,
  arith, ◌==◌, length, length-append, has, Bool-cases, ==_iff, ==_refl,
}
use shared_arena.Word.{block_per_page, trailing_zeros}
use shared_arena.Memory.{Memory, update}
use shared_arena.Memory.Chain.{
  Chain, Seg-frame, Seg-append, Distinct-append, has-append, ne_of_has, ne_of_not_has,
  Distinct-last,
}
use shared_arena.Run.{ok}
use shared_arena.Page.Pool.{PagePool}
use shared_arena.Page.Pool.Make.{IsFresh, Grown, Made}
use shared_arena.Pool.{Pool, link_pages}
use shared_arena.Pool.Valid.{IsPage, IsValid}
use shared_arena.Pool.Fresh.{IsPage-fresh}

module _ {T : Type 0} where
  -- The memory after the last of the new pages was linked to the lists of the pool.
  abbrev pub linked : Memory (PagePool T) → (first last free page_list : ℕ) → Memory (PagePool T)
  linked m first last free page_list = record m {
    page =
        update (update m.page last (record (m.page last) { next_free = free })) last
          (record (m.page last) { next_free = free; next = page_list });
    list = some first;
  }

  pub link_pages-eq :
      (m : Memory (PagePool T)) (first last free page_list : ℕ)
      → m.live last ≡ true
      → m.list ≡ some free
      → link_pages first last page_list m ≡ ok tt (linked m first last free page_list)
  unfolding link_pages
  link_pages-eq m first last free page_list alive head =
      rw (head, alive, alive) (simp (alive, ==_refl))

  module _ (m₀ m : Memory (PagePool T)) (pool : Pool) (all free : List ℕ)
      (v : IsValid m₀ pool all free) (first last : ℕ) (xs : List ℕ)
      (made : Made m₀ m first last xs) where
    abbrev pub news : List ℕ
    news = xs ++ last ∷ []

    abbrev pub after : Memory (PagePool T)
    after = linked m first last v.first pool.page_list

    pub has_last : has last news ≡ true
    has_last = ground (arith, has-append last xs (last ∷ []), ==_refl last)

    -- The pages of the pool are not among the new ones.
    old_not_new : (q : ℕ) → has q all ≡ true → has q news ≡ false
    old_not_new q i = elim (Bool-cases (has q news)) [
      | inl h ↦ cc (made.grown.unused q h, (v.pages q i).alive)
      | inr h ↦ h
    ]

    old_page : (q : ℕ) → has q news ≡ false → after.page q ≡ m₀.page q
    old_page q o = ground (arith, made.grown.kept q, ne_of_not_has q last news o has_last)

    not_last : (q : ℕ) → has q xs ≡ true → (q == last) ≡ false
    not_last q i = ne_of_has q last xs i (Distinct-last xs last made.grown.distinct)

    last_ne : last ≢ 0
    last_ne = (made.grown.fresh last has_last).not_null

    after-free_Chain : Chain (λ q. (after.page q).next_free) first (news ++ free)
    after-free_Chain =
        Seg-append (λ q. (after.page q).next_free) 0 first v.first news free
          (Seg-append (λ q. (after.page q).next_free) v.first first last xs (last ∷ [])
            (Seg-frame (λ q. (m.page q).next_free) _ last first xs
              (λ q i. ground (arith, not_last q i)) made.free_seg)
            (refl, last_ne, rw (==_refl last)))
          (Seg-frame (λ q. (m₀.page q).next_free) _ 0 v.first free
            (λ q i. ap (λ g. g.next_free) (old_page q (old_not_new q (v.free_in_all q i))))
            v.free_chain)

    after-all_Chain : Chain (λ q. (after.page q).next) first (news ++ all)
    after-all_Chain =
        Seg-append (λ q. (after.page q).next) 0 first pool.page_list news all
          (Seg-append (λ q. (after.page q).next) pool.page_list first last xs (last ∷ [])
            (Seg-frame (λ q. (m.page q).next) _ last first xs (λ q i. ground (arith, not_last q i))
              made.next_seg)
            (refl, last_ne, rw (==_refl last)))
          (Seg-frame (λ q. (m₀.page q).next) _ 0 pool.page_list all
            (λ q i. ap (λ g. g.next) (old_page q (old_not_new q i))) v.all_chain)

    new_blocks : (q : ℕ) → (after.page q).blocks ≡ (m.page q).blocks
    new_blocks q = elim (Bool-cases (q == last)) [
      | inl e ↦ rw e (ap (λ r. (m.page r).blocks) (sym ((==_iff q last).0 e)))
      | inr e ↦ rw e
    ]

    -- Every new page is as it was made, whatever its links are now.
    new-IsFresh : (q : ℕ) → has q news ≡ true → IsFresh after q
    new-IsFresh q i =
        let f = made.grown.fresh q i in
        record {
          alive = f.alive;
          bitfield = ground (arith, f.bitfield);
          blocks = new_blocks q ∙ f.blocks;
          flag = ground (arith, f.flag);
          not_null = f.not_null;
          word = f.word;
          canonical = f.canonical;
        }

    pub Grown-after : Grown m₀ after news
    Grown-after = record {
      kept = old_page;
      kept_live = made.grown.kept_live;
      unused = made.grown.unused;
      fresh = new-IsFresh;
      distinct = made.grown.distinct;
      rest = made.grown.rest;
    }

    abbrev pub grown_pool : Pool
    grown_pool = record { page_list = first; npages = pool.npages + length news }

    new_or_old : (q : ℕ) → has q (news ++ all) ≡ true → (has q news ≡ true) ⊎ (has q all ≡ true)
    new_or_old q i = ground (arith, has-append q news all)

    after_pages : (q : ℕ) → has q (news ++ all) ≡ true → IsPage after q
    after_pages q i = elim (new_or_old q i) [
      | inl h ↦ IsPage-fresh (new-IsFresh q h)
      | inr h ↦
          let o = old_not_new q h in
          let page = v.pages q h in
          let same = old_page q o in
          record {
            alive = made.grown.kept_live q o ∙ page.alive;
            bits = rw same page.bits;
            tags = rw same page.tags;
            not_null = page.not_null;
            word = page.word;
            canonical = page.canonical;
          }
    ]

    after_flags :
        (q : ℕ) → has q (news ++ all) ≡ true → (after.page q).in_free_list ≡ has q (news ++ free)
    after_flags q i = elim (Bool-cases (has q news)) [
      | inl h ↦ ground (arith, (new-IsFresh q h).flag, has-append q news free)
      | inr o ↦
          ground (arith, has-append q news all, has-append q news free, v.flags q, old_page q o)
    ]

    after_full :
        (q : ℕ)
        → has q (news ++ all) ≡ true
        → has q (news ++ free) ≡ false
        → trailing_zeros (after.page q).bitfield ≡ block_per_page
    after_full q i o =
        let apart : has q news ≡ false = ground (arith, has-append q news free) in
        rw (old_page q apart) (
          v.full q (ground (arith, has-append q news all)) (ground (arith, has-append q news free)))

    pub IsValid-after : IsValid after grown_pool (news ++ all) (news ++ free)
    IsValid-after = record {
      first = first;
      list = refl;
      free_chain = after-free_Chain;
      all_chain = after-all_Chain;
      free_distinct =
          Distinct-append news free made.grown.distinct v.free_distinct
            (λ q i. ground (arith, old_not_new q, v.free_in_all q));
      all_distinct =
          Distinct-append news all made.grown.distinct v.all_distinct
            (λ q i. ground (arith, old_not_new q));
      free_in_all =
          λ q i. ground (arith, has-append q news free, has-append q news all, v.free_in_all q);
      count = omega (arith, v.count, length-append {0} news all);
      pages = after_pages;
      flags = after_flags;
      full = after_full;
    }
