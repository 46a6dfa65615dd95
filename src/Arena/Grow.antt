-- ===== src/Arena/Grow.antt =====
-- `Arena::alloc_new_page` of arena.rs, on a valid arena whose lists of free pages are empty.
use mathlib.Core.Path.{subst}
use shared_arena.Base.{
  ℕ, ◌+◌, ◌≡◌, refl, sym, ap, ◌∙◌, inl, inr, true, false, min, max, List, [], ◌∷◌, ◌++◌, arith,
  ◌==◌, length, length-append, has, Bool-cases, ==_iff, ==_refl,
}
use shared_arena.Word.Bits.{test_bit_above}
use shared_arena.Memory.{Memory, with_page, deref, store}
use shared_arena.Memory.Chain.{
  Chain, Seg-frame, Seg-append, Distinct-append, Distinct-last, has-append, ne_of_has,
  ne_of_not_has,
}
use shared_arena.Memory.Fresh.{Grown, Made, IsFresh}
use shared_arena.Memory.Supply.{Supply}
use shared_arena.Run.Returns
use shared_arena.Run.Returns.{Returns, returns}
use shared_arena.Page.Arena.{PageArena}
use shared_arena.Page.Arena.Acquire.{HasBitfields, is_free}
use shared_arena.Page.Arena.Make.{free_of, next_of, IsNew, make_list-Made}
use shared_arena.Arena.{Arena, alloc_new_page}
use shared_arena.Arena.Valid.{IsPage, IsValid}

-- The number of pages that `alloc_new_page` adds.
abbrev pub to_allocate : Arena → ℕ
to_allocate arena = min (max arena.npages 1) 900_000

module _ {T : Type 0} where
  pub HasBitfields-new : {a : ℕ} {g : PageArena T} → IsNew a g → HasBitfields g
  HasBitfields-new {g} n = record {
    word = rw (n.bitfield) (omega arith);
    top = rw (n.bitfield) refl;
    atomic = rw (n.bitfield_atomic) (omega arith);
    apart = λ j on. rw (n.bitfield_atomic) (test_bit_above 0 j 0 (omega arith) (omega arith));
  }

  pub IsPage-fresh :
      {m : Memory (PageArena T)} {p : ℕ} → IsFresh free_of next_of IsNew m p → IsPage m p
  IsPage-fresh f = record {
    alive = f.alive;
    bits = HasBitfields-new f.content;
    tags = λ i lt. rw (f.content.blocks) refl;
    not_null = f.not_null;
    word = f.word;
    canonical = f.canonical;
  }

  module _ (m₀ m : Memory (PageArena T)) (arena : Arena) (all : List ℕ)
      (v : IsValid m₀ arena all [] []) (first last : ℕ) (xs : List ℕ)
      (made : Made free_of next_of IsNew m₀ m first last xs) where
    abbrev news : List ℕ
    news = xs ++ last ∷ []

    -- The memory after the last of the new pages was linked to the list of all pages.
    abbrev linked : Memory (PageArena T)
    linked = with_page m last (record (m.page last) { next = arena.full_list })

    abbrev grown_arena : Arena
    grown_arena = record {
      free_list = first;
      full_list = first;
      npages = arena.npages + length news;
    }

    has_last : has last news ≡ true
    has_last = ground (arith, has-append last xs (last ∷ []), ==_refl last)

    last-IsFresh : IsFresh free_of next_of IsNew m last
    last-IsFresh = made.grown.fresh last has_last

    old_not_new : (q : ℕ) → has q all ≡ true → has q news ≡ false
    old_not_new q i = elim (Bool-cases (has q news)) [
      | inl h ↦ cc (made.grown.unused q h, (v.pages q i).alive)
      | inr h ↦ h
    ]

    old_page : (q : ℕ) → has q news ≡ false → linked.page q ≡ m₀.page q
    old_page q o = rw (ne_of_not_has q last news o has_last) (made.grown.kept q o)

    not_last : (q : ℕ) → has q xs ≡ true → (q == last) ≡ false
    not_last q i = ne_of_has q last xs i (Distinct-last xs last made.grown.distinct)

    IsNew-kept : (q : ℕ) → has q news ≡ true → IsNew q (linked.page q)
    IsNew-kept q h =
        let n = (made.grown.fresh q h).content in
        elim (Bool-cases (q == last)) [
          | inl e ↦
              let same = (==_iff q last).0 e in
              rw e (
                let n' = subst (λ r. IsNew r (m.page r)) same n in
                subst (λ r. IsNew r (record (m.page last) { next = arena.full_list })) (sym same)
                  (record {
                    bitfield = n'.bitfield;
                    bitfield_atomic = n'.bitfield_atomic;
                    blocks = n'.blocks;
                    flag = n'.flag;
                  }))
          | inr e ↦ rw e n
        ]

    Grown-linked : Grown free_of next_of IsNew m₀ linked news
    Grown-linked = record {
      kept = old_page;
      kept_live = made.grown.kept_live;
      unused = made.grown.unused;
      fresh = λ q h.
          let f = made.grown.fresh q h in
          record {
            alive = f.alive;
            content = IsNew-kept q h;
            not_null = f.not_null;
            word = f.word;
            canonical = f.canonical;
          };
      distinct = made.grown.distinct;
      rest = made.grown.rest;
      list = made.grown.list;
    }

    free-Chain : Chain (λ q. (linked.page q).next_free) first news
    free-Chain =
        Seg-append (λ q. (linked.page q).next_free) 0 first last xs (last ∷ [])
          (Seg-frame (λ q. (m.page q).next_free) _ last first xs (λ q i. rw (not_last q i) refl)
            made.free_seg)
          (refl, last-IsFresh.not_null, rw (==_refl last) (made.last_free))

    all-Chain : Chain (λ q. (linked.page q).next) first (news ++ all)
    all-Chain =
        Seg-append (λ q. (linked.page q).next) 0 first arena.full_list news all
          (Seg-append (λ q. (linked.page q).next) arena.full_list first last xs (last ∷ [])
            (Seg-frame (λ q. (m.page q).next) _ last first xs (λ q i. rw (not_last q i) refl)
              made.next_seg)
            (refl, last-IsFresh.not_null, rw (==_refl last) refl))
          (Seg-frame (λ q. (m₀.page q).next) _ 0 arena.full_list all
            (λ q i. ap (λ g. g.next) (old_page q (old_not_new q i))) v.all_chain)

    pages : (q : ℕ) → has q (news ++ all) ≡ true → IsPage linked q
    pages q i = elim (Bool-cases (has q news)) [
      | inl h ↦ IsPage-fresh (Grown-linked.fresh q h)
      | inr o ↦
          let page = v.pages q (ground (arith, has-append q news all)) in
          let same = old_page q o in
          record {
            alive = made.grown.kept_live q o ∙ page.alive;
            bits = subst HasBitfields (sym same) page.bits;
            tags = λ j lt. ap (λ g. (g.blocks j).page) same ∙ page.tags j lt;
            not_null = page.not_null;
            word = page.word;
            canonical = page.canonical;
          }
    ]

    IsValid-grown : IsValid linked grown_arena (news ++ all) news []
    IsValid-grown = record {
      first_pending = v.first_pending;
      list = made.grown.list ∙ v.list;
      free_chain = free-Chain;
      pending_chain = v.pending_chain;
      all_chain = all-Chain;
      free_distinct = made.grown.distinct;
      pending_distinct = tt;
      all_distinct =
          Distinct-append news all made.grown.distinct v.all_distinct
            (λ q h. ground (arith, old_not_new q));
      apart = λ q h. refl;
      free_in_all = λ q h. has-append q news all ∙ rw h refl;
      pending_in_all = λ q h. absurd (cc h);
      count = omega (arith, v.count, length-append {0} news all);
      pages = pages;
      flags = λ q i. elim (Bool-cases (has q news)) [
        | inl h ↦ (IsNew-kept q h).flag ∙ sym (rw h refl)
        | inr o ↦
            ap (λ g. g.in_free_list) (old_page q o)
            ∙ v.flags q (ground (arith, has-append q news all))
            ∙ sym (rw o refl)
      ];
      full = λ q j i o lt.
          let out : has q news ≡ false = ground arith in
          ap (λ g. is_free g j) (old_page q out)
          ∙ v.full q j (ground (arith, has-append q news all)) refl lt;
    }

  pub alloc_new_page-IsValid :
      (m : Memory (PageArena T)) (arena : Arena) (all : List ℕ)
      → IsValid m arena all [] []
      → Supply (to_allocate arena) m.supply m.live
      → Returns
          (λ arena' m'.
            (news : List ℕ) × IsValid m' arena' (news ++ all) news []
            × Grown free_of next_of IsNew m m' news
            × (length news ≡ to_allocate arena))
          (alloc_new_page arena m)
  unfolding alloc_new_page deref store
  alloc_new_page-IsValid m arena all v good =
      Returns.bind (make_list-Made (to_allocate arena) m (omega arith) good)
        λ (first, last) m' (xs, made, len).
          let alive = (last-IsFresh m m' arena all v first last xs made).alive in
          let empty : (arena.free_list == 0) ≡ true = rw (v.free_chain) refl in
          rw (alive, alive, empty)
            (returns (
              xs ++ last ∷ [],
              subst
                  (λ k.
                    IsValid {T = T} (linked m m' arena all v first last xs made)
                      (record { free_list = first; full_list = first; npages = arena.npages + k })
                      ((xs ++ last ∷ []) ++ all) (xs ++ last ∷ []) [])
                  len (IsValid-grown m m' arena all v first last xs made),
              Grown-linked m m' arena all v first last xs made,
              len,
            ))
