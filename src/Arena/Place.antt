-- ===== src/Arena/Place.antt =====
-- `Arena::find_place` of arena.rs, where no other thread comes between its steps.
use shared_arena.Base.{
  ℕ, ◌<◌, ◌≡◌, refl, sym, ap, ◌∙◌, ◌⊎◌, inl, inr, true, false, not, ◌&&◌, Option, some, List, [],
  ◌∷◌, ◌++◌, arith, length, has, Bool-cases, ==_refl,
}
use shared_arena.Word.{block_per_page, test_bit}
use shared_arena.Word.Ext.{test_bit-all_ones}
use shared_arena.Memory.{Memory, BlockPtr}
use shared_arena.Memory.Chain.{has-append}
use shared_arena.Memory.Fresh.{Grown}
use shared_arena.Page.Arena.{PageArena}
use shared_arena.Page.Arena.Acquire.{is_free}
use shared_arena.Page.Arena.Make.{free_of, next_of, IsNew, fresh_blocks}
use shared_arena.Arena.{Arena}
use shared_arena.Arena.Taken.{TookBlock, AllFull}
use shared_arena.Arena.Valid.{IsValid}
use shared_arena.Pool.Place.{is_at}

module _ {T : Type 0} where
  -- What `find_place` does to an arena with the pages `all`: the block `b` is marked as in use; all
  -- else that was in use still is, and no value or counter changes.
  pub record Placed (m : Memory (PageArena T)) (all : List ℕ) (arena' : Arena) (b : BlockPtr)
      (m' : Memory (PageArena T)) : Type 0 where
    pub news : List ℕ
    pub free : List ℕ
    pub pending : List ℕ
    pub valid : IsValid m' arena' (news ++ all) free pending
    pub member : has b.page (news ++ all) ≡ true
    pub below : b.index < block_per_page
    pub was_free : has b.page all ≡ true → is_free (m.page b.page) b.index ≡ true
    pub old_bits :
        (q j : ℕ)
        → has q all ≡ true
        → is_free (m'.page q) j ≡ (is_free (m.page q) j && not (is_at b q j))
    pub new_bits :
        (q j : ℕ)
        → has q news ≡ true
        → j < block_per_page
        → is_free (m'.page q) j ≡ not (is_at b q j)
    pub old_blocks : (q : ℕ) → has q all ≡ true → (m'.page q).blocks ≡ (m.page q).blocks
    pub new_blocks : (q : ℕ) → has q news ≡ true → (m'.page q).blocks ≡ fresh_blocks q
    pub unused : (q : ℕ) → has q news ≡ true → m.live q ≡ false
    -- Pages are made only when no block of the old ones is free.
    pub needed :
        (news ≡ [])
        ⊎ ((q j : ℕ) → has q all ≡ true → j < block_per_page → is_free (m.page q) j ≡ false)

  pub Placed-old :
      {m m' : Memory (PageArena T)} {all pending : List ℕ} {arena' : Arena} {b : BlockPtr}
      → TookBlock m all pending arena' b m'
      → Placed m all arena' b m'
  Placed-old {pending} t = record {
    news = [];
    free = t.free;
    pending = pending;
    valid = t.valid;
    member = t.member;
    below = t.below;
    was_free = λ _. t.was_free;
    old_bits = λ q j h. t.bits q j;
    new_bits = λ q j h lt. absurd (cc h);
    old_blocks = λ q h. t.blocks q;
    new_blocks = λ q h. absurd (cc h);
    unused = λ q h. absurd (cc h);
    needed = inl refl;
  }

  -- A round that found every page of its list full changed nothing that matters.
  pub Placed-full :
      {m m₁ m' : Memory (PageArena T)} {all pending : List ℕ} {arena₁ arena' : Arena} {b : BlockPtr}
      (l : Option ℕ)
      → AllFull m all pending arena₁ m₁
      → Placed (record m₁ { list = l }) all arena' b m'
      → Placed m all arena' b m'
  Placed-full {b} l f p = record {
    news = p.news;
    free = p.free;
    pending = p.pending;
    valid = p.valid;
    member = p.member;
    below = p.below;
    was_free = λ h. sym (f.bits b.page b.index) ∙ p.was_free h;
    old_bits = λ q j h. p.old_bits q j h ∙ ap (λ t. t && not (is_at b q j)) (f.bits q j);
    new_bits = p.new_bits;
    old_blocks = λ q h. p.old_blocks q h ∙ f.blocks q;
    new_blocks = p.new_blocks;
    unused = λ q h. ap (λ g. g q) (sym f.live) ∙ p.unused q h;
    needed = elim (p.needed) [
      | inl e ↦ inl e
      | inr e ↦ inr λ q j h lt. sym (f.bits q j) ∙ e q j h lt
    ];
  }

  -- The pending pages become the free ones.
  pub IsValid-swapped :
      {m : Memory (PageArena T)} {arena : Arena} {all pending : List ℕ}
      (v : IsValid m arena all [] pending)
      → IsValid
          (record m { list = some 0 })
          (record arena { free_list = v.first_pending })
          all
          pending
          []
  IsValid-swapped v = record {
    first_pending = 0;
    list = refl;
    free_chain = v.pending_chain;
    pending_chain = refl;
    all_chain = v.all_chain;
    free_distinct = v.pending_distinct;
    pending_distinct = tt;
    all_distinct = v.all_distinct;
    apart = λ q h. refl;
    free_in_all = v.pending_in_all;
    pending_in_all = λ q h. absurd (cc h);
    count = v.count;
    pages = λ q h.
        let page = v.pages q h in
        record {
          alive = page.alive;
          bits = page.bits;
          tags = page.tags;
          not_null = page.not_null;
          word = page.word;
          canonical = page.canonical;
        };
    flags = λ q h. ground (arith, v.flags q h);
    full = λ q j h o lt. v.full q j h (ground arith) lt;
  }

  module _ {m m₂ : Memory (PageArena T)} {all news : List ℕ} {arena arena₂ : Arena}
      (v : IsValid m arena all [] []) (v₂ : IsValid m₂ arena₂ (news ++ all) news [])
      (grown : Grown free_of next_of IsNew m m₂ news) where
    apart_new : (q : ℕ) → has q all ≡ true → has q news ≡ false
    apart_new q i = elim (Bool-cases (has q news)) [
      | inl h ↦ cc (grown.unused q h, (v.pages q i).alive)
      | inr h ↦ h
    ]

    new_free : (q j : ℕ) → has q news ≡ true → j < block_per_page → is_free (m₂.page q) j ≡ true
    new_free q j h lt =
        let one : test_bit (m₂.page q).bitfield j ≡ true =
          ap (λ w. test_bit w j) ((grown.fresh q h).content.bitfield)
          ∙ test_bit-all_ones j (omega arith) in
        rw one (ground arith)

    pub Placed-new :
        {m₃ : Memory (PageArena T)} {arena₃ : Arena} {b : BlockPtr}
        → TookBlock m₂ (news ++ all) [] arena₃ b m₃
        → Placed m all arena₃ b m₃
    Placed-new {b} t = record {
      news = news;
      free = t.free;
      pending = [];
      valid = t.valid;
      member = t.member;
      below = t.below;
      was_free = λ h.
          ap (λ g. is_free g b.index) (sym (grown.kept b.page (apart_new b.page h))) ∙ t.was_free;
      old_bits = λ q j h.
          t.bits q j ∙ ap (λ g. is_free g j && not (is_at b q j)) (grown.kept q (apart_new q h));
      new_bits = λ q j h lt. t.bits q j ∙ rw (new_free q j h lt) refl;
      old_blocks = λ q h. t.blocks q ∙ ap (λ g. g.blocks) (grown.kept q (apart_new q h));
      new_blocks = λ q h. t.blocks q ∙ (grown.fresh q h).content.blocks;
      unused = grown.unused;
      needed = inr λ q j h lt. v.full q j h refl lt;
    }

    -- The new pages have free blocks.
    pub not_full :
        {m₃ : Memory (PageArena T)} {arena₃ : Arena}
        → 0 < length news
        → AllFull m₂ (news ++ all) [] arena₃ m₃
        → ⊥
    not_full {m₃} pos f = go news refl pos
      where
        go : (ns : List ℕ) → news ≡ ns → 0 < length ns → ⊥
        go [] e pos = absurd (omega arith)
        go (p ∷ ns) e pos =
            let h : has p news ≡ true = rw e (ground (arith, ==_refl p)) in
            let on = new_free p 0 h (omega arith) in
            let off = f.valid.full p 0 (has-append p news all ∙ rw h refl) refl (omega arith) in
            cc (on, off, f.bits p 0)
