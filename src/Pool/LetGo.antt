-- ===== src/Pool/LetGo.antt =====
-- `Drop for Pool` of pool.rs.
use mathlib.Core.Path.{subst}
use shared_arena.Base.{
  ℕ, zero, suc, ◌-◌, ◌^◌, ◌<◌, bit_and, ◌≡◌, ◌≢◌, refl, sym, ap, ◌∙◌, inl, inr, true, false, not,
  ◌||◌, none, List, [], ◌∷◌, arith, ◌==◌, if◌then◌else◌, length, has, Bool-cases, ==_iff, ==_refl,
}
use shared_arena.Word.{mask_arena_bit, all_ones, bit_not}
use shared_arena.Word.Ext.{sub_bit}
use shared_arena.Memory.{Memory, deref, dealloc, with_page}
use shared_arena.Memory.Chain.{Chain, Seg-frame, Distinct, ne_of_has}
use shared_arena.Run.{ok, and_then}
use shared_arena.Run.Returns
use shared_arena.Run.Returns.{Returns, returns}
use shared_arena.Page.Pool as Page
use shared_arena.Page.Pool.{PagePool}
use shared_arena.Page.Pool.Acquire.{IsBitfield}
use shared_arena.Pool.{Pool}
use shared_arena.Pool.Valid.{IsValid}
use shared_arena.Pool.Walk.{drop_loop, drop}

-- The pages `ps` have lost the arena's bit, and those with no block in use are deallocated.
pub record LetGo {T : Type 0} (m : Memory (PagePool T)) (ps : List ℕ) (m' : Memory (PagePool T))
    : Type 0 where
  pub live :
      (q : ℕ) → m'.live q ≡ (if has q ps then not ((m.page q).bitfield == all_ones) else m.live q)
  pub bitfield :
      (q : ℕ)
      → (m'.page q).bitfield
        ≡ (if has q ps then (m.page q).bitfield - mask_arena_bit else (m.page q).bitfield)
  pub blocks : (q : ℕ) → (m'.page q).blocks ≡ (m.page q).blocks
  pub next : (q : ℕ) → (m'.page q).next ≡ (m.page q).next
  pub next_free : (q : ℕ) → (m'.page q).next_free ≡ (m.page q).next_free
  pub in_free_list : (q : ℕ) → (m'.page q).in_free_list ≡ (m.page q).in_free_list
  pub supply : m'.supply ≡ m.supply

module _ {T : Type 0} (m : Memory (PagePool T)) (p : ℕ) (alive : m.live p ≡ true)
    (word : IsBitfield (m.page p).bitfield) where
  cleared :
      bit_and (m.page p).bitfield (bit_not mask_arena_bit) ≡ (m.page p).bitfield - mask_arena_bit
  cleared = omega (arith, sub_bit (m.page p).bitfield 63 word.0 (omega arith) word.1)

  large : 2 ^ 63 - 1 < (m.page p).bitfield
  large = omega (arith, sub_bit (m.page p).bitfield 63 word.0 (omega arith) word.1)

  abbrev without : Memory (PagePool T)
  without = with_page m p (record (m.page p) { bitfield = (m.page p).bitfield - mask_arena_bit })

  kept : ((m.page p).bitfield == all_ones) ≡ false → Page.drop_page p m ≡ ok tt without
  unfolding Page.drop_page
  kept e = ground (arith, cleared, large, word.0)

  freed : ((m.page p).bitfield == all_ones) ≡ true → Page.drop_page p m ≡ dealloc p without
  unfolding Page.drop_page Page.deallocate_page
  freed e = ground (arith, cleared, large, word.0)

  dealloc-eq :
      dealloc p without ≡ ok tt (record without { live = λ q. if q == p then false else m.live q })
  unfolding dealloc
  dealloc-eq = ground arith

  pub drop_page-LetGo :
      Returns (λ _ m'. LetGo m (p ∷ []) m' × (m'.list ≡ m.list)) (Page.drop_page p m)
  drop_page-LetGo = elim (Bool-cases ((m.page p).bitfield == all_ones)) [
    | inl e ↦ rw (freed e ∙ dealloc-eq) (
        returns (
          record {
            live = λ q. ground (arith, e, ==_iff q p);
            bitfield = λ q. ground (arith, ==_iff q p);
            blocks = λ q. ground (arith, ==_iff q p);
            next = λ q. ground (arith, ==_iff q p);
            next_free = λ q. ground (arith, ==_iff q p);
            in_free_list = λ q. ground (arith, ==_iff q p);
            supply = refl;
          },
          refl,
        ))
    | inr e ↦ rw (kept e) (
        returns (
          record {
            live = λ q. ground (arith, e, alive, ==_iff q p);
            bitfield = λ q. ground (arith, ==_iff q p);
            blocks = λ q. ground (arith, ==_iff q p);
            next = λ q. ground (arith, ==_iff q p);
            next_free = λ q. ground (arith, ==_iff q p);
            in_free_list = λ q. ground (arith, ==_iff q p);
            supply = refl;
          },
          refl,
        ))
  ]

module _ {T : Type 0} where
  pub LetGo-cons :
      {m m₁ m₂ : Memory (PagePool T)} (p : ℕ) (ps : List ℕ)
      → has p ps ≡ false
      → LetGo m (p ∷ []) m₁
      → LetGo m₁ ps m₂
      → LetGo m (p ∷ ps) m₂
  LetGo-cons {m} {m₁} p ps out a b = record {
    live = λ q. ground (arith, a.live q, b.live q, a.bitfield q, ==_iff q p);
    bitfield = λ q. ground (arith, b.bitfield q, a.bitfield q, ==_iff q p);
    blocks = λ q. b.blocks q ∙ a.blocks q;
    next = λ q. b.next q ∙ a.next q;
    next_free = λ q. b.next_free q ∙ a.next_free q;
    in_free_list = λ q. b.in_free_list q ∙ a.in_free_list q;
    supply = b.supply ∙ a.supply;
  }

  -- The pages that are left are as they were.
  pub still_good :
      (p : ℕ) (ps : List ℕ) (m m₁ : Memory (PagePool T))
      → has p ps ≡ false
      → LetGo m (p ∷ []) m₁
      → ((q : ℕ) → has q (p ∷ ps) ≡ true → (m.live q ≡ true) × IsBitfield (m.page q).bitfield)
      → (q : ℕ) → has q ps ≡ true
      → (m₁.live q ≡ true) × IsBitfield (m₁.page q).bitfield
  still_good p ps m m₁ out a good q h =
      let other : has q (p ∷ []) ≡ false = ap (λ t. t || false) (ne_of_has q p ps h out) in
      let (alive, word) = good q (ground (arith, h)) in
      (a.live q ∙ rw other alive, subst IsBitfield (sym (a.bitfield q ∙ rw other)) word)

  pub LetGo-nil : (m : Memory (PagePool T)) → LetGo m [] m
  LetGo-nil m = record {
    live = λ q. refl;
    bitfield = λ q. refl;
    blocks = λ q. refl;
    next = λ q. refl;
    next_free = λ q. refl;
    in_free_list = λ q. refl;
    supply = refl;
  }

  drop_loop_step :
      (fuel p : ℕ) (m : Memory (PagePool T))
      → p ≢ 0
      → m.live p ≡ true
      → drop_loop (suc fuel) p m
        ≡ and_then (Page.drop_page p m) (λ _. drop_loop fuel (m.page p).next)
  unfolding drop_loop deref
  drop_loop_step fuel p m ne alive = ground arith

  drop_loop-LetGo :
      (fuel first : ℕ) (m : Memory (PagePool T)) (ps : List ℕ)
      → Chain (λ q. (m.page q).next) first ps
      → Distinct ps
      → ((q : ℕ) → has q ps ≡ true → (m.live q ≡ true) × IsBitfield (m.page q).bitfield)
      → length ps < fuel
      → Returns (λ _ m'. LetGo m ps m') (drop_loop fuel first m)
  unfolding drop_loop
  drop_loop-LetGo zero first m ps chain apart good enough = absurd (omega arith)
  drop_loop-LetGo (suc fuel) first m [] chain apart good enough = rw chain (returns (LetGo-nil m))
  drop_loop-LetGo (suc fuel) first m (p ∷ ps) (e, ne, chain) (out, apart) good enough =
      let (alive, word) = good p (ground (arith, ==_refl p)) in
      rw (ap (λ q. drop_loop (suc fuel) q m) e ∙ drop_loop_step fuel p m ne alive) (
        Returns.bind (drop_page-LetGo m p alive word) λ _ m₁ (a, _).
          Returns.mono
            (drop_loop-LetGo fuel (m.page p).next m₁ ps
              (Seg-frame (λ q. (m.page q).next) (λ q. (m₁.page q).next) 0 _ ps (λ q h. a.next q)
                chain)
              apart (still_good p ps m m₁ out a good) (omega arith))
            (λ _ m₂ b. LetGo-cons p ps out a b))

  -- `Drop for Pool` of a valid pool, with more rounds than there are pages, returns: the cell of
  -- the free list is gone, every page of the pool has lost the arena's bit, those with no block in
  -- use are deallocated and the others are not, no block and no `next` link changes, and every
  -- other page keeps its bitfield and stays live or not as it was.
  pub drop-LetGo :
      (fuel : ℕ) (m : Memory (PagePool T)) (pool : Pool) (all free : List ℕ)
      → IsValid m pool all free
      → length all < fuel
      → Returns (λ _ m'. LetGo m all m' × (m'.list ≡ none)) (drop fuel pool m)
  unfolding drop
  drop-LetGo fuel m pool all free v enough =
      Returns.bind
        (drop_loop-LetGo fuel pool.page_list m all v.all_chain v.all_distinct
          (λ q h. ((v.pages q h).alive, (v.pages q h).bits)) enough)
        λ _ m₁ g. returns (
          record {
            live = g.live;
            bitfield = g.bitfield;
            blocks = g.blocks;
            next = g.next;
            next_free = g.next_free;
            in_free_list = g.in_free_list;
            supply = g.supply;
          },
          refl,
        )
