-- ===== src/Arena/LetGo.antt =====
-- `Drop for Arena` of arena.rs.
use shared_arena.Base.{
  ℕ, zero, suc, ◌<◌, bit_or, ◌≡◌, ◌≢◌, refl, ap, ◌∙◌, inl, inr, true, false, not, ◌||◌, none, List,
  [], ◌∷◌, arith, ◌==◌, if◌then◌else◌, length, has, Bool-cases, ==_iff, ==_refl,
}
use shared_arena.Word.{all_ones}
use shared_arena.Memory.{Memory, deref, store, dealloc, with_page}
use shared_arena.Memory.Chain.{Chain, Seg-frame, Distinct, ne_of_has}
use shared_arena.Run.{ok, and_then}
use shared_arena.Run.Returns
use shared_arena.Run.Returns.{Returns, returns}
use shared_arena.Page.Arena as Page
use shared_arena.Page.Arena.{PageArena}
use shared_arena.Arena.{Arena}
use shared_arena.Arena.Valid.{IsValid}
use shared_arena.Arena.Walk.{drop_loop, drop}

-- The blocks of a page that are free, in one word.
abbrev pub all_bits : {T : Type 0} → Memory (PageArena T) → ℕ → ℕ
all_bits m p = bit_or (m.page p).bitfield_atomic (m.page p).bitfield

-- The bits of the pages `ps` are together in `bitfield_atomic`, and those of the pages with no block
-- in use are deallocated.
pub record LetGo {T : Type 0} (m : Memory (PageArena T)) (ps : List ℕ) (m' : Memory (PageArena T))
    : Type 0 where
  pub live : (q : ℕ) → m'.live q ≡ (if has q ps then not (all_bits m q == all_ones) else m.live q)
  pub bitfield : (q : ℕ) → (m'.page q).bitfield ≡ (m.page q).bitfield
  pub atomic :
      (q : ℕ)
      → (m'.page q).bitfield_atomic
        ≡ (if has q ps then all_bits m q else (m.page q).bitfield_atomic)
  pub blocks : (q : ℕ) → (m'.page q).blocks ≡ (m.page q).blocks
  pub next : (q : ℕ) → (m'.page q).next ≡ (m.page q).next
  pub next_free : (q : ℕ) → (m'.page q).next_free ≡ (m.page q).next_free
  pub in_free_list : (q : ℕ) → (m'.page q).in_free_list ≡ (m.page q).in_free_list
  pub supply : m'.supply ≡ m.supply

module _ {T : Type 0} (m : Memory (PageArena T)) (p : ℕ) (alive : m.live p ≡ true) where
  abbrev merged : Memory (PageArena T)
  merged = with_page m p (record (m.page p) { bitfield_atomic = all_bits m p })

  kept : (all_bits m p == all_ones) ≡ false → Page.drop_page p m ≡ ok tt merged
  unfolding Page.drop_page deref store
  kept e = ground arith

  freed :
      (all_bits m p == all_ones) ≡ true
      → Page.drop_page p m
        ≡ ok tt (record merged { live = λ q. if q == p then false else m.live q })
  unfolding Page.drop_page Page.deallocate_page deref store dealloc
  freed e = ground arith

  drop_page-LetGo : Returns (λ _ m'. LetGo m (p ∷ []) m') (Page.drop_page p m)
  drop_page-LetGo = elim (Bool-cases (all_bits m p == all_ones)) [
    | inl e ↦ rw (freed e) (
        returns (record {
          live = λ q. ground (arith, e, ==_iff q p);
          bitfield = λ q. ground (arith, ==_iff q p);
          atomic = λ q. ground (arith, ==_iff q p);
          blocks = λ q. ground (arith, ==_iff q p);
          next = λ q. ground (arith, ==_iff q p);
          next_free = λ q. ground (arith, ==_iff q p);
          in_free_list = λ q. ground (arith, ==_iff q p);
          supply = refl;
        }))
    | inr e ↦ rw (kept e) (
        returns (record {
          live = λ q. ground (arith, e, alive, ==_iff q p);
          bitfield = λ q. ground (arith, ==_iff q p);
          atomic = λ q. ground (arith, ==_iff q p);
          blocks = λ q. ground (arith, ==_iff q p);
          next = λ q. ground (arith, ==_iff q p);
          next_free = λ q. ground (arith, ==_iff q p);
          in_free_list = λ q. ground (arith, ==_iff q p);
          supply = refl;
        }))
  ]

module _ {T : Type 0} where
  LetGo-cons :
      {m m₁ m₂ : Memory (PageArena T)} (p : ℕ) (ps : List ℕ)
      → has p ps ≡ false
      → LetGo m (p ∷ []) m₁
      → LetGo m₁ ps m₂
      → LetGo m (p ∷ ps) m₂
  LetGo-cons {m} {m₁} p ps out a b = record {
    live = λ q. ground (arith, a.live q, b.live q, a.bitfield q, a.atomic q, ==_iff q p);
    bitfield = λ q. b.bitfield q ∙ a.bitfield q;
    atomic = λ q. ground (arith, b.atomic q, a.atomic q, a.bitfield q, ==_iff q p);
    blocks = λ q. b.blocks q ∙ a.blocks q;
    next = λ q. b.next q ∙ a.next q;
    next_free = λ q. b.next_free q ∙ a.next_free q;
    in_free_list = λ q. b.in_free_list q ∙ a.in_free_list q;
    supply = b.supply ∙ a.supply;
  }

  LetGo-nil : (m : Memory (PageArena T)) → LetGo m [] m
  LetGo-nil m = record {
    live = λ q. refl;
    bitfield = λ q. refl;
    atomic = λ q. refl;
    blocks = λ q. refl;
    next = λ q. refl;
    next_free = λ q. refl;
    in_free_list = λ q. refl;
    supply = refl;
  }

  drop_loop_step :
      (fuel p : ℕ) (m : Memory (PageArena T))
      → p ≢ 0
      → m.live p ≡ true
      → drop_loop (suc fuel) p m
        ≡ and_then (Page.drop_page p m) (λ _. drop_loop fuel (m.page p).next)
  unfolding drop_loop deref
  drop_loop_step fuel p m ne alive = ground arith

  drop_loop-LetGo :
      (fuel first : ℕ) (m : Memory (PageArena T)) (ps : List ℕ)
      → Chain (λ q. (m.page q).next) first ps
      → Distinct ps
      → ((q : ℕ) → has q ps ≡ true → m.live q ≡ true)
      → length ps < fuel
      → Returns (λ _ m'. LetGo m ps m') (drop_loop fuel first m)
  unfolding drop_loop
  drop_loop-LetGo zero first m ps chain apart good enough = absurd (omega arith)
  drop_loop-LetGo (suc fuel) first m [] chain apart good enough = rw chain (returns (LetGo-nil m))
  drop_loop-LetGo (suc fuel) first m (p ∷ ps) (e, ne, chain) (out, apart) good enough =
      let alive = good p (ground (arith, ==_refl p)) in
      rw (ap (λ q. drop_loop (suc fuel) q m) e ∙ drop_loop_step fuel p m ne alive) (
        Returns.bind (drop_page-LetGo m p alive) λ _ m₁ a.
          Returns.mono
            (drop_loop-LetGo fuel (m.page p).next m₁ ps
              (Seg-frame (λ q. (m.page q).next) (λ q. (m₁.page q).next) 0 _ ps (λ q h. a.next q)
                chain)
              apart
              (λ q h.
                a.live q
                ∙ rw (ap (λ t. t || false) (ne_of_has q p ps h out)) (good q (ground (arith, h))))
              (omega arith))
            (λ _ m₂ b. LetGo-cons p ps out a b))

  -- `Drop for Arena` of a valid arena, with more rounds than there are pages, where no other
  -- thread comes between its steps, returns: the cell of the pending list is gone; of every page
  -- of the arena `bitfield_atomic` holds the bits that either bitfield had; the pages of which
  -- that is all 64 bits are deallocated and the others are not; `bitfield`, the blocks and the
  -- links of every page are as they were, and every other page has its `bitfield_atomic` and stays
  -- live or not.
  pub arena_drop-LetGo :
      (fuel : ℕ) (m : Memory (PageArena T)) (arena : Arena) (all free pending : List ℕ)
      → IsValid m arena all free pending
      → length all < fuel
      → Returns (λ _ m'. LetGo m all m' × (m'.list ≡ none)) (drop fuel arena m)
  unfolding drop
  arena_drop-LetGo fuel m arena all free pending v enough =
      Returns.bind
        (drop_loop-LetGo fuel arena.full_list m all v.all_chain v.all_distinct
          (λ q h. (v.pages q h).alive) enough)
        λ _ m₁ g. returns (
          record {
            live = g.live;
            bitfield = g.bitfield;
            atomic = g.atomic;
            blocks = g.blocks;
            next = g.next;
            next_free = g.next_free;
            in_free_list = g.in_free_list;
            supply = g.supply;
          },
          refl,
        )
