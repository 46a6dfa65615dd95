-- ===== src/Arena/Find.antt =====
-- `Arena::find_place` of arena.rs returns, where no other thread comes between its steps.
use mathlib.Core.Path.{subst, subst₂}
use shared_arena.Base.{
  min, max, ℕ, zero, suc, ◌<◌, ◌≡◌, ◌≢◌, refl, sym, ap, ◌∙◌, inl, inr, Option, none, some, List, [],
  ◌++◌, arith, ◌==◌, if◌then◌else◌, length, Bool-cases, ==_iff, ==-eq-false,
}
use shared_arena.Memory.{null, Memory, BlockPtr}
use shared_arena.Memory.Chain.{Chain-null}
use shared_arena.Memory.Fresh.{Grown}
use shared_arena.Memory.Supply.{Supply}
use shared_arena.Run.{and_then, pure, ◌>>=◌}
use shared_arena.Run.Returns
use shared_arena.Run.Returns.{Returns, returns}
use shared_arena.Page.Arena.{PageArena, ArenaCmd}
use shared_arena.Page.Arena.Make.{free_of, next_of, IsNew}
use shared_arena.Arena.{
  Arena, take_from_free, alloc_new_page, find_place, pending_load, pending_swap,
}
use shared_arena.Arena.Grow.{to_allocate, alloc_new_page-IsValid}
use shared_arena.Arena.Take.{take_from_free-Took}
use shared_arena.Arena.Taken.{AllFull, Took, all_full, took}
use shared_arena.Arena.Valid.{IsValid}
use shared_arena.Arena.Place.{
  Placed, Placed-old, Placed-full, IsValid-swapped, Placed-new, not_full,
}

module _ {T : Type 0} where
  module _ (rounds fuel tries : ℕ) where
    -- The rest of a round of `find_place`.
    abbrev after : Arena × Option BlockPtr → ArenaCmd T (Arena × BlockPtr)
    after (arena', some block) = pure (arena', block)
    after (arena', none) = do
      pending ← pending_load
      if pending == null
          then (do arena'' ← alloc_new_page arena'; find_place rounds fuel tries arena'')
          else do
            pending' ← pending_swap null
            find_place rounds fuel tries (record arena' { free_list = pending' })

    find_place-after :
        (arena : Arena) (m : Memory (PageArena T))
        → find_place (suc rounds) fuel tries arena m
          ≡ and_then (take_from_free fuel tries arena m) after
    unfolding find_place
    find_place-after arena m = λ i. and_then (take_from_free fuel tries arena m) (λ r. same r i)
      where
        same :
            (r : Arena × Option BlockPtr)
            → ◌≡◌ {A = ArenaCmd T (Arena × BlockPtr)}
                (let (arena', found) = r in
                  elim found [
                    | some block ↦ pure (arena', block)
                    | none ↦ do
                      pending ← pending_load
                      if pending == null
                          then (do
                            arena'' ← alloc_new_page arena'
                            find_place rounds fuel tries arena'')
                          else do
                            pending' ← pending_swap null
                            find_place rounds fuel tries (record arena' { free_list = pending' })
                  ])
                (after r)
        same (arena', none) = refl
        same (arena', some block) = refl

    after_null :
        (arena' : Arena) (m : Memory (PageArena T))
        → m.list ≡ some 0
        → after (arena', none) m ≡ and_then (alloc_new_page arena' m) (find_place rounds fuel tries)
    unfolding pending_load
    after_null arena' m e = rw e refl

    after_swap :
        (arena' : Arena) (m : Memory (PageArena T)) (p : ℕ)
        → m.list ≡ some p
        → p ≢ 0
        → after (arena', none) m
          ≡ find_place rounds fuel tries
              (record arena' { free_list = p })
              (record m { list = some 0 })
    unfolding pending_load pending_swap
    after_swap arena' m p e ne = rw (e, ==-eq-false p 0 ne) refl

  module _ {fuel tries : ℕ} (two : 1 < tries) where
    -- An arena whose lists of free pages are empty makes new pages, the first of which has a block.
    fresh_round :
        (rounds : ℕ) (m : Memory (PageArena T)) (arena : Arena) (all : List ℕ)
        → IsValid m arena all [] []
        → Supply (to_allocate arena) m.supply m.live
        → to_allocate arena < fuel
        → Returns
            (λ (arena', b) m'. Placed m all arena' b m')
            (and_then (alloc_new_page arena m) (find_place (suc rounds) fuel tries))
    fresh_round rounds m arena all v good enough =
        Returns.bind (alloc_new_page-IsValid m arena all v good) λ arena₂ m₂ (news, v₂, grown, len).
          rw (find_place-after rounds fuel tries arena₂ m₂) (
            Returns.bind
              (take_from_free-Took fuel tries m₂ arena₂ (news ++ all) news [] v₂ (omega arith) two)
              (λ r m₃ t. done v₂ grown (omega arith) t))
      where
        done :
            {m₂ m₃ : Memory (PageArena T)} {arena₂ : Arena} {news : List ℕ}
            {r : Arena × Option BlockPtr}
            → IsValid m₂ arena₂ (news ++ all) news []
            → Grown free_of next_of IsNew m m₂ news
            → 0 < length news
            → Took m₂ (news ++ all) [] r m₃
            → Returns (λ (arena', b) m'. Placed m all arena' b m') (after rounds fuel tries r m₃)
        done v₂ grown pos (took t) = returns (Placed-new v v₂ grown t)
        done v₂ grown pos (all_full f) = absurd (not_full v v₂ grown pos f)

    -- The same after a round that found every free page full, where no page is pending.
    full_round :
        (rounds : ℕ) {m m₁ : Memory (PageArena T)} {arena arena₁ : Arena}
        {all free pending : List ℕ}
        → IsValid m arena all free pending
        → (f : AllFull m all pending arena₁ m₁) → f.valid.first_pending ≡ 0
        → Supply (to_allocate arena) m.supply m.live
        → to_allocate arena < fuel
        → Returns
            (λ (arena', b) m'. Placed m all arena' b m')
            (after (suc rounds) fuel tries (arena₁, none) m₁)
    full_round rounds {m} {m₁} {arena} {arena₁} {all} {free} {pending} v f null good enough =
        let size : to_allocate arena₁ ≡ to_allocate arena =
          ap (λ n. min (max n 1) 900_000) (f.valid.count ∙ sym v.count) in
        let good' : Supply (to_allocate arena) m₁.supply m₁.live =
          subst₂ (λ s l. Supply (to_allocate arena) s l) (sym f.supply) (sym f.live) good in
        let none_left =
          Chain-null (λ p. (m₁.page p).next_free) f.valid.first_pending pending null
            f.valid.pending_chain in
        rw (after_null (suc rounds) fuel tries arena₁ m₁ (f.valid.list ∙ ap some null)) (
          Returns.mono
            (fresh_round rounds m₁ arena₁ all (subst (IsValid m₁ arena₁ all []) none_left f.valid)
              (subst (λ n. Supply n m₁.supply m₁.live) (sym size) good') (omega (arith, size)))
            (λ (arena', b) m' p. Placed-full m₁.list f p))

    -- Two rounds are enough where no page is pending,
    none_pending :
        (rounds : ℕ) (m : Memory (PageArena T)) (arena : Arena) (all free : List ℕ)
        → IsValid m arena all free []
        → Supply (to_allocate arena) m.supply m.live
        → length free < fuel
        → to_allocate arena < fuel
        → Returns
            (λ (arena', b) m'. Placed m all arena' b m')
            (find_place (suc (suc rounds)) fuel tries arena m)
    none_pending rounds m arena all free v good enough enough' =
        rw (find_place-after (suc rounds) fuel tries arena m) (
          Returns.bind (take_from_free-Took fuel tries m arena all free [] v enough two)
            (λ r m₁ t. done t))
      where
        done :
            {r : Arena × Option BlockPtr} {m₁ : Memory (PageArena T)}
            → Took m all [] r m₁
            → Returns
                (λ (arena', b) m'. Placed m all arena' b m')
                (after (suc rounds) fuel tries r m₁)
        done (took t) = returns (Placed-old t)
        done (all_full f) = full_round rounds v f f.valid.pending_chain good enough'

  -- `Arena::find_place` of a valid arena, where the allocator's next addresses are good and no
  -- other thread comes between its steps, with three rounds or more, two tries or more, and more
  -- rounds of the inner loop than there are pages in the free list, in the pending list, or to
  -- make, returns a valid arena and a block that was free, which is marked as in use. The other
  -- blocks of the old pages are free or not as they were, no value or counter changes, and new
  -- pages are made, at addresses that were not live, only if no block was free in any page, with
  -- the pending ones.
  pub arena_find_place-Placed :
      (rounds fuel tries : ℕ) (m : Memory (PageArena T)) (arena : Arena) (all free pending : List ℕ)
      → IsValid m arena all free pending
      → Supply (to_allocate arena) m.supply m.live
      → 2 < rounds
      → 1 < tries
      → length free < fuel
      → length pending < fuel
      → to_allocate arena < fuel
      → Returns (λ (arena', b) m'. Placed m all arena' b m') (find_place rounds fuel tries arena m)
  arena_find_place-Placed zero fuel tries m arena all free pending v good three two f p n =
      absurd (omega arith)
  arena_find_place-Placed (suc zero) fuel tries m arena all free pending v good three two f p n =
      absurd (omega arith)
  arena_find_place-Placed (suc (suc zero)) fuel tries m arena all free pending v good three two f p
        n =
      absurd (omega arith)
  arena_find_place-Placed (suc (suc (suc rounds))) fuel tries m arena all free pending v good three
        two f p n =
      rw (find_place-after (suc (suc rounds)) fuel tries arena m) (
        Returns.bind (take_from_free-Took fuel tries m arena all free pending v f two)
          (λ r m₁ t. done t))
    where
      -- The second round is on the pending pages.
      swapped :
          {arena₁ : Arena} {m₁ : Memory (PageArena T)} (g : AllFull m all pending arena₁ m₁)
          → g.valid.first_pending ≢ 0
          → Returns
              (λ (arena', b) m'. Placed m all arena' b m')
              (after (suc (suc rounds)) fuel tries (arena₁, none) m₁)
      swapped {arena₁} {m₁} g ne =
          let size : to_allocate arena₁ ≡ to_allocate arena =
            ap (λ n. min (max n 1) 900_000) (g.valid.count ∙ sym v.count) in
          let good' : Supply (to_allocate arena) m₁.supply m₁.live =
            subst₂ (λ s l. Supply (to_allocate arena) s l) (sym g.supply) (sym g.live) good in
          rw
            (after_swap (suc (suc rounds)) fuel tries arena₁ m₁ g.valid.first_pending g.valid.list
              ne)
            (Returns.mono
              (none_pending two rounds (record m₁ { list = some 0 })
                (record arena₁ { free_list = g.valid.first_pending }) all pending
                (IsValid-swapped g.valid) (subst (λ n. Supply n m₁.supply m₁.live) (sym size) good')
                p (omega (arith, size)))
              (λ (arena', b) m' q. Placed-full (some 0) g q))

      done :
          {r : Arena × Option BlockPtr} {m₁ : Memory (PageArena T)}
          → Took m all pending r m₁
          → Returns
              (λ (arena', b) m'. Placed m all arena' b m')
              (after (suc (suc rounds)) fuel tries r m₁)
      done (took t) = returns (Placed-old t)
      done (all_full g) = elim (Bool-cases (g.valid.first_pending == 0)) [
        | inl e ↦ full_round two (suc rounds) v g ((==_iff g.valid.first_pending 0).0 e) good n
        | inr e ↦ swapped g (λ z. absurd (ground arith))
      ]
