-- ===== src/Handle/ArcCounter/Safety.antt =====
-- The value of a block under the clones and drops of arena_arc.rs.
use shared_arena.Base.{
  ℕ, ◌+◌, ◌-◌, ◌^◌, ◌<◌, ◌≡◌, refl, ◌⊎◌, inl, inr, true, false, ◌||◌, List, [], ◌∷◌, arith, length,
  has,
}
use shared_arena.Memory.Select.{without, length-without}
use shared_arena.Handle.ArcCounter.{
  Counted, fetch_add_one, may_clone, fetch_sub_one, was_last, clone, clone_panic, drop, free, start,
  Reachable, begin, next,
}

-- The invariant, while fewer than 2^63 clones have panicked.
record Inv (s : Counted) : Type 0 where
  count : s.counter ≡ length s.owners + s.lost
  small : length s.owners < 2 ^ 63
  kept : 0 < length s.owners + s.lost → (s.freeing ≡ false) × (s.freed ≡ 0)
  unowned :
      length s.owners + s.lost ≡ 0
      → ((s.freeing ≡ true) × (s.freed ≡ 0)) ⊎ ((s.freeing ≡ false) × (s.freed ≡ 1))

Inv-start : Inv start
Inv-start = record {
  count = refl;
  small = omega arith;
  kept = λ _. (refl, refl);
  unowned = λ e. absurd (omega arith);
}

owned-lt : (t : ℕ) (xs : List ℕ) → has t xs ≡ true → 0 < length xs
owned-lt t [] h = absurd (cc h)
owned-lt t (x ∷ xs) h = omega arith

module _ {s : Counted} (v : Inv s) (some_lost : s.lost < 2 ^ 63) where
  Inv-clone :
      (t u : ℕ)
      → has t s.owners ≡ true
      → may_clone s.counter ≡ true
      → Inv (record s { counter = fetch_add_one s.counter; owners = u ∷ s.owners })
  unfolding fetch_add_one may_clone
  Inv-clone t u h few =
      let low : s.counter < 2 ^ 63 - 1 = ground arith in
      record {
        count = omega (arith, v.count, v.small);
        small = omega (arith, v.count);
        kept = λ _. v.kept (omega (arith, owned-lt t s.owners h));
        unowned = λ e. absurd (omega arith);
      }

  Inv-clone_panic :
      (t : ℕ)
      → has t s.owners ≡ true
      → Inv (record s { counter = fetch_add_one s.counter; lost = s.lost + 1 })
  unfolding fetch_add_one
  Inv-clone_panic t h = record {
    count = omega (arith, v.count, v.small);
    small = v.small;
    kept = λ _. v.kept (omega (arith, owned-lt t s.owners h));
    unowned = λ e. absurd (omega arith);
  }

  Inv-drop :
      (t : ℕ)
      → has t s.owners ≡ true
      → Inv (record s {
        counter = fetch_sub_one s.counter;
        owners = without t s.owners;
        freeing = was_last s.counter || s.freeing;
      })
  unfolding fetch_sub_one was_last
  Inv-drop t h =
      let shorter = length-without t s.owners h in
      let (idle, never) = v.kept (omega (arith, owned-lt t s.owners h)) in
      record {
        count = omega (arith, v.count, v.small, shorter);
        small = omega (arith, v.small, shorter);
        kept = λ more. (rw idle (ground (arith, v.count, shorter)), never);
        unowned = λ e. inl (rw idle (ground (arith, v.count, shorter)), never);
      }

  Inv-free : s.freeing ≡ true → Inv (record s { freeing = false; freed = s.freed + 1 })
  Inv-free h = record {
    count = v.count;
    small = v.small;
    kept = λ more. absurd (cc (h, (v.kept more).0));
    unowned = λ e. elim (v.unowned e) [
      | inl (_, never) ↦ inr (refl, omega (arith, never))
      | inr (idle, _) ↦ absurd (cc (h, idle))
    ];
  }

Reachable-Inv : {s : Counted} → Reachable s → s.lost < 2 ^ 63 → Inv s
Reachable-Inv begin few = Inv-start
Reachable-Inv (next r (clone t {u} h new few_owners)) few =
    Inv-clone (Reachable-Inv r few) few t u h few_owners
Reachable-Inv (next {s} r (clone_panic t h many)) few =
    let before : s.lost < 2 ^ 63 = omega (arith, few) in
    Inv-clone_panic (Reachable-Inv r before) before t h
Reachable-Inv (next r (drop t h)) few = Inv-drop (Reachable-Inv r few) few t h
Reachable-Inv (next r (free h)) few = Inv-free (Reachable-Inv r few) few h

-- In every such state where fewer than 2^63 clones have panicked, the counter is the number of
-- pointers that exist and of clones that have panicked, there are fewer than 2^63 pointers, and so
-- the counter has not wrapped.
pub arc_counts_owners :
    {s : Counted}
    → Reachable s
    → s.lost < 2 ^ 63
    → (s.counter ≡ length s.owners + s.lost) × (length s.owners < 2 ^ 63)
arc_counts_owners r few = let v = Reachable-Inv r few in (v.count, v.small)

-- In every state that some interleaving of the atomic operations of `Clone` and `Drop for
-- ArenaArc` on one block reaches, where fewer than 2^63 clones have panicked: while a pointer
-- exists the value is not freed, and no drop is about to free it.
pub arc_kept_while_owned :
    {s : Counted}
    → Reachable s
    → s.lost < 2 ^ 63
    → (t : ℕ) → has t s.owners ≡ true
    → (s.freeing ≡ false) × (s.freed ≡ 0)
arc_kept_while_owned {s} r few t h =
    (Reachable-Inv r few).kept (omega (arith, owned-lt t s.owners h))

-- In every such state where no pointer exists and no clone has panicked, the value was freed once,
-- or it was not freed and a drop is about to free it.
pub arc_freed_once :
    {s : Counted}
    → Reachable s
    → s.lost ≡ 0
    → s.owners ≡ []
    → ((s.freeing ≡ true) × (s.freed ≡ 0)) ⊎ ((s.freeing ≡ false) × (s.freed ≡ 1))
arc_freed_once r never e = (Reachable-Inv r (omega arith)).unowned (rw e (omega arith))
