-- ===== src/Page/SharedArena/Moves.antt =====
-- The steps of page/shared_arena.rs that leave the bitfield alone.
use shared_arena.Base.{
  ℕ, ◌<◌, ◌≡◌, ◌≢◌, refl, sym, ap, ◌∙◌, ◌⊎◌, inl, inr, true, false, arith, ◌==◌, Bool-cases, ==_iff,
  ==_refl, ==-eq-false,
}
use shared_arena.Word.{block_per_page, trailing_zeros}
use shared_arena.Word.Count.{trailing_zeros-le_of_set}
use shared_arena.Memory.{update}
use shared_arena.Page.SharedArena.{
  Local, outside, loaded, holds, listing, last, Shared, after_load, moved,
}
use shared_arena.Page.SharedArena.Invariant.{Inv}

module _ {A : Type 0} (f : ℕ → A) (t : ℕ) (l : A) where
  pub update-same : update f t l t ≡ l
  update-same = rw (==_refl t)

  pub update-other : (u : ℕ) → u ≢ t → update f t l u ≡ f u
  update-other u ne = rw (==-eq-false u t ne)

-- Who the task `u` is after a step of `t`.
pub same_or_other : (u t : ℕ) → (u ≡ t) ⊎ (u ≢ t)
same_or_other u t = elim (Bool-cases (u == t)) [
  | inl e ↦ inl (ground arith)
  | inr e ↦ inr λ h. absurd (ground arith)
]

module _ {s : Shared} (v : Inv s) (t : ℕ) where
  -- A move that the bitfield takes no notice of.
  pub quiet :
      (l : Local)
      → ((i : ℕ) → s.local t ≢ holds i)
      → s.local t ≢ last
      → ((i : ℕ) → l ≢ holds i)
      → l ≢ last
      → ((i : ℕ) → l ≡ loaded i → (i < block_per_page) × (s.arena_holds ≡ true))
      → Inv (moved s t l)
  quiet l not_holds not_last no_block no_last index = record {
    word = v.word;
    top = v.top;
    below = λ u i e. ground (arith, v.below u i, index i);
    owned = λ u i e. ground (arith, v.owned u i, no_block i);
    unique = λ u u' i e e'. ground (arith, v.unique u u' i, no_block i);
    owner = λ i lt off.
        let (u, e) = v.owner i lt off in
        (u, update-other s.local t l u (λ h. not_holds i (ap s.local (sym h) ∙ e)) ∙ e);
    last_free = λ u e.
        let (free, arena, alive, only) = v.last_free u (was_last u e) in
        (free, arena, alive, λ u' e'. only u' (was_last u' e'));
    dead_free = λ e.
        let (free, arena, none_last) = v.dead_free e in
        (free, arena, λ u e'. none_last u (was_last u e'));
    no_leak = λ all e. elim (v.no_leak all e) [
      | inl (u, h) ↦
          inl (u, update-other s.local t l u (λ k. not_last (ap s.local (sym k) ∙ h)) ∙ h)
      | inr h ↦ inr h
    ];
  }
    where
      was_last : (u : ℕ) → (moved s t l).local u ≡ last → s.local u ≡ last
      was_last u e = ground arith

  pub Inv-load :
      s.local t ≡ outside → s.arena_holds ≡ true → Inv (moved s t (after_load s.bitfield))
  unfolding after_load
  Inv-load here arena = elim (Bool-cases (trailing_zeros s.bitfield == block_per_page)) [
    | inl e ↦ rw e (
        quiet outside (λ i h. cc (here, h)) (λ h. cc (here, h)) (λ i h. cc h) (λ h. cc h)
          (λ i h. absurd (cc h)))
    | inr e ↦ rw e (
        quiet (loaded (trailing_zeros s.bitfield)) (λ i h. cc (here, h)) (λ h. cc (here, h))
          (λ i h. cc h) (λ h. cc h)
          (λ i h. (ground (arith, trailing_zeros-le_of_set s.bitfield 63 (v.top ∙ arena)), arena)))
  ]

  pub Inv-list : s.local t ≡ listing → Inv (moved s t outside)
  Inv-list here =
      quiet outside (λ i h. cc (here, h)) (λ h. cc (here, h)) (λ i h. cc h) (λ h. cc h)
        (λ i h. absurd (cc h))

  pub Inv-deallocate : s.local t ≡ last → Inv (record (moved s t outside) { live = false })
  Inv-deallocate here =
      let (free, arena, alive, only) = v.last_free t here in
      record {
        word = v.word;
        top = v.top;
        below = λ u j e. ground (arith, v.below u j);
        owned = λ u j e. ground (arith, v.owned u j);
        unique = λ u u' j e e'. ground (arith, v.unique u u' j);
        owner = λ j h off. absurd (cc (free j h, off));
        last_free = λ u e. absurd (ground (arith, only u, ==_iff u t));
        dead_free = λ e. (free, arena, λ u h. absurd (ground (arith, only u, ==_iff u t)));
        no_leak = λ all e. inr refl;
      }
