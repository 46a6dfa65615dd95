-- ===== src/Page/SharedArena/Take.antt =====
-- The `fetch_and` of `acquire_free_block` and the invariant (page/shared_arena.rs).
use shared_arena.Base.{
  ℕ, ◌<◌, ◌≡◌, ◌≢◌, sym, ap, ◌∙◌, inl, inr, true, false, not, ◌&&◌, arith, ◌==◌, Bool-cases, ==_iff,
  ==_refl, ==-eq-false,
}
use shared_arena.Word.{test_bit, block_per_page}
use shared_arena.Word.Ext.{word_ext}
use shared_arena.Page.SharedArena.{
  outside, loaded, holds, Shared, fetch_and_bit, after_fetch_and, moved,
}
use shared_arena.Page.SharedArena.Bits.{bit_and-is_zero, fetch_and_bit-lt, test_bit-fetch_and}
use shared_arena.Page.SharedArena.Invariant.{Inv}
use shared_arena.Page.SharedArena.Moves.{update-same, update-other, same_or_other, quiet}

module _ {s : Shared} (v : Inv s) (t : ℕ) {i : ℕ} (lt : i < block_per_page) where
  abbrev taken : Shared
  taken = record (moved s t (holds i)) { bitfield = fetch_and_bit s.bitfield i }

  bits : (j : ℕ) → test_bit taken.bitfield j ≡ (test_bit s.bitfield j && not (j == i))
  bits = test_bit-fetch_and s.bitfield v.word i (omega (arith, lt))

  -- A task that owns no block takes one that is free.
  pub Inv-taken :
      s.arena_holds ≡ true
      → ((j : ℕ) → s.local t ≢ holds j)
      → test_bit s.bitfield i ≡ true
      → Inv taken
  Inv-taken arena unowned on = record {
    word = fetch_and_bit-lt s.bitfield v.word i (omega (arith, lt));
    top = bits 63 ∙ ground (arith, v.top, lt);
    below = λ u j e. ground (arith, v.below u j);
    owned = λ u j e. ground (arith, v.owned u j, bits j, lt, ==_refl j);
    unique = λ u u' j e e'.
        ground (arith, v.unique u u' j, v.owned u j, v.owned u' j, on, ==_iff u t, ==_iff u' t);
    owner = λ j h off. elim (same_or_other j i) [
      | inl e ↦ (t, update-same s.local t (holds i) ∙ ap holds (sym e))
      | inr ne ↦
          let was : test_bit s.bitfield j ≡ false = ground (arith, bits j, ==-eq-false j i ne) in
          let (u, e) = v.owner j h was in
          (u, update-other s.local t (holds i) u (λ k. unowned j (ap s.local (sym k) ∙ e)) ∙ e)
    ];
    last_free = λ u e. absurd (cc (arena, (v.last_free u (ground arith)).1));
    dead_free = λ e. absurd (cc (arena, (v.dead_free e).1));
    no_leak = λ all e. absurd (cc (arena, e));
  }

module _ {s : Shared} (v : Inv s) (t : ℕ) where
  module _ {i : ℕ} (here : s.local t ≡ loaded i) where
    index-lt : i < block_per_page
    index-lt = (v.below t i here).0

    arena : s.arena_holds ≡ true
    arena = (v.below t i here).1

    -- The block is taken by the `fetch_and` that still saw its bit.
    pub Inv-take : Inv (record (moved s t (after_fetch_and s.bitfield i)) {
      bitfield = fetch_and_bit s.bitfield i;
    })
    unfolding after_fetch_and
    Inv-take = elim (Bool-cases (test_bit s.bitfield i)) [
      | inl on ↦
          rw (bit_and-is_zero s.bitfield v.word i (omega (arith, index-lt)), on)
            (Inv-taken v t index-lt arena (λ j h. cc (here, h)) on)
      | inr off ↦
          let same : fetch_and_bit s.bitfield i ≡ s.bitfield =
            word_ext 64 _ _ (fetch_and_bit-lt s.bitfield v.word i (omega (arith, index-lt))) v.word
              (λ j h. ground (arith, bits v t index-lt j, ==_iff j i)) in
          rw (bit_and-is_zero s.bitfield v.word i (omega (arith, index-lt)), off, same)
            (quiet v t outside (λ i h. cc (here, h)) (λ h. cc (here, h)) (λ i h. cc h) (λ h. cc h)
              (λ i h. absurd (cc h)))
    ]
