-- ===== src/Page/SharedArena/LetGo.antt =====
-- The `fetch_sub` of `drop_page` and the invariant (page/shared_arena.rs).
use shared_arena.Base.{
  ℕ, ◌<◌, ◌≡◌, ◌≢◌, refl, sym, ap, ◌∙◌, inl, inr, true, false, arith, ◌==◌, Bool-cases,
}
use shared_arena.Word.{test_bit, block_per_page, bit_not}
use shared_arena.Memory.{update}
use shared_arena.Page.SharedArena.{
  Local, outside, loaded, holds, last, Shared, fetch_and_bit, fetch_sub_mask, after_fetch_sub,
  moved,
}
use shared_arena.Page.SharedArena.Bits.{
  is_full, is_full_of, fetch_and_bit-lt, test_bit-fetch_and, fetch_sub_mask-eq,
}
use shared_arena.Page.SharedArena.Invariant.{AllFree, Inv}
use shared_arena.Page.SharedArena.Moves.{update-same, update-other, same_or_other}

module _ {s : Shared} (v : Inv s) (t : ℕ) where
  module _ (here : s.local t ≡ outside) (arena : s.arena_holds ≡ true)
      (quiescent : (u i : ℕ) → s.local u ≢ loaded i) where
    top_set : test_bit s.bitfield 63 ≡ true
    top_set = v.top ∙ arena

    abbrev released : Local → Shared
    released l = record (moved s t l) {
      bitfield = fetch_and_bit s.bitfield 63;
      arena_holds = false;
    }

    low_bits :
        (j : ℕ)
        → j < block_per_page
        → test_bit (fetch_and_bit s.bitfield 63) j ≡ test_bit s.bitfield j
    low_bits j h = test_bit-fetch_and s.bitfield v.word 63 (omega arith) j ∙ ground (arith, h)

    still_alive : s.live ≡ true
    still_alive = elim (Bool-cases s.live) [
      | inl e ↦ e
      | inr e ↦ absurd (cc (arena, (v.dead_free e).1))
    ]

    pub Inv-released :
        (l : Local)
        → ((j : ℕ) → l ≢ holds j)
        → ((j : ℕ) → l ≢ loaded j)
        → (l ≡ last → AllFree s)
        → (AllFree s → l ≡ last)
        → Inv (released l)
    Inv-released l no_block no_index is_free is_last_one = record {
      word = fetch_and_bit-lt s.bitfield v.word 63 (omega arith);
      top = test_bit-fetch_and s.bitfield v.word 63 (omega arith) 63 ∙ ground arith;
      below = λ u j e. ground (arith, quiescent u j, no_index j);
      owned = λ u j e. ground (arith, v.owned u j, no_block j, low_bits j);
      unique = λ u u' j e e'. ground (arith, v.unique u u' j, no_block j);
      owner = λ j h off.
          let (u, e) = v.owner j h (sym (low_bits j h) ∙ off) in
          (u, update-other s.local t l u (λ k. cc (here, e, k)) ∙ e);
      last_free = λ u e.
          let k = is_me u e in
          let free = is_free (sym (ap (update s.local t l) k ∙ update-same s.local t l) ∙ e) in
          (λ j h. low_bits j h ∙ free j h, refl, still_alive, λ u' e'. is_me u' e' ∙ sym k);
      dead_free = λ e. absurd (cc (still_alive, e));
      no_leak = λ all e.
          inl (t, update-same s.local t l ∙ is_last_one (λ j h. sym (low_bits j h) ∙ all j h));
    }
      where
        is_me : (u : ℕ) → (released l).local u ≡ last → u ≡ t
        is_me u e = elim (same_or_other u t) [
          | inl k ↦ k
          | inr ne ↦
              absurd (cc (arena, (v.last_free u (sym (update-other s.local t l u ne) ∙ e)).1))
        ]

    pub Inv-let_go : Inv (record (moved s t (after_fetch_sub s.bitfield)) {
      bitfield = fetch_sub_mask s.bitfield;
      arena_holds = false;
    })
    unfolding after_fetch_sub
    Inv-let_go =
        rw (fetch_sub_mask-eq s.bitfield v.word top_set)
          (elim (Bool-cases (bit_not s.bitfield == 0)) [
            | inl e ↦ rw e (
                Inv-released last (λ j h. cc h) (λ j h. cc h)
                  (λ h i lt. is_full s.bitfield v.word e i (omega (arith, lt))) (λ all. refl))
            | inr e ↦ rw e (
                Inv-released outside (λ j h. cc h) (λ j h. cc h) (λ h. absurd (cc h))
                  (λ all. absurd (
                    cc (e, is_full_of s.bitfield v.word (λ i lt. ground (arith, all i, top_set))))))
          ])
