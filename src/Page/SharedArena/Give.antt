-- ===== src/Page/SharedArena/Give.antt =====
-- The `fetch_add` of `drop_block` and the invariant (page/shared_arena.rs).
use shared_arena.Base.{
  ℕ, ◌^◌, ◌<◌, bit_or, ◌≡◌, ◌≢◌, refl, sym, ap, ◌∙◌, inl, inr, true, false, ◌||◌, arith, ◌==◌,
  Bool-cases, ==_refl, ==-eq-false,
}
use shared_arena.Word.{test_bit, block_per_page, mask_arena_bit, IsWord, bit_not}
use shared_arena.Word.Ext.{test_bit_set, set-lt}
use shared_arena.Memory.{update}
use shared_arena.Page.SharedArena.{
  Local, loaded, holds, listing, last, Shared, fetch_add_bit, after_fetch_add, moved,
}
use shared_arena.Page.SharedArena.Bits.{is_last, is_last_of, fetch_add_bit-eq}
use shared_arena.Page.SharedArena.Invariant.{AllFree, Inv}
use shared_arena.Page.SharedArena.Moves.{update-same, update-other, same_or_other}

module _ {s : Shared} (v : Inv s) (t : ℕ) where
  module _ {i : ℕ} (here : s.local t ≡ holds i) where
    in_use : (i < block_per_page) × (test_bit s.bitfield i ≡ false)
    in_use = v.owned t i here

    abbrev given : Local → Shared
    given l = record (moved s t l) { bitfield = bit_or s.bitfield (2 ^ i) }

    given_bits :
        (j : ℕ) → test_bit (bit_or s.bitfield (2 ^ i)) j ≡ (test_bit s.bitfield j || (j == i))
    given_bits j = test_bit_set s.bitfield i j

    given-IsWord : IsWord (bit_or s.bitfield (2 ^ i))
    given-IsWord = set-lt s.bitfield i v.word (omega (arith, in_use.0))

    given_top : test_bit (bit_or s.bitfield (2 ^ i)) 63 ≡ s.arena_holds
    given_top = given_bits 63 ∙ ground (arith, v.top, in_use.0)

    not_free : AllFree s → ⊥
    not_free all = cc (all i in_use.0, in_use.1)

    alive : s.live ≡ true
    alive = elim (Bool-cases s.live) [ inl e ↦ e | inr e ↦ absurd (not_free (v.dead_free e).0) ]

    nobody : (u : ℕ) → s.local u ≢ last
    nobody u e = not_free (v.last_free u e).0

    pub Inv-given :
        (l : Local)
        → ((j : ℕ) → l ≢ holds j)
        → ((j : ℕ) → l ≢ loaded j)
        → (l ≡ last → AllFree (given l) × (s.arena_holds ≡ false))
        → (AllFree (given l) → s.arena_holds ≡ false → l ≡ last)
        → Inv (given l)
    Inv-given l no_block no_index is_free is_last_one = record {
      word = given-IsWord;
      top = given_top;
      below = λ u j e. ground (arith, v.below u j, no_index j);
      owned = λ u j e. elim (same_or_other u t) [
        | inl k ↦
            absurd (no_block j (sym (ap (update s.local t l) k ∙ update-same s.local t l) ∙ e))
        | inr ne ↦
            let was : s.local u ≡ holds j = sym (update-other s.local t l u ne) ∙ e in
            let (h, off) = v.owned u j was in
            (
              h,
              given_bits j
                  ∙ rw (off, ==-eq-false j i (λ k. ne (v.unique u t i (was ∙ ap holds k) here)))
                      refl,
            )
      ];
      unique = λ u u' j e e'. ground (arith, v.unique u u' j, no_block j);
      owner = λ j h off.
          let was : test_bit s.bitfield j ≡ false = ground (arith, given_bits j) in
          let (u, e) = v.owner j h was in
          (
            u,
            update-other s.local t l u (λ k. ground (arith, given_bits j, ==_refl j, e, here, k))
                ∙ e,
          );
      last_free = λ u e.
          let k = is_me u e in
          let (free, arena) =
            is_free (sym (ap (update s.local t l) k ∙ update-same s.local t l) ∙ e) in
          (free, arena, alive, λ u' e'. is_me u' e' ∙ sym k);
      dead_free = λ e. absurd (cc (alive, e));
      no_leak = λ all e. inl (t, update-same s.local t l ∙ is_last_one all e);
    }
      where
        is_me : (u : ℕ) → (given l).local u ≡ last → u ≡ t
        is_me u e = elim (same_or_other u t) [
          | inl k ↦ k
          | inr ne ↦ absurd (nobody u (sym (update-other s.local t l u ne) ∙ e))
        ]

    -- The `fetch_add` of a block that is in use makes no carry, and tells whether it was the last.
    pub Inv-give : Inv (record (moved s t (after_fetch_add s.bitfield i)) {
      bitfield = fetch_add_bit s.bitfield i;
    })
    unfolding after_fetch_add
    Inv-give =
        rw (fetch_add_bit-eq s.bitfield v.word i (omega (arith, in_use.0)) in_use.1)
          (elim (Bool-cases (bit_not (bit_or s.bitfield (2 ^ i)) == mask_arena_bit)) [
            | inl e ↦
                let (top, free) = is_last _ given-IsWord e in
                rw e (
                  Inv-given last (λ j h. cc h) (λ j h. cc h) (λ h. (free, sym given_top ∙ top))
                    (λ all a. refl))
            | inr e ↦ rw e (
                Inv-given listing (λ j h. cc h) (λ j h. cc h) (λ h. absurd (cc h))
                  (λ all a. absurd (cc (e, is_last_of _ given-IsWord (given_top ∙ a) all))))
          ])
