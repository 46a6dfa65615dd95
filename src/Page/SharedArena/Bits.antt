-- ===== src/Page/SharedArena/Bits.antt =====
-- The tests of page/shared_arena.rs in terms of the bits of the bitfield.
use shared_arena.Base.{
  ℕ, ◌-◌, ◌^◌, ◌<◌, bit_and, bit_or, ◌≡◌, refl, sym, ap, ◌∙◌, inl, inr, true, false, not, ◌&&◌,
  arith, ltb, ◌==◌, Bool-cases, ==_iff, ==_refl, ==-eq-false,
}
use shared_arena.Word.{test_bit, block_per_page, mask_arena_bit, IsWord, all_ones, bit_not}
use shared_arena.Word.Bits.{
  test_bit_above, test_bit-bit_and, test_bit-pow, test_bit-complement, bit_and-lt,
}
use shared_arena.Word.Ext.{
  word_ext, test_bit_clear, add_bit_word, clear-lt, sub_bit, test_bit-all_ones,
}
use shared_arena.Page.SharedArena.{fetch_and_bit, fetch_add_bit, fetch_sub_mask}

module _ (w : ℕ) (p : IsWord w) where
  -- `previous & bit != 0` tests the bit.
  pub bit_and-is_zero : (i : ℕ) → i < 64 → (bit_and w (2 ^ i) == 0) ≡ not (test_bit w i)
  bit_and-is_zero i lt = elim (Bool-cases (test_bit w i)) [
    | inl on ↦ rw on (
        ==-eq-false _ 0 λ e.
          let set : test_bit (bit_and w (2 ^ i)) i ≡ true =
            ground (arith, test_bit-bit_and i w (2 ^ i), test_bit-pow i i, ==_refl i) in
          cc (set, ap (λ v. test_bit v i) e, test_bit_above 0 i 0 (omega arith) (omega arith)))
    | inr off ↦
        let zero : bit_and w (2 ^ i) ≡ 0 =
          word_ext 64 _ 0 (bit_and-lt 64 w (2 ^ i) p) (omega arith) λ j h. ground (
            arith,
            test_bit-bit_and j w (2 ^ i),
            test_bit-pow j i,
            test_bit_above 0 j 0,
            ==_iff j i,
          ) in
        rw (off, zero) refl
  ]

  -- `!w == MASK_ARENA_BIT`: no block is in use and the arena's bit is clear.
  pub is_last :
      (bit_not w == mask_arena_bit) ≡ true
      → (test_bit w 63 ≡ false) × ((i : ℕ) → i < block_per_page → test_bit w i ≡ true)
  is_last h =
      let e : w ≡ 2 ^ 63 - 1 = omega (arith, (==_iff (bit_not w) mask_arena_bit).0 h) in
      (
        test_bit_above 63 63 w (omega arith) (omega arith),
        λ i lt. rw e (
            ground (
              arith,
              test_bit-complement 63 i 0 lt (omega arith),
              test_bit_above 0 i 0 (omega arith),
            )),
      )

  pub is_last_of :
      test_bit w 63 ≡ false
      → ((i : ℕ) → i < block_per_page → test_bit w i ≡ true)
      → (bit_not w == mask_arena_bit) ≡ true
  is_last_of top all = (==_iff (bit_not w) mask_arena_bit).1 (omega (arith, e))
    where
      e : w ≡ 2 ^ 63 - 1
      e = word_ext 64 w (2 ^ 63 - 1) p (omega arith) λ i lt. elim (Bool-cases (ltb i 63)) [
        | inl low ↦
            let lt' : i < 63 = ground arith in
            all i lt'
            ∙ sym (
                ground (
                  arith,
                  test_bit-complement 63 i 0 lt' (omega arith),
                  test_bit_above 0 i 0 (omega arith),
                ))
        | inr high ↦
            let at : i ≡ 63 = ground arith in
            rw at (top ∙ sym (test_bit_above 63 63 (2 ^ 63 - 1) (omega arith) (omega arith)))
      ]

  -- `!w == 0`: every bit is set.
  pub is_full : (bit_not w == 0) ≡ true → (i : ℕ) → i < 64 → test_bit w i ≡ true
  is_full h i lt =
      let e : w ≡ all_ones = omega (arith, (==_iff (bit_not w) 0).0 h) in
      rw e (test_bit-all_ones i lt)

  pub is_full_of : ((i : ℕ) → i < 64 → test_bit w i ≡ true) → (bit_not w == 0) ≡ true
  is_full_of all = (==_iff (bit_not w) 0).1 (omega (arith, e))
    where
      e : w ≡ all_ones
      e = word_ext 64 w all_ones p (omega arith) λ i lt. all i lt ∙ sym (test_bit-all_ones i lt)

  module _ (i : ℕ) (lt : i < 64) where
    pub fetch_and_bit-lt : IsWord (fetch_and_bit w i)
    unfolding fetch_and_bit
    fetch_and_bit-lt = clear-lt w i p lt

    pub test_bit-fetch_and :
        (j : ℕ) → test_bit (fetch_and_bit w i) j ≡ (test_bit w j && not (j == i))
    unfolding fetch_and_bit
    test_bit-fetch_and j = test_bit_clear w i j p lt

    pub fetch_add_bit-eq : test_bit w i ≡ false → fetch_add_bit w i ≡ bit_or w (2 ^ i)
    unfolding fetch_add_bit
    fetch_add_bit-eq off = add_bit_word w i p lt off

  pub fetch_sub_mask-eq : test_bit w 63 ≡ true → fetch_sub_mask w ≡ fetch_and_bit w 63
  unfolding fetch_sub_mask fetch_and_bit
  fetch_sub_mask-eq on =
      omega (arith, sub_bit w 63 p (omega arith) on, clear-lt w 63 p (omega arith))
