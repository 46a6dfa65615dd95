-- ===== src/Page/Arena/Merged.antt =====
-- The two bitfields of a page of page/arena.rs as one: what each operation does to the word that a
-- page of page/shared_arena.rs would have.
use shared_arena.Base.{
  ℕ, ◌^◌, ◌<◌, bit_or, ◌≡◌, refl, sym, ap, ◌∙◌, inl, inr, true, false, ◌||◌, arith, ltb, ◌==◌,
  Bool-cases, ==_iff,
}
use shared_arena.Word.{test_bit, IsWord, all_ones, block_per_page}
use shared_arena.Word.Bits.{test_bit-bit_or, test_bit_above, bit_or-lt}
use shared_arena.Word.Ext.{word_ext, test_bit-all_ones, test_bit_set, set-lt, pow-lt}
use shared_arena.Page.SharedArena.{fetch_and_bit}
use shared_arena.Page.SharedArena.Bits.{fetch_and_bit-lt, test_bit-fetch_and}

-- The bitfields `b` and `a` of a page that its arena holds: the arena's bit is in the first only, and
-- no block is free in both.
pub record IsSplit (b a : ℕ) : Type 0 where
  pub word : IsWord b
  pub top : test_bit b 63 ≡ true
  pub low : a < 2 ^ 63
  pub apart : (j : ℕ) → test_bit b j ≡ true → test_bit a j ≡ false

module _ {b a : ℕ} (p : IsSplit b a) where
  pub atomic-IsWord : IsWord a
  atomic-IsWord = omega (arith, p.low)

  pub merged-IsWord : IsWord (bit_or b a)
  merged-IsWord = bit_or-lt 64 b a p.word (omega (arith, p.low))

  pub merged_top : test_bit (bit_or b a) 63 ≡ true
  merged_top = test_bit-bit_or 63 b a ∙ rw (p.top) refl

  pub swap_merged : bit_or a b ≡ bit_or b a
  swap_merged =
      word_ext 64 _ _ (bit_or-lt 64 a b (omega (arith, p.low)) p.word) merged-IsWord
        λ j lt. ground (arith, test_bit-bit_or j a b, test_bit-bit_or j b a)

  pub merge_again : bit_or (bit_or b a) 0 ≡ bit_or b a
  merge_again = word_ext 64 _ _ (bit_or-lt 64 _ 0 merged-IsWord (omega arith)) merged-IsWord λ j lt.
      ground
        (arith, test_bit-bit_or j (bit_or b a) 0, test_bit_above 0 j 0 (omega arith) (omega arith))

  pub IsSplit-merged : IsSplit (bit_or b a) 0
  IsSplit-merged = record {
    word = merged-IsWord;
    top = merged_top;
    low = omega arith;
    apart = λ j on. test_bit_above 0 j 0 (omega arith) (omega arith);
  }

  module _ (i : ℕ) (lt : i < block_per_page) where
    -- The owner takes a block.
    pub merged-clear :
        test_bit b i ≡ true → bit_or (fetch_and_bit b i) a ≡ fetch_and_bit (bit_or b a) i
    merged-clear on =
        word_ext 64 _ _
          (bit_or-lt 64 _ a (fetch_and_bit-lt b p.word i (omega arith)) (omega (arith, p.low)))
          (fetch_and_bit-lt _ merged-IsWord i (omega arith))
          λ j h. ground (
            arith,
            test_bit-bit_or j (fetch_and_bit b i) a,
            test_bit-bit_or j b a,
            test_bit-fetch_and b p.word i (omega arith) j,
            test_bit-fetch_and (bit_or b a) merged-IsWord i (omega arith) j,
            p.apart i on,
            ==_iff j i,
          )

    pub IsSplit-clear : IsSplit (fetch_and_bit b i) a
    IsSplit-clear =
        let bits = test_bit-fetch_and b p.word i (omega arith) in
        record {
          word = fetch_and_bit-lt b p.word i (omega arith);
          top = bits 63 ∙ ground (arith, p.top);
          low = p.low;
          apart = λ j on. p.apart j (ground (arith, bits j));
        }

    -- A pointer gives a block back.
    pub merged-set : bit_or b (bit_or a (2 ^ i)) ≡ bit_or (bit_or b a) (2 ^ i)
    merged-set =
        word_ext 64 _ _ (bit_or-lt 64 b _ p.word (set-lt a i atomic-IsWord (omega arith)))
          (set-lt _ i merged-IsWord (omega arith))
          λ j h. ground (
            arith,
            test_bit-bit_or j b (bit_or a (2 ^ i)),
            test_bit-bit_or j b a,
            test_bit_set a i j,
            test_bit_set (bit_or b a) i j,
          )

    pub IsSplit-set : test_bit b i ≡ false → IsSplit b (bit_or a (2 ^ i))
    IsSplit-set off = record {
      word = p.word;
      top = p.top;
      low = bit_or-lt 63 a (2 ^ i) p.low (pow-lt i 63 lt);
      apart = λ j on. ground (arith, test_bit_set a i j, p.apart j on, ==_iff j i);
    }

-- The bitfields of a page that the arena has let go of: all are in `bitfield_atomic`, with the
-- arena's bit set.
module _ {a : ℕ} (word : IsWord a) (top : test_bit a 63 ≡ true) (i : ℕ)
    (lt : i < block_per_page) where
  pub let_go-set : fetch_and_bit (bit_or a (2 ^ i)) 63 ≡ bit_or (fetch_and_bit a 63) (2 ^ i)
  let_go-set =
      let set = set-lt a i word (omega arith) in
      let cleared = fetch_and_bit-lt a word 63 (omega arith) in
      word_ext 64 _ _ (fetch_and_bit-lt _ set 63 (omega arith)) (set-lt _ i cleared (omega arith))
        λ j h. ground (
          arith,
          test_bit-fetch_and a word 63 (omega arith) j,
          test_bit-fetch_and _ set 63 (omega arith) j,
          test_bit_set a i j,
          test_bit_set (fetch_and_bit a 63) i j,
          ==_iff j i,
          ==_iff j 63,
        )

  pub set_top : test_bit (bit_or a (2 ^ i)) 63 ≡ true
  set_top = test_bit_set a i 63 ∙ rw top refl

  pub let_go_low :
      (j : ℕ)
      → j < block_per_page
      → test_bit (bit_or (fetch_and_bit a 63) (2 ^ i)) j ≡ test_bit (bit_or a (2 ^ i)) j
  let_go_low j h =
      let same : test_bit (fetch_and_bit a 63) j ≡ test_bit a j =
        ground (arith, test_bit-fetch_and a word 63 (omega arith) j) in
      test_bit_set (fetch_and_bit a 63) i j
      ∙ ap (λ t. t || (j == i)) same
      ∙ sym (test_bit_set a i j)

-- All 64 bits are set exactly if the arena's is and every block is free.
module _ (w : ℕ) (word : IsWord w) (top : test_bit w 63 ≡ true) where
  pub all_free : (w == all_ones) ≡ true → (j : ℕ) → j < block_per_page → test_bit w j ≡ true
  all_free e j lt =
      let same : w ≡ all_ones = (==_iff w all_ones).0 e in
      rw same (test_bit-all_ones j (omega arith))

  pub all_free_of : ((j : ℕ) → j < block_per_page → test_bit w j ≡ true) → (w == all_ones) ≡ true
  all_free_of all = (==_iff w all_ones).1 (
      word_ext 64 w all_ones word (omega arith) λ j lt. sym (
        test_bit-all_ones j lt
        ∙ sym (elim (Bool-cases (ltb j 63)) [
          | inl low ↦ all j (ground arith)
          | inr high ↦ let at : j ≡ 63 = ground arith in rw at top
        ])))
