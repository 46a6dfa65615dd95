-- ===== src/Word/Ext.antt =====
-- Words are equal when their bits are; setting and clearing one bit, by `|` and `&` and by the sums
-- and differences of `fetch_add` and `fetch_sub`.
use native.Mathlib.Nat.{pow-suc, one-le-pow, pow-le-pow_right}
use shared_arena.Base.{
  ℕ, zero, suc, ◌+◌, ◌/◌, ◌%◌, ◌^◌, ◌<◌, bit_and, bit_or, ◌≡◌, ap, ◌∙◌, inl, inr, true, false, not,
  ◌&&◌, ◌||◌, arith, ◌==◌, Bool-cases, ==_refl,
}
use shared_arena.Word.{test_bit, bit_not, IsWord, all_ones}
use shared_arena.Word.Bits.{
  or_halves, test_bit-bit_or, test_bit-bit_and, test_bit-pow, test_bit-complement, test_bit_above,
  bit_or-lt, bit_and-lt,
}

-- Extensionality: two numbers of `k` bits with the same bits are equal.
pub word_ext :
    (k a b : ℕ) → a < 2 ^ k → b < 2 ^ k → ((i : ℕ) → i < k → test_bit a i ≡ test_bit b i) → a ≡ b
word_ext zero a b p q h = omega arith
word_ext (suc k) a b p q h =
    let halves : a / 2 ≡ b / 2 =
      word_ext k (a / 2) (b / 2) (omega (arith, pow-suc 2 k)) (omega (arith, pow-suc 2 k))
        (λ i lt. h (suc i) (omega arith)) in
    let low : (a % 2 == 1) ≡ (b % 2 == 1) = h 0 (omega arith) in ground arith

pub pow-lt : (i k : ℕ) → i < k → 2 ^ i < 2 ^ k
pow-lt i k h = omega (
  arith,
  pow-suc 2 i,
  one-le-pow i 2,
  pow-le-pow_right {n = 2} (omega arith) {i = suc i} {j = k} h,
)

bit_or-zero : (k a : ℕ) → a < 2 ^ k → bit_or a 0 ≡ a
bit_or-zero k a p = word_ext k _ _ (bit_or-lt k a 0 p (omega arith)) p same
  where
    same : (i : ℕ) → i < k → test_bit (bit_or a 0) i ≡ test_bit a i
    same i lt = ground (arith, test_bit-bit_or i a 0, test_bit_above 0 i 0 (omega arith))

-- `w | (1 << i)`
pub test_bit_set : (w i j : ℕ) → test_bit (bit_or w (2 ^ i)) j ≡ (test_bit w j || (j == i))
test_bit_set w i j = ground (arith, test_bit-bit_or j w (2 ^ i), test_bit-pow j i)

-- `w & !(1 << i)`
pub test_bit_clear :
    (w i j : ℕ)
    → IsWord w
    → i < 64
    → test_bit (bit_and w (bit_not (2 ^ i))) j ≡ (test_bit w j && not (j == i))
test_bit_clear w i j p h = elim (Bool-cases (test_bit w j)) [
  | inr off ↦ ground (arith, test_bit-bit_and j w (bit_not (2 ^ i)))
  | inl on ↦ ground (
    arith,
    test_bit-bit_and j w (bit_not (2 ^ i)),
    test_bit-complement 64 j (2 ^ i) (below on) (pow-lt i 64 h),
    test_bit-pow j i,
  )
]
  where
    below : test_bit w j ≡ true → j < 64
    below on = ground (arith, test_bit_above 64 j w p)

-- Setting a clear bit is adding it: why `fetch_add(bit)` frees a block.
pub add_bit : (k i w : ℕ) → w < 2 ^ k → i < k → test_bit w i ≡ false → w + 2 ^ i ≡ bit_or w (2 ^ i)
add_bit zero i w p h off = absurd (omega arith)
add_bit (suc k) zero w p h off =
    ground (arith, or_halves w 1, bit_or-zero k (w / 2) (omega (arith, pow-suc 2 k)))
add_bit (suc k) (suc i) w p h off = omega (
  arith,
  or_halves w (2 ^ suc i),
  pow-suc 2 i,
  ap (λ t. bit_or (w / 2) t) half,
  add_bit k i (w / 2) (omega (arith, pow-suc 2 k)) (omega arith) off,
)
  where
    half : 2 ^ suc i / 2 ≡ 2 ^ i
    half = omega (arith, pow-suc 2 i)

module _ (w i : ℕ) (p : IsWord w) (h : i < 64) where
  pub set-lt : bit_or w (2 ^ i) < 2 ^ 64
  set-lt = bit_or-lt 64 w (2 ^ i) p (pow-lt i 64 h)

  pub clear-lt : bit_and w (bit_not (2 ^ i)) < 2 ^ 64
  clear-lt = bit_and-lt 64 w (bit_not (2 ^ i)) p

  -- A clear bit that is set makes no carry out of the word.
  pub add_bit_word : test_bit w i ≡ false → (w + 2 ^ i) % 2 ^ 64 ≡ bit_or w (2 ^ i)
  add_bit_word off = omega (arith, add_bit 64 i w p h off, set-lt)

  clear_off : test_bit (bit_and w (bit_not (2 ^ i))) i ≡ false
  clear_off = ground (arith, test_bit_clear w i i p h)

  set_clear : test_bit w i ≡ true → bit_or (bit_and w (bit_not (2 ^ i))) (2 ^ i) ≡ w
  set_clear on = word_ext 64 _ _ (bit_or-lt 64 _ (2 ^ i) clear-lt (pow-lt i 64 h)) p same
    where
      same :
          (j : ℕ)
          → j < 64
          → test_bit (bit_or (bit_and w (bit_not (2 ^ i))) (2 ^ i)) j ≡ test_bit w j
      same j lt = ground (
        arith,
        test_bit_set (bit_and w (bit_not (2 ^ i))) i j,
        test_bit_clear w i j p h,
        ==_refl i,
      )

  -- Clearing a set bit is subtracting it.
  pub sub_bit : test_bit w i ≡ true → bit_and w (bit_not (2 ^ i)) + 2 ^ i ≡ w
  sub_bit on = add_bit 64 i (bit_and w (bit_not (2 ^ i))) clear-lt h clear_off ∙ set_clear on

pub test_bit-all_ones : (i : ℕ) → i < 64 → test_bit all_ones i ≡ true
test_bit-all_ones i lt =
    ground (arith, test_bit-complement 64 i 0 lt (omega arith), test_bit_above 0 i 0 (omega arith))
