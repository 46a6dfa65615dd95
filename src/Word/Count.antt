-- ===== src/Word/Count.antt =====
-- `count_ones`, `count_zeros` and `trailing_zeros` in terms of the bits.
use native.Mathlib.Nat.{pow-suc, one-le-pow}
use shared_arena.Base.{
  ℕ, zero, suc, ◌+◌, ◌-◌, ◌/◌, ◌%◌, ◌^◌, ◌≤◌, ◌<◌, bit_and, bit_or, ◌≡◌, refl, ap, inl, inr, true,
  false, arith, ◌==◌, Bool-cases,
}
use shared_arena.Word.{
  test_bit, bit_not, IsWord, all_ones, ones, trailing, trailing_zeros, count_ones, count_zeros,
}
use shared_arena.Word.Ext.{add_bit, sub_bit}

pub ones-le : (k w : ℕ) → ones k w ≤ k
unfolding ones
ones-le zero w = omega arith
ones-le (suc k) w = omega (arith, ones-le k (w / 2))

ones-add_bit : (k i w : ℕ) → i < k → test_bit w i ≡ false → ones k (w + 2 ^ i) ≡ ones k w + 1
unfolding ones
ones-add_bit zero i w h off = absurd (omega arith)
ones-add_bit (suc k) zero w h off =
    let even : w % 2 ≡ 0 = ground arith in
    let e : (w + 1) / 2 ≡ w / 2 = omega arith in rw e (omega arith)
ones-add_bit (suc k) (suc i) w h off =
    let e : (w + 2 ^ suc i) / 2 ≡ w / 2 + 2 ^ i = omega (arith, pow-suc 2 i) in
    rw e (omega (arith, pow-suc 2 i, ones-add_bit k i (w / 2) (omega arith) off))

-- Only the full word has all its bits set.
ones_full : (k w : ℕ) → w < 2 ^ k → ones k w ≡ k → w ≡ 2 ^ k - 1
unfolding ones
ones_full zero w p e = omega arith
ones_full (suc k) w p e = omega (
  arith,
  pow-suc 2 k,
  one-le-pow k 2,
  ones-le k (w / 2),
  ones_full k (w / 2) (omega (arith, pow-suc 2 k)) (omega (arith, ones-le k (w / 2))),
)

module _ (w i : ℕ) (p : IsWord w) (h : i < 64) where
  -- Setting a clear bit makes one zero less.
  pub count_zeros-set : test_bit w i ≡ false → count_zeros (bit_or w (2 ^ i)) + 1 ≡ count_zeros w
  unfolding count_zeros count_ones
  count_zeros-set off =
      let e = add_bit 64 i w p h off in
      rw (← e) (omega (arith, ones-add_bit 64 i w h off, ones-le 64 w, ones-le 64 (w + 2 ^ i)))

  -- Clearing a set bit makes one zero more.
  pub count_zeros-clear :
      test_bit w i ≡ true
      → test_bit (bit_and w (bit_not (2 ^ i))) i ≡ false
      → count_zeros (bit_and w (bit_not (2 ^ i))) ≡ count_zeros w + 1
  unfolding count_zeros count_ones
  count_zeros-clear on off =
      let v = bit_and w (bit_not (2 ^ i)) in
      let e : v + 2 ^ i ≡ w = sub_bit w i p h on in
      omega (arith, ap (λ t. ones 64 t) e, ones-add_bit 64 i v h off, ones-le 64 w, ones-le 64 v)

pub count_zeros_full : count_zeros all_ones ≡ 0
unfolding count_zeros count_ones ones
count_zeros_full = refl

pub eq-all_ones : (w : ℕ) → IsWord w → count_zeros w ≡ 0 → w ≡ all_ones
unfolding count_zeros count_ones
eq-all_ones w p e = ones_full 64 w p (omega (arith, ones-le 64 w))

pub trailing-le : (k w : ℕ) → trailing k w ≤ k
unfolding trailing
trailing-le zero w = omega arith
trailing-le (suc k) w = ground (arith, trailing-le k (w / 2))

trailing_set : (k w : ℕ) → trailing k w < k → test_bit w (trailing k w) ≡ true
unfolding trailing
trailing_set zero w h = absurd (omega arith)
trailing_set (suc k) w h = elim (Bool-cases (w % 2 == 1)) [
  | inl odd ↦ rw odd odd
  | inr even ↦ let e = h in rw even (trailing_set k (w / 2) (ground arith))
]

trailing_below : (k w i : ℕ) → i < trailing k w → test_bit w i ≡ false
unfolding trailing
trailing_below zero w i h = absurd (omega arith)
trailing_below (suc k) w zero h = ground arith
trailing_below (suc k) w (suc i) h = trailing_below k (w / 2) i (ground arith)

-- `trailing_zeros` is the index of a set bit,
pub test_bit-trailing_zeros : (w : ℕ) → trailing_zeros w < 64 → test_bit w (trailing_zeros w) ≡ true
unfolding trailing_zeros
test_bit-trailing_zeros w h = trailing_set 64 w h

-- and no lower bit is set.
pub trailing_zeros_below : (w i : ℕ) → i < trailing_zeros w → test_bit w i ≡ false
unfolding trailing_zeros
trailing_zeros_below w i h = trailing_below 64 w i h

pub trailing_zeros-le_of_set : (w i : ℕ) → test_bit w i ≡ true → trailing_zeros w ≤ i
trailing_zeros-le_of_set w i on = ground (arith, trailing_zeros_below w i)

pub trailing_zeros-all_ones : trailing_zeros all_ones ≡ 0
unfolding trailing_zeros trailing
trailing_zeros-all_ones = refl
