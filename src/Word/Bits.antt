-- ===== src/Word/Bits.antt =====
-- What `&`, `|`, `!` and `1 << i` do to each bit.
use Prim.Native.Nat.{digits, bitwise, bit_and-bitwise, bit_or-bitwise}
use native.Mathlib.Nat.{le_refl, pow-suc, one-le-pow}
use shared_arena.Base.{
  ℕ, zero, suc, ◌+◌, ◌-◌, ◌*◌, ◌/◌, ◌%◌, ◌^◌, ◌≤◌, ◌<◌, min, max, bit_and, bit_or, ◌≡◌, refl, sym,
  ap, ◌∙◌, false, not, ◌&&◌, ◌||◌, arith, ◌==◌,
}
use shared_arena.Word.{test_bit}

-- Rounds beyond the first number change nothing.
no_digits :
    (base : ℕ → ℕ) (digit : ℕ → ℕ → ℕ) (rounds y : ℕ) → digits base digit rounds 0 y ≡ base y
no_digits base digit zero y = refl
no_digits base digit (suc rounds) y = refl

more_rounds :
    (base : ℕ → ℕ) (digit : ℕ → ℕ → ℕ) (extra rounds x y : ℕ)
    → x ≤ rounds
    → digits base digit (rounds + extra) x y ≡ digits base digit rounds x y
more_rounds base digit extra rounds zero y h =
    no_digits base digit (rounds + extra) y ∙ sym (no_digits base digit rounds y)
more_rounds base digit extra zero (suc x) y h = absurd (omega arith)
more_rounds base digit extra (suc rounds) (suc x) y h =
    let e : suc rounds + extra ≡ suc (rounds + extra) = omega arith in
    let rest = more_rounds base digit extra rounds (suc x / 2) (y / 2) (omega arith) in
    ap (λ n. digits base digit n (suc x) y) e
    ∙ ap (λ high. high * 2 + digit (suc x % 2) (y % 2)) rest

half_and_digit :
    (base : ℕ → ℕ) (digit : ℕ → ℕ → ℕ) (x y : ℕ)
    → bitwise base digit (suc x) y
      ≡ digit (suc x % 2) (y % 2) + 2 * bitwise base digit (suc x / 2) (y / 2)
half_and_digit base digit x y =
    let half = suc x / 2 in
    let e : half + (x - half) ≡ x = omega arith in
    omega (
      arith,
      more_rounds base digit (x - half) half half (y / 2) (le_refl _),
      ap (λ n. digits base digit n half (y / 2)) e,
    )

-- `|` and `&` by the lowest bit and the others.
pub or_halves : (x y : ℕ) → bit_or x y ≡ max (x % 2) (y % 2) + 2 * bit_or (x / 2) (y / 2)
or_halves zero y = rw (bit_or-bitwise 0 y, bit_or-bitwise (0 / 2) (y / 2)) (omega arith)
or_halves (suc x) y =
    rw (bit_or-bitwise (suc x) y, bit_or-bitwise (suc x / 2) (y / 2))
      (half_and_digit (λ n. n) max x y)

pub and_halves : (x y : ℕ) → bit_and x y ≡ min (x % 2) (y % 2) + 2 * bit_and (x / 2) (y / 2)
and_halves zero y = rw (bit_and-bitwise 0 y, bit_and-bitwise (0 / 2) (y / 2)) (omega arith)
and_halves (suc x) y =
    rw (bit_and-bitwise (suc x) y, bit_and-bitwise (suc x / 2) (y / 2))
      (half_and_digit (λ _. 0) min x y)

half-bit_or : (a b : ℕ) → bit_or a b / 2 ≡ bit_or (a / 2) (b / 2)
half-bit_or a b = omega (arith, or_halves a b)

half-bit_and : (a b : ℕ) → bit_and a b / 2 ≡ bit_and (a / 2) (b / 2)
half-bit_and a b = omega (arith, and_halves a b)

pub test_bit-bit_or : (i a b : ℕ) → test_bit (bit_or a b) i ≡ (test_bit a i || test_bit b i)
test_bit-bit_or zero a b = ground (arith, or_halves a b)
test_bit-bit_or (suc i) a b = rw half-bit_or (test_bit-bit_or i (a / 2) (b / 2))

pub test_bit-bit_and : (i a b : ℕ) → test_bit (bit_and a b) i ≡ (test_bit a i && test_bit b i)
test_bit-bit_and zero a b = ground (arith, and_halves a b)
test_bit-bit_and (suc i) a b = rw half-bit_and (test_bit-bit_and i (a / 2) (b / 2))

pub test_bit-zero : (i : ℕ) → test_bit 0 i ≡ false
test_bit-zero zero = refl
test_bit-zero (suc i) = test_bit-zero i

half-pow : (j : ℕ) → 2 ^ suc j / 2 ≡ 2 ^ j
half-pow j = omega (arith, pow-suc 2 j)

pub test_bit-pow : (i j : ℕ) → test_bit (2 ^ j) i ≡ (i == j)
test_bit-pow zero zero = refl
test_bit-pow zero (suc j) = ground (arith, pow-suc 2 j)
test_bit-pow (suc i) zero = test_bit-zero i ∙ ground arith
test_bit-pow (suc i) (suc j) = rw half-pow (test_bit-pow i j ∙ ground arith)

-- The complement within `k` bits.
pub test_bit-complement :
    (k i w : ℕ) → i < k → w < 2 ^ k → test_bit (2 ^ k - 1 - w) i ≡ not (test_bit w i)
test_bit-complement zero i w h p = absurd (omega arith)
test_bit-complement (suc k) zero w h p = ground (arith, pow-suc 2 k, one-le-pow k 2)
test_bit-complement (suc k) (suc i) w h p =
    let e : (2 ^ suc k - 1 - w) / 2 ≡ 2 ^ k - 1 - w / 2 = omega (arith, pow-suc 2 k) in
    rw e (test_bit-complement k i (w / 2) (omega arith) (omega (arith, pow-suc 2 k)))

-- Above the width no bit is set.
pub test_bit_above : (k i w : ℕ) → w < 2 ^ k → k ≤ i → test_bit w i ≡ false
test_bit_above zero i w p h = let e : w ≡ 0 = omega arith in rw e (test_bit-zero i)
test_bit_above (suc k) zero w p h = absurd (omega arith)
test_bit_above (suc k) (suc i) w p h =
    test_bit_above k i (w / 2) (omega (arith, pow-suc 2 k)) (omega arith)

pub bit_or-lt : (k a b : ℕ) → a < 2 ^ k → b < 2 ^ k → bit_or a b < 2 ^ k
bit_or-lt zero a b p q =
    let e : a ≡ 0 = omega arith in let e' : b ≡ 0 = omega arith in rw (e, e') (omega arith)
bit_or-lt (suc k) a b p q = omega (
  arith,
  or_halves a b,
  pow-suc 2 k,
  bit_or-lt k (a / 2) (b / 2) (omega (arith, pow-suc 2 k)) (omega (arith, pow-suc 2 k)),
)

pub bit_and-lt : (k a b : ℕ) → a < 2 ^ k → bit_and a b < 2 ^ k
bit_and-lt zero a b p = let e : a ≡ 0 = omega arith in rw e (omega (arith, bit_and-bitwise 0 b))
bit_and-lt (suc k) a b p =
    omega (
      arith,
      and_halves a b,
      pow-suc 2 k,
      bit_and-lt k (a / 2) (b / 2) (omega (arith, pow-suc 2 k)),
    )
