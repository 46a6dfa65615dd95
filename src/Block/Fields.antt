-- ===== src/Block/Fields.antt =====
-- `|` of disjoint fields and `&` with a low mask, for the words of `PageTaggedPtr` (block.rs).
use Prim.Native.Nat.{bit_or-bitwise, ◌≤◌}
use native.Mathlib.Nat.{pow-suc, one-le-pow, le_refl}
use shared_arena.Base.{
  ℕ, zero, suc, ◌+◌, ◌-◌, ◌*◌, ◌/◌, ◌%◌, ◌^◌, ◌<◌, bit_and, bit_or, ◌≡◌, refl, ap, ◌∙◌, arith,
}
use shared_arena.Word.Bits.{or_halves, and_halves}

double : (k q : ℕ) → q * 2 ^ suc k ≡ 2 * (q * 2 ^ k)
double k q = omega (arith, ap (λ t. q * t) (pow-suc 2 k))

pub bit_or_fields : (k r q : ℕ) → r < 2 ^ k → bit_or r (q * 2 ^ k) ≡ q * 2 ^ k + r
bit_or_fields zero r q h =
    let e : r ≡ 0 = omega arith in rw e (omega (arith, bit_or-bitwise 0 (q * 1)))
bit_or_fields (suc k) r q h = omega (
  arith,
  or_halves r (q * 2 ^ suc k),
  double k q,
  ap (λ t. bit_or (r / 2) t) half,
  bit_or_fields k (r / 2) q (omega (arith, pow-suc 2 k)),
)
  where
    half : q * 2 ^ suc k / 2 ≡ q * 2 ^ k
    half = omega (arith, double k q)

bit_and-zero : (n a : ℕ) → a ≤ n → bit_and a 0 ≡ 0
bit_and-zero n zero h = refl
bit_and-zero zero (suc a) h = absurd (omega arith)
bit_and-zero (suc n) (suc a) h =
    omega (arith, and_halves (suc a) 0, bit_and-zero n (suc a / 2) (omega arith))

bit_and_fields : (k q r : ℕ) → r < 2 ^ k → bit_and (q * 2 ^ k + r) (2 ^ k - 1) ≡ r
bit_and_fields zero q r h = omega (arith, bit_and-zero (q * 1 + r) (q * 1 + r) (le_refl _))
bit_and_fields (suc k) q r h = omega (
  arith,
  and_halves (q * 2 ^ suc k + r) (2 ^ suc k - 1),
  double k q,
  pow-suc 2 k,
  one-le-pow k 2,
  ap (λ t. bit_and t ((2 ^ suc k - 1) / 2)) half,
  ap (λ t. bit_and (q * 2 ^ k + r / 2) t) mask,
  bit_and_fields k q (r / 2) (omega (arith, pow-suc 2 k)),
)
  where
    half : (q * 2 ^ suc k + r) / 2 ≡ q * 2 ^ k + r / 2
    half = omega (arith, double k q)

    mask : (2 ^ suc k - 1) / 2 ≡ 2 ^ k - 1
    mask = omega (arith, pow-suc 2 k, one-le-pow k 2)

pub bit_and_mask : (k a : ℕ) → bit_and a (2 ^ k - 1) ≡ a % 2 ^ k
bit_and_mask k a = ground (arith, one-le-pow k 2, bit_and_fields k (a / 2 ^ k) (a % 2 ^ k))

bit_or_comm : (n a b : ℕ) → a ≤ n → b ≤ n → bit_or a b ≡ bit_or b a
bit_or_comm zero a b p q = let e : a ≡ 0 = omega arith in let e' : b ≡ 0 = omega arith in rw (e, e')
bit_or_comm (suc n) a b p q =
    omega (
      arith,
      or_halves a b,
      or_halves b a,
      bit_or_comm n (a / 2) (b / 2) (omega arith) (omega arith),
    )

-- The same with the high field first.
pub bit_or_fields_high : (k q r : ℕ) → r < 2 ^ k → bit_or (q * 2 ^ k) r ≡ q * 2 ^ k + r
bit_or_fields_high k q r h =
    bit_or_comm (q * 2 ^ k + r) (q * 2 ^ k) r (omega arith) (omega arith) ∙ bit_or_fields k r q h
