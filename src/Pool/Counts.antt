-- ===== src/Pool/Counts.antt =====
-- The number of blocks in use when one of them is taken or freed (pool.rs).
use shared_arena.Base.{
  ℕ, zero, suc, ◌+◌, ◌<◌, ◌≡◌, refl, sym, ap, ◌∙◌, inl, inr, true, not, ◌&&◌, List, [], ◌∷◌, arith,
  ◌==◌, has, Bool-cases, ==_iff, ==_refl,
}
use shared_arena.Word.{test_bit, all_ones, block_per_page}
use shared_arena.Word.Ext.{test_bit-all_ones}
use shared_arena.Memory.{BlockPtr}
use shared_arena.Memory.Chain.{Distinct, ne_of_has}
use shared_arena.Pool.Place.{is_at}
use shared_arena.Pool.Stats.{clear_bits, clear_on}

clear_bits_same :
    (k w w' : ℕ)
    → ((j : ℕ) → j < k → test_bit w' j ≡ test_bit w j)
    → clear_bits k w' ≡ clear_bits k w
unfolding clear_bits
clear_bits_same zero w w' same = refl
clear_bits_same (suc k) w w' same =
    let low = clear_bits_same k w w' (λ j lt. same j (omega arith)) in
    let top = same k (omega arith) in ground arith

clear_bits_more :
    (k i w w' : ℕ)
    → i < k
    → test_bit w i ≡ true
    → ((j : ℕ) → j < k → test_bit w' j ≡ (test_bit w j && not (j == i)))
    → clear_bits k w' ≡ clear_bits k w + 1
unfolding clear_bits
clear_bits_more zero i w w' lt on one = absurd (omega arith)
clear_bits_more (suc k) i w w' lt on one = elim (Bool-cases (k == i)) [
  | inl e ↦
      let same = (==_iff k i).0 e in
      let low = clear_bits_same k w w' (λ j h. ground (arith, one j, ==_iff j i)) in
      ground (arith, one k, ==_refl i)
  | inr e ↦
      let low =
        clear_bits_more k i w w' (ground (arith, ==_iff k i)) on (λ j h. one j (omega arith)) in
      ground (arith, one k)
]

pub clear_bits-all_ones : (k : ℕ) → k < 64 → clear_bits k all_ones ≡ 0
unfolding clear_bits
clear_bits-all_ones zero lt = refl
clear_bits-all_ones (suc k) lt =
    ground (arith, clear_bits-all_ones k, test_bit-all_ones k (omega arith))

pub clear_on_same :
    (w w' : ℕ → ℕ) (ps : List ℕ)
    → ((q j : ℕ) → has q ps ≡ true → j < block_per_page → test_bit (w' q) j ≡ test_bit (w q) j)
    → clear_on w' ps ≡ clear_on w ps
clear_on_same w w' [] same = refl
clear_on_same w w' (p ∷ ps) same = omega (
  arith,
  clear_bits_same 63 (w p) (w' p) (λ j lt. same p j (ground (arith, ==_refl p)) lt),
  clear_on_same w w' ps (λ q j h lt. same q j (ground (arith, h)) lt),
)

-- One block of the pages is taken.
pub clear_on_more :
    (w w' : ℕ → ℕ) (ps : List ℕ) (b : BlockPtr)
    → Distinct ps
    → has b.page ps ≡ true
    → b.index < block_per_page
    → test_bit (w b.page) b.index ≡ true
    → ((q j : ℕ)
        → has q ps ≡ true
        → j < block_per_page
        → test_bit (w' q) j ≡ (test_bit (w q) j && not (is_at b q j)))
    → clear_on w' ps ≡ clear_on w ps + 1
clear_on_more w w' [] b apart member lt on one = cc member
clear_on_more w w' (p ∷ ps) b (out, apart) member lt on one = elim (Bool-cases (p == b.page)) [
  | inl e ↦
      let same = (==_iff p b.page).0 e in
      let here =
        clear_bits_more 63 b.index (w p) (w' p) lt (ap (λ q. test_bit (w q) b.index) same ∙ on)
          (λ j h. one p j (ground (arith, ==_refl p)) h ∙ rw e) in
      let rest = clear_on_same w w' ps (λ q j h lt'.
        one q j (ground (arith, h)) lt' ∙ rw (sym same, ne_of_has q p ps h out) (ground arith)) in
      omega arith
  | inr ne ↦
      let here =
        clear_bits_same 63 (w p) (w' p)
          (λ j h. one p j (ground (arith, ==_refl p)) h ∙ rw ne (ground arith)) in
      let rest =
        clear_on_more w w' ps b apart (ground (arith, member, ==_iff p b.page, ==_iff b.page p)) lt
          on (λ q j h. one q j (ground (arith, h))) in
      omega arith
]
