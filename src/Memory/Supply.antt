-- ===== src/Memory/Supply.antt =====
-- The addresses that the allocator is going to return.
use shared_arena.Base.{ℕ, zero, suc, ◌≤◌, arith, ◌≡◌, ◌≢◌, refl, Bool, true, false, List, [], ◌∷◌}
use shared_arena.Word.{IsWord}
use shared_arena.Block.Tagged.{IsCanonical}
use shared_arena.Memory.{update}

-- The next `n` addresses of the allocator are good: not in use, not null, and such that a tagged
-- pointer can hold them.
abbrev pub Supply : ℕ → List ℕ → (ℕ → Bool) → Type 0
Supply zero next live = Unit
Supply (suc n) [] live = ⊥
Supply (suc n) (a ∷ rest) live =
    (live a ≡ false) × (a ≢ 0) × IsWord a × IsCanonical a × Supply n rest (update live a true)

-- What a supply of at least one address gives.
pub Supply-cons :
    (n : ℕ) (s : List ℕ) (live : ℕ → Bool)
    → Supply (suc n) s live
    → (a : ℕ) × (rest : List ℕ) × (s ≡ a ∷ rest)
      × (live a ≡ false)
      × (a ≢ 0)
      × IsWord a
      × IsCanonical a
      × Supply n rest (update live a true)
Supply-cons n [] live good = absurd good
Supply-cons n (a ∷ rest) live (unused, ne, word, canonical, more) =
    (a, rest, refl, unused, ne, word, canonical, more)

pub Supply-fewer :
    (n k : ℕ) (next : List ℕ) (live : ℕ → Bool) → n ≤ k → Supply k next live → Supply n next live
Supply-fewer zero k next live le good = tt
Supply-fewer (suc n) zero next live le good = absurd (omega arith)
Supply-fewer (suc n) (suc k) [] live le good = good
Supply-fewer (suc n) (suc k) (a ∷ next) live le (unused, ne, word, canonical, more) =
    (unused, ne, word, canonical, Supply-fewer n k next (update live a true) (omega arith) more)

-- Addresses stay good where pages are deallocated.
pub Supply-fewer_live :
    (n : ℕ) (next : List ℕ) (live live' : ℕ → Bool)
    → ((q : ℕ) → live q ≡ false → live' q ≡ false)
    → Supply n next live
    → Supply n next live'
Supply-fewer_live zero next live live' less good = tt
Supply-fewer_live (suc n) [] live live' less good = good
Supply-fewer_live (suc n) (a ∷ next) live live' less (unused, ne, word, canonical, more) = (
  less a unused,
  ne,
  word,
  canonical,
  Supply-fewer_live n next (update live a true) (update live' a true)
      (λ q e. ground (arith, less q)) more,
)
