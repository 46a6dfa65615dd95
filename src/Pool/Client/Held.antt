-- ===== src/Pool/Client/Held.antt =====
-- The pointers that a client of pool.rs holds, and the values that they stand for.
use shared_arena.Base.{
  ℕ, zero, suc, ◌+◌, ◌≤◌, ◌≡◌, ◌≢◌, refl, ◌∙◌, ◌⊎◌, inl, inr, Option, none, some, List, [], ◌∷◌,
  arith, if◌then◌else◌, length, get_elem?, remove_at, ==_refl,
}
use shared_arena.Memory.{BlockPtr}
use shared_arena.Pool.Place.{is_at}

-- How many of the pointers lead to the block `i` of the page `p`.
abbrev pub occurs : List BlockPtr → (p i : ℕ) → ℕ
occurs [] p i = 0
occurs (b ∷ bs) p i = (if is_at b p i then 1 else 0) + occurs bs p i

pub occurs-length : (bs : List BlockPtr) (p i : ℕ) → occurs bs p i ≤ length bs
occurs-length [] p i = omega arith
occurs-length (b ∷ bs) p i = ground (arith, occurs-length bs p i)

-- Each pointer leads to the value beside it.
abbrev pub Holds : {T : Type 0} → (BlockPtr → Option T) → List BlockPtr → List T → Type 0
Holds at [] [] = Unit
Holds at [] (v ∷ vs) = ⊥
Holds at (b ∷ bs) [] = ⊥
Holds at (b ∷ bs) (v ∷ vs) = (at b ≡ some v) × Holds at bs vs

module _ {T : Type 0} where
  -- Only the blocks that are held matter.
  pub Holds-frame :
      (at at' : BlockPtr → Option T) (bs : List BlockPtr) (vs : List T)
      → ((b : BlockPtr) → occurs bs b.page b.index ≢ 0 → at' b ≡ at b)
      → Holds at bs vs
      → Holds at' bs vs
  Holds-frame at at' [] [] same h = tt
  Holds-frame at at' [] (v ∷ vs) same h = h
  Holds-frame at at' (b ∷ bs) [] same h = h
  Holds-frame at at' (b ∷ bs) (v ∷ vs) same (e, h) = (
    same b (λ z. absurd (ground (arith, ==_refl b.page, ==_refl b.index))) ∙ e,
    Holds-frame at at' bs vs (λ c ne. same c (λ z. ne (omega arith))) h,
  )

  -- The pointer at a place, its value, and the other pointers.
  pub Holds-cases :
      (at : BlockPtr → Option T) (bs : List BlockPtr) (vs : List T) (n : ℕ)
      → Holds at bs vs
      → ((get_elem? bs n ≡ none) × (get_elem? vs n ≡ none))
        ⊎ ((b : BlockPtr) × (v : T) × (get_elem? bs n ≡ some b)
            × (get_elem? vs n ≡ some v)
            × (at b ≡ some v)
            × Holds at (remove_at bs n) (remove_at vs n)
            × ((p i : ℕ)
                → occurs bs p i ≡ (if is_at b p i then 1 else 0) + occurs (remove_at bs n) p i))
  Holds-cases at [] [] n h = inl (refl, refl)
  Holds-cases at [] (v ∷ vs) n h = absurd h
  Holds-cases at (b ∷ bs) [] n h = absurd h
  Holds-cases at (b ∷ bs) (v ∷ vs) zero (e, h) = inr (b, v, refl, refl, e, h, λ p i. refl)
  Holds-cases at (b ∷ bs) (v ∷ vs) (suc n) (e, h) = elim (Holds-cases at bs vs n h) [
    | inl out ↦ inl out
    | inr (c, w, found, value, holds, rest, count) ↦
        inr (c, w, found, value, holds, (e, rest), λ p i. omega (arith, count p i))
  ]

  pub remove_at-none : (xs : List T) (n : ℕ) → get_elem? xs n ≡ none → remove_at xs n ≡ xs
  remove_at-none [] n e = refl
  remove_at-none (x ∷ xs) zero e = absurd (cc e)
  remove_at-none (x ∷ xs) (suc n) e = rw (remove_at-none xs n e)

  pub length-remove_at : (xs : List T) (n : ℕ) → length (remove_at xs n) ≤ length xs
  length-remove_at [] n = omega arith
  length-remove_at (x ∷ xs) zero = omega arith
  length-remove_at (x ∷ xs) (suc n) = omega (arith, length-remove_at xs n)
