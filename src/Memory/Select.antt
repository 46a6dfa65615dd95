-- ===== src/Memory/Select.antt =====
-- Lists of distinct addresses: how long they are, those that pass a test, and the reverse.
use mathlib.Core.List.{reverse, reverse_aux}
use shared_arena.Base.{
  ℕ, suc, ◌+◌, ◌≤◌, ◌≡◌, refl, ◌∙◌, inl, inr, Bool, true, false, not, ◌&&◌, ◌||◌, List, [], ◌∷◌,
  arith, ◌==◌, if◌then◌else◌, length, has, Bool-cases, ==_refl, ==_iff,
}
use shared_arena.Memory.Chain.{Distinct, ne_of_has}

abbrev pub without : ℕ → List ℕ → List ℕ
without a [] = []
without a (x ∷ xs) = if a == x then xs else x ∷ without a xs

pub length-without :
    (a : ℕ) (xs : List ℕ) → has a xs ≡ true → suc (length (without a xs)) ≡ length xs
length-without a [] h = absurd (cc h)
length-without a (x ∷ xs) h = elim (Bool-cases (a == x)) [
  | inl e ↦ rw e
  | inr e ↦ rw e (omega (arith, length-without a xs (ground arith)))
]

has-without :
    (a b : ℕ) (xs : List ℕ) → (b == a) ≡ false → has b xs ≡ true → has b (without a xs) ≡ true
has-without a b [] ne h = h
has-without a b (x ∷ xs) ne h = elim (Bool-cases (a == x)) [
  | inl e ↦ let same = (==_iff a x).0 e in rw e (ground arith)
  | inr e ↦ rw e (ground (arith, has-without a b xs ne))
]

-- Distinct addresses of a list are not more than it has.
pub length-Distinct :
    (xs ys : List ℕ)
    → Distinct xs
    → ((a : ℕ) → has a xs ≡ true → has a ys ≡ true)
    → length xs ≤ length ys
length-Distinct [] ys d sub = omega arith
length-Distinct (x ∷ xs) ys (out, d) sub = omega (
  arith,
  length-without x ys (sub x (ground (arith, ==_refl x))),
  length-Distinct xs (without x ys) d
      (λ a h. has-without x a ys (ne_of_has a x xs h out) (sub a (ground arith))),
)

-- The addresses that pass a test, in the order of the list.
abbrev pub retain : (ℕ → Bool) → List ℕ → List ℕ
retain f [] = []
retain f (x ∷ xs) = let rest = retain f xs in if f x then x ∷ rest else rest

pub has-retain : (f : ℕ → Bool) (xs : List ℕ) (a : ℕ) → has a (retain f xs) ≡ (has a xs && f a)
has-retain f [] a = refl
has-retain f (x ∷ xs) a = elim (Bool-cases (f x)) [
  | inl e ↦ rw e (ground (arith, has-retain f xs a, ==_iff a x))
  | inr e ↦ rw e (ground (arith, has-retain f xs a, ==_iff a x))
]

pub Distinct-retain : (f : ℕ → Bool) (xs : List ℕ) → Distinct xs → Distinct (retain f xs)
Distinct-retain f [] d = d
Distinct-retain f (x ∷ xs) (out, d) = elim (Bool-cases (f x)) [
  | inl e ↦ rw e (has-retain f xs x ∙ rw out refl, Distinct-retain f xs d)
  | inr e ↦ rw e (Distinct-retain f xs d)
]

pub length-retain :
    (f : ℕ → Bool) (xs : List ℕ)
    → length (retain f xs) + length (retain (λ a. not (f a)) xs) ≡ length xs
length-retain f [] = omega arith
length-retain f (x ∷ xs) = elim (Bool-cases (f x)) [
  | inl e ↦ rw e (omega (arith, length-retain f xs))
  | inr e ↦ rw e (omega (arith, length-retain f xs))
]

-- Tests that agree on the list.
pub retain-same :
    (f g : ℕ → Bool) (xs : List ℕ)
    → ((a : ℕ) → has a xs ≡ true → f a ≡ g a)
    → retain f xs ≡ retain g xs
retain-same f g [] same = refl
retain-same f g (x ∷ xs) same =
    rw (same x (ground (arith, ==_refl x)), retain-same f g xs (λ a h. same a (ground arith))) refl

has-reverse_aux : (xs ys : List ℕ) (a : ℕ) → has a (reverse_aux xs ys) ≡ (has a xs || has a ys)
has-reverse_aux [] ys a = refl
has-reverse_aux (x ∷ xs) ys a = ground (arith, has-reverse_aux xs (x ∷ ys) a)

pub has-reverse : (xs : List ℕ) (a : ℕ) → has a (reverse xs) ≡ has a xs
has-reverse xs a = ground (arith, has-reverse_aux xs [] a)

Distinct-reverse_aux :
    (xs ys : List ℕ)
    → Distinct xs
    → Distinct ys
    → ((a : ℕ) → has a xs ≡ true → has a ys ≡ false)
    → Distinct (reverse_aux xs ys)
Distinct-reverse_aux [] ys d e apart = e
Distinct-reverse_aux (x ∷ xs) ys (out, d) e apart =
    Distinct-reverse_aux xs (x ∷ ys) d (apart x (ground (arith, ==_refl x)), e)
      (λ a h. rw (ne_of_has a x xs h out) (apart a (ground arith)))

pub Distinct-reverse : (xs : List ℕ) → Distinct xs → Distinct (reverse xs)
Distinct-reverse xs d = Distinct-reverse_aux xs [] d tt (λ a h. refl)
