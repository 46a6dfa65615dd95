-- ===== src/Memory/Chain.antt =====
-- Lists of pages that are threaded through the pages themselves.
use shared_arena.Base.{
  ℕ, ◌≡◌, ◌≢◌, refl, ap, inl, inr, true, false, ◌||◌, List, [], ◌∷◌, ◌++◌, arith, ◌==◌, has,
  Bool-cases, ==_refl, ==_iff,
}

-- From `p` the links `nx` lead through `ps` to `stop`.
abbrev pub Seg : (ℕ → ℕ) → (stop p : ℕ) → List ℕ → Type 0
Seg nx stop p [] = p ≡ stop
Seg nx stop p (q ∷ qs) = (p ≡ q) × (q ≢ 0) × Seg nx stop (nx q) qs

-- A list that ends in null.
abbrev pub Chain : (ℕ → ℕ) → ℕ → List ℕ → Type 0
Chain nx p ps = Seg nx 0 p ps

-- No address twice.
abbrev pub Distinct : List ℕ → Type 0
Distinct [] = Unit
Distinct (x ∷ xs) = (has x xs ≡ false) × Distinct xs

-- The links of other pages do not matter.
pub Seg-frame :
    (nx nx' : ℕ → ℕ) (stop p : ℕ) (ps : List ℕ)
    → ((q : ℕ) → has q ps ≡ true → nx' q ≡ nx q)
    → Seg nx stop p ps
    → Seg nx' stop p ps
Seg-frame nx nx' stop p [] same c = c
Seg-frame nx nx' stop p (q ∷ qs) same (e, ne, c) = (
  e,
  ne,
  rw (same q (ground (arith, ==_refl q)))
      (Seg-frame nx nx' stop (nx q) qs (λ r m. same r (ground arith)) c),
)

pub has-append : (a : ℕ) (xs ys : List ℕ) → has a (xs ++ ys) ≡ (has a xs || has a ys)
has-append a [] ys = refl
has-append a (x ∷ xs) ys = ground (arith, has-append a xs ys)

pub Seg-append :
    (nx : ℕ → ℕ) (stop p q : ℕ) (ps qs : List ℕ)
    → Seg nx q p ps
    → Seg nx stop q qs
    → Seg nx stop p (ps ++ qs)
Seg-append nx stop p q [] qs c d = rw c d
Seg-append nx stop p q (r ∷ ps) qs (e, ne, c) d = (e, ne, Seg-append nx stop (nx r) q ps qs c d)

pub Distinct-append :
    (xs ys : List ℕ)
    → Distinct xs
    → Distinct ys
    → ((a : ℕ) → has a xs ≡ true → has a ys ≡ false)
    → Distinct (xs ++ ys)
Distinct-append [] ys d e apart = e
Distinct-append (x ∷ xs) ys (out, d) e apart = (
  ground (arith, has-append x xs ys, apart x (ground (arith, ==_refl x))),
  Distinct-append xs ys d e (λ a m. apart a (ground arith)),
)

pub Chain-null : (nx : ℕ → ℕ) (p : ℕ) (ps : List ℕ) → p ≡ 0 → Chain nx p ps → ps ≡ []
Chain-null nx p [] z c = refl
Chain-null nx p (q ∷ qs) z c = absurd (c.1 (ground arith))

-- A list that does not start at null has a first page.
pub Chain-cons :
    (nx : ℕ → ℕ) (p : ℕ) (ps : List ℕ)
    → p ≢ 0
    → Chain nx p ps
    → (qs : List ℕ) × (ps ≡ p ∷ qs) × Chain nx (nx p) qs
Chain-cons nx p [] ne c = absurd (ne c)
Chain-cons nx p (q ∷ qs) ne (e, _, c) = (qs, rw e, rw e c)

pub ne_of_has : (q a : ℕ) (xs : List ℕ) → has q xs ≡ true → has a xs ≡ false → (q == a) ≡ false
ne_of_has q a xs i o = elim (Bool-cases (q == a)) [
  | inl e ↦ let same = (==_iff q a).0 e in cc (ap (λ t. has t xs) same)
  | inr e ↦ e
]

pub ne_of_not_has : (q a : ℕ) (xs : List ℕ) → has q xs ≡ false → has a xs ≡ true → (q == a) ≡ false
ne_of_not_has q a xs o i = elim (Bool-cases (q == a)) [
  | inl e ↦ let same = (==_iff q a).0 e in cc (ap (λ t. has t xs) same)
  | inr e ↦ e
]

-- The last of distinct addresses is not among the others.
pub Distinct-last : (xs : List ℕ) (a : ℕ) → Distinct (xs ++ a ∷ []) → has a xs ≡ false
Distinct-last [] a d = refl
Distinct-last (x ∷ xs) a (out, d) =
    ground (arith, Distinct-last xs a d, has-append x xs (a ∷ []), ==_iff a x, ==_refl x)
