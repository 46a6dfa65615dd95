-- ===== src/Memory/Fresh.antt =====
-- Lists of new pages, for any type of page: what `make_list` of the pages comes to where `new` makes
-- one page and links it to the one before.
use mathlib.Core.Path.{subst}
use shared_arena.Base.{
  ℕ, zero, suc, ◌+◌, ◌-◌, ltb, ◌<◌, ◌≡◌, ◌≢◌, refl, sym, ap, ◌∙◌, true, false, inl, inr, List, [],
  ◌∷◌, ◌++◌, arith, ◌==◌, length, length-append, has, Bool-cases, ==_iff, ==_refl,
}
use shared_arena.Word.{IsWord}
use shared_arena.Block.Tagged.{IsCanonical}
use shared_arena.Memory.{Memory, update, null, checked_sub}
use shared_arena.Memory.Chain.{Seg, Seg-frame, Distinct, has-append, ne_of_has}
use shared_arena.Memory.Supply.{Supply, Supply-cons, Supply-fewer}
use shared_arena.Run.{Cmd, pure, ◌>>=◌}
use shared_arena.Run.Returns
use shared_arena.Run.Returns.{Returns, returns}

-- The loop of `make_list`.
unfoldable pub new_pages : {P : Type 0} → (ℕ → Cmd (Memory P) ℕ) → ℕ → ℕ → Cmd (Memory P) ℕ
new_pages new zero previous = pure previous
new_pages new (suc n) previous = do page ← new previous; new_pages new n page

-- `make_list`: the first and the last page of a new list.
unfoldable pub new_list : {P : Type 0} → (ℕ → Cmd (Memory P) ℕ) → ℕ → Cmd (Memory P) (ℕ × ℕ)
new_list new npages = do
  last ← new null
  rounds ← checked_sub npages 1
  first ← new_pages new rounds last
  pure (first, last)

-- `free_of` and `next_of` are the links of a page, and `IsNew` says how `new` leaves the rest of it.
module _ {P : Type 0} (free_of next_of : P → ℕ) (IsNew : ℕ → P → Type 0) where
  -- The page at `a` was made, with both links to `next`.
  pub record New (m : Memory P) (next a : ℕ) (rest : List ℕ) (m' : Memory P) : Type 0 where
    pub others : (q : ℕ) → (q == a) ≡ false → m'.page q ≡ m.page q
    pub content : IsNew a (m'.page a)
    pub free_link : free_of (m'.page a) ≡ next
    pub next_link : next_of (m'.page a) ≡ next
    pub live : m'.live ≡ update m.live a true
    pub supply : m'.supply ≡ rest
    pub list : m'.list ≡ m.list

  pub record IsFresh (m : Memory P) (p : ℕ) : Type 0 where
    pub alive : m.live p ≡ true
    pub content : IsNew p (m.page p)
    pub not_null : p ≢ 0
    pub word : IsWord p
    pub canonical : IsCanonical p

  -- `m` is `m₀` with the new pages `ns`.
  pub record Grown (m₀ m : Memory P) (ns : List ℕ) : Type 0 where
    pub kept : (q : ℕ) → has q ns ≡ false → m.page q ≡ m₀.page q
    pub kept_live : (q : ℕ) → has q ns ≡ false → m.live q ≡ m₀.live q
    pub unused : (q : ℕ) → has q ns ≡ true → m₀.live q ≡ false
    pub fresh : (q : ℕ) → has q ns ≡ true → IsFresh m q
    pub distinct : Distinct ns
    pub rest : (k : ℕ) → Supply (length ns + k) m₀.supply m₀.live → Supply k m.supply m.live
    pub list : m.list ≡ m₀.list

  -- The new pages are `xs` and then `last`, in the order of their links.
  pub record Made (m₀ m : Memory P) (first last : ℕ) (xs : List ℕ) : Type 0 where
    pub grown : Grown m₀ m (xs ++ last ∷ [])
    pub free_seg : Seg (λ q. free_of (m.page q)) last first xs
    pub next_seg : Seg (λ q. next_of (m.page q)) last first xs
    pub last_free : free_of (m.page last) ≡ 0
    pub last_next : next_of (m.page last) ≡ 0

  Grown-self : (m : Memory P) → Grown m m []
  Grown-self m = record {
    kept = λ q o. refl;
    kept_live = λ q o. refl;
    unused = λ q i. cc;
    fresh = λ q i. cc;
    distinct = tt;
    rest = λ k good. subst (λ n. Supply n m.supply m.live) (omega arith) good;
    list = refl;
  }

  module _ (m₀ m m' : Memory P) (next a : ℕ) (rest : List ℕ) (address : m.supply ≡ a ∷ rest)
      (unused : m.live a ≡ false) (ne : a ≢ 0) (word : IsWord a) (canonical : IsCanonical a)
      (new : New m next a rest m') where
    module _ (ns : List ℕ) (g : Grown m₀ m ns) where
      outside : has a ns ≡ false
      outside = elim (Bool-cases (has a ns)) [
        | inl h ↦ cc ((g.fresh a h).alive, unused)
        | inr h ↦ h
      ]

      Grown-new : Grown m₀ m' (a ∷ ns)
      Grown-new = record {
        kept = λ q o.
            let apart : (q == a) ≡ false = ground arith in
            new.others q apart ∙ g.kept q (ground arith);
        kept_live = λ q o. ap (λ f. f q) new.live ∙ ground (arith, g.kept_live q);
        unused = λ q i. elim (Bool-cases (q == a)) [
          | inl e ↦ rw ((==_iff q a).0 e) (sym (g.kept_live a outside) ∙ unused)
          | inr e ↦ g.unused q (ground arith)
        ];
        fresh = λ q i. elim (Bool-cases (q == a)) [
          | inl e ↦ subst (IsFresh m') (sym ((==_iff q a).0 e)) (record {
            alive = ap (λ f. f a) new.live ∙ rw (==_refl a) refl;
            content = new.content;
            not_null = ne;
            word = word;
            canonical = canonical;
          })
          | inr e ↦
              let old = g.fresh q (ground arith) in
              record {
                alive = ap (λ f. f q) new.live ∙ rw e old.alive;
                content = subst (IsNew q) (sym (new.others q e)) old.content;
                not_null = old.not_null;
                word = old.word;
                canonical = old.canonical;
              }
        ];
        distinct = (outside, g.distinct);
        rest = λ k good.
            let e : length (a ∷ ns) + k ≡ length ns + suc k = omega arith in
            let more = g.rest (suc k) (subst (λ n. Supply n m₀.supply m₀.live) e good) in
            let left = (subst (λ s. Supply (suc k) s m.live) address more).4 in
            subst (λ s. Supply k s m'.live) (sym new.supply)
              (subst (λ l. Supply k rest l) (sym new.live) left);
        list = new.list ∙ g.list;
      }

    Made-new : (last : ℕ) (xs : List ℕ) → Made m₀ m next last xs → Made m₀ m' a last (a ∷ xs)
    Made-new last xs made = record {
      grown = Grown-new (xs ++ last ∷ []) made.grown;
      free_seg = (
        refl,
        ne,
        subst (λ p. Seg (λ q. free_of (m'.page q)) last p xs) (sym new.free_link)
            (Seg-frame (λ q. free_of (m.page q)) _ last next xs
              (λ q i. ap free_of (new.others q (in_list q i))) made.free_seg),
      );
      next_seg = (
        refl,
        ne,
        subst (λ p. Seg (λ q. next_of (m'.page q)) last p xs) (sym new.next_link)
            (Seg-frame (λ q. next_of (m.page q)) _ last next xs
              (λ q i. ap next_of (new.others q (in_list q i))) made.next_seg),
      );
      last_free = ap free_of (new.others last last_ne) ∙ made.last_free;
      last_next = ap next_of (new.others last last_ne) ∙ made.last_next;
    }
      where
        out : has a (xs ++ last ∷ []) ≡ false
        out = outside (xs ++ last ∷ []) made.grown

        in_list : (q : ℕ) → has q xs ≡ true → (q == a) ≡ false
        in_list q i =
            ne_of_has q a (xs ++ last ∷ []) (ground (arith, has-append q xs (last ∷ []))) out

        last_ne : (last == a) ≡ false
        last_ne =
            ne_of_has last a (xs ++ last ∷ [])
              (ground (arith, has-append last xs (last ∷ []), ==_refl last)) out

  -- A function that makes one page where the allocator has an address.
  abbrev pub Makes : (ℕ → Cmd (Memory P) ℕ) → Type 0
  Makes new =
      (m : Memory P) (next a : ℕ) (rest : List ℕ)
      → m.supply ≡ a ∷ rest
      → Returns (λ p m'. (p ≡ a) × New m next a rest m') (new next m)

  module _ (new : ℕ → Cmd (Memory P) ℕ) (makes : Makes new) where
    pub Made-one :
        (m : Memory P) → Supply 1 m.supply m.live → Returns (λ a m'. Made m m' a a []) (new 0 m)
    Made-one m good =
        let (a, rest, e, unused, ne, word, canonical, more) = Supply-cons 0 m.supply m.live good in
        Returns.mono (makes m 0 a rest e) λ p m' (same, n).
          subst (λ p. Made m m' p p []) (sym same)
            (record {
              grown = Grown-new m m m' 0 a rest e unused ne word canonical n [] (Grown-self m);
              free_seg = refl;
              next_seg = refl;
              last_free = n.free_link;
              last_next = n.next_link;
            })

    pub new_pages-Made :
        (n : ℕ) (m₀ m : Memory P) (previous last : ℕ) (xs : List ℕ)
        → Supply n m.supply m.live
        → Made m₀ m previous last xs
        → Returns
            (λ first m'. (ys : List ℕ) × Made m₀ m' first last ys × (length ys ≡ length xs + n))
            (new_pages new n previous m)
    unfolding new_pages
    new_pages-Made zero m₀ m previous last xs good made = returns (xs, made, omega arith)
    new_pages-Made (suc n) m₀ m previous last xs good made =
        let (a, rest, e, unused, ne, word, canonical, more) = Supply-cons n m.supply m.live good in
        Returns.bind (makes m previous a rest e) λ p m' (same, one).
          Returns.mono
            (new_pages-Made n m₀ m' p last (a ∷ xs)
              (subst (λ s. Supply n s m'.live) (sym one.supply)
                (subst (λ l. Supply n rest l) (sym one.live) more))
              (subst (λ p. Made m₀ m' p last (a ∷ xs)) (sym same)
                (Made-new m₀ m m' previous a rest e unused ne word canonical one last xs made)))
            λ first m'' (ys, made', len). (ys, made', omega arith)

    pub new_list-Made :
        (n : ℕ) (m : Memory P)
        → 0 < n
        → Supply n m.supply m.live
        → Returns
            (λ (first, last) m'.
              (xs : List ℕ) × Made m m' first last xs × (length (xs ++ last ∷ []) ≡ n))
            (new_list new n m)
    unfolding new_list
    new_list-Made zero m pos good = absurd (omega arith)
    new_list-Made (suc n) m pos good =
        let one : ltb (suc n) 1 ≡ false = ground arith in
        let less : suc n - 1 ≡ n = omega arith in
        Returns.bind (Made-one m (Supply-fewer 1 (suc n) m.supply m.live (omega arith) good))
          λ last m₁ made.
            rw (one, less)
              (Returns.bind
                (new_pages-Made n m m₁ last last []
                  (made.grown.rest n (
                    let e : suc n ≡ 1 + n = omega arith in
                    subst (λ k. Supply k m.supply m.live) e good))
                  made)
                (λ first m' (xs, made', len).
                  returns (xs, made', omega (arith, length-append {0} xs (last ∷ [])))))
