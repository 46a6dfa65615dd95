-- ===== src/Page/Pool/Make.antt =====
-- `PagePool::new` and `PagePool::make_list` of page/pool.rs: fresh pages, linked in a list.
use mathlib.Core.Path.{subst}
use shared_arena.Base.{
  ℕ, zero, suc, ◌+◌, ◌-◌, ◌<◌, ◌≡◌, ◌≢◌, refl, sym, ◌∙◌, true, false, none, inl, inr, List, [], ◌∷◌,
  ◌++◌, arith, ltb, ◌==◌, length, length-append, has, Bool-cases, ==_iff, ==_refl,
}
use shared_arena.Word.{IsWord, all_ones}
use shared_arena.Block.{Block}
use shared_arena.Block.Kind.{pool_kind}
use shared_arena.Block.PageTaggedPtr
use shared_arena.Block.Tagged.{IsCanonical}
use shared_arena.Memory.{Memory, update, alloc, deref, store}
use shared_arena.Memory.Chain.{Seg, Seg-frame, Distinct, has-append, ne_of_has}
use shared_arena.Memory.Supply.{Supply, Supply-cons}
use shared_arena.Run.{ok}
use shared_arena.Run.Returns
use shared_arena.Run.Returns.{Returns, returns}
use shared_arena.Page.Pool.{PagePool, uninit, new, make_list_loop, make_list}

module _ {T : Type 0} where
  abbrev pub fresh_blocks : ℕ → ℕ → Block T
  fresh_blocks a i = record { value = none; counter = 0; page = PageTaggedPtr.new a i pool_kind }

  abbrev fresh_page : (next a : ℕ) → PagePool T
  fresh_page next a = record {
    bitfield = all_ones;
    blocks = fresh_blocks a;
    next_free = next;
    next = next;
    in_free_list = true;
  }

  abbrev created : Memory (PagePool T) → (next a : ℕ) → List ℕ → Memory (PagePool T)
  created m next a rest = record m {
    page = update (update m.page a (uninit (m.page a))) a (fresh_page next a);
    live = update m.live a true;
    supply = rest;
  }

  new-eq :
      (m : Memory (PagePool T)) (next a : ℕ) (rest : List ℕ)
      → m.supply ≡ a ∷ rest
      → new next m ≡ ok a (created m next a rest)
  unfolding new alloc deref store
  new-eq m next a rest e = rw e (simp (==_refl))

  -- A page as `PagePool::new` leaves it, whatever its links are.
  pub record IsFresh (m : Memory (PagePool T)) (p : ℕ) : Type 0 where
    pub alive : m.live p ≡ true
    pub bitfield : (m.page p).bitfield ≡ all_ones
    pub blocks : (m.page p).blocks ≡ fresh_blocks p
    pub flag : (m.page p).in_free_list ≡ true
    pub not_null : p ≢ 0
    pub word : IsWord p
    pub canonical : IsCanonical p

  -- `m` is `m₀` with the new pages `ns`.
  pub record Grown (m₀ m : Memory (PagePool T)) (ns : List ℕ) : Type 0 where
    pub kept : (q : ℕ) → has q ns ≡ false → m.page q ≡ m₀.page q
    pub kept_live : (q : ℕ) → has q ns ≡ false → m.live q ≡ m₀.live q
    pub unused : (q : ℕ) → has q ns ≡ true → m₀.live q ≡ false
    pub fresh : (q : ℕ) → has q ns ≡ true → IsFresh m q
    pub distinct : Distinct ns
    -- The allocator has given the new pages, and no other address.
    pub rest : (k : ℕ) → Supply (length ns + k) m₀.supply m₀.live → Supply k m.supply m.live

  -- The new pages are `xs` and then `last`, in the order of their links.
  pub record Made (m₀ m : Memory (PagePool T)) (first last : ℕ) (xs : List ℕ) : Type 0 where
    pub grown : Grown m₀ m (xs ++ last ∷ [])
    pub next_seg : Seg (λ q. (m.page q).next) last first xs
    pub free_seg : Seg (λ q. (m.page q).next_free) last first xs
    pub last_next : (m.page last).next ≡ 0
    pub last_free : (m.page last).next_free ≡ 0
    pub list : m.list ≡ m₀.list

  module _ (m₀ m : Memory (PagePool T)) (next a : ℕ) (rest : List ℕ)
      (next_address : m.supply ≡ a ∷ rest) (unused : m.live a ≡ false) (ne : a ≢ 0)
      (word : IsWord a) (canonical : IsCanonical a) where
    module _ (ns : List ℕ) (g : Grown m₀ m ns) where
      created_outside : has a ns ≡ false
      created_outside = elim (Bool-cases (has a ns)) [
        | inl h ↦ cc ((g.fresh a h).alive)
        | inr h ↦ h
      ]

      created_unused : (q : ℕ) → has q (a ∷ ns) ≡ true → m₀.live q ≡ false
      created_unused q i = elim (Bool-cases (q == a)) [
        | inl e ↦ rw ((==_iff q a).0 e) (sym (g.kept_live a created_outside) ∙ unused)
        | inr e ↦ g.unused q (ground arith)
      ]

      created-IsFresh : (q : ℕ) → has q (a ∷ ns) ≡ true → IsFresh (created m next a rest) q
      created-IsFresh q i = elim (Bool-cases (q == a)) [
        | inl e ↦
            let same = (==_iff q a).0 e in
            record {
              alive = rw e;
              bitfield = rw e;
              blocks = rw (e, same);
              flag = rw e;
              not_null = rw same ne;
              word = rw same word;
              canonical = rw same canonical;
            }
        | inr e ↦
            let old = g.fresh q (ground arith) in
            record {
              alive = rw e old.alive;
              bitfield = rw e old.bitfield;
              blocks = rw e old.blocks;
              flag = rw e old.flag;
              not_null = old.not_null;
              word = old.word;
              canonical = old.canonical;
            }
      ]

      Grown-created : Grown m₀ (created m next a rest) (a ∷ ns)
      Grown-created = record {
        kept = λ q o. ground (arith, g.kept q);
        kept_live = λ q o. ground (arith, g.kept_live q);
        unused = created_unused;
        fresh = created-IsFresh;
        distinct = (created_outside, g.distinct);
        rest = λ k good.
            let e : length (a ∷ ns) + k ≡ length ns + suc k = omega arith in
            let more = g.rest (suc k) (subst (λ n. Supply n m₀.supply m₀.live) e good) in
            (subst (λ s. Supply (suc k) s m.live) next_address more).4;
      }

    Made-created :
        (first last : ℕ) (xs : List ℕ)
        → first ≡ next
        → Made m₀ m first last xs
        → Made m₀ (created m next a rest) a last (a ∷ xs)
    Made-created first last xs e made = record {
      grown = Grown-created (xs ++ last ∷ []) made.grown;
      next_seg = (
        refl,
        ne,
        rw (==_refl a, ← e)
            (Seg-frame (λ q. (m.page q).next) _ last first xs (λ q i. ground (arith, in_list q i))
              made.next_seg),
      );
      free_seg = (
        refl,
        ne,
        rw (==_refl a, ← e)
            (Seg-frame (λ q. (m.page q).next_free) _ last first xs
              (λ q i. ground (arith, in_list q i)) made.free_seg),
      );
      last_next = rw last_ne made.last_next;
      last_free = rw last_ne made.last_free;
      list = made.list;
    }
      where
        outside : has a (xs ++ last ∷ []) ≡ false
        outside = created_outside (xs ++ last ∷ []) made.grown

        in_list : (q : ℕ) → has q xs ≡ true → (q == a) ≡ false
        in_list q i =
            ne_of_has q a (xs ++ last ∷ []) (ground (arith, has-append q xs (last ∷ []))) outside

        last_ne : (last == a) ≡ false
        last_ne =
            ne_of_has last a (xs ++ last ∷ [])
              (ground (arith, has-append last xs (last ∷ []), ==_refl last)) outside

  pub make_list_loop-Made :
      (n : ℕ) (m₀ m : Memory (PagePool T)) (previous last : ℕ) (xs : List ℕ)
      → Supply n m.supply m.live
      → Made m₀ m previous last xs
      → Returns
          (λ first m'. (ys : List ℕ) × Made m₀ m' first last ys × (length ys ≡ length xs + n))
          (make_list_loop n previous m)
  unfolding make_list_loop
  make_list_loop-Made zero m₀ m previous last xs good made = returns (xs, made, omega arith)
  make_list_loop-Made (suc n) m₀ m previous last xs good made =
      let (a, rest, e, unused, ne, word, canonical, more) = Supply-cons n m.supply m.live good in
      rw (new-eq m previous a rest e) (
        Returns.mono
          (make_list_loop-Made n m₀ (created m previous a rest) a last (a ∷ xs) more (
            Made-created m₀ m previous a rest e unused ne word canonical previous last xs refl
              made))
          (λ first m' (ys, made', len). (ys, made', omega arith)))

  Grown-self : (m : Memory (PagePool T)) → Grown m m []
  Grown-self m = record {
    kept = λ q o. refl;
    kept_live = λ q o. refl;
    unused = λ q i. cc;
    fresh = λ q i. cc;
    distinct = tt;
    rest = λ k good. subst (λ n. Supply n m.supply m.live) (omega arith) good;
  }

  Made-one :
      (m : Memory (PagePool T)) (a : ℕ) (rest : List ℕ)
      → m.supply ≡ a ∷ rest
      → m.live a ≡ false
      → a ≢ 0
      → IsWord a
      → IsCanonical a
      → Made m (created m 0 a rest) a a []
  Made-one m a rest e unused ne word canonical = record {
    grown = Grown-created m m 0 a rest e unused ne word canonical [] (Grown-self m);
    next_seg = refl;
    free_seg = refl;
    last_next = rw (==_refl a);
    last_free = rw (==_refl a);
    list = refl;
  }

  -- What `make_list` makes of `m`: its result is the first and the last of `n` new pages.
  abbrev pub MakesList : Memory (PagePool T) → ℕ → ℕ × ℕ → Memory (PagePool T) → Type 0
  MakesList m n (first, last) m' =
      (xs : List ℕ) × Made m m' first last xs × (length (xs ++ last ∷ []) ≡ n)

  -- `PagePool::make_list` of one page or more, where that many of the allocator's next addresses
  -- are good, returns the first and the last page of a list of that many fresh pages, linked by
  -- both links; no other page changes.
  pub make_list-Made :
      (n : ℕ) (m : Memory (PagePool T))
      → 0 < n
      → Supply n m.supply m.live
      → Returns (MakesList m n) (make_list n m)
  unfolding make_list
  make_list-Made zero m pos good = absurd (omega arith)
  make_list-Made (suc n) m pos good =
      let (a, rest, e, unused, ne, word, canonical, more) = Supply-cons n m.supply m.live good in
      let one : ltb (suc n) 1 ≡ false = ground arith in
      let less : suc n - 1 ≡ n = omega arith in
      rw (new-eq m 0 a rest e, one, less)
        (Returns.bind
          (make_list_loop-Made n m (created m 0 a rest) a a [] more
            (Made-one m a rest e unused ne word canonical))
          (λ first m' (xs, made, len).
            returns (xs, made, omega (arith, length-append {0} xs (a ∷ [])))))
