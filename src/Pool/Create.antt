-- ===== src/Pool/Create.antt =====
-- `Pool::with_capacity` of pool.rs.
use shared_arena.Memory.Supply.{Supply}
use shared_arena.Base.{
  ℕ, ◌+◌, ◌-◌, ◌/◌, max, ◌≡◌, ◌≢◌, refl, sym, ◌∙◌, true, some, List, [], ◌∷◌, ◌++◌, arith, length,
  has, ==_refl,
}
use shared_arena.Memory.{Memory}
use shared_arena.Memory.Chain.{Seg-append, has-append}
use mathlib.Core.Path.{subst}
use shared_arena.Run.Returns
use shared_arena.Run.Returns.{Returns, returns}
use shared_arena.Page.Pool.{PagePool}
use shared_arena.Page.Pool.Make.{IsFresh, Made, make_list-Made}
use shared_arena.Pool.{with_capacity}
use shared_arena.Pool.Valid.{IsValid}
use shared_arena.Pool.Fresh.{IsPage-fresh, IsFresh-list}

-- The number of pages that hold `cap` blocks.
abbrev pub pages_for : ℕ → ℕ
pages_for cap = (max cap 1 - 1) / 63 + 1

module _ {T : Type 0} where
  module _ {m₀ m : Memory (PagePool T)} {first last : ℕ} {xs : List ℕ}
      (made : Made m₀ m first last xs) where
    abbrev whole : List ℕ
    whole = xs ++ last ∷ []

    last_not_null : last ≢ 0
    last_not_null =
        (made.grown.fresh last
          (ground (arith, has-append last xs (last ∷ []), ==_refl last))).not_null

    -- The pages of a new list, alone, are a pool whose free list is the whole.
    IsValid-made :
        IsValid
          (record m { list = some first })
          (record { page_list = first; npages = length whole })
          whole
          whole
    IsValid-made = record {
      first = first;
      list = refl;
      free_chain =
          Seg-append _ 0 first last xs (last ∷ []) made.free_seg
            (refl, last_not_null, made.last_free);
      all_chain =
          Seg-append _ 0 first last xs (last ∷ []) made.next_seg
            (refl, last_not_null, made.last_next);
      free_distinct = made.grown.distinct;
      all_distinct = made.grown.distinct;
      free_in_all = λ q i. i;
      count = refl;
      pages = λ q i. record {
        alive = (made.grown.fresh q i).alive;
        bits = (IsPage-fresh (made.grown.fresh q i)).bits;
        tags = (IsPage-fresh (made.grown.fresh q i)).tags;
        not_null = (made.grown.fresh q i).not_null;
        word = (made.grown.fresh q i).word;
        canonical = (made.grown.fresh q i).canonical;
      };
      flags = λ q i. (made.grown.fresh q i).flag ∙ sym i;
      full = λ q i o. cc;
    }

  -- The same with the number of pages, and the addresses that the allocator has left.
  pub with_capacity-Made :
      (m : Memory (PagePool T)) (cap : ℕ)
      → Supply (pages_for cap) m.supply m.live
      → Returns
          (λ pool m'.
            (news : List ℕ) × IsValid m' pool news news
            × ((q : ℕ) → has q news ≡ true → IsFresh m' q)
            × (length news ≡ pages_for cap)
            × ((k : ℕ) → Supply (pages_for cap + k) m.supply m.live → Supply k m'.supply m'.live))
          (with_capacity cap m)
  unfolding with_capacity
  with_capacity-Made m cap good =
      Returns.bind (make_list-Made (pages_for cap) (record m { list = some 0 }) (omega arith) good)
        λ (first, last) m' (xs, made, len). returns (
          xs ++ last ∷ [],
          subst
              (λ k.
                IsValid {T = T} (record m' { list = some first })
                  (record { page_list = first; npages = k }) (xs ++ last ∷ []) (xs ++ last ∷ []))
              len (IsValid-made made),
          (λ q i. IsFresh-list (some first) (made.grown.fresh q i)),
          len,
          λ k more. made.grown.rest k (subst (λ n. Supply (n + k) m.supply m.live) (sym len) more),
        )

  -- `Pool::with_capacity`, where the allocator's next addresses are good, returns a valid pool
  -- whose free list holds every page, each of them fresh: there are as many pages as the capacity
  -- needs, and at least one.
  pub with_capacity-IsValid :
      (m : Memory (PagePool T)) (cap : ℕ)
      → Supply (pages_for cap) m.supply m.live
      → Returns
          (λ pool m'.
            (news : List ℕ) × IsValid m' pool news news
            × ((q : ℕ) → has q news ≡ true → IsFresh m' q)
            × (pool.npages ≡ (max cap 1 - 1) / 63 + 1))
          (with_capacity cap m)
  with_capacity-IsValid m cap good =
      Returns.mono (with_capacity-Made m cap good)
        λ pool m' (news, v, fresh, len, _). (news, v, fresh, v.count ∙ len)
