-- ===== src/Pool/Client/Ready.antt =====
-- A pool and a client that are ready for some calls, and the calls that allocate and shrink
-- (pool.rs).
use shared_arena.Memory.Supply.{Supply, Supply-fewer, Supply-fewer_live}
use mathlib.Core.Path.{subst, subst₂}
use shared_arena.Base.{
  ◌∙◌, ℕ, ◌+◌, ◌^◌, ◌≤◌, ◌<◌, ◌≡◌, refl, sym, ap, inl, inr, none, List, ◌∷◌, ◌++◌, arith, length,
  length-append,
}
use shared_arena.Memory.{Memory, BlockPtr}
use shared_arena.Run.Returns
use shared_arena.Run.Returns.{Returns, returns}
use shared_arena.Memory.Select.{length-Distinct, retain, length-retain}
use shared_arena.Pool.Shrink.{shrink_to_fit-Shrunk}
use shared_arena.Pool.Unlink.{is_used}
use shared_arena.Page.Pool.{PagePool}
use shared_arena.Pool.{Pool}
use shared_arena.Pool.Client.{Op, alloc, shrink, step}
use shared_arena.Pool.Client.Need.{growth, need, need_mono}
use shared_arena.Pool.Client.Rep.{Rep, Rep-alloc, Rep-shrunk}
use shared_arena.Pool.Grow.{to_allocate}
use shared_arena.Pool.Stores.{alloc_rc-Stored}

-- A pool and a client that are ready for the calls `ops`.
pub record Ready {T : Type 0} (fuel : ℕ) (ops : List (Op T)) (m : Memory (PagePool T)) (pool : Pool)
    (held : List BlockPtr) (vs : List T) : Type 0 where
  pub all : List ℕ
  pub free : List ℕ
  pub rep : Rep m pool all free held vs
  pub supply : Supply (need ops (length all)) m.supply m.live
  pub enough : length all + need ops (length all) < fuel
  pub few : length held + length ops < 2 ^ 63

module _ {T : Type 0} {rounds fuel : ℕ} (two : 1 < rounds) where
  module _ (ops : List (Op T)) {m : Memory (PagePool T)} {pool : Pool} {held : List BlockPtr}
      {vs : List T} where
    -- A call that makes no page.
    pub kept :
        {op : Op T} {m' : Memory (PagePool T)} {free' : List ℕ} {held' : List BlockPtr}
        {vs' : List T} (r : Ready fuel (op ∷ ops) m pool held vs)
        → need ops (length r.all) ≡ need (op ∷ ops) (length r.all)
        → Rep m' pool r.all free' held' vs'
        → m'.live ≡ m.live
        → m'.supply ≡ m.supply
        → length held' ≤ length held + 1
        → Ready fuel ops m' pool held' vs'
    kept {op} {m'} r same rep live supply few = record {
      all = r.all;
      free = _;
      rep = rep;
      supply =
          subst (λ n. Supply n m'.supply m'.live) (sym same)
            (subst₂ (λ s l. Supply (need (op ∷ ops) (length r.all)) s l) (sym supply) (sym live)
              r.supply);
      enough = omega (arith, same, r.enough);
      few = omega (arith, few, r.few);
    }

    pub alloc-Ready :
        (value : T) (r : Ready fuel (alloc value ∷ ops) m pool held vs)
        → Returns
            (λ (reply, pool', held') m'.
              (reply ≡ none) × Ready fuel ops m' pool' held' (value ∷ vs))
            (step rounds fuel (alloc value) pool held m)
    unfolding step
    alloc-Ready value r =
        let v = r.rep.valid in
        let n = length r.all in
        let size : to_allocate pool ≡ growth n = ap growth v.count in
        let good : Supply (to_allocate pool) m.supply m.live =
          Supply-fewer (to_allocate pool) _ m.supply m.live (omega (arith, size)) r.supply in
        let short = length-Distinct r.free r.all v.free_distinct v.free_in_all in
        Returns.bind
          (alloc_rc-Stored rounds fuel m pool r.all r.free v r.rep.filled good two
            (omega (arith, short, r.enough)) value)
          λ (pool', b) m' s.
            let grew : length s.news ≤ growth n = elim (s.growth) [
              | inl e ↦ rw e (omega arith)
              | inr e ↦ omega (arith, e)
            ] in
            let long = length-append {0} s.news r.all in
            let less = need_mono ops (length (s.news ++ r.all)) (n + growth n) (omega arith) in
            returns (
              refl,
              record {
                all = s.news ++ r.all;
                free = s.free;
                rep = Rep-alloc r.rep s;
                supply = s.rest (need ops (length (s.news ++ r.all))) (
                    Supply-fewer (length s.news + need ops (length (s.news ++ r.all))) _ m.supply
                      m.live (omega arith) r.supply);
                enough = omega (arith, r.enough);
                few = omega (arith, r.few);
              },
            )

    pub shrink-Ready :
        (r : Ready fuel (shrink ∷ ops) m pool held vs)
        → Returns
            (λ (reply, pool', held') m'. (reply ≡ none) × Ready fuel ops m' pool' held' vs)
            (step rounds fuel shrink pool held m)
    unfolding step
    shrink-Ready r =
        let total = length-retain (is_used m) r.all in
        let fewer : length (retain (is_used m) r.all) ≤ length r.all = omega (arith, total) in
        let less = need_mono ops _ _ fewer in
        Returns.bind
          (shrink_to_fit-Shrunk fuel m pool r.all r.free r.rep.valid r.rep.filled
            (omega (arith, r.enough)))
          λ pool' m' s. returns (
            refl,
            record {
              all = retain (is_used m) r.all;
              free = retain (is_used m) r.free;
              rep = Rep-shrunk r.rep s;
              supply =
                  subst (λ l. Supply (need ops (length (retain (is_used m) r.all))) l m'.live)
                    (sym s.supply)
                    (Supply-fewer_live _ m.supply m.live m'.live (λ q e. s.live q ∙ rw e refl)
                      (Supply-fewer _ _ m.supply m.live less r.supply));
              enough = omega (arith, less, r.enough);
              few = omega (arith, r.few);
            },
          )
