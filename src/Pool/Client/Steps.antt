-- ===== src/Pool/Client/Steps.antt =====
-- Each call of a client on a pointer that it holds (arena_rc.rs, pool.rs).
use mathlib.Core.Path.{subst, subst₂}
use shared_arena.Base.{
  ℕ, ◌+◌, ◌-◌, ◌^◌, ◌<◌, ◌≡◌, ◌≢◌, refl, sym, ap, ◌∙◌, inl, inr, false, some, List, ◌∷◌, arith,
  if◌then◌else◌, length, ==_refl,
}
use shared_arena.Memory.{Memory, BlockPtr}
use shared_arena.Run.{ok}
use shared_arena.Run.Returns
use shared_arena.Run.Returns.{Returns, returns}
use shared_arena.Page.Pool.{PagePool, pool_blocks}
use shared_arena.Handle.ArenaRc
use shared_arena.Pool.{Pool, drop_block}
use shared_arena.Pool.Client.Held.{occurs, occurs-length, Holds}
use shared_arena.Pool.Client.Rep.{value_at, Rep}
use shared_arena.Pool.Client.Counted.{Rep-counted, Rep-given_back}
use shared_arena.Pool.Counting.{ArenaRc_clone_cases, ArenaRc_drop_cases}
use shared_arena.Pool.Handles.{counted}
use shared_arena.Pool.Place.{is_at}
use shared_arena.Pool.Write.{block_at, read_block-eq}
use shared_arena.Pool.Valid.{IsValid, Filled}

module _ {T : Type 0} {m : Memory (PagePool T)} {pool : Pool} {all free : List ℕ}
    {held : List BlockPtr} {vs : List T} {b : BlockPtr} {v : T} (r : Rep m pool all free held vs)
    (here : occurs held b.page b.index ≢ 0) (value : value_at m b ≡ some v) where
  pub clone-Rep :
      length held < 2 ^ 63 - 1
      → Returns
          (λ b' m'.
            Rep m' pool all free (b' ∷ held) (v ∷ vs) × (m'.live ≡ m.live) × (m'.supply ≡ m.supply))
          (ArenaRc.clone pool_blocks b m)
  clone-Rep few =
      let count = r.counts b here in
      elim (ArenaRc_clone_cases r.valid r.filled (r.in_use b here)) [
        | inr (many, _) ↦ absurd (omega (arith, many, count, occurs-length held b.page b.index))
        | inl (_, call) ↦ Returns.mono call λ b' m' (e, e', valid, filled, _).
            let n = (block_at m b).counter + 1 in
            let done : Rep (counted m b n) pool all free (b ∷ held) (v ∷ vs) =
              Rep-counted b n r (subst (λ m. IsValid m pool all free) e' valid)
                (subst (λ m. Filled m all) e' filled) here
                (rw (==_refl b.page, ==_refl b.index) (omega (arith, count)))
                (λ c ne. rw ne (omega arith)) (value, r.values) in
            (
              subst₂ (λ b m. Rep m pool all free (b ∷ held) (v ∷ vs)) (sym e) (sym e') done,
              ap (λ m. m.live) e',
              ap (λ m. m.supply) e',
            )
      ]

  pub read-eq : ArenaRc.deref pool_blocks b m ≡ ok v m
  unfolding ArenaRc.deref
  read-eq =
      let u = r.in_use b here in
      ground (arith, read_block-eq m b (r.valid.pages b.page u.member).alive u.below, value)

  pub drop-Rep :
      (held' : List BlockPtr) (vs' : List T)
      → ((p i : ℕ) → occurs held p i ≡ (if is_at b p i then 1 else 0) + occurs held' p i)
      → Holds (value_at m) held' vs'
      → Returns
          (λ _ m'.
            (free' : List ℕ) × Rep m' pool all free' held' vs'
            × (m'.live ≡ m.live)
            × (m'.supply ≡ m.supply))
          (ArenaRc.drop pool_blocks drop_block b m)
  drop-Rep held' vs' count values =
      let total = r.counts b here in
      let one_less : occurs held b.page b.index ≡ 1 + occurs held' b.page b.index =
        count b.page b.index ∙ rw (==_refl b.page, ==_refl b.index) refl in
      let same : (c : BlockPtr)
          → is_at b c.page c.index ≡ false
          → occurs held' c.page c.index ≡ occurs held c.page c.index =
        λ c e. sym (count c.page c.index ∙ rw e (omega arith)) in
      Returns.mono (ArenaRc_drop_cases r.valid r.filled (r.in_use b here)) λ _ m' cases.
        elim cases [
          | inl (last, f) ↦ (f.free, Rep-given_back r f same (omega arith) values, f.live, f.supply)
          | inr (more, e, valid, filled, _) ↦
              let n = (block_at m b).counter - 1 in
              let done : Rep (counted m b n) pool all free held' vs' =
                Rep-counted b n r (subst (λ m. IsValid m pool all free) e valid)
                  (subst (λ m. Filled m all) e filled) here (omega arith) same values in
              (
                free,
                subst (λ m. Rep m pool all free held' vs') (sym e) done,
                ap (λ m. m.live) e,
                ap (λ m. m.supply) e,
              )
        ]
