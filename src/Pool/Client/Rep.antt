-- ===== src/Pool/Client/Rep.antt =====
-- What holds of a pool and its client between two calls (pool.rs, arena_rc.rs), and what keeps it.
use mathlib.Core.Path.{subst}
use shared_arena.Base.{
  true, ℕ, ◌≡◌, ◌≢◌, refl, sym, ap, ◌∙◌, ◌⊎◌, inl, inr, false, Option, List, ◌∷◌, ◌++◌, arith, ◌==◌,
  Bool-cases, ==_refl, ==_iff,
}
use shared_arena.Word.{all_ones, test_bit}
use shared_arena.Memory.{Memory, BlockPtr}
use shared_arena.Memory.Chain.{has-append}
use shared_arena.Page.Pool.{PagePool}
use shared_arena.Pool.{Pool}
use shared_arena.Pool.Client.Held.{occurs, Holds, Holds-frame}
use shared_arena.Pool.Counting.{InUse}
use shared_arena.Pool.Place.{is_at, is_at_eq}
use shared_arena.Memory.Select.{retain, has-retain}
use shared_arena.Word.Ext.{test_bit-all_ones}
use shared_arena.Pool.Shrink.{Shrunk}
use shared_arena.Pool.Unlink.{is_used}
use shared_arena.Pool.Store.{Stored}
use shared_arena.Pool.Valid.{IsValid, Filled}
use shared_arena.Pool.Write.{block_at}

abbrev pub value_at : {T : Type 0} → Memory (PagePool T) → BlockPtr → Option T
value_at m b = (block_at m b).value

abbrev block_ptr : (p i : ℕ) → BlockPtr
block_ptr p i = record { page = p; index = i }

pub same_or_other : (b c : BlockPtr) → (c ≡ b) ⊎ (is_at b c.page c.index ≡ false)
same_or_other b c = elim (Bool-cases (is_at b c.page c.index)) [
  | inl at ↦
      let (e, e') = is_at_eq b c.page c.index at in
      inl (ap (λ p. block_ptr p c.index) e ∙ ap (block_ptr b.page) e')
  | inr e ↦ inr e
]

-- The client holds the pointers `held`, which stand for the values `vs`.
pub record Rep {T : Type 0} (m : Memory (PagePool T)) (pool : Pool) (all free : List ℕ)
    (held : List BlockPtr) (vs : List T) : Type 0 where
  pub valid : IsValid m pool all free
  pub filled : Filled m all
  pub in_use : (b : BlockPtr) → occurs held b.page b.index ≢ 0 → InUse m all b
  pub counts :
      (b : BlockPtr)
      → occurs held b.page b.index ≢ 0
      → (block_at m b).counter ≡ occurs held b.page b.index
  pub values : Holds (value_at m) held vs

module _ {T : Type 0} where
  module _ {m m' : Memory (PagePool T)} {pool pool' : Pool} {all free : List ℕ}
      {held : List BlockPtr} {vs : List T} (r : Rep m pool all free held vs) {value : T}
      {b : BlockPtr} (s : Stored m all value pool' b m') where
    -- A pointer that was held leads elsewhere.
    elsewhere : (c : BlockPtr) → occurs held c.page c.index ≢ 0 → is_at b c.page c.index ≡ false
    elsewhere c ne = elim (Bool-cases (is_at b c.page c.index)) [
      | inr e ↦ e
      | inl at ↦
          let u = r.in_use c ne in
          let (e, e') = is_at_eq b c.page c.index at in
          let set = s.was_free (cc (u.member, e)) in absurd (cc (u.taken, set, e, e'))
    ]

    same_block : (c : BlockPtr) → occurs held c.page c.index ≢ 0 → block_at m' c ≡ block_at m c
    same_block c ne = s.old_blocks c.page c.index (r.in_use c ne).member (elsewhere c ne)

    old_in_use : (c : BlockPtr) → occurs held c.page c.index ≢ 0 → InUse m' (s.news ++ all) c
    old_in_use c ne =
        let u = r.in_use c ne in
        record {
          member = ground (arith, has-append c.page s.news all, u.member);
          below = u.below;
          taken = s.old_bits c.page c.index u.member ∙ rw (u.taken) refl;
        }

    new_in_use : InUse m' (s.news ++ all) b
    new_in_use = record { member = s.member; below = s.below; taken = s.taken }

    none_before : occurs held b.page b.index ≡ 0
    none_before = elim (Bool-cases (occurs held b.page b.index == 0)) [
      | inl e ↦ ground arith
      | inr e ↦
          let away = elsewhere b (λ z. absurd (ground arith)) in
          absurd (ground (arith, ==_refl b.page, ==_refl b.index))
    ]

    added :
        (c : BlockPtr)
        → is_at b c.page c.index ≡ false
        → occurs (b ∷ held) c.page c.index ≢ 0
        → occurs held c.page c.index ≢ 0
    added c e ne z = ne (rw e (omega (arith, z)))

    pub Rep-alloc : Rep m' pool' (s.news ++ all) s.free (b ∷ held) (value ∷ vs)
    Rep-alloc = record {
      valid = s.valid;
      filled = s.filled;
      in_use = λ c ne. elim (same_or_other b c) [
        | inl e ↦ subst (λ c. InUse m' (s.news ++ all) c) (sym e) new_in_use
        | inr e ↦ old_in_use c (added c e ne)
      ];
      counts = λ c ne. elim (same_or_other b c) [
        | inl e ↦
            subst (λ c. (block_at m' c).counter ≡ occurs (b ∷ held) c.page c.index) (sym e)
              (s.counts ∙ rw (==_refl b.page, ==_refl b.index, none_before) refl)
        | inr e ↦
            let old = added c e ne in
            ap (λ k. k.counter) (same_block c old) ∙ r.counts c old ∙ rw e (omega arith)
      ];
      values = (
        s.holds,
        Holds-frame (value_at m) (value_at m') held vs (λ c ne. ap (λ k. k.value) (same_block c ne))
            r.values,
      );
    }

  -- The blocks that are held are on pages that a shrinking pool keeps.
  module _ {m m' : Memory (PagePool T)} {pool pool' : Pool} {all free : List ℕ}
      {held : List BlockPtr} {vs : List T} (r : Rep m pool all free held vs)
      (s : Shrunk m all free pool' m') where
    page_used : (c : BlockPtr) → InUse m all c → is_used m c.page ≡ true
    page_used c u = elim (Bool-cases ((m.page c.page).bitfield == all_ones)) [
      | inr e ↦ rw e refl
      | inl e ↦
          let ones = (==_iff (m.page c.page).bitfield all_ones).0 e in
          absurd (
            cc (
              u.taken,
              ap (λ w. test_bit w c.index) ones,
              test_bit-all_ones c.index (omega (arith, u.below)),
            ))
    ]

    pub Rep-shrunk : Rep m' pool' (retain (is_used m) all) (retain (is_used m) free) held vs
    Rep-shrunk = record {
      valid = s.valid;
      filled = s.filled;
      in_use = λ c ne.
          let u = r.in_use c ne in
          let on = page_used c u in
          record {
            member = has-retain (is_used m) all c.page ∙ rw (u.member, on) refl;
            below = u.below;
            taken =
                ap (λ w. test_bit w c.index) (s.bitfield c.page (rw (u.member, on) refl)) ∙ u.taken;
          };
      counts = λ c ne. ap (λ f. (f c.index).counter) (s.blocks c.page) ∙ r.counts c ne;
      values =
          Holds-frame (value_at m) (value_at m') held vs
            (λ c ne. ap (λ f. (f c.index).value) (s.blocks c.page)) r.values;
    }
