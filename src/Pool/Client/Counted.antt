-- ===== src/Pool/Client/Counted.antt =====
-- What holds of a pool and its client where a counter changes and where a block is freed (arena_rc.rs).
use mathlib.Core.Path.{subst}
use shared_arena.Base.{ℕ, ◌≡◌, ◌≢◌, refl, sym, ap, ◌∙◌, inl, inr, false, List}
use shared_arena.Word.{test_bit}
use shared_arena.Memory.{Memory, BlockPtr}
use shared_arena.Page.Pool.{PagePool}
use shared_arena.Pool.{Pool}
use shared_arena.Pool.Client.Held.{occurs, Holds, Holds-frame}
use shared_arena.Pool.Counting.{InUse}
use shared_arena.Pool.Freed.{Freed}
use shared_arena.Pool.Handles.{counted}
use shared_arena.Pool.Place.{is_at}
use shared_arena.Pool.Valid.{IsValid, Filled}
use shared_arena.Pool.Write.{block_at, blocks-wrote, bitfield-wrote, block_at-wrote}
use shared_arena.Pool.Client.Rep.{value_at, Rep, same_or_other}

module _ {T : Type 0} where
  -- A block in use whose counter is set.
  module _ (m : Memory (PagePool T)) (b : BlockPtr) (n : ℕ) where
    counted_same :
        (c : BlockPtr) → is_at b c.page c.index ≡ false → block_at (counted m b n) c ≡ block_at m c
    counted_same c ne = blocks-wrote m b _ c.page c.index ∙ rw ne

    counted_value : (c : BlockPtr) → value_at (counted m b n) c ≡ value_at m c
    counted_value c = elim (same_or_other b c) [
      | inl e ↦
          subst (λ c. value_at (counted m b n) c ≡ value_at m c) (sym e)
            (ap (λ k. k.value) (block_at-wrote m b _))
      | inr e ↦ ap (λ k. k.value) (counted_same c e)
    ]

    counted_in_use : {all : List ℕ} (c : BlockPtr) → InUse m all c → InUse (counted m b n) all c
    counted_in_use c u = record {
      member = u.member;
      below = u.below;
      taken = ap (λ w. test_bit w c.index) (bitfield-wrote m b _ c.page) ∙ u.taken;
    }

  module _ {m : Memory (PagePool T)} {pool : Pool} {all free : List ℕ} {held held' : List BlockPtr}
      {vs vs' : List T} (b : BlockPtr) (n : ℕ) (r : Rep m pool all free held vs) where
    -- A counter that follows the pointers held.
    pub Rep-counted :
        IsValid (counted m b n) pool all free
        → Filled (counted m b n) all
        → occurs held b.page b.index ≢ 0
        → (n ≡ occurs held' b.page b.index)
        → ((c : BlockPtr)
            → is_at b c.page c.index ≡ false
            → occurs held' c.page c.index ≡ occurs held c.page c.index)
        → Holds (value_at m) held' vs'
        → Rep (counted m b n) pool all free held' vs'
    Rep-counted valid filled here count same values =
        let old : (c : BlockPtr)
            → occurs held' c.page c.index ≢ 0
            → occurs held c.page c.index ≢ 0 =
          λ c ne. elim (same_or_other b c) [
            | inl e ↦ subst (λ c. occurs held c.page c.index ≢ 0) (sym e) here
            | inr e ↦ λ z. ne (same c e ∙ z)
          ] in
        record {
          valid = valid;
          filled = filled;
          in_use = λ c ne. counted_in_use m b n c (r.in_use c (old c ne));
          counts = λ c ne. elim (same_or_other b c) [
            | inl e ↦
                subst (λ c. (block_at (counted m b n) c).counter ≡ occurs held' c.page c.index)
                  (sym e) (ap (λ k. k.counter) (block_at-wrote m b _) ∙ count)
            | inr e ↦
                ap (λ k. k.counter) (counted_same m b n c e)
                ∙ r.counts c (old c ne)
                ∙ sym (same c e)
          ];
          values =
              Holds-frame (value_at m) (value_at (counted m b n)) held' vs'
                (λ c ne. counted_value m b n c) values;
        }

  module _ {m m' : Memory (PagePool T)} {pool : Pool} {all free : List ℕ}
      {held held' : List BlockPtr} {vs vs' : List T} {b : BlockPtr}
      (r : Rep m pool all free held vs) where
    -- The last pointer to a block is gone.
    pub Rep-given_back :
        (f : Freed m pool all b m')
        → ((c : BlockPtr)
            → is_at b c.page c.index ≡ false
            → occurs held' c.page c.index ≡ occurs held c.page c.index)
        → occurs held' b.page b.index ≡ 0
        → Holds (value_at m) held' vs'
        → Rep m' pool all f.free held' vs'
    Rep-given_back f same gone values =
        let away : (c : BlockPtr)
            → occurs held' c.page c.index ≢ 0
            → is_at b c.page c.index ≡ false =
          λ c ne. elim (same_or_other b c) [
            | inl e ↦ absurd (ne (subst (λ c. occurs held' c.page c.index ≡ 0) (sym e) gone))
            | inr e ↦ e
          ] in
        let old : (c : BlockPtr)
            → occurs held' c.page c.index ≢ 0
            → occurs held c.page c.index ≢ 0 =
          λ c ne z. ne (same c (away c ne) ∙ z) in
        record {
          valid = f.valid;
          filled = f.filled;
          in_use = λ c ne.
              let u = r.in_use c (old c ne) in
              record {
                member = u.member;
                below = u.below;
                taken = f.bits c.page c.index ∙ rw (u.taken, away c ne) refl;
              };
          counts = λ c ne.
              ap (λ k. k.counter) (f.others c.page c.index (away c ne))
              ∙ r.counts c (old c ne)
              ∙ sym (same c (away c ne));
          values =
              Holds-frame (value_at m) (value_at m') held' vs'
                (λ c ne. ap (λ k. k.value) (f.others c.page c.index (away c ne))) values;
        }
