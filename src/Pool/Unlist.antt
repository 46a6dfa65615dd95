-- ===== src/Pool/Unlist.antt =====
-- The second loop of `shrink_to_fit` of pool.rs: pages leave the list of all pages.
use mathlib.Core.Path.{subst}
use shared_arena.Base.{
  ℕ, zero, suc, ◌<◌, ◌≡◌, ◌≢◌, refl, sym, ap, ◌∙◌, inl, inr, true, false, List, [], ◌∷◌, arith,
  length, has, Bool-cases, ==_refl, ==-eq-false,
}
use shared_arena.Memory.{Memory, deref}
use shared_arena.Memory.Chain.{Chain, Seg-frame, Distinct}
use shared_arena.Run.{ok}
use shared_arena.Run.Returns
use shared_arena.Run.Returns.{Returns, returns}
use shared_arena.Page.Pool.{PagePool}
use shared_arena.Pool.Cursors.{on, off_tail, Apart-head, Apart-has, CanRead}
use shared_arena.Pool.Walk.{Cursor, link, unlink_dropped}
use shared_arena.Pool.Relinked.{
  SameButNext-refl, next_value, next_set_at, new_head, SameButNext-trans, AllUnlinked,
  set_next_at-eq, next_at-eq, SameButNext-set, next_value-set, next_value-other, same_read,
}

module _ {T : Type 0} where
  module _ (fuel : ℕ) (c : Cursor) (first : ℕ) (dropped : List ℕ) (m : Memory (PagePool T))
      (alive : CanRead c m) where
    loop_end : next_value c first m ≡ 0 → unlink_dropped (suc fuel) c first dropped m ≡ ok first m
    unfolding unlink_dropped
    loop_end e = rw (next_at-eq c first m alive, e) refl

    module _ (p : ℕ) (e : next_value c first m ≡ p) (ne : p ≢ 0) (here : m.live p ≡ true) where
      got : deref p m ≡ ok (m.page p) m
      unfolding deref
      got = rw here refl

      loop_drop :
          has p dropped ≡ true
          → unlink_dropped (suc fuel) c first dropped m
            ≡ unlink_dropped fuel c
                (new_head c (m.page p).next first)
                dropped
                (next_set_at c (m.page p).next m)
      unfolding unlink_dropped
      loop_drop h =
          rw
            (
              next_at-eq c first m alive,
              e,
              ==-eq-false p 0 ne,
              got,
              h,
              set_next_at-eq c (m.page p).next first m alive,
            )
            refl

      loop_keep :
          has p dropped ≡ false
          → unlink_dropped (suc fuel) c first dropped m
            ≡ unlink_dropped fuel (link p) first dropped m
      unfolding unlink_dropped
      loop_keep h = rw (next_at-eq c first m alive, e, ==-eq-false p 0 ne, got, h) refl

  module _ (m : Memory (PagePool T)) (c : Cursor) (first : ℕ) (dropped : List ℕ) (p : ℕ)
      (qs : List ℕ) (off : on c (p ∷ qs) ≡ false) {first' : ℕ} {m' : Memory (PagePool T)} where
    unlisted_drop :
        has p dropped ≡ true
        → AllUnlinked
            (next_set_at c (m.page p).next m)
            c
            (new_head c (m.page p).next first)
            dropped
            qs
            first'
            m'
        → AllUnlinked m c first dropped (p ∷ qs) first' m'
    unlisted_drop h u = record {
      chain =
          subst (Chain (λ q. (m'.page q).next) (next_value c first' m')) (sym (rw h refl)) u.chain;
      same = SameButNext-trans (SameButNext-set c _ m) u.same;
      frame = λ c' a k. u.frame c' a (off_tail p qs c' k) ∙ next_value-other c c' _ first m a;
    }

    unlisted_keep :
        has p dropped ≡ false
        → next_value c first m ≡ p
        → p ≢ 0
        → AllUnlinked m (link p) first dropped qs first' m'
        → AllUnlinked m c first dropped (p ∷ qs) first' m'
    unlisted_keep h e ne u = record {
      chain = rw h (u.frame c (Apart-head p qs c off) (off_tail p qs c off) ∙ e, ne, u.chain);
      same = u.same;
      frame = λ c' a k. u.frame c' (Apart-head p qs c' k) (off_tail p qs c' k);
    }

  pub unlink_dropped-AllUnlinked :
      (fuel : ℕ) (c : Cursor) (first : ℕ) (dropped : List ℕ) (m : Memory (PagePool T)) (ps : List ℕ)
      → CanRead c m
      → Chain (λ q. (m.page q).next) (next_value c first m) ps
      → Distinct ps
      → on c ps ≡ false
      → ((q : ℕ) → has q ps ≡ true → m.live q ≡ true)
      → length ps < fuel
      → Returns
          (λ first' m'. AllUnlinked m c first dropped ps first' m')
          (unlink_dropped fuel c first dropped m)
  unlink_dropped-AllUnlinked zero c first dropped m ps alive chain d off good enough =
      absurd (omega arith)
  unlink_dropped-AllUnlinked (suc fuel) c first dropped m [] alive chain d off good enough =
      rw (loop_end fuel c first dropped m alive chain)
        (returns (record { chain = chain; same = SameButNext-refl m; frame = λ c' a h. refl }))
  unlink_dropped-AllUnlinked (suc fuel) c first dropped m (p ∷ ps) alive (e, ne, chain) (out, d) off
        good enough =
      let here = good p (ground (arith, ==_refl p)) in
      let q = (m.page p).next in
      elim (Bool-cases (has p dropped)) [
        | inr keep ↦ rw (loop_keep fuel c first dropped m alive p e ne here keep) (
            Returns.mono
              (unlink_dropped-AllUnlinked fuel (link p) first dropped m ps here chain d out
                (λ q h. good q (ground arith)) (omega arith))
              (λ l m' u. unlisted_keep m c first dropped p ps off keep e ne u))
        | inl drop ↦ rw (loop_drop fuel c first dropped m alive p e ne here drop) (
            Returns.mono
              (unlink_dropped-AllUnlinked fuel c (new_head c q first) dropped (next_set_at c q m) ps
                (same_read c q m alive)
                (subst (λ r. Chain (λ t. ((next_set_at c q m).page t).next) r ps)
                  (sym (next_value-set c q first m))
                  (Seg-frame _ _ 0 _ ps
                    (λ r h. next_value-other c (link r) q first m (Apart-has p ps r h c off))
                    chain))
                d (off_tail p ps c off)
                (λ r h. ap (λ f. f r) ((SameButNext-set c q m).live) ∙ good r (ground arith))
                (omega arith))
              (λ l m' u. unlisted_drop m c first dropped p ps off drop u))
      ]
