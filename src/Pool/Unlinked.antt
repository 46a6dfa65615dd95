-- ===== src/Pool/Unlinked.antt =====
-- The first loop of `shrink_to_fit` of pool.rs: pages leave the free list.
use shared_arena.Base.{
  ℕ, zero, suc, ◌<◌, ◌≡◌, ◌≢◌, refl, sym, ap, ◌∙◌, inl, inr, true, false, not, some, List, [], ◌∷◌,
  ◌++◌, arith, ◌==◌, length, has, Bool-cases, ==_refl,
}
use mathlib.Core.List.{append-nil, append_assoc}
use mathlib.Core.Path.{subst}
use shared_arena.Word.{all_ones}
use shared_arena.Memory.{Memory}
use shared_arena.Memory.Chain.{Chain, Seg-frame, Distinct}
use shared_arena.Memory.Select.{retain, retain-same}
use shared_arena.Run.Returns
use shared_arena.Run.Returns.{Returns, returns}
use shared_arena.Page.Pool.{PagePool}
use shared_arena.Pool.Walk.{Cursor, head, link, unlink_unused}
use shared_arena.Pool.Cursors.{on, off_tail, Apart-head, Apart-has, CanRead}
use shared_arena.Pool.Unlink.{
  is_used, free_value, SameButFree, FreeUnlinked, free_set_at, SameButFree-set, free_value-set,
  free_value-other, loop_end, loop_drop, loop_keep,
}

module _ {T : Type 0} where
  SameButFree-trans :
      {m m₁ m₂ : Memory (PagePool T)} → SameButFree m m₁ → SameButFree m₁ m₂ → SameButFree m m₂
  SameButFree-trans a b = record {
    bitfield = λ q. b.bitfield q ∙ a.bitfield q;
    blocks = λ q. b.blocks q ∙ a.blocks q;
    next = λ q. b.next q ∙ a.next q;
    in_free_list = λ q. b.in_free_list q ∙ a.in_free_list q;
    live = b.live ∙ a.live;
    supply = b.supply ∙ a.supply;
  }

  module _ (m : Memory (PagePool T)) (c : Cursor) (p : ℕ) (qs : List ℕ)
      (off : on c (p ∷ qs) ≡ false) where
    module _ (ne : p ≢ 0) where
      abbrev after : Memory (PagePool T)
      after = free_set_at c (m.page p).next_free m

      Chain-after :
          Chain (λ q. (m.page q).next_free) (m.page p).next_free qs
          → Chain (λ q. (after.page q).next_free) (m.page p).next_free qs
      Chain-after = Seg-frame _ _ 0 _ qs λ q i.
          let e = free_value-other c (link q) (m.page p).next_free m (Apart-has p qs q i c off) in
          cc e

      unlinked_drop :
          {m' : Memory (PagePool T)}
          → is_used m p ≡ false
          → FreeUnlinked after c qs m'
          → FreeUnlinked m c (p ∷ qs) m'
      unlinked_drop {m'} unused u = record {
        first = u.first;
        at = u.at;
        chain =
            let same : retain (is_used after) qs ≡ retain (is_used m) qs =
              retain-same _ _ qs
                (λ q i. ap (λ w. not (w == all_ones)) ((SameButFree-set c _ m).bitfield q)) in
            subst (Chain (λ q. (m'.page q).next_free) u.first) (same ∙ sym (rw unused refl))
              u.chain;
        same = SameButFree-trans (SameButFree-set c _ m) u.same;
        frame = λ c' a h. u.frame c' a (off_tail p qs c' h) ∙ free_value-other c c' _ m a;
      }

      unlinked_keep :
          {m' : Memory (PagePool T)}
          → is_used m p ≡ true
          → free_value c m ≡ some p
          → FreeUnlinked m (link p) qs m'
          → FreeUnlinked m c (p ∷ qs) m'
      unlinked_keep {m'} used e u = record {
        first = p;
        at = u.frame c (Apart-head p qs c off) (off_tail p qs c off) ∙ e;
        chain = rw used (
          refl,
          ne,
          let link_eq : (m'.page p).next_free ≡ u.first = cc (u.at) in rw link_eq u.chain,
        );
        same = u.same;
        frame = λ c' a h. u.frame c' (Apart-head p qs c' h) (off_tail p qs c' h);
      }

  same_read :
      (c d : Cursor) (q : ℕ) (m : Memory (PagePool T)) → CanRead c m → CanRead c (free_set_at d q m)
  same_read head head q m alive = alive
  same_read head (link r) q m alive = alive
  same_read (link p) head q m alive = alive
  same_read (link p) (link r) q m alive = alive

  -- The pages after the cursor that are not used leave the list, in their order.
  pub unlink_unused-FreeUnlinked :
      (fuel : ℕ) (c : Cursor) (dropped : List ℕ) (m : Memory (PagePool T)) (first : ℕ) (ps : List ℕ)
      → CanRead c m
      → free_value c m ≡ some first
      → Chain (λ q. (m.page q).next_free) first ps
      → Distinct ps
      → on c ps ≡ false
      → ((q : ℕ) → has q ps ≡ true → m.live q ≡ true)
      → length ps < fuel
      → Returns
          (λ d m'. (d ≡ dropped ++ retain (λ q. not (is_used m q)) ps) × FreeUnlinked m c ps m')
          (unlink_unused fuel c dropped m)
  unlink_unused-FreeUnlinked zero c dropped m first ps alive e chain d off good enough =
      absurd (omega arith)
  unlink_unused-FreeUnlinked (suc fuel) c dropped m first [] alive e chain d off good enough =
      rw (loop_end fuel c dropped m alive (e ∙ ap some chain)) (
        returns (
          sym (append-nil dropped),
          record {
            first = first;
            at = e;
            chain = chain;
            same = record {
              bitfield = λ q. refl;
              blocks = λ q. refl;
              next = λ q. refl;
              in_free_list = λ q. refl;
              live = refl;
              supply = refl;
            };
            frame = λ c' a h. refl;
          },
        ))
  unlink_unused-FreeUnlinked (suc fuel) c dropped m first (p ∷ ps) alive e (e', ne, chain) (out, d)
        off good enough =
      let at = e ∙ ap some e' in
      let here = good p (ground (arith, ==_refl p)) in
      elim (Bool-cases (is_used m p)) [
        | inl used ↦ rw (loop_keep fuel c dropped m p alive at ne here used) (
            Returns.mono
              (unlink_unused-FreeUnlinked fuel (link p) dropped m (m.page p).next_free ps here refl
                chain d out (λ q h. good q (ground arith)) (omega arith))
              λ l m' (same, u).
                (same ∙ sym (rw used refl), unlinked_keep m c p ps off ne used at u))
        | inr unused ↦ rw (loop_drop fuel c dropped m p alive at ne here unused) (
            Returns.mono
              (unlink_unused-FreeUnlinked fuel c (dropped ++ p ∷ [])
                (free_set_at c (m.page p).next_free m) (m.page p).next_free ps
                (same_read c c (m.page p).next_free m alive)
                (free_value-set c (m.page p).next_free m) (Chain-after m c p ps off ne chain) d
                (off_tail p ps c off)
                (λ q h. ap (λ f. f q) ((SameButFree-set c _ m).live) ∙ good q (ground arith))
                (omega arith))
              λ l m' (same, u). (same ∙ more unused, unlinked_drop m c p ps off ne unused u))
      ]
    where
      more :
          is_used m p ≡ false
          → (dropped ++ p ∷ [])
              ++ retain (λ q. not (is_used (free_set_at c (m.page p).next_free m) q)) ps
            ≡ dropped ++ retain (λ q. not (is_used m q)) (p ∷ ps)
      more unused =
          append_assoc dropped (p ∷ []) _
          ∙ ap (λ r. dropped ++ p ∷ r)
              (retain-same _ _ ps
                (λ q i. ap (λ w. not (not (w == all_ones))) ((SameButFree-set c _ m).bitfield q)))
          ∙ sym (rw unused refl)
