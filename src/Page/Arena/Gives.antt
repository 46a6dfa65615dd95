-- ===== src/Page/Arena/Gives.antt =====
-- The `fetch_add` of `drop_block` of page/arena.rs and the invariant of the page.
use mathlib.Core.Path.{subst}
use shared_arena.Base.{
  ℕ, ◌^◌, bit_or, ◌≡◌, refl, sym, ◌∙◌, inl, inr, false, arith, ◌==◌, Bool-cases, ==-eq-false,
}
use shared_arena.Word.{test_bit, all_ones}
use shared_arena.Word.Bits.{test_bit-bit_or}
use shared_arena.Word.Ext.{set-lt, add_bit_word}
use shared_arena.Page.SharedArena.{Local, holds, listing, last, fetch_and_bit}
use shared_arena.Page.SharedArena.Bits.{test_bit-fetch_and}
use shared_arena.Page.SharedArena.Give.{Inv-given}
use shared_arena.Page.SharedArena.Invariant.{Inv}
use shared_arena.Page.Arena.Merged.{
  atomic-IsWord, merged-set, IsSplit-set, let_go-set, all_free, all_free_of, set_top, let_go_low,
}
use shared_arena.Page.Arena.Steps.{TwoBitfields, fetch_add_bit, after_fetch_add, moved}
use shared_arena.Page.Arena.Sim.{view, Sim, held, gone}

module _ {s : TwoBitfields} (t : ℕ) where
  pub Sim-give :
      {i : ℕ}
      → s.local t ≡ holds i
      → Sim s
      → Sim (record (moved s t (after_fetch_add s.bitfield_atomic i)) {
        bitfield_atomic = fetch_add_bit s.bitfield_atomic i;
      })
  unfolding fetch_add_bit after_fetch_add
  Sim-give {i} here (held e p v calm) =
      let (lt, off) = v.owned t i here in
      let off_b : test_bit s.bitfield i ≡ false =
        ground (arith, test_bit-bit_or i s.bitfield s.bitfield_atomic) in
      let off_a : test_bit s.bitfield_atomic i ≡ false =
        ground (arith, test_bit-bit_or i s.bitfield s.bitfield_atomic) in
      let q = IsSplit-set p i lt off_b in
      let more : (bit_or s.bitfield_atomic (2 ^ i) == all_ones) ≡ false =
        ==-eq-false _ all_ones (λ k. absurd (omega (arith, q.low, k))) in
      rw (add_bit_word s.bitfield_atomic i (atomic-IsWord p) (omega (arith, lt)) off_a, more)
        (held e q
          (subst (λ w. Inv (view (moved s t listing) w)) (sym (merged-set p i lt))
            (Inv-given v t here listing (λ j h. cc h) (λ j h. cc h) (λ h. absurd (cc h))
              (λ all h. absurd (cc (e, h)))))
          (λ u j h. ground (arith, calm u j)))
  Sim-give {i} here (gone e word top v) =
      let (lt, off) = v.owned t i here in
      let a = s.bitfield_atomic in
      let off_a : test_bit a i ≡ false =
        ground (arith, test_bit-fetch_and a word 63 (omega arith) i) in
      let set = set-lt a i word (omega (arith, lt)) in
      let top' = set_top word top i lt in
      let low = let_go_low word top i lt in
      let done : (l : Local)
          → Inv (record (view (moved s t l) (bit_or (fetch_and_bit a 63) (2 ^ i))) {
            arena_holds = s.arena_holds;
          })
          → Sim (record (moved s t l) { bitfield_atomic = bit_or a (2 ^ i) }) =
        λ l k.
          gone e set top'
            (subst (λ w. Inv (view (moved s t l) w)) (sym (let_go-set word top i lt)) k) in
      rw (add_bit_word a i word (omega (arith, lt)) off_a)
        (elim (Bool-cases (bit_or a (2 ^ i) == all_ones)) [
          | inl every ↦ rw every (
              done last (
                Inv-given v t here last (λ j h. cc h) (λ j h. cc h)
                  (λ h. (λ j k. low j k ∙ all_free _ set top' every j k, e)) (λ all h. refl)))
          | inr some ↦ rw some (
              done listing (
                Inv-given v t here listing (λ j h. cc h) (λ j h. cc h) (λ h. absurd (cc h))
                  (λ all h.
                    absurd (cc (some, all_free_of _ set top' (λ j k. sym (low j k) ∙ all j k))))))
        ])
