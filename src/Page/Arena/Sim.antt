-- ===== src/Page/Arena/Sim.antt =====
-- What the arena's thread does to a page of page/arena.rs, and what the end of a `drop_block` does: the
-- page has the invariant of a page of page/shared_arena.rs with the two bitfields in one.
use mathlib.Core.Path.{subst}
use shared_arena.Base.{
  ℕ, ◌<◌, bit_or, ◌≡◌, ◌≢◌, refl, sym, ◌∙◌, inl, inr, Bool, true, false, arith, ◌==◌, Bool-cases,
}
use shared_arena.Word.{test_bit, IsWord, all_ones, block_per_page, trailing_zeros}
use shared_arena.Word.Bits.{test_bit-bit_or, test_bit_above}
use shared_arena.Word.Count.{trailing_zeros-le_of_set, test_bit-trailing_zeros}
use shared_arena.Page.SharedArena.{outside, loaded, holds, listing, last, Shared, fetch_and_bit}
use shared_arena.Page.SharedArena.Invariant.{Inv, Inv-start}
use shared_arena.Page.SharedArena.LetGo.{Inv-released}
use shared_arena.Page.SharedArena.Moves.{Inv-list, Inv-deallocate}
use shared_arena.Page.SharedArena.Take.{Inv-taken}
use shared_arena.Page.Arena.Merged.{
  IsSplit, merged-IsWord, merged_top, swap_merged, merge_again, IsSplit-merged, merged-clear,
  IsSplit-clear, all_free, all_free_of,
}
use shared_arena.Page.Arena.Steps.{TwoBitfields, without_bit, after_fetch_or, moved, start}

-- The page with the word `w` for its bitfields.
abbrev pub view : TwoBitfields → ℕ → Shared
view s w = record { bitfield = w; live = s.live; arena_holds = s.arena_holds; local = s.local }

pub data Sim (s : TwoBitfields) : Type 0 where
  held :
      s.arena_holds ≡ true
      → IsSplit s.bitfield s.bitfield_atomic
      → Inv (view s (bit_or s.bitfield s.bitfield_atomic))
      → ((u i : ℕ) → s.local u ≢ loaded i)
      → Sim s
  gone :
      s.arena_holds ≡ false
      → IsWord s.bitfield_atomic
      → test_bit s.bitfield_atomic 63 ≡ true
      → Inv (view s (fetch_and_bit s.bitfield_atomic 63))
      → Sim s

pub Sim-start : Sim start
Sim-start =
    held refl
      (record {
        word = omega arith;
        top = refl;
        low = omega arith;
        apart = λ j on. test_bit_above 0 j 0 (omega arith) (omega arith);
      })
      Inv-start (λ u i e. cc e)

module _ {s : TwoBitfields} where
  pub Sim-merge :
      s.arena_holds ≡ true
      → Sim s
      → Sim (record s {
        bitfield = bit_or s.bitfield s.bitfield_atomic;
        bitfield_atomic = 0;
        merging = false;
      })
  Sim-merge arena (gone e word top v) = absurd (cc (arena, e))
  Sim-merge arena (held e p v calm) =
      held arena (IsSplit-merged p) (subst (λ w. Inv (view s w)) (sym (merge_again p)) v) calm

  pub Sim-look : (b : Bool) → Sim s → Sim (record s { merging = b })
  Sim-look b (held e p v calm) = held e p v calm
  Sim-look b (gone e word top v) = gone e word top v

module _ {s : TwoBitfields} (t : ℕ) where
  pub Sim-take :
      s.local t ≡ outside
      → s.arena_holds ≡ true
      → trailing_zeros s.bitfield ≢ block_per_page
      → Sim s
      → Sim (record (moved s t (holds (trailing_zeros s.bitfield))) {
        bitfield = without_bit s.bitfield (trailing_zeros s.bitfield);
      })
  unfolding without_bit fetch_and_bit
  Sim-take here arena some_bit (gone e word top v) = absurd (cc (arena, e))
  Sim-take here arena some_bit (held e p v calm) =
      let i = trailing_zeros s.bitfield in
      let lt : i < 63 = ground (arith, trailing_zeros-le_of_set s.bitfield 63 p.top) in
      let on = test_bit-trailing_zeros s.bitfield (omega (arith, lt)) in
      held arena (IsSplit-clear p i lt)
        (subst (λ w. Inv (view (moved s t (holds i)) w)) (sym (merged-clear p i lt on))
          (Inv-taken v t lt arena (λ j h. cc (here, h))
            (test_bit-bit_or i s.bitfield s.bitfield_atomic ∙ rw on refl)))
        (λ u j h. ground (arith, calm u j))

  pub Sim-list : s.local t ≡ listing → Sim s → Sim (moved s t outside)
  Sim-list here (held e p v calm) = held e p (Inv-list v t here) (λ u j h. ground (arith, calm u j))
  Sim-list here (gone e word top v) = gone e word top (Inv-list v t here)

  pub Sim-deallocate : s.local t ≡ last → Sim s → Sim (record (moved s t outside) { live = false })
  Sim-deallocate here (held e p v calm) = absurd (cc (e, (v.last_free t here).1))
  Sim-deallocate here (gone e word top v) = gone e word top (Inv-deallocate v t here)

  pub Sim-let_go :
      s.local t ≡ outside
      → s.arena_holds ≡ true
      → Sim s
      → Sim (record (moved s t (after_fetch_or s.bitfield_atomic s.bitfield)) {
        bitfield_atomic = bit_or s.bitfield_atomic s.bitfield;
        arena_holds = false;
      })
  unfolding after_fetch_or
  Sim-let_go here arena (gone e word top v) = absurd (cc (arena, e))
  Sim-let_go here arena (held e p v calm) =
      let w = bit_or s.bitfield s.bitfield_atomic in
      rw (swap_merged p) (elim (Bool-cases (w == all_ones)) [
        | inl every ↦ rw every (
            gone refl (merged-IsWord p) (merged_top p) (
              Inv-released v t here arena calm last (λ j h. cc h) (λ j h. cc h)
                (λ h. all_free w (merged-IsWord p) (merged_top p) every) (λ all. refl)))
        | inr some ↦ rw some (
            gone refl (merged-IsWord p) (merged_top p) (
              Inv-released v t here arena calm outside (λ j h. cc h) (λ j h. cc h)
                (λ h. absurd (cc h))
                (λ all. absurd (cc (some, all_free_of w (merged-IsWord p) (merged_top p) all)))))
      ])
