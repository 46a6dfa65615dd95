-- ===== src/Pool/Client/Refines.antt =====
-- A client's calls of pool.rs and arena_rc.rs against the specification.
use shared_arena.Memory.Supply.{Supply, Supply-fewer}
use mathlib.Core.Path.{subst}
use shared_arena.Base.{
  ℕ, ◌+◌, ◌^◌, ◌<◌, ◌≡◌, ◌≢◌, refl, sym, inl, inr, true, List, [], ◌∷◌, arith, if◌then◌else◌,
  length, has, ==_refl, remove_at,
}
use shared_arena.Memory.{Memory, BlockPtr}
use shared_arena.Run.{◌>>=◌}
use shared_arena.Word.Ext.{test_bit-all_ones}
use shared_arena.Run.Returns
use shared_arena.Run.Returns.{Returns, returns}
use shared_arena.Page.Pool.{PagePool}
use shared_arena.Page.Pool.Make.{IsFresh}
use shared_arena.Pool.{Pool, with_capacity}
use shared_arena.Pool.Client.{Op, alloc, clone, read, drop, shrink, spec_step, spec_run, step, run}
use shared_arena.Pool.Client.Held.{occurs, Holds-cases, remove_at-none, length-remove_at}
use shared_arena.Pool.Client.Need.{need}
use shared_arena.Pool.Client.Rep.{value_at}
use shared_arena.Pool.Client.Steps.{clone-Rep, read-eq, drop-Rep}
use shared_arena.Pool.Create.{pages_for, with_capacity-Made}
use shared_arena.Pool.Valid.{IsValid}
use shared_arena.Pool.Place.{is_at}
use shared_arena.Pool.Client.Ready.{Ready, kept, alloc-Ready, shrink-Ready}

here :
    (held : List BlockPtr) (b : BlockPtr) (i : ℕ)
    → ((p j : ℕ) → occurs held p j ≡ (if is_at b p j then 1 else 0) + occurs (remove_at held i) p j)
    → occurs held b.page b.index ≢ 0
here held b i count z =
    absurd (ground (arith, count b.page b.index, ==_refl b.page, ==_refl b.index))

module _ {T : Type 0} {rounds fuel : ℕ} (two : 1 < rounds) where
  module _ (ops : List (Op T)) {m : Memory (PagePool T)} {pool : Pool} {held : List BlockPtr}
      {vs : List T} where
    -- Each call replies as the specification does, and both go on alike.
    step-spec_step :
        (op : Op T)
        → Ready fuel (op ∷ ops) m pool held vs
        → Returns
            (λ (reply, pool', held') m'.
              (reply ≡ (spec_step op vs).0) × Ready fuel ops m' pool' held' (spec_step op vs).1)
            (step rounds fuel op pool held m)
    unfolding step spec_step
    step-spec_step (alloc value) r = alloc-Ready two ops value r
    step-spec_step shrink r = shrink-Ready two ops r
    step-spec_step (clone i) r = elim (Holds-cases (value_at m) held vs i r.rep.values) [
      | inl (e, e') ↦
          rw (e, e', step, spec_step)
            (returns (refl, kept two ops r refl r.rep refl refl (omega arith)))
      | inr (b, v, e, e', value, rest, count) ↦
          rw (e, e', step, spec_step)
            (Returns.bind (clone-Rep r.rep (here held b i count) value (omega (arith, r.few)))
              λ b' m' (rep, live, supply).
                returns (refl, kept two ops r refl rep live supply (omega arith)))
    ]
    step-spec_step (read i) r = elim (Holds-cases (value_at m) held vs i r.rep.values) [
      | inl (e, e') ↦
          rw (e, e', step, spec_step)
            (returns (refl, kept two ops r refl r.rep refl refl (omega arith)))
      | inr (b, v, e, e', value, rest, count) ↦
          rw (e, e', step, spec_step, read-eq r.rep (here held b i count) value)
            (returns (refl, kept two ops r refl r.rep refl refl (omega arith)))
    ]
    step-spec_step (drop i) r = elim (Holds-cases (value_at m) held vs i r.rep.values) [
      | inl (e, e') ↦
          rw (e, remove_at-none vs i e', step, spec_step)
            (returns (refl, kept two ops r refl r.rep refl refl (omega arith)))
      | inr (b, v, e, e', value, rest, count) ↦
          rw (e, step, spec_step)
            (Returns.bind
              (drop-Rep r.rep (here held b i count) value (remove_at held i) (remove_at vs i) count
                rest)
              λ _ m' (free', rep, live, supply). returns (
                refl,
                kept two ops r refl rep live supply (omega (arith, length-remove_at held i)),
              ))
    ]

  run-spec_run :
      (ops : List (Op T)) (m : Memory (PagePool T)) (pool : Pool) (held : List BlockPtr)
      (vs : List T)
      → Ready fuel ops m pool held vs
      → Returns (λ replies m'. replies ≡ spec_run ops vs) (run rounds fuel ops pool held m)
  unfolding run spec_run
  run-spec_run [] m pool held vs r = returns refl
  run-spec_run (op ∷ ops) m pool held vs r =
      Returns.bind (step-spec_step ops op r) λ (reply, pool', held') m' (e, ready).
        Returns.bind (run-spec_run ops m' pool' held' (spec_step op vs).1 ready)
          λ replies m'' e'. returns (rw (e, e') refl)

  Ready-new :
      (ops : List (Op T)) (m m' : Memory (PagePool T)) (cap : ℕ) (pool : Pool) (news : List ℕ)
      → IsValid m' pool news news
      → ((q : ℕ) → has q news ≡ true → IsFresh m' q)
      → length news ≡ pages_for cap
      → Supply (need ops (pages_for cap)) m'.supply m'.live
      → pages_for cap + need ops (pages_for cap) < fuel
      → length ops < 2 ^ 63
      → Ready fuel ops m' pool [] []
  Ready-new ops m m' cap pool news v fresh len good enough few = record {
    all = news;
    free = news;
    rep = record {
      valid = v;
      filled = λ p i h lt.
          rw ((fresh p h).bitfield, test_bit-all_ones i (omega arith), (fresh p h).blocks) refl;
      in_use = λ b ne. absurd (ne refl);
      counts = λ b ne. absurd (ne refl);
      values = tt;
    };
    supply = subst (λ n. Supply (need ops n) m'.supply m'.live) (sym len) good;
    enough = rw len enough;
    few = omega (arith, few);
  }

  -- Any sequence of calls that make, clone, read and drop `ArenaRc` pointers and shrink the pool,
  -- on a pool that `Pool::with_capacity` has just made, returns the replies of the specification,
  -- in which a pointer is its value and there is no memory: the value that each pointer was made
  -- with is read through it and its clones, until it is dropped. For this the allocator's next
  -- addresses are good for the pages that the calls may need, two rounds or more and more rounds
  -- of the inner loop than there may be pages are given, and there are fewer than 2^63 calls.
  pub run_refines :
      (cap : ℕ) (ops : List (Op T)) (m : Memory (PagePool T))
      → Supply (pages_for cap + need ops (pages_for cap)) m.supply m.live
      → pages_for cap + need ops (pages_for cap) < fuel
      → length ops < 2 ^ 63
      → Returns
          (λ replies m'. replies ≡ spec_run ops [])
          ((do pool ← with_capacity cap; run rounds fuel ops pool []) m)
  run_refines cap ops m good enough few =
      Returns.bind
        (with_capacity-Made m cap
          (Supply-fewer (pages_for cap) _ m.supply m.live (omega arith) good))
        λ pool m' (news, v, fresh, len, rest).
          run-spec_run ops m' pool [] []
            (Ready-new ops m m' cap pool news v fresh len (rest _ good) enough few)
