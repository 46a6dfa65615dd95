-- ===== src/Arena/Take.antt =====
-- The inner loop of `Arena::find_place` (arena.rs) on a valid arena.
use shared_arena.Base.{
  ℕ, zero, suc, ◌<◌, ◌≡◌, ◌≢◌, refl, sym, ap, ◌∙◌, true, false, Option, none, some, List, [], ◌∷◌,
  arith, length, ==-eq-false,
}
use shared_arena.Word.{block_per_page}
use shared_arena.Memory.{Memory, BlockPtr, deref, store}
use shared_arena.Run.{Run, ok, and_then, pure, ◌>>=◌, ◌>>◌}
use shared_arena.Run.Returns
use shared_arena.Run.Returns.{Returns, returns}
use shared_arena.Page.Arena as Page
use shared_arena.Page.Arena.{PageArena, ArenaCmd}
use shared_arena.Page.Arena.Acquire.{
  is_free, ArenaAcquired, page_full, block_taken, acquire_free_block-ArenaAcquired,
}
use shared_arena.Arena.{Arena, take_from_free}
use shared_arena.Arena.Valid.{IsValid}
use shared_arena.Arena.Taken.{
  Took, all_full, took, popped, behind, member, page, popped-IsValid, taken-IsValid, taken_bits,
  Took-popped,
}

module _ {T : Type 0} where
  take_empty :
      (fuel tries : ℕ) (arena : Arena) (m : Memory (PageArena T))
      → arena.free_list ≡ 0
      → take_from_free (suc fuel) tries arena m ≡ ok (arena, none) m
  unfolding take_from_free
  take_empty fuel tries arena m e = ground arith

  -- The rest of a round, where `acquire_free_block` of the page `p` gave `found`.
  abbrev after :
      (fuel tries : ℕ) → Arena → ℕ → Option BlockPtr → ArenaCmd T (Arena × Option BlockPtr)
  after fuel tries arena p none = do
    g ← deref p
    store p (record g { in_free_list = false })
    take_from_free fuel tries (record arena { free_list = g.next_free })
  after fuel tries arena p (some block) = pure (arena, some block)

  take_round :
      (fuel tries : ℕ) (arena : Arena) (m : Memory (PageArena T))
      → arena.free_list ≢ 0
      → take_from_free (suc fuel) tries arena m
        ≡ and_then
            (Page.acquire_free_block tries arena.free_list m)
            (after fuel tries arena arena.free_list)
  unfolding take_from_free
  take_round fuel tries arena m ne =
      rw (==-eq-false arena.free_list 0 ne)
        (λ i. and_then (Page.acquire_free_block tries arena.free_list m) (λ found. same found i))
    where
      same :
          (found : Option BlockPtr)
          → ◌≡◌ {A = ArenaCmd T (Arena × Option BlockPtr)}
              (elim found [
                | some block ↦ pure (arena, some block)
                | none ↦ do
                  g ← deref arena.free_list
                  store arena.free_list (record g { in_free_list = false })
                  take_from_free fuel tries (record arena { free_list = g.next_free })
              ])
              (after fuel tries arena arena.free_list found)
      same none = refl
      same (some block) = refl

  after-none :
      (fuel tries p : ℕ) (arena : Arena) (m : Memory (PageArena T))
      → m.live p ≡ true
      → after fuel tries arena p none m ≡ take_from_free fuel tries (behind m arena p) (popped m p)
  unfolding deref store
  after-none fuel tries p arena m alive = rw (alive, alive) refl

  pub take_from_free-Took :
      (fuel tries : ℕ) (m : Memory (PageArena T)) (arena : Arena) (all free pending : List ℕ)
      → IsValid m arena all free pending
      → length free < fuel
      → 1 < tries
      → Returns (Took m all pending) (take_from_free fuel tries arena m)
  take_from_free-Took zero tries m arena all free pending v enough two = absurd (omega arith)
  take_from_free-Took (suc fuel) tries m arena all [] pending v enough two =
      rw (take_empty fuel tries arena m v.free_chain) (
        returns (
          all_full (record {
            valid = v;
            blocks = λ q. refl;
            live = refl;
            supply = refl;
            bits = λ q j. refl;
          })))
  take_from_free-Took (suc fuel) tries m arena all (p ∷ rest) pending v enough two =
      let here = page p rest v in
      let head = v.free_chain.0 in
      let call : ℕ → Run (Memory (PageArena T)) (Arena × Option BlockPtr) =
        λ q. and_then (Page.acquire_free_block tries q m) (after fuel tries arena q) in
      rw (take_round fuel tries arena m (λ z. here.not_null (sym head ∙ z)) ∙ ap call head) (
        Returns.bind (acquire_free_block-ArenaAcquired m p tries here.alive here.bits two)
          (λ o m' a.
            next
              (λ is_full.
                take_from_free-Took fuel tries (popped m p) (behind m arena p) all rest pending
                  (popped-IsValid p rest v is_full) (omega arith) two)
              o m' a))
    where
      next :
          (((i : ℕ) → i < block_per_page → is_free (m.page p) i ≡ false)
            → Returns
                (Took (popped m p) all pending)
                (take_from_free fuel tries (behind m arena p) (popped m p)))
          → (o : Option BlockPtr) (m' : Memory (PageArena T)) → ArenaAcquired m p o m'
          → Returns (Took m all pending) (after fuel tries arena p o m')
      next go_on o m' (page_full is_full) =
          rw (after-none fuel tries p arena m (page p rest v).alive)
            (Returns.mono (go_on is_full) (λ r m'' t. Took-popped p t))
      next go_on o _ (block_taken i m' lt was bits cleared only) = returns (
          took (record {
            free = p ∷ rest;
            valid = taken-IsValid p rest v i bits cleared only;
            blocks = only.blocks;
            live = only.live;
            supply = only.supply;
            member = member p rest v;
            below = lt;
            was_free = was;
            bits = taken_bits p i cleared only;
          }))
