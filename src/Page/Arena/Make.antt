-- ===== src/Page/Arena/Make.antt =====
-- `PageArena::new` and `PageArena::make_list` of page/arena.rs: fresh pages, linked in a list.
use shared_arena.Base.{
  ℕ, zero, suc, ◌<◌, ◌≡◌, refl, true, none, List, [], ◌∷◌, ◌++◌, length, ==_refl,
}
use shared_arena.Word.{all_ones}
use shared_arena.Block.{Block}
use shared_arena.Block.Kind.{arena_kind}
use shared_arena.Block.PageTaggedPtr
use shared_arena.Memory.{Memory, update, alloc, deref, store, checked_sub}
use shared_arena.Memory.Fresh.{Made, Makes, new_pages, new_list, new_list-Made}
use shared_arena.Memory.Supply.{Supply}
use shared_arena.Run.{ok, and_then}
use shared_arena.Run.Returns.{Returns, returns}
use shared_arena.Page.Arena.{PageArena, uninit, new, make_list_loop, make_list}

module _ {T : Type 0} where
  abbrev pub fresh_blocks : ℕ → ℕ → Block T
  fresh_blocks a i = record { value = none; counter = 0; page = PageTaggedPtr.new a i arena_kind }

  abbrev pub free_of : PageArena T → ℕ
  free_of g = g.next_free

  abbrev pub next_of : PageArena T → ℕ
  next_of g = g.next

  -- A page as `PageArena::new` leaves it, whatever its links are.
  pub record IsNew (a : ℕ) (g : PageArena T) : Type 0 where
    pub bitfield : g.bitfield ≡ all_ones
    pub bitfield_atomic : g.bitfield_atomic ≡ 0
    pub blocks : g.blocks ≡ fresh_blocks a
    pub flag : g.in_free_list ≡ true

  abbrev created : Memory (PageArena T) → (next a : ℕ) → List ℕ → Memory (PageArena T)
  created m next a rest = record m {
    page = update (update m.page a (uninit (m.page a))) a (record {
      bitfield = all_ones;
      bitfield_atomic = 0;
      blocks = fresh_blocks a;
      next_free = next;
      next = next;
      in_free_list = true;
    });
    live = update m.live a true;
    supply = rest;
  }

  new-eq :
      (m : Memory (PageArena T)) (next a : ℕ) (rest : List ℕ)
      → m.supply ≡ a ∷ rest
      → new next m ≡ ok a (created m next a rest)
  unfolding new alloc deref store
  new-eq m next a rest e = rw e (simp (==_refl))

  new-New : Makes free_of next_of IsNew new
  new-New m next a rest e = rw (new-eq m next a rest e) (
      returns (
        refl,
        record {
          others = λ q ne. rw ne;
          content =
              rw (==_refl a)
                (record { bitfield = refl; bitfield_atomic = refl; blocks = refl; flag = refl });
          free_link = rw (==_refl a);
          next_link = rw (==_refl a);
          live = refl;
          supply = refl;
          list = refl;
        },
      ))

  -- The loop is the one that is common to the three kinds of pages.
  make_list_loop-new_pages :
      (n previous : ℕ) (m : Memory (PageArena T))
      → make_list_loop n previous m ≡ new_pages new n previous m
  unfolding make_list_loop new_pages
  make_list_loop-new_pages zero previous m = refl
  make_list_loop-new_pages (suc n) previous m =
      λ i. and_then (new previous m) (λ page m'. make_list_loop-new_pages n page m' i)

  make_list-new_list : (n : ℕ) (m : Memory (PageArena T)) → make_list n m ≡ new_list new n m
  unfolding make_list new_list
  make_list-new_list n m = λ i. and_then (new 0 m) (λ last m₁.
      and_then (checked_sub n 1 m₁) (λ rounds m₂.
        and_then (make_list_loop-new_pages rounds last m₂ i) (λ first m₃. ok (first, last) m₃)))

  pub make_list-Made :
      (n : ℕ) (m : Memory (PageArena T))
      → 0 < n
      → Supply n m.supply m.live
      → Returns
          (λ (first, last) m'.
            (xs : List ℕ) × Made free_of next_of IsNew m m' first last xs
            × (length (xs ++ last ∷ []) ≡ n))
          (make_list n m)
  make_list-Made n m pos good =
      rw make_list-new_list (new_list-Made free_of next_of IsNew new new-New n m pos good)
