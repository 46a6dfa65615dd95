-- ===== src/Arena/Examples.antt =====
-- `Arena::find_place` (arena.rs) on an arena with two pages: the free one is full, and a block of the
-- pending one was given back.
use mathlib.Core.Path.{subst}
use shared_arena.Base.{
  ℕ, ◌^◌, ◌<◌, ◌≡◌, refl, sym, ◌∙◌, ◌||◌, ◌&&◌, ◌⊎◌, ◌-◌, ◌*◌, Bool, Bool-cases, inl, inr, true,
  false, none, some, [], ◌∷◌, arith, ◌==◌, if◌then◌else◌, has, ==_iff,
}
use shared_arena.Word.Bits.{test_bit_above, test_bit-pow}
use shared_arena.Block.Kind.{arena_kind}
use shared_arena.Block.PageTaggedPtr
use shared_arena.Block.{Block}
use shared_arena.Memory.{Memory, BlockPtr}
use shared_arena.Memory.Write.{block_at}
use shared_arena.Memory.Supply.{Supply}
use shared_arena.Word.{block_per_page, test_bit}
use shared_arena.Run.{ok}
use shared_arena.Run.Returns.{Returns}
use shared_arena.Page.Arena.{PageArena, arena_blocks}
use shared_arena.Page.Arena.Acquire.{HasBitfields, is_free}
use shared_arena.Handle.ArenaArc
use shared_arena.Pool.Valid.{BlockOk}
use shared_arena.Arena.{Arena, find_place, drop_block}
use shared_arena.Arena.Alloc.{alloc, alloc_arc, alloc_rc}
use shared_arena.Arena.Counting.{InUse, Counted, ArenaArc_drop_cases}
use shared_arena.Arena.Freed.{Freed}
use shared_arena.Arena.RoundTrip.{Restored, shared_once, arena_arc_round_trip}
use shared_arena.Arena.LetGo.{LetGo, arena_drop-LetGo}
use shared_arena.Arena.Stats.{in_use, shown, arena_stats-eq}
use shared_arena.Arena.Store.{Stored}
use shared_arena.Arena.Stores.{arena_allocs-Stored}
use shared_arena.Arena.Walk.{stats, debug_pages, drop}
use shared_arena.Arena.Write.{Filled}
use shared_arena.Arena.Find.{arena_find_place-Placed}
use shared_arena.Arena.Place.{Placed}
use shared_arena.Arena.Valid.{IsPage, IsValid}

abbrev given_back : ℕ → ℕ
given_back p = if p == 32 then 1 else 0

-- The free block, or one with a value.
abbrev a_block : Bool → ℕ → ℕ → Block ℕ
a_block true p i = record { value = none; counter = 0; page = PageTaggedPtr.new p i arena_kind }
a_block false p i = record { value = some 5; counter = 1; page = PageTaggedPtr.new p i arena_kind }

abbrev two_pages : Memory (PageArena ℕ)
two_pages = record {
  page = λ p. record {
    bitfield = 2 ^ 63;
    bitfield_atomic = given_back p;
    blocks = λ i. a_block (p == 32 && i == 0) p i;
    next_free = 0;
    next = if p == 16 then 32 else 0;
    in_free_list = true;
  };
  live = λ p. p == 16 || p == 32;
  list = some 32;
  supply = 48 ∷ 64 ∷ [];
}

abbrev arena : Arena
arena = record { free_list = 16; full_list = 16; npages = 2 }

given_back-lt : (p : ℕ) → given_back p < 2 ^ 63
given_back-lt p = ground arith

HasBitfields-two : (p : ℕ) → HasBitfields (two_pages.page p)
HasBitfields-two p = record {
  word = omega arith;
  top = refl;
  atomic = given_back-lt p;
  apart = λ j on.
      let at : j ≡ 63 = (==_iff j 63).0 (sym (test_bit-pow j 63) ∙ on) in
      test_bit_above 63 j (given_back p) (given_back-lt p) (omega (arith, at));
}

IsPage-two : (p : ℕ) → has p (16 ∷ 32 ∷ []) ≡ true → IsPage two_pages p
IsPage-two p h = record {
  alive = ground (arith, h);
  bits = HasBitfields-two p;
  tags = λ i lt. tag (p == 32 && i == 0) i;
  not_null = λ z. absurd (ground (arith, h));
  word = ground (arith, h);
  canonical = inl (ground (arith, h));
}
  where
    tag : (t : Bool) (i : ℕ) → (a_block t p i).page ≡ PageTaggedPtr.new p i arena_kind
    tag true i = refl
    tag false i = refl

IsValid-two : IsValid two_pages arena (16 ∷ 32 ∷ []) (16 ∷ []) (32 ∷ [])
IsValid-two = record {
  first_pending = 32;
  list = refl;
  free_chain = (refl, λ e. absurd (omega arith), refl);
  pending_chain = (refl, λ e. absurd (omega arith), refl);
  all_chain = (refl, λ e. absurd (omega arith), (refl, λ e. absurd (omega arith), refl));
  free_distinct = (refl, tt);
  pending_distinct = (refl, tt);
  all_distinct = (refl, (refl, tt));
  apart = λ p h. ground (arith, h);
  free_in_all = λ p h. ground (arith, h);
  pending_in_all = λ p h. ground (arith, h);
  count = refl;
  pages = IsPage-two;
  flags = λ p h. ground (arith, h);
  full = λ p i h o lt. absurd (ground (arith, h, o));
}

free_two : (p i : ℕ) → i < block_per_page → is_free (two_pages.page p) i ≡ (p == 32 && i == 0)
free_two p i lt =
    let top : test_bit (2 ^ 63) i ≡ false = test_bit-pow i 63 ∙ ground arith in
    elim (Bool-cases (p == 32)) [
      | inl e ↦ rw (top, e) (test_bit-pow i 0)
      | inr e ↦ rw (top, e) (test_bit_above 0 i 0 (omega arith) (omega arith))
    ]

Filled-two : Filled two_pages (16 ∷ 32 ∷ [])
Filled-two p i h lt =
    subst (λ t. BlockOk t (a_block (p == 32 && i == 0) p i)) (sym (free_two p i lt))
      (ok_of (p == 32 && i == 0))
  where
    ok_of : (t : Bool) → BlockOk t (a_block t p i)
    ok_of true = refl
    ok_of false = (λ e. absurd (omega (arith, e)), λ e. cc)

Supply-two : Supply 2 two_pages.supply two_pages.live
Supply-two = (
  refl,
  λ e. absurd (omega arith),
  omega arith,
  inl (omega arith),
  (refl, λ e. absurd (omega arith), omega arith, inl (omega arith), tt),
)

-- A block in use, counted once.
abbrev used : BlockPtr
used = record { page = 16; index = 3 }

InUse-used : InUse two_pages (16 ∷ 32 ∷ []) used
InUse-used = record { member = refl; below = omega arith; taken = free_two 16 3 (omega arith) }

arena_find_place-Placed_example :
    Returns
      (λ (arena', b) m'. Placed two_pages (16 ∷ 32 ∷ []) arena' b m')
      (find_place 3 3 2 arena two_pages)
arena_find_place-Placed_example =
    arena_find_place-Placed 3 3 2 two_pages arena (16 ∷ 32 ∷ []) (16 ∷ []) (32 ∷ []) IsValid-two
      Supply-two (omega arith) (omega arith) (omega arith) (omega arith) (omega arith)

arena_allocs-Stored_example :
    Returns
      (λ (arena', b) m'. Stored two_pages (16 ∷ 32 ∷ []) 7 arena' b m')
      (alloc 3 3 2 7 arena two_pages)
    × Returns
        (λ (arena', b) m'. Stored two_pages (16 ∷ 32 ∷ []) 7 arena' b m')
        (alloc_arc 3 3 2 7 arena two_pages)
    × Returns
        (λ (arena', b) m'. Stored two_pages (16 ∷ 32 ∷ []) 7 arena' b m')
        (alloc_rc 3 3 2 7 arena two_pages)
arena_allocs-Stored_example =
    arena_allocs-Stored 3 3 2 two_pages arena (16 ∷ 32 ∷ []) (16 ∷ []) (32 ∷ []) IsValid-two
      Filled-two Supply-two (omega arith) (omega arith) (omega arith) (omega arith) (omega arith) 7

ArenaArc_drop_cases_example :
    Returns
      (λ _ m'.
        (((block_at arena_blocks two_pages used).counter ≡ 1)
          × Freed two_pages arena (16 ∷ 32 ∷ []) (16 ∷ []) used m')
        ⊎ ((1 < (block_at arena_blocks two_pages used).counter)
            × Counted two_pages arena
                (16 ∷ 32 ∷ [])
                (16 ∷ [])
                (32 ∷ [])
                used
                ((block_at arena_blocks two_pages used).counter - 1)
                m'))
      (ArenaArc.drop arena_blocks (drop_block 1) used two_pages)
ArenaArc_drop_cases_example = ArenaArc_drop_cases IsValid-two Filled-two InUse-used 0 (omega arith)

arena_arc_round_trip_example :
    Returns
      (λ arena' m'. Restored two_pages (16 ∷ 32 ∷ []) arena' m')
      (shared_once 3 3 2 7 arena two_pages)
arena_arc_round_trip_example =
    arena_arc_round_trip 3 3 1 two_pages arena (16 ∷ 32 ∷ []) (16 ∷ []) (32 ∷ []) IsValid-two
      Filled-two Supply-two (omega arith) (omega arith) (omega arith) (omega arith) (omega arith) 7

arena_stats-eq_example :
    (stats 3 arena two_pages
      ≡ ok (in_use two_pages (16 ∷ 32 ∷ []), 2 * 63 - in_use two_pages (16 ∷ 32 ∷ [])) two_pages)
    × (debug_pages 3 16 two_pages ≡ ok (shown two_pages (16 ∷ 32 ∷ [])) two_pages)
arena_stats-eq_example =
    arena_stats-eq two_pages 3 arena (16 ∷ 32 ∷ []) (16 ∷ []) (32 ∷ []) IsValid-two (omega arith)

arena_drop-LetGo_example :
    Returns (λ _ m'. LetGo two_pages (16 ∷ 32 ∷ []) m' × (m'.list ≡ none)) (drop 3 arena two_pages)
arena_drop-LetGo_example =
    arena_drop-LetGo 3 two_pages arena (16 ∷ 32 ∷ []) (16 ∷ []) (32 ∷ []) IsValid-two (omega arith)
