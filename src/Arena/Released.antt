-- ===== src/Arena/Released.antt =====
-- The memory after `PageArena::drop_block` (page/arena.rs).
use mathlib.Core.Path.{subst}
use shared_arena.Base.{
  ℕ, ◌<◌, ◌≡◌, refl, sym, ap, ◌∙◌, inl, inr, true, false, ◌||◌, none, List, ◌∷◌, arith, ◌==◌, has,
  Bool-cases, ==_iff, ==_refl,
}
use shared_arena.Word.{block_per_page}
use shared_arena.Word.Ext.{test_bit_set}
use shared_arena.Memory.{Memory, BlockPtr}
use shared_arena.Memory.Chain.{Seg-frame, ne_of_has}
use shared_arena.Memory.Write.{block_at}
use shared_arena.Page.Arena.{PageArena, arena_blocks}
use shared_arena.Page.Arena.Acquire.{HasBitfields, is_free}
use shared_arena.Pool.Place.{is_at, is_at_eq}
use shared_arena.Arena.{Arena}
use shared_arena.Arena.Release.{freed, pushed, freed-lt}
use shared_arena.Arena.Valid.{IsPage, IsValid, IsPage-frame}

module _ {T : Type 0} (m : Memory (PageArena T)) (b : BlockPtr) where
  pub freed_bit : (q j : ℕ) → is_free ((freed m b).page q) j ≡ (is_free (m.page q) j || is_at b q j)
  freed_bit q j = elim (Bool-cases (q == b.page)) [
    | inl e ↦
        let same = (==_iff q b.page).0 e in
        ground (arith, test_bit_set (m.page b.page).bitfield_atomic b.index j, same)
    | inr e ↦ ground arith
  ]

  pub freed_other :
      (q i : ℕ) → is_at b q i ≡ false → ((freed m b).page q).blocks i ≡ (m.page q).blocks i
  freed_other q i ne = elim (Bool-cases (q == b.page)) [
    | inl e ↦ let same = (==_iff q b.page).0 e in rw (same, ==_refl b.page) (ground arith)
    | inr e ↦ rw e
  ]

  pub block_at-freed :
      block_at arena_blocks (freed m b) b ≡ record (block_at arena_blocks m b) { value = none }
  block_at-freed = ground (arith, ==_refl b.page, ==_refl b.index)

  freed_tag : (q i : ℕ) → (((freed m b).page q).blocks i).page ≡ ((m.page q).blocks i).page
  freed_tag q i = elim (Bool-cases (is_at b q i)) [
    | inl at ↦ let (e, e') = is_at_eq b q i at in rw (e, e', ==_refl b.page, ==_refl b.index)
    | inr ne ↦ ap (λ k. k.page) (freed_other q i ne)
  ]

  -- A list changes nothing of the blocks and bits.
  pub pushed_bit :
      (first q j : ℕ)
      → is_free ((pushed (freed m b) b.page first).page q) j ≡ is_free ((freed m b).page q) j
  pushed_bit first q j = elim (Bool-cases (q == b.page)) [
    | inl e ↦ rw ((==_iff q b.page).0 e) (ground (arith, ==_refl b.page))
    | inr e ↦ rw e
  ]

  pub pushed_blocks :
      (first q : ℕ)
      → ((pushed (freed m b) b.page first).page q).blocks ≡ ((freed m b).page q).blocks
  pushed_blocks first q = elim (Bool-cases (q == b.page)) [
    | inl e ↦ rw ((==_iff q b.page).0 e) (ground (arith, ==_refl b.page))
    | inr e ↦ rw e
  ]

  module _ (page : IsPage m b.page) (below : b.index < block_per_page)
      (off : is_free (m.page b.page) b.index ≡ false) where
    HasBitfields-freed : HasBitfields ((freed m b).page b.page)
    HasBitfields-freed = record {
      word = ground (arith, ==_refl b.page, page.bits.word);
      top = ground (arith, ==_refl b.page, page.bits.top);
      atomic = rw (==_refl b.page) (freed-lt m b page below);
      apart = λ j on. ground (
        arith,
        ==_refl b.page,
        page.bits.apart j,
        test_bit_set (m.page b.page).bitfield_atomic b.index j,
        ==_iff j b.index,
        off,
      );
    }

    module _ {arena : Arena} {all free pending : List ℕ} (v : IsValid m arena all free pending)
        (member : has b.page all ≡ true) where
      freed_pages : (q : ℕ) → has q all ≡ true → IsPage (freed m b) q
      freed_pages q h = IsPage-frame (v.pages q h) (v.pages q h).alive kept (λ i. freed_tag q i)
        where
          kept : HasBitfields ((freed m b).page q)
          kept = elim (Bool-cases (q == b.page)) [
            | inl e ↦
                subst (λ r. HasBitfields ((freed m b).page r)) (sym ((==_iff q b.page).0 e))
                  HasBitfields-freed
            | inr e ↦ rw e (v.pages q h).bits
          ]

      pub IsValid-freed :
          (has b.page free || has b.page pending) ≡ true
          → IsValid (freed m b) arena all free pending
      IsValid-freed in_list = record {
        first_pending = v.first_pending;
        list = v.list;
        free_chain =
            Seg-frame (λ q. (m.page q).next_free) _ 0 _ free (λ q h. ground arith) v.free_chain;
        pending_chain =
            Seg-frame (λ q. (m.page q).next_free) _ 0 _ pending (λ q h. ground arith)
              v.pending_chain;
        all_chain = Seg-frame (λ q. (m.page q).next) _ 0 _ all (λ q h. ground arith) v.all_chain;
        free_distinct = v.free_distinct;
        pending_distinct = v.pending_distinct;
        all_distinct = v.all_distinct;
        apart = v.apart;
        free_in_all = v.free_in_all;
        pending_in_all = v.pending_in_all;
        count = v.count;
        pages = freed_pages;
        flags = λ q h. ground (arith, v.flags q h);
        full = λ q j h o lt.
            ground (arith, v.full q j h o lt, freed_bit q j, ==_iff q b.page, in_list, o);
      }

      pub IsValid-pushed :
          (has b.page free || has b.page pending) ≡ false
          → IsValid (pushed (freed m b) b.page v.first_pending) arena all free (b.page ∷ pending)
      IsValid-pushed out = record {
        first_pending = b.page;
        list = refl;
        free_chain =
            Seg-frame (λ q. (m.page q).next_free) _ 0 _ free
              (λ q h. ground (arith, ne_of_has q b.page free h (ground arith))) v.free_chain;
        pending_chain = (
          refl,
          page.not_null,
          rw (==_refl b.page) (
              Seg-frame (λ q. (m.page q).next_free) _ 0 _ pending
                (λ q h. ground (arith, ne_of_has q b.page pending h (ground arith)))
                v.pending_chain),
        );
        all_chain = Seg-frame (λ q. (m.page q).next) _ 0 _ all (λ q h. ground arith) v.all_chain;
        free_distinct = v.free_distinct;
        pending_distinct = (ground arith, v.pending_distinct);
        all_distinct = v.all_distinct;
        apart = λ q h. ground (arith, v.apart q h, ne_of_has q b.page free h (ground arith));
        free_in_all = v.free_in_all;
        pending_in_all = λ q h. ground (arith, v.pending_in_all q, member, ==_iff q b.page);
        count = v.count;
        pages = λ q h.
            IsPage-frame (freed_pages q h) (freed_pages q h).alive (pushed_fields q h)
              (λ i. ap (λ f. (f i).page) (pushed_blocks v.first_pending q));
        flags = λ q h. ground (arith, v.flags q h, ==_iff q b.page);
        full = λ q j h o lt.
            pushed_bit v.first_pending q j
            ∙ ground (arith, v.full q j h, freed_bit q j, ==_iff q b.page, o);
      }
        where
          pushed_fields :
              (q : ℕ)
              → has q all ≡ true
              → HasBitfields ((pushed (freed m b) b.page v.first_pending).page q)
          pushed_fields q h = elim (Bool-cases (q == b.page)) [
            | inl e ↦
                subst (λ r. HasBitfields ((pushed (freed m b) b.page v.first_pending).page r))
                  (sym ((==_iff q b.page).0 e)) at
            | inr e ↦ rw e (v.pages q h).bits
          ]
            where
              at : HasBitfields ((pushed (freed m b) b.page v.first_pending).page b.page)
              at = record {
                word = ground (arith, ==_refl b.page, HasBitfields-freed.word);
                top = ground (arith, ==_refl b.page, HasBitfields-freed.top);
                atomic = ground (arith, ==_refl b.page, HasBitfields-freed.atomic);
                apart = λ j on. ground (arith, ==_refl b.page, HasBitfields-freed.apart j);
              }
