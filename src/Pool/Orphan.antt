-- ===== src/Pool/Orphan.antt =====
-- Drops of boxes of pool.rs whose pool was dropped before.
use shared_arena.Base.{
  ℕ, ◌-◌, ◌^◌, ◌<◌, bit_or, ◌≡◌, ◌≢◌, refl, ap, ◌∙◌, inl, inr, Bool, true, false, not, none, some,
  arith, ◌==◌, if◌then◌else◌, Bool-cases, ==_iff, ==_refl,
}
use shared_arena.Word.{mask_arena_bit, bit_not, IsWord, block_per_page}
use shared_arena.Word.Bits.{bit_or-lt}
use shared_arena.Word.Ext.{pow-lt}
use shared_arena.Block
use shared_arena.Block.{Block}
use shared_arena.Block.Kind.{pool_kind}
use shared_arena.Block.PageTaggedPtr
use shared_arena.Block.Tagged.{IsCanonical, page_ptr-new_iff}
use shared_arena.Memory.{Memory, BlockPtr, dealloc, with_page}
use shared_arena.Run.{Run, ok}
use shared_arena.Run.Returns
use shared_arena.Run.Returns.{Returns, returns}
use shared_arena.Page.Pool as Page
use shared_arena.Page.Pool.{PagePool, pool_blocks, put_in_free_list}
use shared_arena.Handle.PoolBox
use shared_arena.Pool.{drop_block}
use shared_arena.Pool.Handles.{counted, box_drop}
use shared_arena.Pool.Write.{block_at, read_block-eq, drop_in_place-eq}
use shared_arena.Pool.Release.{emptied, freed_bits, freed}

-- A block in use, on a live page that the pool has let go of.
pub record IsOrphan {T : Type 0} (m : Memory (PagePool T)) (b : BlockPtr) : Type 0 where
  pub alive : m.live b.page ≡ true
  pub bits : (m.page b.page).bitfield < 2 ^ 63
  pub below : b.index < block_per_page
  pub tag : (block_at m b).page ≡ PageTaggedPtr.new b.page b.index pool_kind
  pub not_null : b.page ≢ 0
  pub word : IsWord b.page
  pub canonical : IsCanonical b.page
  pub list : m.list ≡ none
  pub value : T
  pub holds : (block_at m b).value ≡ some value

-- Whether no block of a page is in use, where the arena's bit is clear.
abbrev pub no_block_used : ℕ → Bool
no_block_used w = w == mask_arena_bit - 1

-- The block is free; the page is deallocated if no other block of it was in use.
pub record OrphanFreed {T : Type 0} (m : Memory (PagePool T)) (b : BlockPtr)
    (m' : Memory (PagePool T)) : Type 0 where
  pub live :
      (q : ℕ)
      → m'.live q ≡ (
          if q == b.page
          then not (no_block_used (bit_or (m.page b.page).bitfield (2 ^ b.index)))
          else m.live q)
  pub bitfield : (m'.page b.page).bitfield ≡ bit_or (m.page b.page).bitfield (2 ^ b.index)
  pub others : (q : ℕ) → (q == b.page) ≡ false → m'.page q ≡ m.page q
  pub list : m'.list ≡ none

module _ {T : Type 0} (m : Memory (PagePool T)) (b : BlockPtr) (o : IsOrphan m b) where
  read_back :
      (PageTaggedPtr.page_ptr (block_at m b).page ≡ some b.page)
      × (PageTaggedPtr.page_kind (block_at m b).page ≡ some pool_kind)
      × (PageTaggedPtr.index_block (block_at m b).page ≡ b.index)
  read_back =
      let (address, kind, i) =
        page_ptr-new_iff b.page b.index pool_kind o.word (omega (arith, o.below)) in
      rw o.tag (address.1 (o.not_null, o.canonical), kind, i)

  dispatch : drop_block b m ≡ Page.drop_block b.page b m
  unfolding drop_block Block.drop_block
  dispatch =
      let (address, kind, i) = read_back in
      rw (read_block-eq m b o.alive o.below, kind, address) refl

  index : PageTaggedPtr.index_block (block_at (emptied m b) b).page ≡ b.index
  index = ap PageTaggedPtr.index_block tag ∙ read_back.2
    where
      tag : (block_at (emptied m b) b).page ≡ (block_at m b).page
      tag = ground (arith, ==_refl b.page, ==_refl b.index)

  bits-lt : freed_bits m b < 2 ^ 63
  bits-lt = bit_or-lt 63 (m.page b.page).bitfield (2 ^ b.index) o.bits (pow-lt b.index 63 o.below)

  is_last : (bit_not (freed_bits m b) == mask_arena_bit) ≡ no_block_used (freed_bits m b)
  is_last = ground (arith, bits-lt)

  last_drop :
      no_block_used (freed_bits m b) ≡ true
      → Page.drop_block b.page b m ≡ dealloc b.page (freed m b)
  unfolding Page.drop_block Page.deallocate_page
  last_drop e = ground (
    arith,
    e,
    is_last,
    drop_in_place-eq m b o.alive o.below o.value o.holds,
    read_block-eq (emptied m b) b o.alive o.below,
    index,
    ==_refl b.page,
  )

  abbrev flagged : Memory (PagePool T)
  flagged = with_page (freed m b) b.page (record ((freed m b).page b.page) { in_free_list = true })

  abbrev looked : Bool → Run (Memory (PagePool T)) (Unit {0})
  looked t = if t then ok tt (freed m b) else put_in_free_list b.page (freed m b)

  other_drop :
      no_block_used (freed_bits m b) ≡ false
      → Page.drop_block b.page b m ≡ looked (m.page b.page).in_free_list
  unfolding Page.drop_block
  other_drop e = elim (Bool-cases (m.page b.page).in_free_list) [
    | inl flag ↦ rw flag (
        ground (
          arith,
          e,
          is_last,
          drop_in_place-eq m b o.alive o.below o.value o.holds,
          read_block-eq (emptied m b) b o.alive o.below,
          index,
          ==_refl b.page,
        ))
    | inr flag ↦ rw flag (
        ground (
          arith,
          e,
          is_last,
          drop_in_place-eq m b o.alive o.below o.value o.holds,
          read_block-eq (emptied m b) b o.alive o.below,
          index,
          ==_refl b.page,
        ))
  ]

  no_list : put_in_free_list b.page (freed m b) ≡ ok tt flagged
  unfolding put_in_free_list
  no_list = ground (arith, o.alive, o.list)

  dealloc-eq :
      dealloc b.page (freed m b)
      ≡ ok tt (record (freed m b) { live = λ q. if q == b.page then false else m.live q })
  unfolding dealloc
  dealloc-eq = ground (arith, o.alive)

  drop_block-OrphanFreed : Returns (λ _ m'. OrphanFreed m b m') (drop_block b m)
  drop_block-OrphanFreed = elim (Bool-cases (no_block_used (freed_bits m b))) [
    | inl e ↦ rw (dispatch ∙ last_drop e ∙ dealloc-eq) (
        returns (record {
          live = λ q. ground (arith, e);
          bitfield = ground (arith, ==_refl b.page);
          others = λ q ne. rw ne;
          list = o.list;
        }))
    | inr e ↦ elim (Bool-cases (m.page b.page).in_free_list) [
      | inl flag ↦ rw (dispatch ∙ other_drop e ∙ ap looked flag) (
          returns (record {
            live = λ q. ground (arith, e, o.alive, ==_iff q b.page);
            bitfield = ground (arith, ==_refl b.page);
            others = λ q ne. rw ne;
            list = o.list;
          }))
      | inr flag ↦ rw (dispatch ∙ other_drop e ∙ ap looked flag ∙ no_list) (
          returns (record {
            live = λ q. ground (arith, e, o.alive, ==_iff q b.page);
            bitfield = ground (arith, ==_refl b.page);
            others = λ q ne. rw ne;
            list = o.list;
          }))
    ]
  ]

module _ {T : Type 0} (m : Memory (PagePool T)) (b : BlockPtr) (o : IsOrphan m b) where
  counted-IsOrphan : IsOrphan (counted m b 0) b
  counted-IsOrphan = record {
    alive = o.alive;
    bits = ground (arith, o.bits, ==_refl b.page);
    below = o.below;
    tag = ground (arith, ==_refl b.page, ==_refl b.index, o.tag);
    not_null = o.not_null;
    word = o.word;
    canonical = o.canonical;
    list = o.list;
    value = o.value;
    holds = ground (arith, ==_refl b.page, ==_refl b.index, o.holds);
  }

  same_bits : ((counted m b 0).page b.page).bitfield ≡ (m.page b.page).bitfield
  same_bits = ground (arith, ==_refl b.page)

  -- Dropping the `PoolBox`, with counter 1, of a block in use whose pool was dropped before
  -- returns: the bit of the block is set, the page is deallocated exactly if no other block of it
  -- was in use, and every other page is as it was.
  pub PoolBox_drop-OrphanFreed :
      (block_at m b).counter ≡ 1
      → Returns (λ _ m'. OrphanFreed m b m') (PoolBox.drop pool_blocks drop_block b m)
  PoolBox_drop-OrphanFreed one = rw (box_drop m b o.alive o.below drop_block one) (
      Returns.mono (drop_block-OrphanFreed (counted m b 0) b counted-IsOrphan) λ _ m' f. record {
        live = λ q.
            f.live q
            ∙ ap
                (λ w.
                  if q == b.page then not (no_block_used (bit_or w (2 ^ b.index))) else m.live q)
                same_bits;
        bitfield = f.bitfield ∙ ap (λ w. bit_or w (2 ^ b.index)) same_bits;
        others = λ q ne. f.others q ne ∙ rw ne;
        list = f.list;
      })
