-- ===== src/Arena/Write.antt =====
-- A valid arena stays one when a block of one of its pages is written.
use shared_arena.Base.{ℕ, ◌<◌, ◌≡◌, true, List, arith, has, ==_iff}
use shared_arena.Word.{block_per_page}
use shared_arena.Block.{Block}
use shared_arena.Memory.{Memory, BlockPtr}
use shared_arena.Memory.Chain.{Seg-frame}
use shared_arena.Memory.Write.{block_at, wrote, blocks-wrote}
use shared_arena.Page.Arena.{PageArena, arena_blocks}
use shared_arena.Page.Arena.Acquire.{HasBitfields, is_free}
use shared_arena.Arena.{Arena}
use shared_arena.Arena.Valid.{IsValid, IsPage-frame}
use shared_arena.Pool.Valid.{BlockOk}

module _ {T : Type 0} where
  -- The state of every block agrees with its bits.
  abbrev pub Filled : Memory (PageArena T) → List ℕ → Type 0
  Filled m all =
      (p i : ℕ)
      → has p all ≡ true
      → i < block_per_page
      → BlockOk (is_free (m.page p) i) ((m.page p).blocks i)

  pub is_free-wrote :
      (m : Memory (PageArena T)) (b : BlockPtr) (k : Block T) (p j : ℕ)
      → is_free ((wrote arena_blocks m b k).page p) j ≡ is_free (m.page p) j
  is_free-wrote m b k p j = ground (arith, ==_iff p b.page)

  HasBitfields-wrote :
      (m : Memory (PageArena T)) (b : BlockPtr) (k : Block T) (p : ℕ)
      → HasBitfields (m.page p)
      → HasBitfields ((wrote arena_blocks m b k).page p)
  HasBitfields-wrote m b k p h = record {
    word = ground (arith, h.word, ==_iff p b.page);
    top = ground (arith, h.top, ==_iff p b.page);
    atomic = ground (arith, h.atomic, ==_iff p b.page);
    apart = λ j on. ground (arith, h.apart j, ==_iff p b.page);
  }

  pub wrote-IsValid :
      {m : Memory (PageArena T)} {arena : Arena} {all free pending : List ℕ} (b : BlockPtr)
      (k : Block T)
      → IsValid m arena all free pending
      → k.page ≡ (block_at arena_blocks m b).page
      → IsValid (wrote arena_blocks m b k) arena all free pending
  wrote-IsValid {m} {all} {free} {pending} b k v tag = record {
    first_pending = v.first_pending;
    list = v.list;
    free_chain =
        Seg-frame (λ q. (m.page q).next_free) _ 0 _ free (λ q h. ground arith) v.free_chain;
    pending_chain =
        Seg-frame (λ q. (m.page q).next_free) _ 0 _ pending (λ q h. ground arith) v.pending_chain;
    all_chain = Seg-frame (λ q. (m.page q).next) _ 0 _ all (λ q h. ground arith) v.all_chain;
    free_distinct = v.free_distinct;
    pending_distinct = v.pending_distinct;
    all_distinct = v.all_distinct;
    apart = v.apart;
    free_in_all = v.free_in_all;
    pending_in_all = v.pending_in_all;
    count = v.count;
    pages = λ q h.
        IsPage-frame (v.pages q h) (v.pages q h).alive
          (HasBitfields-wrote m b k q (v.pages q h).bits) (λ i. tags q i);
    flags = λ q h. ground (arith, v.flags q h);
    full = λ q j h o lt. rw (is_free-wrote m b k q j) (v.full q j h o lt);
  }
    where
      tags :
          (q i : ℕ)
          → (((wrote arena_blocks m b k).page q).blocks i).page ≡ ((m.page q).blocks i).page
      tags q i =
          ground
            (arith, blocks-wrote arena_blocks m b k q i, ==_iff q b.page, ==_iff i b.index, tag)
