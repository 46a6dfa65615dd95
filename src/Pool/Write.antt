-- ===== src/Pool/Write.antt =====
-- Writing a block of a page of a pool.
use shared_arena.Base.{ℕ, ◌<◌, ◌≡◌, true, Option, none, some, List, arith, if◌then◌else◌, ==_iff}
use shared_arena.Word.{block_per_page}
use shared_arena.Block.{Block}
use shared_arena.Memory.{Memory, BlockPtr, read_block, write_block, write_value, drop_in_place}
use shared_arena.Memory.Write as Blocks
use shared_arena.Memory.Chain.{Seg-frame}
use shared_arena.Run.{ok}
use shared_arena.Page.Pool.{PagePool, pool_blocks}
use shared_arena.Pool.{Pool}
use shared_arena.Pool.Valid.{IsValid, IsPage-frame}
use shared_arena.Pool.Place.{is_at}

module _ {T : Type 0} where
  -- The block at `b`, and the memory after it was written.
  abbrev pub block_at : Memory (PagePool T) → BlockPtr → Block T
  block_at = Blocks.block_at pool_blocks

  abbrev pub wrote : Memory (PagePool T) → BlockPtr → Block T → Memory (PagePool T)
  wrote = Blocks.wrote pool_blocks

  module _ (m : Memory (PagePool T)) (b : BlockPtr) (alive : m.live b.page ≡ true)
      (below : b.index < block_per_page) where
    pub read_block-eq : read_block pool_blocks b m ≡ ok (block_at m b) m
    read_block-eq = Blocks.read_block-eq pool_blocks m b alive below

    pub write_block-eq : (k : Block T) → write_block pool_blocks b k m ≡ ok tt (wrote m b k)
    write_block-eq = Blocks.write_block-eq pool_blocks m b alive below

    pub write_value-eq :
        (v : Option T)
        → write_value pool_blocks b v m ≡ ok tt (wrote m b (record (block_at m b) { value = v }))
    write_value-eq = Blocks.write_value-eq pool_blocks m b alive below

    pub drop_in_place-eq :
        (v : T)
        → (block_at m b).value ≡ some v
        → drop_in_place pool_blocks b m ≡ ok tt (wrote m b (record (block_at m b) { value = none }))
    drop_in_place-eq = Blocks.drop_in_place-eq pool_blocks m b alive below

  pub block_at-wrote :
      (m : Memory (PagePool T)) (b : BlockPtr) (k : Block T) → block_at (wrote m b k) b ≡ k
  block_at-wrote = Blocks.block_at-wrote pool_blocks

  -- Every block but the one written is as it was.
  pub blocks-wrote :
      (m : Memory (PagePool T)) (b : BlockPtr) (k : Block T) (p i : ℕ)
      → ((wrote m b k).page p).blocks i ≡ (if is_at b p i then k else (m.page p).blocks i)
  blocks-wrote = Blocks.blocks-wrote pool_blocks

  pub bitfield-wrote :
      (m : Memory (PagePool T)) (b : BlockPtr) (k : Block T) (p : ℕ)
      → ((wrote m b k).page p).bitfield ≡ (m.page p).bitfield
  bitfield-wrote m b k p = ground arith

  pub wrote-IsValid :
      {m : Memory (PagePool T)} {pool : Pool} {all free : List ℕ} (b : BlockPtr) (k : Block T)
      → IsValid m pool all free
      → k.page ≡ (block_at m b).page
      → IsValid (wrote m b k) pool all free
  wrote-IsValid {m} {all} {free} b k v tag = record {
    first = v.first;
    list = v.list;
    free_chain =
        Seg-frame (λ q. (m.page q).next_free) _ 0 _ free (λ q h. ground arith) v.free_chain;
    all_chain = Seg-frame (λ q. (m.page q).next) _ 0 _ all (λ q h. ground arith) v.all_chain;
    free_distinct = v.free_distinct;
    all_distinct = v.all_distinct;
    free_in_all = v.free_in_all;
    count = v.count;
    pages = λ q h.
        IsPage-frame (v.pages q h) (v.pages q h).alive
          (rw (bitfield-wrote m b k q) (v.pages q h).bits) (λ i lt. tags q i);
    flags = λ q h. ground (arith, v.flags q h);
    full = λ q h o. rw (bitfield-wrote m b k q) (v.full q h o);
  }
    where
      tags : (q i : ℕ) → (((wrote m b k).page q).blocks i).page ≡ ((m.page q).blocks i).page
      tags q i = ground (arith, blocks-wrote m b k q i, ==_iff q b.page, ==_iff i b.index, tag)
