-- ===== src/Pool/Taken.antt =====
-- A page leaves the free list of a pool, or a block of it is taken (pool.rs).
use shared_arena.Base.{
  ℕ, ◌<◌, ◌≡◌, refl, ◌∙◌, inl, inr, true, false, not, ◌&&◌, Option, none, some, List, [], ◌∷◌,
  arith, ◌==◌, has, Bool-cases,
}
use shared_arena.Word.{test_bit, trailing_zeros, block_per_page}
use shared_arena.Word.Ext.{test_bit_clear, clear-lt}
use shared_arena.Memory.{Memory, BlockPtr, with_page}
use shared_arena.Memory.Chain.{Seg-frame}
use shared_arena.Page.Pool.{PagePool}
use shared_arena.Page.Pool.Acquire.{IsBitfield, bits, acquired}
use shared_arena.Pool.{Pool}
use shared_arena.Pool.Valid.{IsValid, IsPage-frame, SameBlocks}

module _ {T : Type 0} where
  -- The memory after a full page `p` left the free list.
  abbrev pub popped : Memory (PagePool T) → ℕ → Memory (PagePool T)
  popped m p = record m {
    page = (with_page m p (record (m.page p) { in_free_list = false })).page;
    list = some ((m.page p).next_free);
  }

  module _ {m : Memory (PagePool T)} {pool : Pool} {all : List ℕ} where
    pub popped-IsValid :
        (p : ℕ) (rest : List ℕ)
        → IsValid m pool all (p ∷ rest)
        → trailing_zeros (m.page p).bitfield ≡ block_per_page
        → IsValid (popped m p) pool all rest
    popped-IsValid p rest v is_full = record {
      first = (m.page p).next_free;
      list = refl;
      free_chain =
          Seg-frame (λ q. (m.page q).next_free) _ 0 _ rest (λ q i. ground arith) v.free_chain.2;
      all_chain = Seg-frame (λ q. (m.page q).next) _ 0 _ all (λ q i. ground arith) v.all_chain;
      free_distinct = v.free_distinct.1;
      all_distinct = v.all_distinct;
      free_in_all = λ q i. ground (arith, v.free_in_all q);
      count = v.count;
      pages = λ q i.
          IsPage-frame (v.pages q i) (v.pages q i).alive (ground (arith, (v.pages q i).bits))
            (λ j lt. ground arith);
      flags = λ q i. ground (arith, v.flags q i);
      full = λ q i o. ground (arith, v.full q i);
    }

    -- The memory after the lowest free block `i` of the head `p` was taken.
    pub acquired-IsValid :
        (p i : ℕ) (free : List ℕ)
        → IsValid m pool all free
        → has p free ≡ true
        → i < block_per_page
        → IsValid (acquired m p i) pool all free
    acquired-IsValid p i free v in_free lt = record {
      first = v.first;
      list = v.list;
      free_chain =
          Seg-frame (λ q. (m.page q).next_free) _ 0 _ free (λ q h. ground arith) v.free_chain;
      all_chain = Seg-frame (λ q. (m.page q).next) _ 0 _ all (λ q h. ground arith) v.all_chain;
      free_distinct = v.free_distinct;
      all_distinct = v.all_distinct;
      free_in_all = v.free_in_all;
      count = v.count;
      pages = λ q h.
          IsPage-frame (v.pages q h) (v.pages q h).alive (kept q h) (λ j below. ground arith);
      flags = λ q h. ground (arith, v.flags q h);
      full = λ q h o. ground (arith, v.full q h);
    }
      where
        kept : (q : ℕ) → has q all ≡ true → IsBitfield ((acquired m p i).page q).bitfield
        kept q h = elim (Bool-cases (q == p)) [
          | inl e ↦
              let b = (v.pages p (v.free_in_all p in_free)).bits in
              rw e (
                clear-lt (m.page p).bitfield i b.0 (omega arith),
                ground (arith, test_bit_clear (m.page p).bitfield i 63 b.0 (omega arith), b.1),
              )
          | inr e ↦ rw e (v.pages q h).bits
        ]

  -- A block of the pool that was free is in use now, and no other block changed its state.
  pub record TookBlock (m : Memory (PagePool T)) (pool : Pool) (all : List ℕ) (b : BlockPtr)
      (m' : Memory (PagePool T)) : Type 0 where
    pub free : List ℕ
    pub valid : IsValid m' pool all free
    pub same : SameBlocks m m'
    pub member : has b.page all ≡ true
    pub below : b.index < block_per_page
    pub was_free : test_bit (m.page b.page).bitfield b.index ≡ true
    pub bits :
        (p j : ℕ)
        → test_bit (m'.page p).bitfield j
          ≡ (test_bit (m.page p).bitfield j && not (p == b.page && j == b.index))

  -- What the inner loop comes to: such a block; or all pages of the free list were full and left it.
  pub data Took (m : Memory (PagePool T)) (pool : Pool) (all : List ℕ)
      : Option BlockPtr → Memory (PagePool T) → Type 0 where
    all_full :
        {m' : Memory (PagePool T)}
        → IsValid m' pool all []
        → SameBlocks m m'
        → ((p : ℕ) → (m'.page p).bitfield ≡ (m.page p).bitfield)
        → Took m pool all none m'
    took :
        {m' : Memory (PagePool T)} (b : BlockPtr)
        → TookBlock m pool all b m'
        → Took m pool all (some b) m'

  module _ {m : Memory (PagePool T)} {pool : Pool} {all : List ℕ} where
    -- A page that stays in the list with its bits shows the same to what follows.
    pub Took-popped :
        {o : Option BlockPtr} {m' : Memory (PagePool T)} (p : ℕ)
        → Took (popped m p) pool all o m'
        → Took m pool all o m'
    Took-popped p (all_full v same bits) =
        all_full v
          (record {
            live = same.live;
            supply = same.supply;
            blocks = λ q. same.blocks q ∙ ground arith;
          })
          (λ q. bits q ∙ ground arith)
    Took-popped p (took b t) = took b (record {
      free = t.free;
      valid = t.valid;
      same = record {
        live = t.same.live;
        supply = t.same.supply;
        blocks = λ q. t.same.blocks q ∙ ground arith;
      };
      member = t.member;
      below = t.below;
      was_free = ground (arith, t.was_free);
      bits = λ q j. t.bits q j ∙ ground arith;
    })
