-- ===== src/Pool/Valid.antt =====
-- What holds of a pool and of the memory of its pages between two calls.
use shared_arena.Base.{ℕ, ◌<◌, ◌≡◌, ◌≢◌, ◌∙◌, Bool, true, false, none, some, List, length, has}
use shared_arena.Word.{test_bit, IsWord, block_per_page, trailing_zeros}
use shared_arena.Block.{Block}
use shared_arena.Block.Kind.{pool_kind}
use shared_arena.Block.PageTaggedPtr
use shared_arena.Block.Tagged.{IsCanonical}
use shared_arena.Memory.{Memory}
use shared_arena.Memory.Chain.{Chain, Distinct}
use shared_arena.Page.Pool.{PagePool}
use shared_arena.Page.Pool.Acquire.{IsBitfield}
use shared_arena.Pool.{Pool}

-- The page at `p` is allocated and initialised, and its blocks lead back to it.
pub record IsPage {T : Type 0} (m : Memory (PagePool T)) (p : ℕ) : Type 0 where
  pub alive : m.live p ≡ true
  pub bits : IsBitfield (m.page p).bitfield
  pub tags :
      (i : ℕ) → i < block_per_page → ((m.page p).blocks i).page ≡ PageTaggedPtr.new p i pool_kind
  pub not_null : p ≢ 0
  pub word : IsWord p
  pub canonical : IsCanonical p

-- `all` are the pages of the pool and `free` those of its free list, in the order of the lists.
pub record IsValid {T : Type 0} (m : Memory (PagePool T)) (pool : Pool) (all free : List ℕ)
    : Type 0 where
  pub first : ℕ
  pub list : m.list ≡ some first
  pub free_chain : Chain (λ p. (m.page p).next_free) first free
  pub all_chain : Chain (λ p. (m.page p).next) pool.page_list all
  pub free_distinct : Distinct free
  pub all_distinct : Distinct all
  pub free_in_all : (p : ℕ) → has p free ≡ true → has p all ≡ true
  pub count : pool.npages ≡ length all
  pub pages : (p : ℕ) → has p all ≡ true → IsPage m p
  pub flags : (p : ℕ) → has p all ≡ true → (m.page p).in_free_list ≡ has p free
  pub full :
      (p : ℕ)
      → has p all ≡ true
      → has p free ≡ false
      → trailing_zeros (m.page p).bitfield ≡ block_per_page

-- A block whose bit is set is idle: no pointer counts it. One whose bit is clear holds a value, and
-- at least one pointer counts it.
abbrev pub BlockOk : {T : Type 0} → Bool → Block T → Type 0
BlockOk true b = b.counter ≡ 0
BlockOk false b = (b.counter ≢ 0) × (b.value ≢ none)

module _ {T : Type 0} where
  -- A page stays one while its memory, its block's tags and the arena's bit are left alone.
  pub IsPage-frame :
      {m m' : Memory (PagePool T)} {p : ℕ}
      → IsPage m p
      → m'.live p ≡ true
      → IsBitfield (m'.page p).bitfield
      → ((i : ℕ) → i < block_per_page → ((m'.page p).blocks i).page ≡ ((m.page p).blocks i).page)
      → IsPage m' p
  IsPage-frame ok alive bits same = record {
    alive = alive;
    bits = bits;
    tags = λ i lt. same i lt ∙ ok.tags i lt;
    not_null = ok.not_null;
    word = ok.word;
    canonical = ok.canonical;
  }

  -- Nothing is allocated or freed, and no block is written.
  pub record SameBlocks (m m' : Memory (PagePool T)) : Type 0 where
    pub live : m'.live ≡ m.live
    pub supply : m'.supply ≡ m.supply
    pub blocks : (p : ℕ) → (m'.page p).blocks ≡ (m.page p).blocks

  -- The state of every block agrees with its bit.
  abbrev pub Filled : Memory (PagePool T) → List ℕ → Type 0
  Filled m all =
      (p i : ℕ)
      → has p all ≡ true
      → i < block_per_page
      → BlockOk (test_bit (m.page p).bitfield i) ((m.page p).blocks i)
