-- ===== src/Arena/Valid.antt =====
-- What holds of an arena of arena.rs and of the memory of its pages between two calls of one thread.
use shared_arena.Base.{ℕ, ◌<◌, ◌≡◌, ◌≢◌, ◌∙◌, true, false, ◌||◌, some, List, length, has}
use shared_arena.Word.{IsWord, block_per_page}
use shared_arena.Block.Kind.{arena_kind}
use shared_arena.Block.PageTaggedPtr
use shared_arena.Block.Tagged.{IsCanonical}
use shared_arena.Memory.{Memory}
use shared_arena.Memory.Chain.{Chain, Distinct}
use shared_arena.Page.Arena.{PageArena}
use shared_arena.Page.Arena.Acquire.{HasBitfields, is_free}
use shared_arena.Arena.{Arena}

module _ {T : Type 0} where
  -- The page at `p` is allocated and initialised, and its blocks lead back to it.
  pub record IsPage (m : Memory (PageArena T)) (p : ℕ) : Type 0 where
    pub alive : m.live p ≡ true
    pub bits : HasBitfields (m.page p)
    pub tags :
        (i : ℕ) → i < block_per_page → ((m.page p).blocks i).page ≡ PageTaggedPtr.new p i arena_kind
    pub not_null : p ≢ 0
    pub word : IsWord p
    pub canonical : IsCanonical p

  -- `all` are the pages of the arena, `free` those of its free list and `pending` those of the list
  -- that drops put pages in, each in the order of its list.
  pub record IsValid (m : Memory (PageArena T)) (arena : Arena) (all free pending : List ℕ)
      : Type 0 where
    pub first_pending : ℕ
    pub list : m.list ≡ some first_pending
    pub free_chain : Chain (λ p. (m.page p).next_free) arena.free_list free
    pub pending_chain : Chain (λ p. (m.page p).next_free) first_pending pending
    pub all_chain : Chain (λ p. (m.page p).next) arena.full_list all
    pub free_distinct : Distinct free
    pub pending_distinct : Distinct pending
    pub all_distinct : Distinct all
    pub apart : (p : ℕ) → has p free ≡ true → has p pending ≡ false
    pub free_in_all : (p : ℕ) → has p free ≡ true → has p all ≡ true
    pub pending_in_all : (p : ℕ) → has p pending ≡ true → has p all ≡ true
    pub count : arena.npages ≡ length all
    pub pages : (p : ℕ) → has p all ≡ true → IsPage m p
    pub flags : (p : ℕ) → has p all ≡ true → (m.page p).in_free_list ≡ (has p free || has p pending)
    pub full :
        (p i : ℕ)
        → has p all ≡ true
        → (has p free || has p pending) ≡ false
        → i < block_per_page
        → is_free (m.page p) i ≡ false

  -- A page stays one while its memory and the tags of its blocks are left alone.
  pub IsPage-frame :
      {m m' : Memory (PageArena T)} {p : ℕ}
      → IsPage m p
      → m'.live p ≡ true
      → HasBitfields (m'.page p)
      → ((i : ℕ) → ((m'.page p).blocks i).page ≡ ((m.page p).blocks i).page)
      → IsPage m' p
  IsPage-frame ok alive bits same = record {
    alive = alive;
    bits = bits;
    tags = λ i lt. same i ∙ ok.tags i lt;
    not_null = ok.not_null;
    word = ok.word;
    canonical = ok.canonical;
  }
