-- ===== src/Page/Arena/Acquire.antt =====
-- `acquire_free_block` of page/arena.rs: the two bitfields of a page.
use shared_arena.Base.{
  ℕ, zero, suc, ◌^◌, ◌<◌, bit_and, bit_or, ◌≡◌, refl, sym, ◌∙◌, inl, inr, Bool, true, false, not,
  ◌&&◌, ◌||◌, Option, none, some, arith, ◌==◌, Bool-cases, ==_iff, ==_refl,
}
use shared_arena.Word.{test_bit, IsWord, bit_not, trailing_zeros, block_per_page}
use shared_arena.Word.Bits.{test_bit-bit_or, test_bit_above, bit_or-lt}
use shared_arena.Word.Ext.{word_ext, test_bit_clear, clear-lt}
use shared_arena.Word.Count.{
  test_bit-trailing_zeros, trailing_zeros_below, trailing_zeros-le_of_set,
}
use shared_arena.Memory.{Memory, BlockPtr, deref, store, with_page}
use shared_arena.Run.{ok}
use shared_arena.Run.Returns.{Returns, returns}
use shared_arena.Page.Arena.{PageArena, acquire_free_block}

module _ {T : Type 0} where
  -- Whether block `j` is free: its bit is in one of the two bitfields.
  abbrev pub is_free : PageArena T → ℕ → Bool
  is_free g j = test_bit g.bitfield j || test_bit g.bitfield_atomic j

  -- The bitfields of a page that its arena holds: the arena's bit is in `bitfield` only, and no block
  -- is free in both.
  pub record HasBitfields (g : PageArena T) : Type 0 where
    pub word : IsWord g.bitfield
    pub top : test_bit g.bitfield 63 ≡ true
    pub atomic : g.bitfield_atomic < 2 ^ 63
    pub apart : (j : ℕ) → test_bit g.bitfield j ≡ true → test_bit g.bitfield_atomic j ≡ false

-- All but the bitfields of the page `p` is as it was.
pub record OnlyBits {T : Type 0} (m : Memory (PageArena T)) (p : ℕ) (m' : Memory (PageArena T))
    : Type 0 where
  pub others : (q : ℕ) → (q == p) ≡ false → m'.page q ≡ m.page q
  pub blocks : (q : ℕ) → (m'.page q).blocks ≡ (m.page q).blocks
  pub next_free : (q : ℕ) → (m'.page q).next_free ≡ (m.page q).next_free
  pub next : (q : ℕ) → (m'.page q).next ≡ (m.page q).next
  pub in_free_list : (q : ℕ) → (m'.page q).in_free_list ≡ (m.page q).in_free_list
  pub live : m'.live ≡ m.live
  pub list : m'.list ≡ m.list
  pub supply : m'.supply ≡ m.supply

module _ {T : Type 0} (m : Memory (PageArena T)) (p : ℕ) where
  -- The memory after the atomic bitfield was moved over.
  abbrev merged : Memory (PageArena T)
  merged = with_page m p (record (m.page p) {
    bitfield = bit_or (m.page p).bitfield (m.page p).bitfield_atomic;
    bitfield_atomic = 0;
  })

  abbrev taken : ℕ → Memory (PageArena T)
  taken i =
      with_page m p (record (m.page p) { bitfield = bit_and (m.page p).bitfield (bit_not (2 ^ i)) })

  -- Nothing is free and nothing changes; or a free block is marked as in use, all others kept.
  pub data ArenaAcquired : Option BlockPtr → Memory (PageArena T) → Type 0 where
    page_full : ((i : ℕ) → i < block_per_page → is_free (m.page p) i ≡ false) → ArenaAcquired none m
    block_taken :
        (i : ℕ) (m' : Memory (PageArena T))
        → i < block_per_page
        → is_free (m.page p) i ≡ true
        → HasBitfields (m'.page p)
        → ((j : ℕ) → is_free (m'.page p) j ≡ (is_free (m.page p) j && not (j == i)))
        → OnlyBits m p m'
        → ArenaAcquired (some (record { page = p; index = i })) m'

  module _ (alive : m.live p ≡ true) (tries : ℕ) where
    step_none :
        trailing_zeros (m.page p).bitfield ≡ 63
        → ((m.page p).bitfield_atomic == 0) ≡ true
        → acquire_free_block (suc tries) p m ≡ ok none m
    unfolding acquire_free_block deref store
    step_none e z = ground arith

    step_merge :
        trailing_zeros (m.page p).bitfield ≡ 63
        → ((m.page p).bitfield_atomic == 0) ≡ false
        → acquire_free_block (suc tries) p m ≡ acquire_free_block tries p merged
    unfolding acquire_free_block deref store
    step_merge e z = ground arith

    step_take :
        trailing_zeros (m.page p).bitfield < 63
        → acquire_free_block (suc tries) p m
          ≡ ok
              (some (record { page = p; index = trailing_zeros (m.page p).bitfield }))
              (taken (trailing_zeros (m.page p).bitfield))
    unfolding acquire_free_block deref store
    step_take lt = ground arith

OnlyBits-self : {T : Type 0} (m : Memory (PageArena T)) (p : ℕ) → OnlyBits m p m
OnlyBits-self m p = record {
  others = λ q ne. refl;
  blocks = λ q. refl;
  next_free = λ q. refl;
  next = λ q. refl;
  in_free_list = λ q. refl;
  live = refl;
  list = refl;
  supply = refl;
}

OnlyBits-merged : {T : Type 0} (m : Memory (PageArena T)) (p : ℕ) → OnlyBits m p (merged m p)
OnlyBits-merged m p = record {
  others = λ q ne. rw ne refl;
  blocks = λ q. ground (arith, ==_iff q p);
  next_free = λ q. ground (arith, ==_iff q p);
  next = λ q. ground (arith, ==_iff q p);
  in_free_list = λ q. ground (arith, ==_iff q p);
  live = refl;
  list = refl;
  supply = refl;
}

module _ {T : Type 0} (m s : Memory (PageArena T)) (p : ℕ) (h : HasBitfields (s.page p))
    (same : (j : ℕ) → is_free (s.page p) j ≡ is_free (m.page p) j) (only : OnlyBits m p s)
    (lt : trailing_zeros (s.page p).bitfield < 63) where
  abbrev index : ℕ
  index = trailing_zeros (s.page p).bitfield

  on : test_bit (s.page p).bitfield index ≡ true
  on = test_bit-trailing_zeros (s.page p).bitfield (omega arith)

  cleared :
      (j : ℕ)
      → test_bit (bit_and (s.page p).bitfield (bit_not (2 ^ index))) j
        ≡ (test_bit (s.page p).bitfield j && not (j == index))
  cleared j = test_bit_clear (s.page p).bitfield index j h.word (omega arith)

  HasBitfields-taken : HasBitfields ((taken s p index).page p)
  HasBitfields-taken = record {
    word = ground (arith, ==_refl p, clear-lt (s.page p).bitfield index h.word (omega arith));
    top = rw (==_refl p) (cleared 63 ∙ ground (arith, h.top, lt));
    atomic = ground (arith, ==_refl p, h.atomic);
    apart = λ j e. rw (==_refl p) (h.apart j (ground (arith, ==_refl p, cleared j)));
  }

  still_free :
      (j : ℕ) → is_free ((taken s p index).page p) j ≡ (is_free (m.page p) j && not (j == index))
  still_free j =
      rw (==_refl p) (ground (arith, cleared j, sym (same j), h.apart j, on, ==_iff j index))

  acquired : ArenaAcquired m p (some (record { page = p; index = index })) (taken s p index)
  acquired =
      block_taken index (taken s p index) lt (sym (same index) ∙ rw on) HasBitfields-taken
        still_free
        (record {
          others = λ q ne. rw ne (only.others q ne);
          blocks = λ q. ground (arith, only.blocks q, ==_iff q p);
          next_free = λ q. ground (arith, only.next_free q, ==_iff q p);
          next = λ q. ground (arith, only.next q, ==_iff q p);
          in_free_list = λ q. ground (arith, only.in_free_list q, ==_iff q p);
          live = only.live;
          list = only.list;
          supply = only.supply;
        })

module _ {T : Type 0} (m : Memory (PageArena T)) (p : ℕ) (h : HasBitfields (m.page p)) where
  merged_bit :
      (j : ℕ)
      → test_bit (bit_or (m.page p).bitfield (m.page p).bitfield_atomic) j ≡ is_free (m.page p) j
  merged_bit j = test_bit-bit_or j (m.page p).bitfield (m.page p).bitfield_atomic

  no_bit : (j : ℕ) → test_bit 0 j ≡ false
  no_bit j = test_bit_above 0 j 0 (omega arith) (omega arith)

  HasBitfields-merged : HasBitfields ((merged m p).page p)
  HasBitfields-merged = record {
    word = ground (
      arith,
      ==_refl p,
      bit_or-lt 64 (m.page p).bitfield (m.page p).bitfield_atomic h.word (omega (arith, h.atomic)),
    );
    top = rw (==_refl p) (merged_bit 63 ∙ rw h.top);
    atomic = ground (arith, ==_refl p);
    apart = λ j e. rw (==_refl p) (no_bit j);
  }

  merged_free : (j : ℕ) → is_free ((merged m p).page p) j ≡ is_free (m.page p) j
  merged_free j = rw (==_refl p) (ground (arith, merged_bit j, no_bit j))

  abbrev w : ℕ
  w = bit_or (m.page p).bitfield (m.page p).bitfield_atomic

  -- Where the atomic bitfield is not empty a block is free after the move.
  merged-lt :
      ((m.page p).bitfield_atomic == 0) ≡ false → trailing_zeros ((merged m p).page p).bitfield < 63
  merged-lt some_bit = rw (==_refl p) (elim (Bool-cases (trailing_zeros w == 63)) [
    | inr e ↦ ground (arith, trailing_zeros-le_of_set w 63 (merged_bit 63 ∙ rw h.top))
    | inl e ↦
        let high : trailing_zeros w ≡ 63 = (==_iff (trailing_zeros w) 63).0 e in
        let empty : (m.page p).bitfield_atomic ≡ 0 =
          word_ext 63 (m.page p).bitfield_atomic 0 h.atomic (omega arith)
            λ j lt. ground (arith, trailing_zeros_below w j (rw high lt), merged_bit j, no_bit j) in
        absurd (ground (arith, empty))
  ])

-- `PageArena::acquire_free_block` of a live page whose arena holds it and whose two bitfields have
-- no block in common, with two tries or more, returns: nothing, where neither bitfield has a
-- block, and changes nothing; or a block that is in one of them, which is in neither after it, all
-- other blocks being in one of them or not as before, the bitfields being as required, and nothing
-- else changed in the memory.
pub acquire_free_block-ArenaAcquired :
    {T : Type 0} (m : Memory (PageArena T)) (p tries : ℕ)
    → m.live p ≡ true
    → HasBitfields (m.page p)
    → 1 < tries
    → Returns (ArenaAcquired m p) (acquire_free_block tries p m)
acquire_free_block-ArenaAcquired m p zero alive h two = absurd (omega arith)
acquire_free_block-ArenaAcquired m p (suc zero) alive h two = absurd (omega arith)
acquire_free_block-ArenaAcquired m p (suc (suc tries)) alive h two =
    elim (Bool-cases (trailing_zeros (m.page p).bitfield == 63)) [
      | inr e ↦
          let lt : trailing_zeros (m.page p).bitfield < 63 =
            ground (arith, trailing_zeros-le_of_set (m.page p).bitfield 63 h.top) in
          rw (step_take m p alive (suc tries) lt)
            (returns (acquired m m p h (λ j. refl) (OnlyBits-self m p) lt))
      | inl e ↦
          let full = (==_iff (trailing_zeros (m.page p).bitfield) 63).0 e in
          elim (Bool-cases ((m.page p).bitfield_atomic == 0)) [
            | inl z ↦
                let empty = (==_iff (m.page p).bitfield_atomic 0).0 z in
                rw (step_none m p alive (suc tries) full z) (
                  returns (
                    page_full (λ i lt.
                      rw (trailing_zeros_below (m.page p).bitfield i (rw full lt), empty)
                        (no_bit m p h i))))
            | inr z ↦
                rw
                  (step_merge m p alive (suc tries) full z
                    ∙ step_take (merged m p) p alive tries (merged-lt m p h z))
                  (returns (
                    acquired m (merged m p) p (HasBitfields-merged m p h) (merged_free m p h)
                      (OnlyBits-merged m p) (merged-lt m p h z)))
          ]
    ]
