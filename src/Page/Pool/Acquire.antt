-- ===== src/Page/Pool/Acquire.antt =====
-- `PagePool::acquire_free_block` of page/pool.rs.
use shared_arena.Base.{
  ℕ, ◌^◌, ◌≤◌, ◌<◌, bit_and, ◌≡◌, refl, inl, inr, true, false, not, ◌&&◌, Option, none, some, arith,
  ◌==◌, Bool-cases, ==_iff,
}
use shared_arena.Word.{test_bit, bit_not, IsWord, trailing_zeros, block_per_page}
use shared_arena.Word.Ext.{test_bit_clear}
use shared_arena.Word.Count.{
  test_bit-trailing_zeros, trailing_zeros_below, trailing_zeros-le_of_set,
}
use shared_arena.Memory.{Memory, BlockPtr, with_page}
use shared_arena.Run.{ok}
use shared_arena.Run.Returns.{Returns, returns}
use shared_arena.Page.Pool.{PagePool, acquire_free_block}

-- A bitfield as a page of an existing pool has it: the bit of the arena is set.
abbrev pub IsBitfield : ℕ → Type 0
IsBitfield w = IsWord w × (test_bit w 63 ≡ true)

module _ {T : Type 0} (m : Memory (PagePool T)) (p : ℕ) where
  abbrev pub bits : ℕ
  bits = (m.page p).bitfield

  -- The memory after block `i` of the page at `p` was marked as in use.
  abbrev pub acquired : ℕ → Memory (PagePool T)
  acquired i = with_page m p (record (m.page p) { bitfield = bit_and bits (bit_not (2 ^ i)) })

module _ {T : Type 0} (m : Memory (PagePool T)) (p : ℕ) (alive : m.live p ≡ true) where
  pub acquire_none : trailing_zeros (bits m p) ≡ 63 → acquire_free_block p m ≡ ok none m
  unfolding acquire_free_block
  acquire_none e = ground arith

  pub acquire_some :
      trailing_zeros (bits m p) < 63
      → acquire_free_block p m
        ≡ ok
            (some (record { page = p; index = trailing_zeros (bits m p) }))
            (acquired m p (trailing_zeros (bits m p)))
  unfolding acquire_free_block
  acquire_some lt = ground arith

  -- What a call finds, from the (bits m p): every block is in use, and nothing changes; or a free block of
  -- the page with no free block below it, which is marked as in use, and no other bit changes.
  pub data Acquired : Option BlockPtr → Memory (PagePool T) → Type 0 where
    page_full : ((i : ℕ) → i < block_per_page → test_bit (bits m p) i ≡ false) → Acquired none m
    block_taken :
        (i : ℕ) (m' : Memory (PagePool T))
        → i < block_per_page
        → test_bit (bits m p) i ≡ true
        → ((j : ℕ) → j < i → test_bit (bits m p) j ≡ false)
        → m' ≡ acquired m p i
        → ((j : ℕ) → test_bit (m'.page p).bitfield j ≡ (test_bit (bits m p) j && not (j == i)))
        → Acquired (some (record { page = p; index = i })) m'

  pub trailing-le-last : IsBitfield (bits m p) → trailing_zeros (bits m p) ≤ 63
  trailing-le-last (word, top) = trailing_zeros-le_of_set (bits m p) 63 top

  -- `PagePool::acquire_free_block` of a live page whose top bit is set returns: nothing, where all
  -- 63 bits are clear, and changes nothing; or the block of the lowest set bit, which it clears,
  -- every other bit kept.
  pub acquire_free_block-Acquired :
      IsBitfield (bits m p) → Returns Acquired (acquire_free_block p m)
  acquire_free_block-Acquired b = elim (Bool-cases (trailing_zeros (bits m p) == 63)) [
    | inl e ↦
        let full = (==_iff (trailing_zeros (bits m p)) 63).0 e in
        rw (acquire_none full)
          (returns (page_full (λ i lt. trailing_zeros_below (bits m p) i (rw full lt))))
    | inr e ↦
        let lt : trailing_zeros (bits m p) < 63 = ground (arith, trailing-le-last b) in
        rw (acquire_some lt) (
          returns (
            block_taken (trailing_zeros (bits m p)) (acquired m p (trailing_zeros (bits m p))) lt
              (test_bit-trailing_zeros (bits m p) (omega arith)) (trailing_zeros_below (bits m p))
              refl
              (λ j. ground (
                arith,
                test_bit_clear (bits m p) (trailing_zeros (bits m p)) j b.0 (omega arith),
              ))))
  ]
