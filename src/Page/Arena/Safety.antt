-- ===== src/Page/Arena/Safety.antt =====
-- Blocks and the page of page/arena.rs in the states that interleavings reach.
use shared_arena.Base.{
  ℕ, ◌+◌, ◌^◌, ◌<◌, bit_or, ◌≡◌, ◌≢◌, sym, ◌∙◌, ◌⊎◌, ◌↔◌, inl, inr, true, false, arith,
  if◌then◌else◌,
}
use shared_arena.Word.{test_bit, block_per_page}
use shared_arena.Word.Bits.{test_bit-bit_or}
use shared_arena.Word.Ext.{add_bit, add_bit_word}
use shared_arena.Page.SharedArena.{holds, last}
use shared_arena.Page.SharedArena.Bits.{test_bit-fetch_and}
use shared_arena.Page.SharedArena.Invariant.{Inv}
use shared_arena.Page.SharedArena.Uses.{Inv-live, Inv-unused}
use shared_arena.Page.Arena.Merged.{atomic-IsWord}
use shared_arena.Page.Arena.Sim.{view, Sim, held, gone}
use shared_arena.Page.Arena.Simulates.{Reachable-Sim}
use shared_arena.Page.Arena.Steps.{TwoBitfields, fetch_add_bit, Reachable}

Sim-Inv : {s : TwoBitfields} → Sim s → (w : ℕ) × Inv (view s w)
Sim-Inv (held e p v calm) = (_, v)
Sim-Inv (gone e word top v) = (_, v)

module _ {s : TwoBitfields} (r : Reachable s) where
  inv : Inv (view s (Sim-Inv (Reachable-Sim r)).0)
  inv = (Sim-Inv (Reachable-Sim r)).1

  -- In every state that some interleaving of the atomic operations of `acquire_free_block`,
  -- `drop_block` and `drop_page` of page/arena.rs on one page reaches: while the arena holds the
  -- page or a pointer owns one of its blocks, the page is not deallocated and no task is about to
  -- deallocate it.
  pub page_live_while_used :
      (s.arena_holds ≡ true) ⊎ ((t i : ℕ) × (s.local t ≡ holds i))
      → (s.live ≡ true) × ((t : ℕ) → s.local t ≢ last)
  page_live_while_used (inl arena) = Inv-live inv (inl arena)
  page_live_while_used (inr (t, i, e)) = Inv-live inv (inr (t, i, inl e))

  -- In every such state of a page of page/arena.rs where the arena has let go of the page and no
  -- pointer owns a block of it, the page was deallocated, or it is live and exactly one task is
  -- about to deallocate it.
  pub page_freed_when_unused :
      s.arena_holds ≡ false
      → ((t i : ℕ) → s.local t ≢ holds i)
      → ((t : ℕ) × (s.local t ≡ last) × (s.live ≡ true) × ((u : ℕ) → s.local u ≡ last → u ≡ t))
        ⊎ (s.live ≡ false)
  page_freed_when_unused = Inv-unused inv

  -- In every such state of a page of page/arena.rs two tasks that own the same block are the same
  -- task.
  pub takers_differ : (t u i : ℕ) → s.local t ≡ holds i → s.local u ≡ holds i → t ≡ u
  takers_differ = inv.unique

  -- In every such state of a page of page/arena.rs, with `bitfield` and `bitfield_atomic` taken
  -- together while the arena holds the page, and `bitfield_atomic` alone after that: the bit of a
  -- block is clear exactly when some task owns the block.
  pub block_free_iff_unowned :
      (i : ℕ)
      → i < block_per_page
      → (test_bit
            (if s.arena_holds then bit_or s.bitfield s.bitfield_atomic else s.bitfield_atomic)
            i
          ≡ false)
        ↔ ((t : ℕ) × (s.local t ≡ holds i))
  block_free_iff_unowned i lt = elim (Reachable-Sim r) [
    | held e p v calm ↦ rw e (v.owner i lt, λ (t, h). (v.owned t i h).1)
    | gone e word top v ↦
        let same = test_bit-fetch_and s.bitfield_atomic word 63 (omega arith) i in
        rw e (
          (λ off. v.owner i lt (ground (arith, same))),
          (λ (t, h). let off = (v.owned t i h).1 in ground (arith, same)),
        )
  ]

  -- In every reachable state of a page of page/arena.rs where a task owns a block, the `fetch_add`
  -- of its `drop_block` on `bitfield_atomic` sets the bit of the block and no other, without a
  -- carry.
  pub atomic_fetch_add-bit_or :
      (t i : ℕ)
      → s.local t ≡ holds i
      → (fetch_add_bit s.bitfield_atomic i ≡ bit_or s.bitfield_atomic (2 ^ i))
        × (fetch_add_bit s.bitfield_atomic i ≡ s.bitfield_atomic + 2 ^ i)
  unfolding fetch_add_bit
  atomic_fetch_add-bit_or t i h = elim (Reachable-Sim r) [
    | held e p v calm ↦
        let (lt, off) = v.owned t i h in
        let off_a : test_bit s.bitfield_atomic i ≡ false =
          ground (arith, test_bit-bit_or i s.bitfield s.bitfield_atomic) in
        let same = add_bit_word s.bitfield_atomic i (atomic-IsWord p) (omega (arith, lt)) off_a in
        (
          same,
          same ∙ sym (add_bit 64 i s.bitfield_atomic (atomic-IsWord p) (omega (arith, lt)) off_a),
        )
    | gone e word top v ↦
        let (lt, off) = v.owned t i h in
        let off_a : test_bit s.bitfield_atomic i ≡ false =
          ground (arith, test_bit-fetch_and s.bitfield_atomic word 63 (omega arith) i) in
        let same = add_bit_word s.bitfield_atomic i word (omega (arith, lt)) off_a in
        (same, same ∙ sym (add_bit 64 i s.bitfield_atomic word (omega (arith, lt)) off_a))
  ]
