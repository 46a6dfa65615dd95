-- ===== src/Pool/Lifetime.antt =====
-- A pool of pool.rs that is dropped before its last box.
use shared_arena.Base.{
  ℕ, ◌-◌, ◌^◌, ◌<◌, bit_or, ◌≡◌, ap, ◌∙◌, inl, inr, Bool, false, not, none, List, arith, ◌==◌,
  if◌then◌else◌, length, has, Bool-cases, ==_iff,
}
use shared_arena.Word.{test_bit, mask_arena_bit, all_ones}
use shared_arena.Word.Ext.{test_bit-all_ones}
use shared_arena.Memory.{Memory, BlockPtr}
use shared_arena.Run.{◌>>◌}
use shared_arena.Run.Returns
use shared_arena.Run.Returns.{Returns, returns}
use shared_arena.Page.Pool.{PagePool, pool_blocks}
use shared_arena.Handle.PoolBox
use shared_arena.Pool.{Pool, drop_block}
use shared_arena.Pool.Counting.{InUse, has_value}
use shared_arena.Pool.LetGo.{LetGo, drop-LetGo}
use shared_arena.Pool.Orphan.{IsOrphan, OrphanFreed, no_block_used, PoolBox_drop-OrphanFreed}
use shared_arena.Pool.Valid.{IsValid, Filled}
use shared_arena.Pool.Walk.{drop}
use shared_arena.Pool.Write.{block_at}

-- Which pages are live after the pool with the pages `all` and the box at `b` were dropped: of its
-- pages those that have another block in use.
abbrev pub live_after : {T : Type 0} → Memory (PagePool T) → List ℕ → BlockPtr → ℕ → Bool
live_after m all b q =
    if q == b.page
    then not (no_block_used (bit_or ((m.page q).bitfield - mask_arena_bit) (2 ^ b.index)))
    else if has q all
    then not ((m.page q).bitfield == all_ones)
    else m.live q

module _ {T : Type 0} {m m₁ : Memory (PagePool T)} {pool : Pool} {all free : List ℕ} {b : BlockPtr}
    (v : IsValid m pool all free) (filled : Filled m all) (u : InUse m all b) (g : LetGo m all m₁)
    (gone : m₁.list ≡ none) where
  not_empty : ((m.page b.page).bitfield == all_ones) ≡ false
  not_empty = elim (Bool-cases ((m.page b.page).bitfield == all_ones)) [
    | inr e ↦ e
    | inl e ↦
        let full = (==_iff (m.page b.page).bitfield all_ones).0 e in
        absurd (
          cc (
            ap (λ w. test_bit w b.index) full,
            test_bit-all_ones b.index (omega (arith, u.below)),
            u.taken,
          ))
  ]

  bits : (m₁.page b.page).bitfield ≡ (m.page b.page).bitfield - mask_arena_bit
  bits = g.bitfield b.page ∙ rw u.member

  IsOrphan-left : IsOrphan m₁ b
  IsOrphan-left =
      let page = v.pages b.page u.member in
      let (value, holds) = has_value v filled u in
      record {
        alive = g.live b.page ∙ rw (u.member, not_empty);
        bits = omega (arith, bits, page.bits.0);
        below = u.below;
        tag = ap (λ f. (f b.index).page) (g.blocks b.page) ∙ page.tags b.index u.below;
        not_null = page.not_null;
        word = page.word;
        canonical = page.canonical;
        list = gone;
        value = value;
        holds = ap (λ f. (f b.index).value) (g.blocks b.page) ∙ holds;
      }

  live_after-eq :
      {m₂ : Memory (PagePool T)} → OrphanFreed m₁ b m₂ → (q : ℕ) → m₂.live q ≡ live_after m all b q
  live_after-eq f q = elim (Bool-cases (q == b.page)) [
    | inl e ↦ let same = (==_iff q b.page).0 e in f.live q ∙ rw (e, same, bits)
    | inr e ↦ f.live q ∙ rw e (g.live q)
  ]

module _ {T : Type 0} where
  -- Dropping a valid pool whose blocks agree with their bits, with more rounds than there are
  -- pages, and then the `PoolBox` of a block in use with counter 1, returns. Of the pool's pages
  -- exactly those are live after it that had a block in use other than this one, and every other
  -- page is live as before.
  pub drop_both-live :
      (fuel : ℕ) (m : Memory (PagePool T)) (pool : Pool) (all free : List ℕ) (b : BlockPtr)
      → IsValid m pool all free
      → Filled m all
      → InUse m all b
      → (block_at m b).counter ≡ 1
      → length all < fuel
      → Returns
          (λ _ m'. (q : ℕ) → m'.live q ≡ live_after m all b q)
          ((do drop fuel pool; PoolBox.drop pool_blocks drop_block b) m)
  drop_both-live fuel m pool all free b v filled u one enough =
      Returns.bind (drop-LetGo fuel m pool all free v enough) λ _ m₁ (g, gone).
        Returns.mono
          (PoolBox_drop-OrphanFreed m₁ b (IsOrphan-left v filled u g gone)
            (ap (λ f. (f b.index).counter) (g.blocks b.page) ∙ one))
          (λ _ m₂ f. live_after-eq v filled u g gone f)
