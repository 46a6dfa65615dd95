-- ===== src/Arena/Taken.antt =====
-- A page leaves the free list of an arena, or a block of it is taken (arena.rs).
use mathlib.Core.Path.{subst}
use shared_arena.Base.{
  ℕ, ◌<◌, ◌≡◌, refl, sym, ap, ◌∙◌, inl, inr, true, false, not, ◌&&◌, Option, none, some, List, [],
  ◌∷◌, arith, ◌==◌, has, Bool-cases, ==_iff, ==_refl,
}
use shared_arena.Word.{block_per_page}
use shared_arena.Memory.{Memory, BlockPtr, with_page}
use shared_arena.Memory.Chain.{Seg-frame}
use shared_arena.Page.Arena.{PageArena}
use shared_arena.Page.Arena.Acquire.{HasBitfields, is_free, OnlyBits}
use shared_arena.Arena.{Arena}
use shared_arena.Arena.Valid.{IsPage, IsValid, IsPage-frame}
use shared_arena.Pool.Place.{is_at}

module _ {T : Type 0} where
  -- A block of the arena that was free is in use now, and no other block changed its state.
  pub record TookBlock (m : Memory (PageArena T)) (all pending : List ℕ) (arena' : Arena)
      (b : BlockPtr) (m' : Memory (PageArena T)) : Type 0 where
    pub free : List ℕ
    pub valid : IsValid m' arena' all free pending
    pub blocks : (q : ℕ) → (m'.page q).blocks ≡ (m.page q).blocks
    pub live : m'.live ≡ m.live
    pub supply : m'.supply ≡ m.supply
    pub member : has b.page all ≡ true
    pub below : b.index < block_per_page
    pub was_free : is_free (m.page b.page) b.index ≡ true
    pub bits : (q j : ℕ) → is_free (m'.page q) j ≡ (is_free (m.page q) j && not (is_at b q j))

  pub record AllFull (m : Memory (PageArena T)) (all pending : List ℕ) (arena' : Arena)
      (m' : Memory (PageArena T)) : Type 0 where
    pub valid : IsValid m' arena' all [] pending
    pub blocks : (q : ℕ) → (m'.page q).blocks ≡ (m.page q).blocks
    pub live : m'.live ≡ m.live
    pub supply : m'.supply ≡ m.supply
    pub bits : (q j : ℕ) → is_free (m'.page q) j ≡ is_free (m.page q) j

  -- What the inner loop comes to: such a block, or every page of the free list was full and left it.
  pub data Took (m : Memory (PageArena T)) (all pending : List ℕ)
      : Arena × Option BlockPtr → Memory (PageArena T) → Type 0 where
    all_full :
        {arena' : Arena} {m' : Memory (PageArena T)}
        → AllFull m all pending arena' m'
        → Took m all pending (arena', none) m'
    took :
        {arena' : Arena} {m' : Memory (PageArena T)} {b : BlockPtr}
        → TookBlock m all pending arena' b m'
        → Took m all pending (arena', some b) m'

  -- The memory and the arena after a full page `p` left the free list.
  abbrev pub popped : Memory (PageArena T) → ℕ → Memory (PageArena T)
  popped m p = with_page m p (record (m.page p) { in_free_list = false })

  abbrev pub behind : Memory (PageArena T) → Arena → ℕ → Arena
  behind m arena p = record arena { free_list = (m.page p).next_free }

  module _ {m : Memory (PageArena T)} {arena : Arena} {all pending : List ℕ} (p : ℕ) (rest : List ℕ)
      (v : IsValid m arena all (p ∷ rest) pending) where
    pub member : has p all ≡ true
    member = v.free_in_all p (ground (arith, ==_refl p))

    pub page : IsPage m p
    page = v.pages p member

    pub popped-IsValid :
        ((i : ℕ) → i < block_per_page → is_free (m.page p) i ≡ false)
        → IsValid (popped m p) (behind m arena p) all rest pending
    popped-IsValid is_full = record {
      first_pending = v.first_pending;
      list = v.list;
      free_chain =
          Seg-frame (λ q. (m.page q).next_free) _ 0 _ rest (λ q i. ground arith) v.free_chain.2;
      pending_chain =
          Seg-frame (λ q. (m.page q).next_free) _ 0 _ pending (λ q i. ground arith) v.pending_chain;
      all_chain = Seg-frame (λ q. (m.page q).next) _ 0 _ all (λ q i. ground arith) v.all_chain;
      free_distinct = v.free_distinct.1;
      pending_distinct = v.pending_distinct;
      all_distinct = v.all_distinct;
      apart = λ q i. v.apart q (ground arith);
      free_in_all = λ q i. v.free_in_all q (ground arith);
      pending_in_all = v.pending_in_all;
      count = v.count;
      pages = λ q i.
          IsPage-frame (v.pages q i) (v.pages q i).alive
            (elim (Bool-cases (q == p)) [
              | inl e ↦
                  let b = (v.pages p member).bits in
                  rw e (record { word = b.word; top = b.top; atomic = b.atomic; apart = b.apart })
              | inr e ↦ rw e (v.pages q i).bits
            ])
            (λ j. ground arith);
      flags =
          λ q i. ground (arith, v.flags q i, v.apart p, v.free_distinct.0, ==_refl p, ==_iff q p);
      full = λ q i h o lt. ground (arith, v.full q i h, is_full i, ==_iff q p);
    }

    pub taken-IsValid :
        {m' : Memory (PageArena T)} (i : ℕ)
        → HasBitfields (m'.page p)
        → ((j : ℕ) → is_free (m'.page p) j ≡ (is_free (m.page p) j && not (j == i)))
        → OnlyBits m p m'
        → IsValid m' arena all (p ∷ rest) pending
    taken-IsValid {m'} i bits cleared only = record {
      first_pending = v.first_pending;
      list = only.list ∙ v.list;
      free_chain =
          Seg-frame (λ q. (m.page q).next_free) _ 0 _ (p ∷ rest) (λ q h. only.next_free q)
            v.free_chain;
      pending_chain =
          Seg-frame (λ q. (m.page q).next_free) _ 0 _ pending (λ q h. only.next_free q)
            v.pending_chain;
      all_chain = Seg-frame (λ q. (m.page q).next) _ 0 _ all (λ q h. only.next q) v.all_chain;
      free_distinct = v.free_distinct;
      pending_distinct = v.pending_distinct;
      all_distinct = v.all_distinct;
      apart = v.apart;
      free_in_all = v.free_in_all;
      pending_in_all = v.pending_in_all;
      count = v.count;
      pages = λ q h.
          IsPage-frame (v.pages q h) (ap (λ f. f q) only.live ∙ (v.pages q h).alive)
            (elim (Bool-cases (q == p)) [
              | inl e ↦ subst (λ r. HasBitfields (m'.page r)) (sym ((==_iff q p).0 e)) bits
              | inr e ↦ subst HasBitfields (sym (only.others q e)) (v.pages q h).bits
            ])
            (λ j. ap (λ f. (f j).page) (only.blocks q));
      flags = λ q h. only.in_free_list q ∙ v.flags q h;
      full = λ q j h o lt.
          let other : (q == p) ≡ false = ground arith in
          ap (λ g. is_free g j) (only.others q other) ∙ v.full q j h o lt;
    }

  pub taken_bits :
      {m m' : Memory (PageArena T)} (p i : ℕ)
      → ((j : ℕ) → is_free (m'.page p) j ≡ (is_free (m.page p) j && not (j == i)))
      → OnlyBits m p m'
      → (q j : ℕ)
      → is_free (m'.page q) j
        ≡ (is_free (m.page q) j && not (is_at (record { page = p; index = i }) q j))
  taken_bits {m} {m'} p i cleared only q j = elim (Bool-cases (q == p)) [
    | inl e ↦
        subst (λ r. is_free (m'.page r) j ≡ (is_free (m.page r) j && not (r == p && j == i)))
          (sym ((==_iff q p).0 e)) (cleared j ∙ rw (==_refl p) refl)
    | inr e ↦ ap (λ g. is_free g j) (only.others q e) ∙ rw e (ground arith)
  ]

  pub Took-popped :
      {m m' : Memory (PageArena T)} {all pending : List ℕ} {r : Arena × Option BlockPtr} (p : ℕ)
      → Took (popped m p) all pending r m'
      → Took m all pending r m'
  Took-popped {m} p (all_full f) = all_full (record {
    valid = f.valid;
    blocks = λ q. f.blocks q ∙ ground (arith, ==_iff q p);
    live = f.live;
    supply = f.supply;
    bits = λ q j. f.bits q j ∙ ground (arith, ==_iff q p);
  })
  Took-popped p (took {b} t) = took (record {
    free = t.free;
    valid = t.valid;
    blocks = λ q. t.blocks q ∙ ground (arith, ==_iff q p);
    live = t.live;
    supply = t.supply;
    member = t.member;
    below = t.below;
    was_free = ground (arith, t.was_free, ==_iff b.page p);
    bits = λ q j. t.bits q j ∙ ground (arith, ==_iff q p);
  })
