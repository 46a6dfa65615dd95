-- ===== src/Pool/Sample.antt =====
-- A pool with one page, one block of which is in use.
use shared_arena.Memory.Supply.{Supply}
use mathlib.Core.Path.{subst}
use shared_arena.Base.{
  ℕ, zero, suc, ◌-◌, ◌^◌, ◌≡◌, inl, refl, arith, true, none, some, List, [], ◌∷◌, ◌==◌, ==_iff,
  if◌then◌else◌,
}
use shared_arena.Word.{test_bit}
use shared_arena.Word.Bits.{test_bit-complement, test_bit_above}
use shared_arena.Block.{Block}
use shared_arena.Block.Kind.{pool_kind}
use shared_arena.Block.PageTaggedPtr.{new}
use shared_arena.Memory.{Memory, BlockPtr}
use shared_arena.Page.Pool.{PagePool}
use shared_arena.Pool.{Pool}
use shared_arena.Pool.Counting.{InUse}
use shared_arena.Pool.Create.{pages_for}
use shared_arena.Pool.Grow.{to_allocate}
use shared_arena.Pool.Valid.{IsPage, IsValid, Filled}

-- A page at 16, whose block 0 holds 5 and is counted once.
abbrev pub used_block : ℕ → Block ℕ
used_block i = record {
  value = if i == 0 then some 5 else none;
  counter = if i == 0 then 1 else 0;
  page = new 16 i pool_kind;
}

abbrev pub used : Memory (PagePool ℕ)
used = record {
  page = λ _. record {
    bitfield = 2 ^ 64 - 2;
    blocks = used_block;
    next_free = 0;
    next = 0;
    in_free_list = true;
  };
  live = λ p. p == 16;
  list = some 16;
  supply = 32 ∷ 48 ∷ [];
}

abbrev pub one_page : Pool
one_page = record { page_list = 16; npages = 1 }

pub IsPage-used : IsPage used 16
IsPage-used = record {
  alive = refl;
  bits = (omega arith, refl);
  tags = λ i lt. refl;
  not_null = λ e. absurd (omega arith);
  word = omega arith;
  canonical = inl (omega arith);
}

pub IsValid-used : IsValid used one_page (16 ∷ []) (16 ∷ [])
IsValid-used = record {
  first = 16;
  list = refl;
  free_chain = (refl, λ e. absurd (omega arith), refl);
  all_chain = (refl, λ e. absurd (omega arith), refl);
  free_distinct = (refl, tt);
  all_distinct = (refl, tt);
  free_in_all = λ p h. h;
  count = refl;
  pages = λ p h. let e : 16 ≡ p = ground (arith, ==_iff p 16) in subst (IsPage used) e IsPage-used;
  flags = λ p h. ground (arith, h);
  full = λ p h o. absurd (cc (h, o));
}

pub Filled-used : Filled used (16 ∷ [])
Filled-used p zero h lt = (λ e. absurd (omega arith), λ e. absurd (cc e))
Filled-used p (suc i) h lt =
    let set : test_bit (2 ^ 63 - 1) i ≡ true =
      ground (arith, test_bit-complement 63 i 0, test_bit_above 0 i 0) in
    rw set (ground arith)

pub InUse-used : InUse used (16 ∷ []) (record { page = 16; index = 0 })
InUse-used = record { member = refl; below = omega arith; taken = refl }

pub Supply-used : Supply (to_allocate one_page) used.supply used.live
Supply-used = (refl, λ e. absurd (omega arith), omega arith, inl (omega arith), tt)

pub Supply-used_with_capacity : Supply (pages_for 100) used.supply used.live
Supply-used_with_capacity = (
  refl,
  λ e. absurd (omega arith),
  omega arith,
  inl (omega arith),
  (refl, λ e. absurd (omega arith), omega arith, inl (omega arith), tt),
)

abbrev pub used_pages : List ℕ
used_pages = 16 ∷ []

abbrev pub box : BlockPtr
box = record { page = 16; index = 0 }
