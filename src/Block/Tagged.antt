-- ===== src/Block/Tagged.antt =====
-- Reading a tagged pointer of block.rs back.
use shared_arena.Base.{
  ℕ, ◌+◌, ◌-◌, ◌*◌, ◌%◌, ◌^◌, ◌≤◌, ◌<◌, ◌≡◌, ◌≢◌, ◌↔◌, ◌⊎◌, some, arith, ltb, if◌then◌else◌,
}
use shared_arena.Word.{IsWord}
use shared_arena.Block.Fields.{bit_or_fields, bit_or_fields_high, bit_and_mask}
use shared_arena.Block.Kind.{PageKind, shared_arena_kind, arena_kind, pool_kind, into}
use shared_arena.Block.PageTaggedPtr.{make_tag, new, sar8, page_ptr, page_kind, index_block}

-- An address that sign extension from bit 55 leaves alone.
abbrev pub IsCanonical : ℕ → Type 0
IsCanonical p = (p < 2 ^ 55) ⊎ (2 ^ 64 - 2 ^ 55 ≤ p)

into-lt : (kind : PageKind) → into kind < 3
unfolding into
into-lt shared_arena_kind = omega arith
into-lt arena_kind = omega arith
into-lt pool_kind = omega arith

make_tag_sum : (i : ℕ) (kind : PageKind) → i < 64 → make_tag i kind ≡ into kind * 64 + i
unfolding make_tag
make_tag_sum i kind h =
    let e : into kind * 2 ^ 6 % 2 ^ 64 ≡ into kind * 2 ^ 6 = omega (arith, into-lt kind) in
    rw e (bit_or_fields_high 6 (into kind) i h)

new_sum :
    (p i : ℕ) (kind : PageKind) → i < 64 → new p i kind ≡ (into kind * 64 + i) * 2 ^ 56 + p % 2 ^ 56
unfolding new
new_sum p i kind h =
    let shifted : (into kind * 64 + i) * 2 ^ 56 % 2 ^ 64 ≡ (into kind * 64 + i) * 2 ^ 56 =
      omega (arith, into-lt kind) in
    rw (make_tag_sum i kind h, shifted, bit_and_mask 56 p)
      (bit_or_fields 56 (p % 2 ^ 56) (into kind * 64 + i) (omega arith))

pub index_block-new : (p i : ℕ) (kind : PageKind) → i < 64 → index_block (new p i kind) ≡ i
unfolding index_block
index_block-new p i kind h = rw (new_sum p i kind h, bit_and_mask 6) (omega arith)

pub page_kind-new : (p i : ℕ) (kind : PageKind) → i < 64 → page_kind (new p i kind) ≡ some kind
unfolding page_kind into
page_kind-new p i shared_arena_kind h = ground (arith, new_sum p i shared_arena_kind h)
page_kind-new p i arena_kind h = ground (arith, new_sum p i arena_kind h)
page_kind-new p i pool_kind h = ground (arith, new_sum p i pool_kind h)

sign_extended :
    (p i : ℕ) (kind : PageKind)
    → i < 64
    → sar8 (new p i kind * 2 ^ 8 % 2 ^ 64)
      ≡ (if ltb (p % 2 ^ 56) (2 ^ 55) then p % 2 ^ 56 else p % 2 ^ 56 + (2 ^ 64 - 2 ^ 56))
unfolding sar8
sign_extended p i kind h = ground (arith, new_sum p i kind h)

-- For an address of 64 bits and an index below 64, a tagged pointer gives the address back exactly
-- when the address is not null and sign extension from bit 55 leaves it alone; the kind and the
-- index are given back always.
pub page_ptr-new_iff :
    (p i : ℕ) (kind : PageKind)
    → IsWord p
    → i < 64
    → ((page_ptr (new p i kind) ≡ some p) ↔ ((p ≢ 0) × IsCanonical p))
      × (page_kind (new p i kind) ≡ some kind)
      × (index_block (new p i kind) ≡ i)
unfolding page_ptr
page_ptr-new_iff p i kind word h = (
  (λ e. ground (arith, sign_extended p i kind h), λ c. ground (arith, sign_extended p i kind h)),
  page_kind-new p i kind h,
  index_block-new p i kind h,
)
