-- ===== src/Block/Examples.antt =====
-- Tagged pointers at concrete addresses.
use shared_arena.Base.{ℕ, ◌-◌, ◌^◌, ◌≡◌, ◌≢◌, ◌↔◌, some, arith, refl}
use shared_arena.Block.Kind.{arena_kind, pool_kind, into}
use shared_arena.Block.PageTaggedPtr.{make_tag, new, sar8, page_ptr, page_kind, index_block}
use shared_arena.Block.Tagged.{IsCanonical, page_ptr-new_iff}

page_ptr-new_iff_example :
    ((page_ptr (new 4096 5 pool_kind) ≡ some 4096) ↔ ((◌≢◌ {A = ℕ} 4096 0) × IsCanonical 4096))
    × (page_kind (new 4096 5 pool_kind) ≡ some pool_kind)
    × (index_block (new 4096 5 pool_kind) ≡ 5)
page_ptr-new_iff_example = page_ptr-new_iff 4096 5 pool_kind (omega arith) (omega arith)

-- An address with bit 55 set comes back with the high bits set.
address_lost : page_ptr (new (2 ^ 55) 5 arena_kind) ≡ some (2 ^ 64 - 2 ^ 55)
unfolding page_ptr new make_tag into sar8
address_lost = refl
