-- ===== src/Block/PageTaggedPtr.antt =====
-- `PageTaggedPtr` of block.rs on a 64-bit target: one word with the page's address in its low 56 bits,
-- the block's index in the next six and the page's kind in the top two.
use shared_arena.Base.{
  ℕ, ◌+◌, ◌-◌, ◌*◌, ◌/◌, ◌%◌, ◌^◌, bit_and, bit_or, Option, none, some, ltb, ◌==◌, if◌then◌else◌,
}
use shared_arena.Word.{bit_not}
use shared_arena.Block.Kind.{PageKind, shared_arena_kind, arena_kind, pool_kind, into}

unfoldable pub make_tag : ℕ → PageKind → ℕ
unfolding into
make_tag index kind = let k = into kind * 2 ^ 6 % 2 ^ 64 in bit_or k index

unfoldable pub new : (page_ptr index : ℕ) → PageKind → ℕ
unfolding make_tag
new page_ptr index kind =
    let tag = make_tag index kind in
    bit_or (bit_and page_ptr (bit_not (0b11111111 * 2 ^ 56 % 2 ^ 64))) (tag * 2 ^ 56 % 2 ^ 64)

-- `x as isize >> 8`: the sign bit is copied into the eight high bits.
unfoldable pub sar8 : ℕ → ℕ
sar8 x = if ltb x (2 ^ 63) then x / 2 ^ 8 else x / 2 ^ 8 + (2 ^ 64 - 2 ^ 56)

-- `none` is the panic of `NonNull::new(ptr).expect(..)`.
unfoldable pub page_ptr : ℕ → Option ℕ
page_ptr word = let ptr = sar8 (word * 2 ^ 8 % 2 ^ 64) in if ptr == 0 then none else some ptr

-- `PageKind::from`; `none` is its panic.
unfoldable pub page_kind : ℕ → Option PageKind
page_kind word =
    let kind = word / 2 ^ 62 in
    if kind == 0
    then some shared_arena_kind
    else if kind == 1
    then some arena_kind
    else if kind == 2
    then some pool_kind
    else none

unfoldable pub index_block : ℕ → ℕ
index_block word = bit_and (word / 2 ^ 56) 0b111111
