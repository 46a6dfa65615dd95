-- ===== src/Word.antt =====
-- Machine words of 64 bits (`usize` on a 64-bit target) as natural numbers below `2 ^ 64`, with the
-- operations of the Rust standard library that the bitfields of the pages use.
pub mod Bits
pub mod Ext
pub mod Count
use shared_arena.Base.{ℕ, zero, suc, ◌+◌, ◌-◌, ◌*◌, ◌/◌, ◌%◌, ◌^◌, ◌<◌, Bool, ◌==◌, if◌then◌else◌}

-- `BITFIELD_WIDTH`, `BLOCK_PER_PAGE` and `MASK_ARENA_BIT` of common.rs at a 64-bit target.
abbrev pub bitfield_width : ℕ
bitfield_width = 64

abbrev pub block_per_page : ℕ
block_per_page = bitfield_width - 1

abbrev pub mask_arena_bit : ℕ
mask_arena_bit = 2 ^ (bitfield_width - 1)

abbrev pub u64_mod : ℕ
u64_mod = 2 ^ bitfield_width

abbrev pub IsWord : ℕ → Type 0
IsWord w = w < 2 ^ 64

-- `!0`
abbrev pub all_ones : ℕ
all_ones = 2 ^ 64 - 1

-- `!w`
abbrev pub bit_not : ℕ → ℕ
bit_not w = all_ones - w

-- Bit `i` of `w`.
abbrev pub test_bit : ℕ → ℕ → Bool
test_bit w zero = w % 2 == 1
test_bit w (suc i) = test_bit (w / 2) i

-- `trailing_zeros` of the lowest `k` bits: the first set bit, `k` where there is none.
unfoldable pub trailing : ℕ → ℕ → ℕ
trailing zero w = 0
trailing (suc k) w = let rest = trailing k (w / 2) in if w % 2 == 1 then 0 else suc rest

-- `usize::trailing_zeros`
unfoldable pub trailing_zeros : ℕ → ℕ
trailing_zeros w = trailing 64 w

-- The number of ones among the lowest `k` bits.
unfoldable pub ones : ℕ → ℕ → ℕ
ones zero w = 0
ones (suc k) w = w % 2 + ones k (w / 2)

-- `usize::count_ones` and `usize::count_zeros`
unfoldable pub count_ones : ℕ → ℕ
count_ones w = ones 64 w

unfoldable pub count_zeros : ℕ → ℕ
count_zeros w = 64 - count_ones w
