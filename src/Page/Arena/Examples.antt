-- ===== src/Page/Arena/Examples.antt =====
-- `acquire_free_block` of page/arena.rs on a page whose free block is in the atomic bitfield.
use shared_arena.Base.{ℕ, ◌^◌, ◌≡◌, refl, sym, ap, true, some, [], arith, ◌==◌, ==_iff}
use shared_arena.Word.{test_bit}
use shared_arena.Word.Bits.{test_bit-pow}
use shared_arena.Block.Kind.{arena_kind}
use shared_arena.Block.PageTaggedPtr.{new}
use shared_arena.Memory.{Memory}
use shared_arena.Run.Returns.{Returns}
use shared_arena.Page.Arena.{PageArena, acquire_free_block}
use shared_arena.Page.Arena.Acquire.{HasBitfields, ArenaAcquired, acquire_free_block-ArenaAcquired}

abbrev full_page : PageArena ℕ
full_page = record {
  bitfield = 2 ^ 63;
  bitfield_atomic = 4;
  blocks = λ i. record { value = some 5; counter = 1; page = new 16 i arena_kind };
  next_free = 0;
  next = 0;
  in_free_list = true;
}

abbrev arena_memory : Memory (PageArena ℕ)
arena_memory = record { page = λ _. full_page; live = λ p. p == 16; list = some 0; supply = [] }

HasBitfields-full_page : HasBitfields full_page
HasBitfields-full_page = record {
  word = omega arith;
  top = refl;
  atomic = omega arith;
  apart = λ j e.
      let at : 63 ≡ j = ground (arith, test_bit-pow j 63, ==_iff j 63) in
      ap (λ i. test_bit 4 i) (sym at);
}

acquire_free_block-ArenaAcquired_example :
    Returns (ArenaAcquired arena_memory 16) (acquire_free_block 2 16 arena_memory)
acquire_free_block-ArenaAcquired_example =
    acquire_free_block-ArenaAcquired arena_memory 16 2 refl HasBitfields-full_page (omega arith)
