-- ===== src/Pool/Fresh.antt =====
-- Fresh pages of page/pool.rs as pages of a pool.
use shared_arena.Base.{ℕ, refl, Option, arith}
use shared_arena.Memory.{Memory}
use shared_arena.Page.Pool.{PagePool}
use shared_arena.Page.Pool.Make.{IsFresh}
use shared_arena.Pool.Valid.{IsPage}

module _ {T : Type 0} where
  pub IsPage-fresh : {m : Memory (PagePool T)} {p : ℕ} → IsFresh m p → IsPage m p
  IsPage-fresh f = record {
    alive = f.alive;
    bits = rw (f.bitfield) (omega arith, refl);
    tags = λ i lt. rw (f.blocks);
    not_null = f.not_null;
    word = f.word;
    canonical = f.canonical;
  }

  pub IsFresh-list :
      {m : Memory (PagePool T)} {p : ℕ} (l : Option ℕ)
      → IsFresh m p
      → IsFresh (record m { list = l }) p
  IsFresh-list l f = record {
    alive = f.alive;
    bitfield = f.bitfield;
    blocks = f.blocks;
    flag = f.flag;
    not_null = f.not_null;
    word = f.word;
    canonical = f.canonical;
  }
