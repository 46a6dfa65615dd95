-- ===== src/Pool/Cursors.antt =====
-- The cursors of `shrink_to_fit` of pool.rs: the head of a list or a page's link.
use shared_arena.Base.{ℕ, ◌≡◌, refl, Bool, true, false, List, ◌∷◌, arith, ◌==◌, has}
use shared_arena.Memory.{Memory}
use shared_arena.Memory.Chain.{ne_of_has}
use shared_arena.Page.Pool.{PagePool}
use shared_arena.Pool.Walk.{Cursor, head, link}

-- Whether a cursor is a link of one of the pages.
abbrev pub on : Cursor → List ℕ → Bool
on head ps = false
on (link p) ps = has p ps

pub data Apart : Cursor → Cursor → Type 0 where
  head_link : {p : ℕ} → Apart head (link p)
  link_head : {p : ℕ} → Apart (link p) head
  links : {p q : ℕ} → (p == q) ≡ false → Apart (link p) (link q)

-- A cursor outside a list is outside its tail, and apart from its pages.
module _ (p : ℕ) (qs : List ℕ) where
  pub off_tail : (c : Cursor) → on c (p ∷ qs) ≡ false → on c qs ≡ false
  off_tail head h = refl
  off_tail (link q) h = ground arith

  pub Apart-head : (c : Cursor) → on c (p ∷ qs) ≡ false → Apart c (link p)
  Apart-head head h = head_link
  Apart-head (link q) h = links (ground arith)

  pub Apart-has :
      (q : ℕ) → has q qs ≡ true → (c : Cursor) → on c (p ∷ qs) ≡ false → Apart (link q) c
  Apart-has q i head h = link_head
  Apart-has q i (link r) h = links (ne_of_has q r qs i (ground arith))

module _ {T : Type 0} where
  -- A cursor can be read.
  abbrev pub CanRead : Cursor → Memory (PagePool T) → Type 0
  CanRead head m = Unit
  CanRead (link p) m = m.live p ≡ true
