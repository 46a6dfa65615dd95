-- ===== src/Pool/Unlink.antt =====
-- One round of the first loop of `shrink_to_fit` of pool.rs.
use shared_arena.Base.{
  ℕ, suc, ◌≡◌, ◌≢◌, refl, Bool, true, false, not, Option, some, List, [], ◌∷◌, ◌++◌, arith, ◌==◌,
  ==_refl, ==_iff, ==-eq-false,
}
use shared_arena.Word.{all_ones}
use shared_arena.Memory.{Memory, with_page, deref}
use shared_arena.Memory.Chain.{Chain}
use shared_arena.Memory.Select.{retain}
use shared_arena.Run.{ok}
use shared_arena.Page.Pool.{PagePool}
use shared_arena.Pool.Walk.{Cursor, head, link, free_at, set_free_at, unlink_unused}
use shared_arena.Pool.Cursors.{on, Apart, head_link, link_head, links, CanRead}

module _ {T : Type 0} where
  abbrev pub is_used : Memory (PagePool T) → ℕ → Bool
  is_used m p = not ((m.page p).bitfield == all_ones)

  abbrev pub free_value : Cursor → Memory (PagePool T) → Option ℕ
  free_value head m = m.list
  free_value (link p) m = some (m.page p).next_free

  -- All but the links of the free list is as it was.
  pub record SameButFree (m m' : Memory (PagePool T)) : Type 0 where
    pub bitfield : (q : ℕ) → (m'.page q).bitfield ≡ (m.page q).bitfield
    pub blocks : (q : ℕ) → (m'.page q).blocks ≡ (m.page q).blocks
    pub next : (q : ℕ) → (m'.page q).next ≡ (m.page q).next
    pub in_free_list : (q : ℕ) → (m'.page q).in_free_list ≡ (m.page q).in_free_list
    pub live : m'.live ≡ m.live
    pub supply : m'.supply ≡ m.supply

  -- The pages `ps` after the cursor `c` without those that are not used.
  pub record FreeUnlinked (m : Memory (PagePool T)) (c : Cursor) (ps : List ℕ)
      (m' : Memory (PagePool T)) : Type 0 where
    pub first : ℕ
    pub at : free_value c m' ≡ some first
    pub chain : Chain (λ q. (m'.page q).next_free) first (retain (is_used m) ps)
    pub same : SameButFree m m'
    pub frame : (c' : Cursor) → Apart c' c → on c' ps ≡ false → free_value c' m' ≡ free_value c' m

  abbrev pub free_set_at : Cursor → ℕ → Memory (PagePool T) → Memory (PagePool T)
  free_set_at head q m = record m { list = some q }
  free_set_at (link p) q m = with_page m p (record (m.page p) { next_free = q })

  pub set_free_at-eq :
      (c : Cursor) (q : ℕ) (m : Memory (PagePool T))
      → CanRead c m
      → set_free_at c q m ≡ ok tt (free_set_at c q m)
  unfolding set_free_at
  set_free_at-eq head q m alive = ground arith
  set_free_at-eq (link p) q m alive = ground arith

  pub free_at-eq :
      (c : Cursor) (first : ℕ) (m : Memory (PagePool T))
      → CanRead c m
      → free_value c m ≡ some first
      → free_at c m ≡ ok first m
  unfolding free_at
  free_at-eq head first m alive e = ground arith
  free_at-eq (link p) first m alive e = ground arith

  pub SameButFree-set :
      (c : Cursor) (q : ℕ) (m : Memory (PagePool T)) → SameButFree m (free_set_at c q m)
  SameButFree-set head q m = record {
    bitfield = λ r. refl;
    blocks = λ r. refl;
    next = λ r. refl;
    in_free_list = λ r. refl;
    live = refl;
    supply = refl;
  }
  SameButFree-set (link p) q m = record {
    bitfield = λ r. ground (arith, ==_iff r p);
    blocks = λ r. ground (arith, ==_iff r p);
    next = λ r. ground (arith, ==_iff r p);
    in_free_list = λ r. ground (arith, ==_iff r p);
    live = refl;
    supply = refl;
  }

  pub free_value-set :
      (c : Cursor) (q : ℕ) (m : Memory (PagePool T)) → free_value c (free_set_at c q m) ≡ some q
  free_value-set head q m = refl
  free_value-set (link p) q m = rw (==_refl p) refl

  pub free_value-other :
      (c c' : Cursor) (q : ℕ) (m : Memory (PagePool T))
      → Apart c' c
      → free_value c' (free_set_at c q m) ≡ free_value c' m
  free_value-other c c' q m head_link = refl
  free_value-other c c' q m link_head = refl
  free_value-other c c' q m (links e) = rw e refl

  pub loop_end :
      (fuel : ℕ) (c : Cursor) (dropped : List ℕ) (m : Memory (PagePool T))
      → CanRead c m
      → free_value c m ≡ some 0
      → unlink_unused (suc fuel) c dropped m ≡ ok dropped m
  unfolding unlink_unused
  loop_end fuel c dropped m alive e = rw (free_at-eq c 0 m alive e) refl

  pub loop_drop :
      (fuel : ℕ) (c : Cursor) (dropped : List ℕ) (m : Memory (PagePool T)) (p : ℕ)
      → CanRead c m
      → free_value c m ≡ some p
      → p ≢ 0
      → m.live p ≡ true
      → is_used m p ≡ false
      → unlink_unused (suc fuel) c dropped m
        ≡ unlink_unused fuel c (dropped ++ p ∷ []) (free_set_at c (m.page p).next_free m)
  unfolding unlink_unused deref
  loop_drop fuel c dropped m p alive e ne here unused =
      let full : ((m.page p).bitfield == all_ones) ≡ true = ground arith in
      let got : deref p m ≡ ok (m.page p) m = rw here refl in
      rw
        (
          free_at-eq c p m alive e,
          ==-eq-false p 0 ne,
          got,
          full,
          set_free_at-eq c (m.page p).next_free m alive,
        )
        refl

  pub loop_keep :
      (fuel : ℕ) (c : Cursor) (dropped : List ℕ) (m : Memory (PagePool T)) (p : ℕ)
      → CanRead c m
      → free_value c m ≡ some p
      → p ≢ 0
      → m.live p ≡ true
      → is_used m p ≡ true
      → unlink_unused (suc fuel) c dropped m ≡ unlink_unused fuel (link p) dropped m
  unfolding unlink_unused deref
  loop_keep fuel c dropped m p alive e ne here used =
      let some_used : ((m.page p).bitfield == all_ones) ≡ false = ground arith in
      let got : deref p m ≡ ok (m.page p) m = rw here refl in
      rw (free_at-eq c p m alive e, ==-eq-false p 0 ne, got, some_used) refl
