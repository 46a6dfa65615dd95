-- ===== src/Pool/Relinked.antt =====
-- The links of the list of all pages when one of them is changed (pool.rs).
use shared_arena.Base.{ℕ, ◌≡◌, refl, ◌∙◌, false, not, List, arith, has, ==_refl, ==_iff}
use shared_arena.Memory.{Memory, with_page}
use shared_arena.Memory.Chain.{Chain}
use shared_arena.Memory.Select.{retain}
use shared_arena.Run.{ok}
use shared_arena.Page.Pool.{PagePool}
use shared_arena.Pool.Cursors.{on, Apart, head_link, link_head, links, CanRead}
use shared_arena.Pool.Walk.{Cursor, head, link, next_at, set_next_at}

-- The head and the memory after `set_next_at`.
abbrev pub new_head : Cursor → (q first : ℕ) → ℕ
new_head head q first = q
new_head (link p) q first = first

module _ {T : Type 0} where
  abbrev pub next_value : Cursor → (page_list : ℕ) → Memory (PagePool T) → ℕ
  next_value head first m = first
  next_value (link p) first m = (m.page p).next

  -- All but the links of the list of all pages is as it was.
  pub record SameButNext (m m' : Memory (PagePool T)) : Type 0 where
    pub bitfield : (q : ℕ) → (m'.page q).bitfield ≡ (m.page q).bitfield
    pub blocks : (q : ℕ) → (m'.page q).blocks ≡ (m.page q).blocks
    pub next_free : (q : ℕ) → (m'.page q).next_free ≡ (m.page q).next_free
    pub in_free_list : (q : ℕ) → (m'.page q).in_free_list ≡ (m.page q).in_free_list
    pub list : m'.list ≡ m.list
    pub live : m'.live ≡ m.live
    pub supply : m'.supply ≡ m.supply

  pub SameButNext-refl : (m : Memory (PagePool T)) → SameButNext m m
  SameButNext-refl m = record {
    bitfield = λ q. refl;
    blocks = λ q. refl;
    next_free = λ q. refl;
    in_free_list = λ q. refl;
    list = refl;
    live = refl;
    supply = refl;
  }

  pub SameButNext-trans :
      {m m₁ m₂ : Memory (PagePool T)} → SameButNext m m₁ → SameButNext m₁ m₂ → SameButNext m m₂
  SameButNext-trans a b = record {
    bitfield = λ q. b.bitfield q ∙ a.bitfield q;
    blocks = λ q. b.blocks q ∙ a.blocks q;
    next_free = λ q. b.next_free q ∙ a.next_free q;
    in_free_list = λ q. b.in_free_list q ∙ a.in_free_list q;
    list = b.list ∙ a.list;
    live = b.live ∙ a.live;
    supply = b.supply ∙ a.supply;
  }

  -- The pages `ps` after the cursor `c` without those that are dropped.
  pub record AllUnlinked (m : Memory (PagePool T)) (c : Cursor) (first : ℕ) (dropped ps : List ℕ)
      (first' : ℕ) (m' : Memory (PagePool T)) : Type 0 where
    pub chain :
        Chain
          (λ q. (m'.page q).next)
          (next_value c first' m')
          (retain (λ q. not (has q dropped)) ps)
    pub same : SameButNext m m'
    pub frame :
        (c' : Cursor)
        → Apart c' c
        → on c' ps ≡ false
        → next_value c' first' m' ≡ next_value c' first m

  abbrev pub next_set_at : Cursor → ℕ → Memory (PagePool T) → Memory (PagePool T)
  next_set_at head q m = m
  next_set_at (link p) q m = with_page m p (record (m.page p) { next = q })

  pub set_next_at-eq :
      (c : Cursor) (q first : ℕ) (m : Memory (PagePool T))
      → CanRead c m
      → set_next_at c q first m ≡ ok (new_head c q first) (next_set_at c q m)
  unfolding set_next_at
  set_next_at-eq head q first m alive = refl
  set_next_at-eq (link p) q first m alive = ground arith

  pub next_at-eq :
      (c : Cursor) (first : ℕ) (m : Memory (PagePool T))
      → CanRead c m
      → next_at c first m ≡ ok (next_value c first m) m
  unfolding next_at
  next_at-eq head first m alive = refl
  next_at-eq (link p) first m alive = ground arith

  pub SameButNext-set :
      (c : Cursor) (q : ℕ) (m : Memory (PagePool T)) → SameButNext m (next_set_at c q m)
  SameButNext-set head q m = SameButNext-refl m
  SameButNext-set (link p) q m = record {
    bitfield = λ r. ground (arith, ==_iff r p);
    blocks = λ r. ground (arith, ==_iff r p);
    next_free = λ r. ground (arith, ==_iff r p);
    in_free_list = λ r. ground (arith, ==_iff r p);
    list = refl;
    live = refl;
    supply = refl;
  }

  pub next_value-set :
      (c : Cursor) (q first : ℕ) (m : Memory (PagePool T))
      → next_value c (new_head c q first) (next_set_at c q m) ≡ q
  next_value-set head q first m = refl
  next_value-set (link p) q first m = rw (==_refl p, next_value) refl

  pub next_value-other :
      (c c' : Cursor) (q first : ℕ) (m : Memory (PagePool T))
      → Apart c' c
      → next_value c' (new_head c q first) (next_set_at c q m) ≡ next_value c' first m
  next_value-other c c' q first m head_link = refl
  next_value-other c c' q first m link_head = refl
  next_value-other c c' q first m (links e) = rw (e, next_value) refl

  pub same_read :
      (c : Cursor) (q : ℕ) (m : Memory (PagePool T)) → CanRead c m → CanRead c (next_set_at c q m)
  same_read head q m alive = alive
  same_read (link p) q m alive = alive
