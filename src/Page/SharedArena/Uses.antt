-- ===== src/Page/SharedArena/Uses.antt =====
-- What the invariant of a page says of its end (page/shared_arena.rs).
use shared_arena.Base.{ℕ, ◌≡◌, ◌≢◌, refl, ◌⊎◌, inl, inr, true, false, Bool-cases}
use shared_arena.Word.{test_bit}
use shared_arena.Page.SharedArena.{Local, outside, loaded, holds, listing, last, Shared}
use shared_arena.Page.SharedArena.Invariant.{AllFree, Inv}

module _ {s : Shared} (inv : Inv s) where
  pub Inv-live :
      (s.arena_holds ≡ true) ⊎ ((t i : ℕ) × ((s.local t ≡ holds i) ⊎ (s.local t ≡ loaded i)))
      → (s.live ≡ true) × ((t : ℕ) → s.local t ≢ last)
  Inv-live used = (alive, nobody)
    where
      not_free : AllFree s → s.arena_holds ≡ false → ⊥
      not_free free gone = elim used [
        | inl held ↦ cc (held, gone)
        | inr (t, i, inl e) ↦ let (lt, off) = inv.owned t i e in cc (free i lt, off)
        | inr (t, i, inr e) ↦ cc ((inv.below t i e).1, gone)
      ]

      nobody : (t : ℕ) → s.local t ≢ last
      nobody t e = let (free, gone, alive, only) = inv.last_free t e in not_free free gone

      alive : s.live ≡ true
      alive = elim (Bool-cases s.live) [
        | inl e ↦ e
        | inr e ↦ let (free, gone, more) = inv.dead_free e in absurd (not_free free gone)
      ]

  pub Inv-dead : s.live ≡ false → (t : ℕ) → (s.local t ≡ outside) ⊎ (s.local t ≡ listing)
  Inv-dead dead t = go (s.local t) refl
    where
      not_used : (i : ℕ) → ((s.local t ≡ holds i) ⊎ (s.local t ≡ loaded i)) → ⊥
      not_used i h = cc ((Inv-live (inr (t, i, h))).0, dead)

      go : (l : Local) → s.local t ≡ l → (s.local t ≡ outside) ⊎ (s.local t ≡ listing)
      go outside e = inl e
      go listing e = inr e
      go (holds i) e = absurd (not_used i (inl e))
      go (loaded i) e = absurd (not_used i (inr e))
      go last e = let (free, gone, none_last) = inv.dead_free dead in absurd (none_last t e)

  pub Inv-unused :
      s.arena_holds ≡ false
      → ((t i : ℕ) → s.local t ≢ holds i)
      → ((t : ℕ) × (s.local t ≡ last) × (s.live ≡ true) × ((u : ℕ) → s.local u ≡ last → u ≡ t))
        ⊎ (s.live ≡ false)
  Inv-unused gone unowned = elim (inv.no_leak free gone) [
    | inl (t, e) ↦ let (all, arena, alive, only) = inv.last_free t e in inl (t, e, alive, only)
    | inr dead ↦ inr dead
  ]
    where
      free : AllFree s
      free i lt = elim (Bool-cases (test_bit s.bitfield i)) [
        | inl on ↦ on
        | inr off ↦ let (t, e) = inv.owner i lt off in absurd (unowned t i e)
      ]
