-- ===== src/Run/Returns.antt =====
-- Total correctness of a call: it returns, or it panics, with a postcondition.
use shared_arena.Run.{Run, ok, panic, Cmd, and_then}

-- The call returns `a` in a state `s'` with the property `P a s'`.
pub data Returns {S A : Type 0} (P : A → S → Type 0) : Run S A → Type 0 where
  returns : {a : A} {s : S} → P a s → Returns P (ok a s)

pub bind :
    {S A B : Type 0} {P : A → S → Type 0} {Q : B → S → Type 0} {r : Run S A} {k : A → Cmd S B}
    → Returns P r
    → ((a : A) (s : S) → P a s → Returns Q (k a s))
    → Returns Q (and_then r k)
bind (returns p) next = next _ _ p

pub mono :
    {S A : Type 0} {P Q : A → S → Type 0} {r : Run S A}
    → Returns P r
    → ((a : A) (s : S) → P a s → Q a s)
    → Returns Q r
mono (returns p) weaken = returns (weaken _ _ p)

-- The call panics in a state `s` with the property `P s`.
pub data Panics {S A : Type 0} (P : S → Type 0) : Run S A → Type 0 where
  panics : {s : S} → P s → Panics P (panic s)

pub bind-Panics :
    {S A B : Type 0} {P : A → S → Type 0} {Q : S → Type 0} {r : Run S A} {k : A → Cmd S B}
    → Returns P r
    → ((a : A) (s : S) → P a s → Panics Q (k a s))
    → Panics Q (and_then r k)
bind-Panics (returns p) next = next _ _ p

pub Panics-bind :
    {S A B : Type 0} {Q : S → Type 0} {r : Run S A} (k : A → Cmd S B)
    → Panics Q r
    → Panics Q (and_then r k)
Panics-bind k (panics q) = panics q
