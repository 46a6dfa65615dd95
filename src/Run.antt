-- ===== src/Run.antt =====
-- What a call does to a state: it returns, it panics (and the stack unwinds from the state it left),
-- it does what the language leaves undefined, or a loop runs out of the rounds it was given.
pub mod Returns
use shared_arena.Base.{Bool, true, false, Option, none, some}

pub data Run (S A : Type 0) : Type 0 where
  ok : A → S → Run S A
  panic : S → Run S A
  fault : Run S A
  out_of_fuel : Run S A

abbrev pub Cmd : Type 0 → Type 0 → Type 0
Cmd S A = S → Run S A

abbrev pub pure : {S A : Type 0} → A → Cmd S A
pure = ok

module _ {S A B : Type 0} where
  abbrev pub and_then : Run S A → (A → Cmd S B) → Run S B
  and_then (ok a s) k = k a s
  and_then (panic s) k = panic s
  and_then fault k = fault
  and_then out_of_fuel k = out_of_fuel

  infixl 5 ◌>>=◌ ◌>>◌
  abbrev pub ◌>>=◌ : Cmd S A → (A → Cmd S B) → Cmd S B
  m >>= k = λ s. and_then (m s) k

  abbrev pub ◌>>◌ : Cmd S A → Cmd S B → Cmd S B
  m >> n = m >>= λ _. n

module _ {S : Type 0} where
  abbrev pub get : Cmd S S
  get s = ok s s

  abbrev pub put : S → Cmd S (Unit {0})
  put s _ = ok tt s

  -- `assert!(b)`
  abbrev pub assert : Bool → Cmd S (Unit {0})
  assert true s = ok tt s
  assert false s = panic s

  -- `expect` and `unwrap`
  abbrev pub unwrap : {A : Type 0} → Option A → Cmd S A
  unwrap none s = panic s
  unwrap (some a) s = ok a s
