-- ===== src/Base/Run.antt =====
-- C code as a command on a state `S`. A command ends with a value and a new state, faults (a NULL
-- pointer is followed, an array index is out of range), or stops because a loop ran out of fuel.
use mathlib.Core.Path.{◌≡◌, refl}

pub data Run (S A : Type 0) : Type 0 where
  ok : A → S → Run S A
  fault : Run S A
  out_of_fuel : Run S A

abbrev pub Cmd : Type 0 → Type 0 → Type 0
Cmd S A = S → Run S A

module _ {S A : Type 0} where
  abbrev pub pure : A → Cmd S A
  pure = ok

  -- Read from the state.
  abbrev pub gets : (S → A) → Cmd S A
  gets f s = ok (f s) s

module _ {S : Type 0} where
  abbrev pub modify : (S → S) → Cmd S (Unit {0})
  modify f s = ok tt (f s)

module _ {S A B : Type 0} where
  abbrev pub and_then : Run S A → (A → Cmd S B) → Run S B
  and_then (ok a s) k = k a s
  and_then fault k = fault
  and_then out_of_fuel k = out_of_fuel

  infixl 5 ◌>>=◌ ◌>>◌
  abbrev pub ◌>>=◌ : Cmd S A → (A → Cmd S B) → Cmd S B
  ◌>>=◌ m k s = and_then (m s) k

  abbrev pub ◌>>◌ : Cmd S A → Cmd S B → Cmd S B
  m >> n = m >>= λ _. n

-- Total correctness: the run ends with a value, and `P` holds of that value and the final state.
pub data Ends {S A : Type 0} (P : A → S → Type 0) : Run S A → Type 0 where
  ends : {a : A} {s : S} → P a s → Ends P (ok a s)

module _ {S A : Type 0} {P : A → S → Type 0} where
  -- A command is followed by another.
  pub after :
      {B : Type 0} {Q : B → S → Type 0} {r : Run S A} {k : A → Cmd S B}
      → Ends P r
      → ((a : A) (s : S) → P a s → Ends Q (k a s))
      → Ends Q (and_then r k)
  after (ends p) next = next _ _ p

  pub weaken :
      {Q : A → S → Type 0} {r : Run S A} → Ends P r → ((a : A) (s : S) → P a s → Q a s) → Ends Q r
  weaken (ends p) f = ends (f _ _ p)

  -- The run as an equation.
  pub Ends-eq : {r : Run S A} → Ends P r → (a : A) × (s : S) × (r ≡ ok a s) × P a s
  Ends-eq (ends {a} {s} p) = (a, s, refl, p)
