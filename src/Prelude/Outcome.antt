-- ===== src/Prelude/Outcome.antt =====
-- Programs over a state: what a run gives, and do blocks.
pub data Outcome (S A : Type 0) : Type 0 where
  ok : A → S → Outcome S A
  fault : Outcome S A
  out_of_fuel : Outcome S A

abbrev pub Program : Type 0 → Type 0 → Type 0
Program S A = S → Outcome S A

module _ {S : Type 0} where
  abbrev pub pure : {A : Type 0} → A → Program S A
  pure = ok

  abbrev pub get : Program S S
  get s = ok s s

  abbrev pub modify : (S → S) → Program S (Unit {0})
  modify f s = ok tt (f s)

module _ {S A B : Type 0} where
  abbrev pub and_then : Outcome S A → (A → Program S B) → Outcome S B
  and_then (ok a s) k = k a s
  and_then fault k = fault
  and_then out_of_fuel k = out_of_fuel

  infixl 5 ◌>>=◌ ◌>>◌
  abbrev pub ◌>>=◌ : Program S A → (A → Program S B) → Program S B
  m >>= k = λ s. and_then (m s) k

  abbrev pub ◌>>◌ : Program S A → Program S B → Program S B
  m >> n = m >>= λ _. n

-- The state and the result of a run that ends.
module _ {S A : Type 0} where
  abbrev pub state_or : S → Outcome S A → S
  state_or d (ok a s) = s
  state_or d fault = d
  state_or d out_of_fuel = d

  abbrev pub result_or : A → Outcome S A → A
  result_or d (ok a s) = a
  result_or d fault = d
  result_or d out_of_fuel = d
