-- ===== src/Common/State.antt =====
-- A state monad: `State S A` reads and changes an `S` and gives an `A`.
abbrev pub State : Type 0 → Type 0 → Type 0
State S A = S → A × S

module _ {S : Type 0} where
  infixl 5 ◌>>=◌ ◌>>◌
  abbrev pub ◌>>=◌ : {A B : Type 0} → State S A → (A → State S B) → State S B
  ◌>>=◌ m f s = let (a, s') = m s in f a s'

  abbrev pub ◌>>◌ : {B : Type 0} → State S (Unit {0}) → State S B → State S B
  m >> n = m >>= λ _. n

  abbrev pub pure : {A : Type 0} → A → State S A
  pure a s = (a, s)

  abbrev pub get : State S S
  get s = (s, s)

  abbrev pub modify : (S → S) → State S (Unit {0})
  modify f s = (tt, f s)
