-- ===== src/Shared/Do.antt =====
-- Explicit state passing as a monad: a method takes the state and returns its result with the new
-- state. It is generic in the state.

abbrev pub M : Type 0 → Type 0 → Type 0
M S A = S → A × S

abbrev pub pure : {S A : Type 0} → A → S → A × S
pure a s = (a, s)

infixl 5 ◌>>=◌ ◌>>◌
abbrev pub ◌>>=◌ : {S A B : Type 0} → (S → A × S) → (A → S → B × S) → S → B × S
◌>>=◌ m f s = f (m s).0 (m s).1

abbrev pub ◌>>◌ : {S A B : Type 0} → (S → A × S) → (S → B × S) → S → B × S
◌>>◌ m k s = k (m s).1
