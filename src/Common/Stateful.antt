-- ===== src/Common/Stateful.antt =====
-- Steps that change a state and may fail: what a failing step has changed stays changed.
use mathlib.Core.Path.{◌≡◌, refl}
use dash_network_go.Common.Result.{Error, Result, ok, err}

abbrev pub M : Type 0 → Type 0 → Type 0
M S A = S → Result A × S

module _ {S A : Type 0} where
  unfoldable pub pure : A → M S A
  pure a s = (ok a, s)

  unfoldable pub raise : Error → M S A
  raise e s = (err e, s)

  -- a computation that leaves the state alone
  unfoldable pub lift : Result A → M S A
  lift r s = (r, s)

  -- a step whose error the caller inspects
  unfoldable pub attempt : M S A → M S (Result A)
  attempt m s = let (r, s') = m s in (ok r, s')

module _ {S A B : Type 0} where
  abbrev pub continue : Result A → (A → M S B) → M S B
  continue (ok a) f s = f a s
  continue (err e) f s = (err e, s)

  infixl 5 ◌>>=◌ ◌>>◌
  unfoldable pub ◌>>=◌ : M S A → (A → M S B) → M S B
  ◌>>=◌ m f s = let (r, s') = m s in continue r f s'

  abbrev pub ◌>>◌ : M S A → M S B → M S B
  m >> n = m >>= λ _. n

module _ {S A B : Type 0} where
  continue_lem :
      (o : Result A × S) (g : A → M S B) {b : B}
      → (continue o.0 g o.1).0 ≡ ok b
      → (a : A) × (o.0 ≡ ok a) × (continue o.0 g o.1 ≡ g a o.1)
  continue_lem (ok a, s) g h = (a, refl, refl)
  continue_lem (err e, s) g h = absurd (cc)

  -- A sequence that returns: its first part returned, and the rest ran from there.
  pub bind_lem :
      (m : M S A) (g : A → M S B) (s : S) {b : B}
      → ((m >>= g) s).0 ≡ ok b
      → (a : A) × ((m s).0 ≡ ok a) × ((m >>= g) s ≡ g a (m s).1)
  unfolding ◌>>=◌
  bind_lem m g s h = continue_lem (m s) g h

  continue_keeps :
      (P : S → Type 0) (o : Result A × S) (g : A → M S B)
      → P o.1
      → ((a : A) (s : S) → P s → P (g a s).1)
      → P (continue o.0 g o.1).1
  continue_keeps P (ok a, s) g p k = k a s p
  continue_keeps P (err e, s) g p k = p

  -- What both parts of a sequence keep, the sequence keeps.
  pub bind_keeps :
      (P : S → Type 0) (m : M S A) (g : A → M S B) (s : S)
      → P (m s).1
      → ((a : A) (s : S) → P s → P (g a s).1)
      → P ((m >>= g) s).1
  unfolding ◌>>=◌
  bind_keeps P m g s p k = continue_keeps P (m s) g p k
