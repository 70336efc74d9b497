-- ===== src/Provision/Hoare.antt =====
-- What a run preserves, by one rule for each way to build a run.
use mathlib.Core.Path.{fun_ext}
use dash_network_go.Common.{String, ◌≡◌, refl, Bool, true, false, Option, none, some, if◌then◌else◌}
use dash_network_go.Common.Result.{Error, Result, ok, err}
use dash_network_go.Provision.Effects.{
  World, State, M, pure, raise, lift, or_raise, attempt, get, continue, ◌>>=◌,
}
use dash_network_go.Provision.Ec2.{reply}

-- The run keeps the property of the state, whether it returns or fails.
pub record Keeps {A : Type 0} (P : World → State → Type 0) (m : M A) : Type 0 where
  pub at : (w : World) (s : State) → P w s → P w (m w s).1

abbrev pub Outcome :
    {A : Type 0} → (A → State → Type 0) → (State → Type 0) → Result A × State → Type 0
Outcome Q E (ok a, s) = Q a s
Outcome Q E (err e, s) = E s

-- Where it returns, the run turns the first property into the second.
pub record Gives {A : Type 0} (P : World → State → Type 0) (m : M A)
    (Q : A → World → State → Type 0) (E : World → State → Type 0) : Type 0 where
  pub at : (w : World) (s : State) → P w s → Outcome (λ a. Q a w) (E w) (m w s)

module _ {A : Type 0} {P : World → State → Type 0} where
  pub Keeps-pure : (a : A) → Keeps P (pure a)
  unfolding pure
  Keeps-pure a = record { at = λ w s h. h }

  pub Keeps-raise : (e : Error) → Keeps P (raise {A = A} e)
  unfolding raise
  Keeps-raise e = record { at = λ w s h. h }

  pub Keeps-lift : (r : Result A) → Keeps P (lift r)
  unfolding lift
  Keeps-lift r = record { at = λ w s h. h }

  pub Keeps-reply : (m : String) (r : Result A) → Keeps P (reply m r)
  unfolding reply raise
  Keeps-reply m (ok a) = Keeps-pure a
  Keeps-reply m (err e) = record { at = λ w s h. h }

  pub Keeps-attempt : (m : M A) → Keeps P m → Keeps P (attempt m)
  unfolding attempt
  Keeps-attempt m k = record { at = λ w s h. k.at w s h }

  pub Keeps-if : (b : Bool) (m n : M A) → Keeps P m → Keeps P n → Keeps P (if b then m else n)
  Keeps-if true m n km kn = km
  Keeps-if false m n km kn = kn

pub Keeps-or_raise : {P : World → State → Type 0} (e : Option Error) → Keeps P (or_raise e)
unfolding or_raise raise
Keeps-or_raise none = Keeps-pure tt
Keeps-or_raise (some e) = record { at = λ w s h. h }

pub Keeps-get : {P : World → State → Type 0} → Keeps P get
unfolding get
Keeps-get = record { at = λ w s h. h }

module _ {A B : Type 0} {P : World → State → Type 0} where
  pub keeps_continue :
      (w : World) (o : Result A × State) (f : A → M B)
      → P w o.1
      → ((a : A) → Keeps P (f a))
      → P w (continue o.0 f w o.1).1
  keeps_continue w (ok a, s) f h k = (k a).at w s h
  keeps_continue w (err e, s) f h k = h

  pub Keeps-bind :
      (first : M A) (next : A → M B)
      → Keeps P first
      → ((a : A) → Keeps P (next a))
      → Keeps P (first >>= next)
  unfolding ◌>>=◌
  Keeps-bind first next h k = record {
    at = λ w s p. keeps_continue w (first w s) next (h.at w s p) k;
  }

module _ {A B C : Type 0} where
  bind-continue :
      (f : A → M B) (g : B → M C) (w : World) (o : Result A × State)
      → continue (continue o.0 f w o.1).0 g w (continue o.0 f w o.1).1
        ≡ continue o.0 (λ a. f a >>= g) w o.1
  unfolding ◌>>=◌
  bind-continue f g w (ok a, s) = refl
  bind-continue f g w (err e, s) = refl

  pub bind_assoc : (m : M A) (f : A → M B) (g : B → M C) → (m >>= f >>= g) ≡ (m >>= λ a. f a >>= g)
  unfolding ◌>>=◌
  bind_assoc m f g = fun_ext λ w. fun_ext λ s. bind-continue f g w (m w s)

module _ {A B : Type 0} where
  pub pure-bind : (a : A) (f : A → M B) → (pure a >>= f) ≡ f a
  unfolding ◌>>=◌ pure
  pure-bind a f = refl

module _ {A B : Type 0} {E : World → State → Type 0} where
  gives_continue :
      {R : B → World → State → Type 0} (Q : A → World → State → Type 0) (w : World)
      (o : Result A × State) (f : A → M B)
      → Outcome (λ a. Q a w) (E w) o
      → ((a : A) → Gives (Q a) (f a) R E)
      → Outcome (λ b. R b w) (E w) (continue o.0 f w o.1)
  gives_continue Q w (ok a, s) f h k = (k a).at w s h
  gives_continue Q w (err e, s) f h k = h

  -- The rule for a sequence, with what holds between its parts.
  pub Gives-bind :
      {P : World → State → Type 0} {R : B → World → State → Type 0} (Q : A → World → State → Type 0)
      (m : M A) (f : A → M B)
      → Gives P m Q E
      → ((a : A) → Gives (Q a) (f a) R E)
      → Gives P (m >>= f) R E
  unfolding ◌>>=◌
  Gives-bind Q m f h k = record { at = λ w s p. gives_continue Q w (m w s) f (h.at w s p) k }

module _ {A : Type 0} where
  Outcome-either :
      (P : World → State → Type 0) (w : World) (o : Result A × State)
      → P w o.1
      → Outcome (λ a. P w) (P w) o
  Outcome-either P w (ok a, s) h = h
  Outcome-either P w (err e, s) h = h

  pub Gives-Keeps : {P : World → State → Type 0} {m : M A} → Keeps P m → Gives P m (λ a. P) P
  Gives-Keeps {P} {m} k = record { at = λ w s h. Outcome-either P w (m w s) (k.at w s h) }

  either-Outcome :
      (P : World → State → Type 0) (w : World) (o : Result A × State)
      → Outcome (λ a. P w) (P w) o
      → P w o.1
  either-Outcome P w (ok a, s) h = h
  either-Outcome P w (err e, s) h = h

  pub Keeps-Gives : {P : World → State → Type 0} {m : M A} → Gives P m (λ a. P) P → Keeps P m
  Keeps-Gives {P} {m} g = record { at = λ w s h. either-Outcome P w (m w s) (g.at w s h) }

pub ruleset pure_rules = (
  Keeps-pure, Keeps-raise, Keeps-lift, Keeps-reply, Keeps-attempt, Keeps-if, Keeps-or_raise,
  Keeps-get, Keeps-bind,
)
