-- ===== src/Journal/Moves.antt =====
-- Rules for what a run changes: at every item only steps of its runner.
use mathlib.Core.Path.{subst}
use dash_network_go.Common.{String, Bool, true, false, Option, ◌≡◌, refl, sym, if◌then◌else◌}
use dash_network_go.Common.Result.{Error, Result, ok, err}
use dash_network_go.Common.Stateful.{M, pure, raise, lift, attempt, continue, ◌>>=◌}
use dash_network_go.Journal.Table.{Item}
use dash_network_go.Journal.Lock.{Steps, here, Steps-trans}

module _ {S : Type 0} (stored : S → String → String → Option Item) (owner : String) where
  pub record Moves {A : Type 0} (m : M S A) : Type 0 where
    pub at : (s : S) (t n : String) → Steps owner (stored s t n) (stored (m s).1 t n)

module _ {S : Type 0} {stored : S → String → String → Option Item} {owner : String} where
  module _ {A : Type 0} where
    pub Moves-pure : (a : A) → Moves stored owner (pure a)
    unfolding pure
    Moves-pure a = record { at = λ s t n. here }

    pub Moves-raise : (e : Error) → Moves stored owner (raise {A = A} e)
    unfolding raise
    Moves-raise e = record { at = λ s t n. here }

    pub Moves-lift : (r : Result A) → Moves stored owner (lift r)
    unfolding lift
    Moves-lift r = record { at = λ s t n. here }

    pub Moves-attempt : (m : M S A) → Moves stored owner m → Moves stored owner (attempt m)
    unfolding attempt
    Moves-attempt m k = record { at = λ s t n. k.at s t n }

    pub Moves-if :
        (b : Bool) (m n : M S A)
        → (b ≡ true → Moves stored owner m)
        → (b ≡ false → Moves stored owner n)
        → Moves stored owner (if b then m else n)
    Moves-if true m n k l = k refl
    Moves-if false m n k l = l refl

  module _ {A B : Type 0} where
    Moves-continue :
        (s : S) (t n : String) (o : Result A × S) (g : A → M S B)
        → Steps owner (stored s t n) (stored o.1 t n)
        → ((a : A) → o.0 ≡ ok a → Moves stored owner (g a))
        → Steps owner (stored s t n) (stored (continue o.0 g o.1).1 t n)
    Moves-continue s t n (ok a, s') g p k = Steps-trans p ((k a refl).at s' t n)
    Moves-continue s t n (err e, s') g p k = p

    pub Moves-bind :
        (m : M S A) (g : A → M S B)
        → Moves stored owner m
        → ((a : A) → Moves stored owner (g a))
        → Moves stored owner (m >>= g)
    unfolding ◌>>=◌
    Moves-bind m g h k = record {
      at = λ s t n. Moves-continue s t n (m s) g (h.at s t n) (λ a e. k a);
    }

    -- After a computation, with the value that it gives.
    pub Moves-given :
        (r : Result A) (g : A → M S B)
        → ((a : A) → r ≡ ok a → Moves stored owner (g a))
        → Moves stored owner (lift r >>= g)
    unfolding ◌>>=◌ lift
    Moves-given r g k = record { at = λ s t n. Moves-continue s t n (r, s) g here k }

  -- A step that leaves every item alone.
  pub Moves-keeps :
      {A : Type 0} (m : M S A) → ((s : S) → stored (m s).1 ≡ stored s) → Moves stored owner m
  Moves-keeps m k = record {
    at = λ s t n. subst (λ g. Steps owner (stored s t n) (g t n)) (sym (k s)) here;
  }
