-- ===== src/Provision/Returns.antt =====
-- Rules for what holds when a run returns without an error; nothing is said of a run that fails.
use dash_network_go.Common.{Bool, true, false, ◌≡◌, refl, ◌⊎◌, inl, if◌then◌else◌}
use dash_network_go.Common.Result.{Error, Result, ok, err}
use dash_network_go.Provision.Types.{Record}
use dash_network_go.Provision.Effects.{World, State, M, pure, raise, lift, get, put, ◌>>=◌}
use dash_network_go.Provision.Hoare.{Gives, Outcome, Gives-bind}

-- nothing is claimed of a run that fails
abbrev pub Any : World → State → Type 0
Any w s = Unit

Any-Outcome : {A : Type 0} (w : World) (o : Result A × State) → Outcome (λ a. Any w) (Any w) o
Any-Outcome w (ok a, s) = tt
Any-Outcome w (err e, s) = tt

pub Gives-Any : {A : Type 0} {P : World → State → Type 0} (m : M A) → Gives P m (λ a. Any) Any
Gives-Any m = record { at = λ w s p. Any-Outcome w (m w s) }

-- a sequence, of which only the last part matters
pub Gives-last :
    {A B : Type 0} {P : World → State → Type 0} {R : B → World → State → Type 0} (m : M A)
    (f : A → M B)
    → ((a : A) → Gives Any (f a) R Any)
    → Gives P (m >>= f) R Any
Gives-last m f k = Gives-bind (λ a. Any) m f (Gives-Any m) k

-- A step that keeps the state.
pub Gives-pure :
    {A : Type 0} {P : World → State → Type 0} (a : A) {Q : A → World → State → Type 0}
    → ((w : World) (s : State) → P w s → Q a w s)
    → Gives P (pure a) Q Any
unfolding pure
Gives-pure a k = record { at = λ w s p. k w s p }

pub Gives-raise :
    {A : Type 0} {P : World → State → Type 0} {Q : A → World → State → Type 0} (e : Error)
    → Gives P (raise {A = A} e) Q Any
unfolding raise
Gives-raise e = record { at = λ w s p. tt }

pub Gives-if :
    {A : Type 0} {P : World → State → Type 0} {Q : A → World → State → Type 0} (b : Bool)
    (m n : M A)
    → (b ≡ true → Gives P m Q Any)
    → (b ≡ false → Gives P n Q Any)
    → Gives P (if b then m else n) Q Any
Gives-if true m n k l = k refl
Gives-if false m n k l = l refl

pub Gives-put :
    {P Q : World → State → Type 0} (r : Record)
    → ((w : World) (s : State) → P w s → Q w (record s { journal = r }))
    → Gives P (put r) (λ u. Q) Any
unfolding put
Gives-put r k = record { at = λ w s p. k w s p }

-- a look at the record, which keeps what is known
pub Gives-look : {P : World → State → Type 0} → Gives P get (λ r w s. P w s × (s.journal ≡ r)) Any
unfolding get
Gives-look = record { at = λ w s p. (p, refl) }

lifted-Outcome :
    {A : Type 0} (P : World → State → Type 0) (w : World) (s : State) (r : Result A)
    → P w s
    → Outcome (λ a. P w) (Any w) (r, s)
lifted-Outcome P w s (ok a) h = h
lifted-Outcome P w s (err e) h = tt

pub Gives-lift :
    {A : Type 0} {P : World → State → Type 0} (r : Result A) → Gives P (lift r) (λ a. P) Any
unfolding lift
Gives-lift {P} r = record { at = λ w s h. lifted-Outcome P w s r h }

inl-Outcome :
    {A : Type 0} (Q R : State → Type 0) (o : Result A × State)
    → Outcome (λ a. Q) (λ s. Unit) o
    → Outcome (λ a s. Q s ⊎ R s) (λ s. Unit) o
inl-Outcome Q R (ok a, s) q = inl q
inl-Outcome Q R (err e, s) q = tt

pub Gives-inl :
    {A : Type 0} {P Q R : World → State → Type 0} (m : M A)
    → Gives P m (λ a. Q) Any
    → Gives P m (λ a w s. Q w s ⊎ R w s) Any
Gives-inl {Q} {R} m k = record { at = λ w s p. inl-Outcome (Q w) (R w) (m w s) (k.at w s p) }

pub Gives-knowing :
    {A F : Type 0} {m : M A} {Q : A → World → State → Type 0}
    → (F → Gives Any m Q Any)
    → Gives (λ w s. F) m Q Any
Gives-knowing k = record { at = λ w s h. (k h).at w s tt }

weaker-Outcome :
    {A : Type 0} (Q R : A → State → Type 0) (o : Result A × State)
    → ((a : A) (s : State) → Q a s → R a s)
    → Outcome Q (λ s. Unit) o
    → Outcome R (λ s. Unit) o
weaker-Outcome Q R (ok a, s) k q = k a s q
weaker-Outcome Q R (err e, s) k q = tt

pub Gives-weaken :
    {A : Type 0} {P : World → State → Type 0} {m : M A} {Q R : A → World → State → Type 0}
    → ((a : A) (w : World) (s : State) → Q a w s → R a w s)
    → Gives P m Q Any
    → Gives P m R Any
Gives-weaken {m} {Q} {R} k g = record {
  at = λ w s p. weaker-Outcome (λ a. Q a w) (λ a. R a w) (m w s) (λ a s'. k a w s') (g.at w s p);
}
