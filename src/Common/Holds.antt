-- ===== src/Common/Holds.antt =====
-- What holds of a value when a fallible computation returns it.
use dash_network_go.Common.Tests.{if◌then◌else◌}
use mathlib.Core.Bool.{Bool, true, false}
use mathlib.Core.Path.{◌≡◌, refl, subst}
use dash_network_go.Common.Result.{Error, Result, ok, err, refuse, ◌>>=◌, ◌>>◌}

abbrev pub Holds {ℓ κ} : {A : Type ℓ} → (A → Type κ) → Result A → Type κ
Holds Q (ok a) = Q a
Holds Q (err e) = Unit

pub Holds-bind {ℓ κ μ ν} :
    {A : Type ℓ} {B : Type κ} (Q : A → Type μ) (R : B → Type ν) (r : Result A) (f : A → Result B)
    → Holds Q r
    → ((a : A) → Q a → Holds R (f a))
    → Holds R (r >>= f)
Holds-bind Q R (ok a) f q k = k a q
Holds-bind Q R (err e) f q k = tt

pub Holds-refuse : (b : Bool) (e : Error) → Holds (λ u. b ≡ false) (refuse b e)
Holds-refuse true e = tt
Holds-refuse false e = refl

pub Holds-last {κ} :
    (Q : Unit {0} → Type κ) (b : Bool) (e : Error) → (b ≡ false → Q tt) → Holds Q (refuse b e)
Holds-last Q true e k = tt
Holds-last Q false e k = k refl

-- A refusal first, and what follows it.
pub Holds-then {ℓ κ} :
    {A : Type ℓ} (Q : A → Type κ) (b : Bool) (e : Error) (next : Result A)
    → (b ≡ false → Holds Q next)
    → Holds Q (refuse b e >> next)
Holds-then Q true e next k = tt
Holds-then Q false e next k = k refl

pub Holds-if {ℓ κ} :
    {A : Type ℓ} (Q : A → Type κ) (b : Bool) (r s : Result A)
    → (b ≡ true → Holds Q r)
    → (b ≡ false → Holds Q s)
    → Holds Q (if b then r else s)
Holds-if Q true r s k l = k refl
Holds-if Q false r s k l = l refl

pub Holds-weaken {ℓ κ μ} :
    {A : Type ℓ} (Q : A → Type κ) (R : A → Type μ) (r : Result A)
    → ((a : A) → Q a → R a)
    → Holds Q r
    → Holds R r
Holds-weaken Q R (ok a) k q = k a q
Holds-weaken Q R (err e) k q = tt

-- A fact that holds whenever a computation returns.
pub Holds-fact {ℓ κ} :
    {A : Type ℓ} {F : Type κ} {a : A} (r : Result A) → Holds (λ b. F) r → r ≡ ok a → F
Holds-fact (ok b) h is = h
Holds-fact (err e) h is = cc

pub Holds-any {ℓ κ} : {A : Type ℓ} {F : Type κ} (r : Result A) → F → Holds (λ b. F) r
Holds-any (ok b) h = h
Holds-any (err e) h = tt

pub Holds-ok {ℓ κ} :
    {A : Type ℓ} (Q : A → Type κ) (r : Result A) {a : A} → Holds Q r → r ≡ ok a → Q a
Holds-ok Q r h is = subst (Holds Q) is h

-- What holds of every value that a computation may return.
pub Holds-all {ℓ κ} :
    {A : Type ℓ} (Q : A → Type κ) (r : Result A) → ((a : A) → r ≡ ok a → Q a) → Holds Q r
Holds-all Q (ok a) k = k a refl
Holds-all Q (err e) k = tt

-- A step whose value does not matter, and what follows it.
pub Holds-after {ℓ κ μ} :
    {A : Type ℓ} {B : Type κ} (R : B → Type μ) (r : Result A) (f : A → Result B)
    → ((a : A) → Holds R (f a))
    → Holds R (r >>= f)
Holds-after R (ok a) f k = k a
Holds-after R (err e) f k = tt

-- A step that says nothing of what follows.
pub skip :
    (F : Type 0) (r next : Result (Unit {0}))
    → Holds (λ (u : Unit {0}). F) next
    → Holds (λ (u : Unit {0}). F) (r >> next)
skip F (ok u) next h = h
skip F (err e) next h = tt
