-- ===== src/Provision/Adoption.antt =====
-- The discovery of ec2.go adopts nothing: over all pages it returns only instances that a target of
-- the plan was launched as.
use native.Mathlib.Omega.{arith}
use mathlib.Core.Path.{subst, ap}
use dash_network_go.Common.{
  ℕ, zero, suc, String, Option, none, some, List, [], ◌∷◌, ◌≡◌, refl, Map, All, contains, ◌==◌,
}
use dash_network_go.Common.Result.{Result, ok, err, other}
use dash_network_go.Common.Holds.{Holds}
use dash_network_go.Spec.Types.{Provision}
use dash_network_go.Provision.Types.{Plan}
use dash_network_go.Provision.Outside.{Outside}
use dash_network_go.Provision.Cloud.{Instance, InstancesOutput}
use dash_network_go.Provision.Discovery.{Found, accept_reservations}
use dash_network_go.Provision.Discovery.Originals.{
  IsOriginal, AreOriginal, accept_reservations-Holds,
}
use dash_network_go.Provision.Effects.{describe_instances, World, State, M, pure, raise, lift, ask}
use dash_network_go.Provision.Ec2.{config, read_page, discover_pages, discover, reply}
use dash_network_go.Provision.Hoare.{Gives, Outcome, Gives-bind}
use dash_network_go.Provision.Returns.{
  Any, Gives-last, Gives-pure, Gives-raise, Gives-if, Gives-knowing, Gives-weaken,
}

held-Outcome :
    {A : Type 0} (R : A → Type 0) (w : World) (s : State) (r : Result A)
    → Holds R r
    → Outcome (λ a s'. R a) (Any w) (r, s)
held-Outcome R w s (ok a) h = h
held-Outcome R w s (err e) h = tt

Gives-lift-Holds :
    {A : Type 0} {P : World → State → Type 0} (R : A → Type 0) (r : Result A)
    → Holds R r
    → Gives P (lift r) (λ a w s. R a) Any
unfolding lift
Gives-lift-Holds R r h = record { at = λ w s p. held-Outcome R w s r h }

module _ (x : Outside) (p : Plan) where
  config-Gives : Gives Any (config p) (λ c w s. p.network.aws.provision ≡ some c) Any
  unfolding config
  config-Gives =
      (elim p.network.aws.provision
          as (λ o.
            p.network.aws.provision ≡ o
            → Gives Any
                (elim o [ none ↦ raise (other "nil pointer dereference") | some c ↦ pure c ])
                (λ c w s. p.network.aws.provision ≡ some c) Any) [
                  | none ↦ λ is. Gives-raise _
                  | some c ↦ λ is. Gives-pure c (λ w s u. is)
                ])
        refl

  module _ (c : Provision) where
    abbrev Originals : Map Instance → World → State → Type 0
    Originals live w s = All (IsOriginal x p c) live

    read_page-Gives :
        (seen : List String) (f : Found) (next : String → Found → M (Map Instance))
        (out : Option InstancesOutput)
        → AreOriginal x p c f
        → ((token : String) (f' : Found)
            → AreOriginal x p c f'
            → Gives Any (next token f') Originals Any)
        → Gives Any (read_page x p c seen f next out) Originals Any
    unfolding read_page
    read_page-Gives seen f next none all k = Gives-raise _
    read_page-Gives seen f next (some o) all k =
        Gives-bind (λ f' w s. AreOriginal x p c f')
          (lift (accept_reservations x p c o.reservations f)) _
          (Gives-lift-Holds _ _ (accept_reservations-Holds x p c o.reservations f all))
          λ f'.
            Gives-if (o.next_token == "") _ _ (λ e. Gives-pure f'.live (λ w s h. h))
              λ e.
                Gives-if (contains o.next_token seen) _ _ (λ e'. Gives-raise _)
                  λ e'. Gives-knowing (λ h. k o.next_token f' h)

    discover_pages-Gives :
        (fuel : ℕ) (page : String) (seen : List String) (f : Found)
        → AreOriginal x p c f
        → Gives Any (discover_pages x p fuel c page seen f) Originals Any
    unfolding discover_pages
    discover_pages-Gives zero page seen f all = Gives-raise _
    discover_pages-Gives (suc fuel) page seen f all =
        Gives-last (ask (describe_instances page)) _ λ answer.
          Gives-last (reply "reconcile EC2 scope" answer) _ λ out.
            read_page-Gives seen f _ out all
              λ token f' h. discover_pages-Gives fuel token (token ∷ seen) f' h

  discover-Gives :
      (fuel : ℕ)
      → Gives Any
          (discover x p fuel)
          (λ live w s.
            (c : Provision) × (p.network.aws.provision ≡ some c) × All (IsOriginal x p c) live)
          Any
  unfolding discover
  discover-Gives fuel =
      Gives-bind (λ c w s. p.network.aws.provision ≡ some c) (config p) _ config-Gives
        λ c.
          Gives-knowing
            λ is. Gives-weaken (λ live w s h. (c, is, h)) (discover_pages-Gives c fuel "" [] _ tt)

value_or : {A : Type 0} → A → Result A → A
value_or d (ok a) = a
value_or d (err e) = d

returned_as :
    {A : Type 0} (Q : A → State → Type 0) (E : State → Type 0) (o : Result A × State) (a : A)
    → Outcome Q E o
    → o.0 ≡ ok a
    → Q a o.1
unfolding value_or
returned_as Q E (ok b, s) a q is = subst (λ v. Q v s) (ap (value_or b) is) q
returned_as Q E (err e, s) a q is = grind arith

-- Whatever the pages of DescribeInstances hold: every instance that the discovery returns, by a
-- target's name, carries all tags of that target, none twice, the client token of its launch, its
-- image and the plan's subnet, requires IMDSv2 tokens, and is pending or running.
pub discover-AreOriginal :
    (x : Outside) (p : Plan) (pages : ℕ) (w : World) (s : State) (live : Map Instance)
    → (discover x p pages w s).0 ≡ ok live
    → (c : Provision) × (p.network.aws.provision ≡ some c) × All (IsOriginal x p c) live
discover-AreOriginal x p pages w s live is =
    returned_as
      (λ found s'.
        (c : Provision) × (p.network.aws.provision ≡ some c) × All (IsOriginal x p c) found)
      (Any w) _ live ((discover-Gives x p pages).at w s tt) is
