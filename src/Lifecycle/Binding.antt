-- ===== src/Lifecycle/Binding.antt =====
-- Which addresses a deployment plan binds.
use dash_network_go.Common.{
  arith, ℕ, String, false, Option, none, some, List, [], ◌∷◌, ◌≡◌, refl, sym, ap, ◌∙◌, not, ◌==◌,
  eq_iff, Map, lookup, lookup_or, All,
}
use dash_network_go.Common.Result.{text, at, ok, err, ◌>>=◌}
use dash_network_go.Common.Holds.{Holds, Holds-bind, Holds-if, Holds-ok, Holds-after, Holds-weaken}
use dash_network_go.Provision.Types
use dash_network_go.Provision.Outside.{Outside}
use dash_network_go.Release.Lock.{Artifacts}
use dash_network_go.Bootstrap.Plan
use dash_network_go.Bootstrap.Plan.{validate_bootstrap_plan}
use dash_network_go.Lifecycle.Nodes.{Node}
use dash_network_go.Lifecycle.Deployment.{
  Deployment, Live, Options, Recipes, validate_deployment_plan,
}
use dash_network_go.Lifecycle.Building.{
  is_journaled_ip, bind_target, bind_targets, requested_tls, build_public, build_deployment,
}

-- The target's addresses are those of the live instance of its name, and it advertises the instance's
-- public address, which is the given one for the target.
abbrev pub IsBound : Map Live → Map String → Node → Type 0
IsBound live public_ips t =
    (l : Live) × (lookup t.name live ≡ some l)
    × (t.instance_id ≡ l.instance_id)
    × (t.peer_address ≡ l.public_ip)
    × (t.private_address ≡ l.private_ip)
    × (lookup_or "" t.name public_ips ≡ l.public_ip)
    × ((l.public_ip == "") ≡ false)

module _ (b : Plan.Plan) (live : Map Live) (public_ips : Map String) where
  journaled :
      (name : String) (l : Live)
      → not (is_journaled_ip public_ips name l) ≡ false
      → (lookup_or "" name public_ips ≡ l.public_ip) × ((l.public_ip == "") ≡ false)
  unfolding is_journaled_ip
  journaled name l h =
      let same = (eq_iff (lookup_or "" name public_ips) l.public_ip).0 (ground arith) in
      (same, ap (λ t. t == "") (sym same) ∙ (ground arith))

  bind_target-Holds :
      (t : Types.Target) (i : Plan.Target) (l : Live)
      → lookup t.name live ≡ some l
      → Holds (IsBound live public_ips) (bind_target b public_ips t i l)
  unfolding bind_target
  bind_target-Holds t i l is =
      Holds-if (IsBound live public_ips) (not (is_journaled_ip public_ips t.name l)) _ _
        (λ refused. tt)
        λ allowed.
          let (same, present) = journaled t.name l allowed in
          (l, is, refl, refl, refl, same, present)

  bind_targets-Holds :
      (ts : List Types.Target) (is : List Plan.Target)
      → Holds (All (IsBound live public_ips)) (bind_targets b live public_ips ts is)
  unfolding bind_targets
  bind_targets-Holds [] is = tt
  bind_targets-Holds (t ∷ ts) [] = tt
  bind_targets-Holds (t ∷ ts) (i ∷ is) =
      decided (bind_targets-Holds ts is) (lookup t.name live) refl
    where
      decided :
          Holds (All (IsBound live public_ips)) (bind_targets b live public_ips ts is)
          → (o : Option Live) → lookup t.name live ≡ o
          → Holds (All (IsBound live public_ips)) (elim o [
            | none ↦ err (at "missing target" t.name)
            | some l ↦ bind_target b public_ips t i l >>= λ n.
                bind_targets b live public_ips ts is >>= λ ns. ok (n ∷ ns)
          ])
      decided rest none found = tt
      decided rest (some l) found =
          Holds-bind (IsBound live public_ips) _ (bind_target b public_ips t i l) _
            (bind_target-Holds t i l found)
            λ n bound.
              Holds-bind (All (IsBound live public_ips)) _ (bind_targets b live public_ips ts is) _
                rest λ ns others. (bound, others)

module _ (x : Outside) (y : Artifacts) (z : Recipes) (b : Plan.Plan) (live : Map Live) (o : Options)
    (protocol now : ℕ) where
  build_public-Holds :
      (public_ips : Map String)
      → Holds
          (λ p. All (IsBound live public_ips) p.targets)
          (build_public x y z b live o protocol now public_ips)
  unfolding build_public
  build_public-Holds public_ips = Holds-after _ (requested_tls x y z b o) _ λ tls.
      Holds-bind (All (IsBound live public_ips)) _
        (bind_targets b live public_ips b.compute.targets b.targets) _
        (bind_targets-Holds b live public_ips b.compute.targets b.targets)
        λ targets bound. Holds-after _ (validate_deployment_plan x y z _) _ λ u. bound

-- Every target of a deployment plan that BuildWith returns is bound to the live instance of its name:
-- it has the instance's ID and private address, and advertises its public address, which is not empty
-- and is the one that the options carry for the target. The options carried public addresses: without
-- them BuildWith returns no plan.
pub build_deployment-IsBound :
    (x : Outside) (y : Artifacts) (z : Recipes) (b : Plan.Plan) (live : Map Live) (o : Options)
    (protocol now : ℕ) (p : Deployment)
    → build_deployment x y z b live o protocol now ≡ ok p
    → (public_ips : Map String) × (o.public_ips ≡ some public_ips)
      × All (IsBound live public_ips) p.targets
unfolding build_deployment
build_deployment-IsBound x y z b live o protocol now p h =
    Holds-ok
      (λ p'.
        (public_ips : Map String) × (o.public_ips ≡ some public_ips)
        × All (IsBound live public_ips) p'.targets)
      (build_deployment x y z b live o protocol now)
      (Holds-after _ (validate_bootstrap_plan x y z.bootstrap b) _ λ u. decided o.public_ips refl) h
  where
    decided :
        (ips : Option (Map String))
        → o.public_ips ≡ ips
        → Holds
            (λ p'.
              (public_ips : Map String) × (o.public_ips ≡ some public_ips)
              × All (IsBound live public_ips) p'.targets)
            (elim ips [
              | none ↦ err (
                  text
                    "dashmate-rendered devnets advertise public addresses: every host needs an IPAM Elastic IP")
              | some public_ips ↦ build_public x y z b live o protocol now public_ips
            ])
    decided none is = tt
    decided (some ips) is =
        Holds-weaken _ _ (build_public x y z b live o protocol now ips)
          (λ p' bound. (ips, is, bound)) (build_public-Holds x y z b live o protocol now ips)
