-- ===== src/Provision/Journaled/Launches.antt =====
-- The launch loop of Execute and the discoveries keep to the policy.
use dash_network_go.Common.{
  ℕ, zero, suc, String, Bool, Option, none, some, List, [], ◌∷◌, ◌≡◌, refl, Map, lookup, ◌==◌, ap,
  ◌∙◌,
}
use dash_network_go.Common.Result.{other}
use dash_network_go.Spec.Types.{Provision}
use dash_network_go.Provision.Types.{Target, Plan, NodeProgress, node_of}
use dash_network_go.Provision.Outside.{Outside}
use dash_network_go.Provision.Cloud.{Instance, InstancesOutput}
use dash_network_go.Provision.Plan.{token}
use dash_network_go.Provision.Discovery.{Found}
use dash_network_go.Provision.Effects.{Call, M, run_instances, ask, get, raise, pure}
use dash_network_go.Provision.Ec2.{
  check_cancelled, config, read_page, discover_pages, discover, one_identity, launch, launch_target,
  launch_targets, reconcile_target, reconcile,
}
use dash_network_go.Provision.Hoare.{
  Keeps, Keeps-bind, Keeps-if, Keeps-get, Keeps-raise, Keeps-pure,
}
use dash_network_go.Provision.Journaled.Rules.{Policy}
use dash_network_go.Provision.Journaled.Steps.{Follows, Keeps-announce, Follows-bind, Follows-ask}
use dash_network_go.Provision.Journaled.Quiet.{keeps_rules}

pub check_cancelled-Keeps : Keeps Policy check_cancelled
unfolding check_cancelled
check_cancelled-Keeps = search keeps_rules

pub config-Keeps : (p : Plan) → Keeps Policy (config p)
unfolding config
config-Keeps p =
    elim p.network.aws.provision
      as (λ c.
        Keeps Policy
          (elim c [ none ↦ raise (other "nil pointer dereference") | some c ↦ pure c ])) [
            | none ↦ Keeps-raise _
            | some c ↦ Keeps-pure c
          ]

module _ (x : Outside) (p : Plan) where
  read_page-Keeps :
      (c : Provision) (seen : List String) (f : Found) (next : String → Found → M (Map Instance))
      (out : Option InstancesOutput)
      → ((token : String) (f' : Found) → Keeps Policy (next token f'))
      → Keeps Policy (read_page x p c seen f next out)
  unfolding read_page
  read_page-Keeps c seen f next none k = search keeps_rules
  read_page-Keeps c seen f next (some o) k = search (keeps_rules, k) depth 9

  discover_pages-Keeps :
      (fuel : ℕ) (c : Provision) (page : String) (seen : List String) (f : Found)
      → Keeps Policy (discover_pages x p fuel c page seen f)
  unfolding discover_pages
  discover_pages-Keeps zero c page seen f = search keeps_rules
  discover_pages-Keeps (suc fuel) c page seen f =
      let next = discover_pages-Keeps fuel c in search (keeps_rules, read_page-Keeps, next) depth 9

  pub discover-Keeps : (fuel : ℕ) → Keeps Policy (discover x p fuel)
  unfolding discover
  discover-Keeps fuel = search (keeps_rules, config-Keeps, discover_pages-Keeps)

  one_identity-Keeps : (ids : Option (List String)) → Keeps Policy (one_identity x p ids)
  unfolding one_identity
  one_identity-Keeps none = search keeps_rules
  one_identity-Keeps (some []) = search keeps_rules
  one_identity-Keeps (some (id ∷ [])) = search keeps_rules
  one_identity-Keeps (some (id ∷ j ∷ more)) = search keeps_rules

  launch-Follows :
      (t : Target) (n : NodeProgress) → n.phase ≡ "launching" → Follows t.name n (launch x p t)
  unfolding launch
  launch-Follows t n e =
      Follows-bind t.name n (ask (run_instances (token x p t) t.name)) _
        (Follows-ask t.name n (run_instances (token x p t) t.name)
          (λ w r. (node_of r t.name).phase ≡ "launching")
          (λ w r is. ap (λ (m : NodeProgress). m.phase) is ∙ e) (λ w h saved. saved))
        (λ answer. search (keeps_rules, one_identity-Keeps))

  -- One round of the launch loop: RunInstances is called on an accepted save of the intent only.
  launch_target-Keeps : (owner : String) (t : Target) → Keeps Policy (launch_target x p owner t)
  unfolding launch_target
  launch_target-Keeps owner t = Keeps-bind get _ Keeps-get λ r.
      Keeps-if ((node_of r t.name).phase == "present") _ _ (Keeps-pure tt) (
        Keeps-bind check_cancelled _ check_cancelled-Keeps λ u.
          Keeps-bind (ask Call.now) _ (search keeps_rules) λ attempted.
            Keeps-announce owner t.name _ _ (
              Follows-bind t.name _ (launch x p t) _ (launch-Follows t _ refl)
                (λ id. search keeps_rules)))

  pub launch_targets-Keeps :
      (owner : String) (ts : List Target) → Keeps Policy (launch_targets x p owner ts)
  unfolding launch_targets
  launch_targets-Keeps owner [] = Keeps-pure tt
  launch_targets-Keeps owner (t ∷ ts) =
      Keeps-bind (launch_target x p owner t) _ (launch_target-Keeps owner t)
        (λ u. launch_targets-Keeps owner ts)

reconcile_target-Keeps :
    (b : Bool) (t : Target) (i : Option Instance) → Keeps Policy (reconcile_target b t i)
unfolding reconcile_target
reconcile_target-Keeps b t none = search keeps_rules depth 9
reconcile_target-Keeps b t (some i) = search keeps_rules depth 9

pub reconcile-Keeps :
    (b : Bool) (live : Map Instance) (ts : List Target) → Keeps Policy (reconcile b live ts)
unfolding reconcile
reconcile-Keeps b live [] = Keeps-pure tt
reconcile-Keeps b live (t ∷ ts) =
    Keeps-bind (reconcile_target b t (lookup t.name live)) _ (reconcile_target-Keeps b t _)
      (λ u. reconcile-Keeps b live ts)
