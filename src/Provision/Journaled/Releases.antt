-- ===== src/Provision/Journaled/Releases.antt =====
-- `ReleaseAddresses` keeps to the policy: ReleaseAddress follows an accepted save of its intent.
use dash_network_go.Common.{String, Option, none, some, List, [], ◌∷◌, refl, Map, lookup, ap}
use dash_network_go.Common.Result.{Error, Result, ok, err}
use dash_network_go.Provision.Types.{Target, Plan, AddressProgress, NodeProgress, Record, node_of}
use dash_network_go.Provision.Outside.{Outside}
use dash_network_go.Provision.Cloud.{Instance, Address, InstancesOutput}
use dash_network_go.Provision.Effects.{M, release_address, ask}
use dash_network_go.Provision.Release.{
  absent, verify_address_released, purged_reply, purged_result, verify_instance_purged, skip_live,
  verify_purged, check_release, check_releases, mark_released, release_one, release_address_of,
  release_target, release_targets, check_cleanup, retire, cleanup,
}
use dash_network_go.Provision.Hoare.{Keeps, Keeps-bind, Keeps-pure}
use dash_network_go.Provision.Journaled.Rules.{Policy, HasAddressPhase}
use dash_network_go.Provision.Journaled.Steps.{Keeps-announce, Follows-bind, Follows-ask}
use dash_network_go.Provision.Journaled.Quiet.{keeps_rules}
use dash_network_go.Provision.Journaled.Launches.{check_cancelled-Keeps}
use dash_network_go.Provision.Journaled.Allocations.{discover_addresses-Keeps}

absent-Keeps : (e : Option Error) → Keeps Policy (absent e)
unfolding absent
absent-Keeps none = search keeps_rules
absent-Keeps (some e) = search keeps_rules

verify_address_released-Keeps : (id : String) → Keeps Policy (verify_address_released id)
unfolding verify_address_released
verify_address_released-Keeps id = search (keeps_rules, absent-Keeps)

purged_reply-Keeps :
    (id : String) (out : Option InstancesOutput) → Keeps Policy (purged_reply id out)
unfolding purged_reply
purged_reply-Keeps id none = search keeps_rules
purged_reply-Keeps id (some o) = search keeps_rules

purged_result-Keeps :
    (id : String) (r : Result (Option InstancesOutput)) → Keeps Policy (purged_result id r)
unfolding purged_result
purged_result-Keeps id (err e) = search keeps_rules
purged_result-Keeps id (ok out) = purged_reply-Keeps id out

verify_instance_purged-Keeps : (id : String) → Keeps Policy (verify_instance_purged id)
unfolding verify_instance_purged
verify_instance_purged-Keeps id = search (keeps_rules, purged_result-Keeps)

skip_live-Keeps :
    (id : String) (rest : M (List String)) (i : Option Instance)
    → Keeps Policy rest
    → Keeps Policy (skip_live id rest i)
unfolding skip_live
skip_live-Keeps id rest (some i) k = k
skip_live-Keeps id rest none k =
    Keeps-bind (verify_instance_purged id) _ (verify_instance_purged-Keeps id)
      (λ u. Keeps-bind rest _ k (λ purged. Keeps-pure _))

verify_purged-Keeps :
    (live : Map Instance) (ids : List String) → Keeps Policy (verify_purged live ids)
unfolding verify_purged
verify_purged-Keeps live [] = Keeps-pure []
verify_purged-Keeps live (id ∷ ids) =
    skip_live-Keeps id _ (lookup id live) (verify_purged-Keeps live ids)

check_release-Keeps :
    (t : Target) (j : Option AddressProgress) (a : Option Address)
    → Keeps Policy (check_release t j a)
unfolding check_release
check_release-Keeps t none none = search keeps_rules
check_release-Keeps t none (some a) = search keeps_rules
check_release-Keeps t (some j) none = search (keeps_rules, verify_address_released-Keeps)
check_release-Keeps t (some j) (some a) = search keeps_rules

check_releases-Keeps :
    (r : Record) (found : Map Address) (ts : List Target) → Keeps Policy (check_releases r found ts)
unfolding check_releases
check_releases-Keeps r found [] = Keeps-pure tt
check_releases-Keeps r found (t ∷ ts) =
    Keeps-bind (check_release t (node_of r t.name).address (lookup t.name found)) _
      (check_release-Keeps t _ _) (λ u. check_releases-Keeps r found ts)

module _ (owner : String) where
  mark_released-Keeps :
      (t : Target) (n : NodeProgress) (j : AddressProgress)
      → Keeps Policy (mark_released owner t n j)
  unfolding mark_released
  mark_released-Keeps t n j = search keeps_rules

  -- ReleaseAddress is called on an accepted save of the intent.
  release_one-Keeps :
      (t : Target) (n : NodeProgress) (j : AddressProgress) (a : Option Address)
      → Keeps Policy (release_one owner t n j a)
  unfolding release_one
  release_one-Keeps t n j none = mark_released-Keeps t n j
  release_one-Keeps t n j (some a) = Keeps-announce owner t.name _ _ (
      Follows-bind t.name _ (ask (release_address a.allocation_id)) _
        (Follows-ask t.name _ (release_address a.allocation_id)
          (λ w r. (name : String) × HasAddressPhase "releasing" (node_of r name))
          (λ w r is. (t.name, (_, ap (λ (m : NodeProgress). m.address) is, refl)))
          (λ w h saved. saved))
        (λ e. search (keeps_rules, verify_address_released-Keeps, mark_released-Keeps) depth 9))

  release_address_of-Keeps :
      (found : Map Address) (t : Target) (n : NodeProgress) (j : Option AddressProgress)
      → Keeps Policy (release_address_of owner found t n j)
  unfolding release_address_of
  release_address_of-Keeps found t n none = Keeps-pure tt
  release_address_of-Keeps found t n (some j) = release_one-Keeps t n j _

  release_target-Keeps :
      (found : Map Address) (t : Target) → Keeps Policy (release_target owner found t)
  unfolding release_target
  release_target-Keeps found t =
      search (keeps_rules, check_cancelled-Keeps, release_address_of-Keeps) depth 9

  pub release_targets-Keeps :
      (found : Map Address) (ts : List Target) → Keeps Policy (release_targets owner found ts)
  unfolding release_targets
  release_targets-Keeps found [] = Keeps-pure tt
  release_targets-Keeps found (t ∷ ts) =
      Keeps-bind (release_target owner found t) _ (release_target-Keeps found t)
        (λ u. release_targets-Keeps found ts)

module _ (x : Outside) (p : Plan) (owner : String) where
  check_cleanup-Keeps : (r : Record) → Keeps Policy (check_cleanup x p owner r)
  unfolding check_cleanup
  check_cleanup-Keeps r =
      search (keeps_rules, verify_purged-Keeps, discover_addresses-Keeps, check_releases-Keeps)
        depth 20

  retire-Keeps : Keeps Policy (retire x p owner)
  unfolding retire
  retire-Keeps = search keeps_rules

  pub cleanup-Keeps : Keeps Policy (cleanup x p owner)
  unfolding cleanup
  cleanup-Keeps =
      search (keeps_rules, check_cleanup-Keeps, release_targets-Keeps, retire-Keeps) depth 14
