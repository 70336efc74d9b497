-- ===== src/Provision/Journaled/Whole.antt =====
-- Execute and ReleaseAddresses keep to the policy as a whole, their deferred functions included.
use dash_network_go.Common.{
  ℕ, zero, suc, String, Bool, Option, none, some, List, [], ◌∷◌, Map, contains,
}
use dash_network_go.Common.Result.{Error, Result, ok, err}
use dash_network_go.Spec.Types.{Provision, NodeGroup, Network}
use dash_network_go.Provision.Types.{Plan, Record}
use dash_network_go.Provision.Outside.{Outside}
use dash_network_go.Provision.Cloud.{Instance}
use dash_network_go.Provision.Effects.{Call, World, M, ask, or_raise, attempt}
use dash_network_go.Provision.Preflight.{
  verify_account, the_one, check_images, check_type, check_types, check_public, check_scope,
  require_footprint, footprint_of, prepare,
}
use dash_network_go.Provision.Execute.{
  Wording, interrupt, recover, deferring, ready_addresses, mark_ready, poll_round, wait_then, poll,
  check_live, begin, claimed, execute,
}
use dash_network_go.Provision.Release.{release_addresses}
use dash_network_go.Provision.Hoare.{
  Keeps, Keeps-bind, Keeps-if, Keeps-raise, Keeps-pure, Keeps-attempt, Keeps-or_raise,
}
use dash_network_go.Provision.Journaled.Rules.{Policy, AreJournaled}
use dash_network_go.Provision.Journaled.Quiet.{keeps_rules}
use dash_network_go.Provision.Journaled.Launches.{
  config-Keeps, discover-Keeps, reconcile-Keeps, launch_targets-Keeps,
}
use dash_network_go.Provision.Journaled.Allocations.{
  verify_pool-Keeps, discover_addresses-Keeps, ensure_addresses-Keeps,
}
use dash_network_go.Provision.Journaled.Releases.{cleanup-Keeps}

verify_account-Keeps : (a : String) → Keeps Policy (verify_account a)
unfolding verify_account
verify_account-Keeps a = search keeps_rules depth 9

the_one-Keeps : {A : Type 0} (m : String) (l : Option (List A)) → Keeps Policy (the_one m l)
unfolding the_one
the_one-Keeps m none = Keeps-raise _
the_one-Keeps m (some []) = Keeps-raise _
the_one-Keeps m (some (a ∷ [])) = Keeps-pure a
the_one-Keeps m (some (a ∷ b ∷ l)) = Keeps-raise _

check_images-Keeps :
    (c : Provision) (as' : List String) (roots : Map String)
    → Keeps Policy (check_images c as' roots)
unfolding check_images
check_images-Keeps c [] roots = Keeps-pure roots
check_images-Keeps c (a ∷ as') roots =
    let rest = check_images-Keeps c as' in search (keeps_rules, the_one-Keeps, rest) depth 16

check_type-Keeps : (g : NodeGroup) → Keeps Policy (check_type g)
unfolding check_type
check_type-Keeps g = search (keeps_rules, the_one-Keeps) depth 12

check_types-Keeps :
    (checked : List String) (gs : List NodeGroup) → Keeps Policy (check_types checked gs)
unfolding check_types
check_types-Keeps checked [] = Keeps-pure tt
check_types-Keeps checked (g ∷ gs) =
    Keeps-if (contains _ checked) _ _ (check_types-Keeps checked gs)
      (Keeps-bind (check_type g) _ (check_type-Keeps g) (λ u. check_types-Keeps (_ ∷ checked) gs))

check_public-Keeps : (n : Network) (c : Provision) → Keeps Policy (check_public n c)
unfolding check_public
check_public-Keeps n c = search (keeps_rules, verify_pool-Keeps)

check_scope-Keeps : (n : Network) (c : Provision) → Keeps Policy (check_scope n c)
unfolding check_scope
check_scope-Keeps n c = search (keeps_rules, the_one-Keeps) depth 24

footprint-Keeps : (c : Option Provision) → Keeps Policy (require_footprint c)
unfolding require_footprint
footprint-Keeps none = Keeps-raise _
footprint-Keeps (some c) = Keeps-pure c

footprint_of-Keeps : (n : Network) → Keeps Policy (footprint_of n)
unfolding footprint_of
footprint_of-Keeps n = footprint-Keeps n.aws.provision

prepare-Keeps : (x : Outside) (n : Network) → Keeps Policy (prepare x n)
unfolding prepare
prepare-Keeps x n =
    search
      (
        keeps_rules, verify_account-Keeps, check_images-Keeps, check_types-Keeps,
        check_public-Keeps, check_scope-Keeps, footprint_of-Keeps,
      )
      depth 20

module _ (owner : String) (words : Wording) where
  interrupt-Keeps :
      (message : Error → String) (e : Error) → Keeps Policy (interrupt owner words message e)
  unfolding interrupt
  interrupt-Keeps message e = search keeps_rules depth 12

  recover-Keeps :
      (message : Error → String) (mark : Record → Bool) (r : Result (Unit {0}))
      → Keeps Policy (recover owner words message mark r)
  unfolding recover
  recover-Keeps message mark (ok u) = search keeps_rules
  recover-Keeps message mark (err e) = search (keeps_rules, interrupt-Keeps) depth 12

  deferring-Keeps :
      (message : Error → String) (mark : Record → Bool) (body : M (Unit {0}))
      → Keeps Policy body
      → Keeps Policy (deferring owner words message mark body)
  unfolding deferring
  deferring-Keeps message mark body k =
      Keeps-bind (attempt body) _ (Keeps-attempt body k) (λ r. recover-Keeps message mark r)

module _ (x : Outside) (p : Plan) (owner version : String) (pages : ℕ) where
  ready_addresses-Keeps :
      (ready : Bool) (live : Map Instance)
      → Keeps Policy (ready_addresses x p owner version pages ready live)
  unfolding ready_addresses
  ready_addresses-Keeps ready live = search (keeps_rules, ensure_addresses-Keeps)

  mark_ready-Keeps : (ready : Bool) → Keeps Policy (mark_ready x p owner version pages ready)
  unfolding mark_ready
  mark_ready-Keeps ready = search keeps_rules

  poll_round-Keeps : Keeps Policy (poll_round x p owner version pages)
  unfolding poll_round
  poll_round-Keeps =
      search (keeps_rules, discover-Keeps, reconcile-Keeps, ready_addresses-Keeps, mark_ready-Keeps)
        depth 20

  wait_then-Keeps :
      (next : M (Unit {0})) (ready : Bool)
      → Keeps Policy next
      → Keeps Policy (wait_then x p owner version pages next ready)
  unfolding wait_then
  wait_then-Keeps next ready k = Keeps-if ready _ _ (Keeps-pure tt) (
      Keeps-bind (ask Call.wait) _ (search keeps_rules)
        λ stopped. Keeps-bind (or_raise stopped) _ (Keeps-or_raise stopped) (λ u. k))

  poll-Keeps : (polls : ℕ) → Keeps Policy (poll x p owner version pages polls)
  unfolding poll
  poll-Keeps zero = Keeps-raise _
  poll-Keeps (suc polls) =
      Keeps-bind (poll_round x p owner version pages) _ poll_round-Keeps
        (λ ready. wait_then-Keeps (poll x p owner version pages polls) ready (poll-Keeps polls))

  check_live-Keeps : Keeps Policy (check_live x p owner version pages)
  unfolding check_live
  check_live-Keeps =
      search (keeps_rules, discover-Keeps, reconcile-Keeps, discover_addresses-Keeps) depth 14

  begin-Keeps : Keeps Policy (begin x p owner version pages)
  unfolding begin
  begin-Keeps = search keeps_rules depth 14

  claimed-Keeps : (polls : ℕ) → Keeps Policy (claimed x p owner version pages polls)
  unfolding claimed
  claimed-Keeps polls =
      search (keeps_rules, begin-Keeps, check_live-Keeps, launch_targets-Keeps, poll-Keeps) depth 14

  execute-Keeps :
      (positive_interval : Bool) (polls : ℕ)
      → Keeps Policy (execute x p owner version pages positive_interval polls)
  unfolding execute
  execute-Keeps positive_interval polls =
      search (keeps_rules, prepare-Keeps, deferring-Keeps, claimed-Keeps) depth 20

-- In every run of Execute, whatever the services answer: each RunInstances, AllocateAddress and
-- AssociateAddress directly follows a save that the store accepted, of a record in which the target
-- is launching, its address is being allocated, or its address is being associated with the
-- instance of the call.
pub execute-AreJournaled :
    (x : Outside) (p : Plan) (owner version : String) (pages polls : ℕ) (positive_interval : Bool)
    (w : World) (r : Record)
    → AreJournaled w
        (execute x p owner version pages positive_interval polls w
          (record { journal = r; calls = [] })).1.calls
execute-AreJournaled x p owner version pages polls positive_interval w r =
    (execute-Keeps x p owner version pages positive_interval polls).at w
      (record { journal = r; calls = [] }) tt

release_addresses-Keeps :
    (x : Outside) (p : Plan) (owner : String) → Keeps Policy (release_addresses x p owner)
unfolding release_addresses
release_addresses-Keeps x p owner =
    search
      (
        keeps_rules, verify_account-Keeps, config-Keeps, verify_pool-Keeps, deferring-Keeps,
        cleanup-Keeps,
      )
      depth 20

-- In every run of ReleaseAddresses, whatever the services answer: each ReleaseAddress directly
-- follows a save that the store accepted, of a record in which an address is being released.
pub release_addresses-AreJournaled :
    (x : Outside) (p : Plan) (owner : String) (w : World) (r : Record)
    → AreJournaled w (release_addresses x p owner w (record { journal = r; calls = [] })).1.calls
release_addresses-AreJournaled x p owner w r =
    (release_addresses-Keeps x p owner).at w (record { journal = r; calls = [] }) tt
