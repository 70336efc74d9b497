-- ===== src/Provision/Journaled/Allocations.antt =====
-- `ensureAddresses` keeps to the policy: AllocateAddress and AssociateAddress each follow an accepted
-- save of their intent.
use dash_network_go.Common.{
  String, Option, none, some, List, [], ◌∷◌, ◌≡◌, refl, Map, lookup, ◌==◌, not, ap,
}
use dash_network_go.Common.Result.{Error, Result, ok, err}
use dash_network_go.Spec.Types.{Network, Provision}
use dash_network_go.Provision.Types.{Target, Plan, AddressProgress, NodeProgress, Record, node_of}
use dash_network_go.Provision.Cloud.{Instance, Address, AllocateOutput, PoolsOutput, Pool}
use dash_network_go.Provision.Addresses.{rejected}
use dash_network_go.Provision.Effects.{Call, M, allocate, associate, ask, attempt, ◌>>=◌}
use dash_network_go.Provision.Ipam.{
  incomplete_pools, check_pool_list, check_pools, take_back, verify_pool, discover_addresses,
  check_interface, check_interfaces, save_address, check_intent, allocated, intent, visible,
  allocate_missing, find_or_allocate, nil_address, adopt, associated_now, attach, finish,
  ensure_address, ensure_each, ensure_addresses,
}
use dash_network_go.Provision.Hoare.{
  Keeps, Keeps-bind, Keeps-if, Keeps-raise, Keeps-pure, Keeps-attempt, bind_assoc, pure-bind,
}
use dash_network_go.Provision.Journaled.Rules.{Policy, HasAddressPhase}
use dash_network_go.Provision.Journaled.Steps.{Follows, Keeps-announce, Follows-bind, Follows-ask}
use dash_network_go.Provision.Journaled.Quiet.{keeps_rules}
use dash_network_go.Provision.Journaled.Launches.{check_cancelled-Keeps}

check_pool_list-Keeps :
    (n : Network) (id token : String) (l : List Pool) → Keeps Policy (check_pool_list n id token l)
unfolding check_pool_list incomplete_pools
check_pool_list-Keeps n id token [] = search keeps_rules
check_pool_list-Keeps n id token (q ∷ []) = search keeps_rules
check_pool_list-Keeps n id token (q ∷ q' ∷ more) = search keeps_rules

check_pools-Keeps :
    (n : Network) (id : String) (out : Option PoolsOutput) → Keeps Policy (check_pools n id out)
unfolding check_pools incomplete_pools
check_pools-Keeps n id none = search keeps_rules
check_pools-Keeps n id (some o) = check_pool_list-Keeps n id o.next_token o.pools

pub verify_pool-Keeps : (n : Network) (c : Provision) → Keeps Policy (verify_pool n c)
unfolding verify_pool
verify_pool-Keeps n c = search (keeps_rules, check_pools-Keeps) depth 9

take_back-Keeps : (e : Error) (r : Result NodeProgress) → Keeps Policy (take_back e r)
unfolding take_back
take_back-Keeps e (ok n) = search keeps_rules
take_back-Keeps e (err e') = search keeps_rules

visible-Keeps : (t : Target) (a : Option Address) → Keeps Policy (visible t a)
unfolding visible
visible-Keeps t none = search keeps_rules
visible-Keeps t (some a) = search keeps_rules

associated_now-Keeps : (t : Target) (a : Option Address) → Keeps Policy (associated_now t a)
unfolding associated_now
associated_now-Keeps t none = search keeps_rules
associated_now-Keeps t (some a) = search keeps_rules

module _ (p : Plan) (live : Map Instance) where
  pub discover_addresses-Keeps : (r : Record) → Keeps Policy (discover_addresses p live r)
  unfolding discover_addresses
  discover_addresses-Keeps r = search keeps_rules depth 9

  check_interface-Keeps :
      (found : Map Address) (t : Target) (i : Option Instance)
      → Keeps Policy (check_interface p live found t i)
  unfolding check_interface
  check_interface-Keeps found t none = search keeps_rules
  check_interface-Keeps found t (some i) = search keeps_rules depth 9

  check_interfaces-Keeps :
      (found : Map Address) (ts : List Target) → Keeps Policy (check_interfaces p live found ts)
  unfolding check_interfaces
  check_interfaces-Keeps found [] = Keeps-pure tt
  check_interfaces-Keeps found (t ∷ ts) =
      Keeps-bind (check_interface p live found t (lookup t.name live)) _
        (check_interface-Keeps found t _) (λ u. check_interfaces-Keeps found ts)

  module _ (owner : String) where
    save_address-Keeps :
        (t : Target) (n : NodeProgress) (a : Option AddressProgress)
        → Keeps Policy (save_address p live owner t n a)
    unfolding save_address
    save_address-Keeps t n a = search keeps_rules depth 9

    -- A saved address is announced to what follows.
    Keeps-save_address :
        {A : Type 0} (t : Target) (n : NodeProgress) (a : Option AddressProgress)
        (f : NodeProgress → M A)
        → Follows t.name (record n { address = a }) (f (record n { address = a }))
        → Keeps Policy (save_address p live owner t n a >>= f)
    unfolding save_address
    Keeps-save_address t n a f follows =
        simp (bind_assoc, pure-bind) (Keeps-announce owner t.name _ _ follows)

    check_intent-Keeps :
        (t : Target) (a : Option AddressProgress) → Keeps Policy (check_intent p live owner t a)
    unfolding check_intent
    check_intent-Keeps t none = search keeps_rules
    check_intent-Keeps t (some j) = search keeps_rules depth 9

    allocated-Keeps :
        (t : Target) (n : NodeProgress) (answer : Result (Option AllocateOutput))
        → Keeps Policy (allocated p live owner t n answer)
    unfolding allocated
    allocated-Keeps t n (err e) =
        Keeps-if (rejected e) _ _
          (Keeps-bind (attempt (save_address p live owner t n none)) _
            (Keeps-attempt _ (save_address-Keeps t n none)) (λ saved. take_back-Keeps e saved))
          (Keeps-raise _)
    allocated-Keeps t n (ok none) = search keeps_rules
    allocated-Keeps t n (ok (some o)) = search keeps_rules

    ruleset address_rules = (
      keeps_rules, check_cancelled-Keeps, check_intent-Keeps, save_address-Keeps, allocated-Keeps,
      visible-Keeps, associated_now-Keeps, discover_addresses-Keeps,
    )

    -- AllocateAddress is called on an accepted save of the intent.
    allocate_missing-Keeps :
        (t : Target) (n : NodeProgress) → Keeps Policy (allocate_missing p live owner t n)
    unfolding allocate_missing intent
    allocate_missing-Keeps t n =
        Keeps-bind (check_intent p live owner t n.address) _ (check_intent-Keeps t n.address) λ u.
          Keeps-bind (ask Call.now) _ (search keeps_rules) λ time. Keeps-save_address t n _ _ (
            Follows-bind t.name _ (ask (allocate t.name)) _
              (Follows-ask t.name _ (allocate t.name)
                (λ w r. HasAddressPhase "allocating" (node_of r t.name))
                (λ w r is. (_, ap (λ (m : NodeProgress). m.address) is, refl)) (λ w h saved. saved))
              (λ answer. search address_rules depth 12))

    find_or_allocate-Keeps :
        (found : Map Address) (t : Target) (n : NodeProgress) (a : Option Address)
        → Keeps Policy (find_or_allocate p live owner found t n a)
    unfolding find_or_allocate
    find_or_allocate-Keeps found t n none = allocate_missing-Keeps t n
    find_or_allocate-Keeps found t n (some a) = Keeps-pure _

    adopt-Keeps :
        (t : Target) (n : NodeProgress) (j : Option AddressProgress) (a : Address)
        → Keeps Policy (adopt p live owner t n j a)
    unfolding adopt nil_address
    adopt-Keeps t n none a = search keeps_rules
    adopt-Keeps t n (some j) a = search address_rules

    -- AssociateAddress is called on an accepted save of the intent, for the journaled instance.
    attach-Keeps :
        (found : Map Address) (t : Target) (n : NodeProgress) (j : Option AddressProgress)
        (a : Address)
        → Keeps Policy (attach p live owner found t n j a)
    unfolding attach
    attach-Keeps found t n none a = search keeps_rules
    attach-Keeps found t n (some j) a = Keeps-if (not (a.association_id == "")) _ _ (Keeps-pure _) (
        Keeps-if (j.phase == "associating") _ _ (Keeps-raise _) (
          Keeps-save_address t n _ _ (
            Follows-bind t.name _ (ask (associate a.allocation_id n.instance_id)) _
              (Follows-ask t.name _ (associate a.allocation_id n.instance_id)
                (λ w r.
                  (name : String) × HasAddressPhase "associating" (node_of r name)
                  × ((node_of r name).instance_id ≡ n.instance_id))
                (λ w r is. (
                  t.name,
                  (_, ap (λ (m : NodeProgress). m.address) is, refl),
                  ap (λ (m : NodeProgress). m.instance_id) is,
                ))
                (λ w h saved. saved))
              (λ e. search address_rules depth 12))))

    finish-Keeps :
        (t : Target) (n : NodeProgress) (j : Option AddressProgress) (a : Address)
        → Keeps Policy (finish p live owner t n j a)
    unfolding finish
    finish-Keeps t n none a = search keeps_rules
    finish-Keeps t n (some j) a = search address_rules

    ensure_address-Keeps :
        (found : Map Address) (t : Target) → Keeps Policy (ensure_address p live owner found t)
    unfolding ensure_address
    ensure_address-Keeps found t =
        search (address_rules, find_or_allocate-Keeps, adopt-Keeps, attach-Keeps, finish-Keeps)
          depth 14

    ensure_each-Keeps :
        (found : Map Address) (ts : List Target) → Keeps Policy (ensure_each p live owner found ts)
    unfolding ensure_each
    ensure_each-Keeps found [] = Keeps-pure tt
    ensure_each-Keeps found (t ∷ ts) =
        Keeps-bind (ensure_address p live owner found t) _ (ensure_address-Keeps found t)
          (λ found'. ensure_each-Keeps found' ts)

    pub ensure_addresses-Keeps : Keeps Policy (ensure_addresses p live owner)
    unfolding ensure_addresses
    ensure_addresses-Keeps =
        search (address_rules, check_interfaces-Keeps, ensure_each-Keeps) depth 9
