-- ===== src/Provision/Release.antt =====
-- `ReleaseAddresses` of internal/provision/ipam_release.go: the Elastic IPs of a terminated fleet are
-- released, each after a journaled intent and with its absence verified by ID.
use dash_network_go.Common.{
  String, Bool, true, false, Option, none, some, List, [], ◌∷◌, ◌&&◌, ◌||◌, not, ◌==◌, Map, map,
  lookup, insert, contains, if◌then◌else◌,
}
use dash_network_go.Common.Result.{
  Error, text, at, wrap, api_code, error_text, Result, ok, err, refuse,
}
use dash_network_go.Provision.Types.{Target, Plan, AddressProgress, NodeProgress, Record, node_of}
use dash_network_go.Provision.Outside.{Outside}
use dash_network_go.Provision.Plan.{validate_plan, token}
use dash_network_go.Provision.Compute.{public_ipv4, ipam_pool, validate_address_cleanup}
use dash_network_go.Provision.Cloud.{Instance, Reservation, InstancesOutput, Address}
use dash_network_go.Provision.Discovery.{read_tags, owned}
use dash_network_go.Provision.Effects.{
  describe_ids, describe_allocation, release_address, acquire, M, pure, raise, lift, ask, or_raise,
  get, put, ◌>>=◌, ◌>>◌,
}
use dash_network_go.Provision.Ec2.{config, check_cancelled, put_node, save_journal}
use dash_network_go.Provision.Ipam.{discover_addresses, verify_pool}
use dash_network_go.Provision.Preflight.{verify_account}
use dash_network_go.Provision.Execute.{deferring, is_ok}

-- errors.As to an API error with this code
unfoldable pub has_code : String → Error → Bool
unfolding api_code
has_code code e = elim (api_code e) [ none ↦ false | some c ↦ c == code ]

-- verifyAddressReleased: only the exact ID reported as gone is proof
unfoldable pub absent : Option Error → M (Unit {0})
absent none = raise (text "released allocation not proven absent by ID; inspect before resuming")
absent (some e) =
    if has_code "InvalidAllocationID.NotFound" e
    then pure tt
    else raise (wrap "verify exact released allocation" e)

unfoldable pub verify_address_released : String → M (Unit {0})
verify_address_released id = do e ← ask (describe_allocation id); absent e

unfoldable pub has_instances : List Reservation → Bool
has_instances [] = false
has_instances (v ∷ vs) = elim v.instances [ [] ↦ has_instances vs | i ∷ is ↦ true ]

unfoldable pub purged_reply : String → Option InstancesOutput → M (Unit {0})
purged_reply id none = raise (at "incomplete readback for purged instance" id)
purged_reply id (some o) =
    if not (o.next_token == "")
    then raise (at "incomplete readback for purged instance" id)
    else if has_instances o.reservations
    then raise (at "unexpected readback for instance; inspect before cleanup" id)
    else pure tt

-- verifyInstancePurged
unfoldable pub purged_result : String → Result (Option InstancesOutput) → M (Unit {0})
purged_result id (err e) =
    if has_code "InvalidInstanceID.NotFound" e
    then pure tt
    else raise (wrap "verify purged instance" e)
purged_result id (ok out) = purged_reply id out

unfoldable pub verify_instance_purged : String → M (Unit {0})
verify_instance_purged id = do answer ← ask (describe_ids (id ∷ [])); purged_result id answer

-- the instance IDs of all targets, each present
unfoldable pub instance_ids : Record → List Target → Result (List String)
unfolding node_of
instance_ids r [] = ok []
instance_ids r (t ∷ ts) =
    let rest = instance_ids r ts in
    let n = node_of r t.name in
    if not (n.phase == "present") || n.instance_id == ""
    then err (at "unresolved instance identity; reconcile before cleanup" t.name)
    else elim rest [ ok ids ↦ ok (n.instance_id ∷ ids) | err e ↦ err e ]

unfoldable pub read_instances : List Instance → Map Instance → Result (Map Instance)
unfolding lookup insert
read_instances [] live = ok live
read_instances (i ∷ is) live =
    let rest = read_instances is (insert i.id i live) in
    elim (lookup i.id live) [ none ↦ rest | some other ↦ err (text "duplicate cleanup instance") ]

unfoldable pub read_reservations : Plan → List Reservation → Map Instance → Result (Map Instance)
unfolding read_instances
read_reservations p [] live = ok live
read_reservations p (v ∷ vs) live =
    if not (v.owner_id == p.network.aws.account_id)
    then err (text "cleanup account mismatch")
    else elim (read_instances v.instances live) [
      | ok live' ↦ read_reservations p vs live'
      | err e ↦ err e
    ]

unfoldable pub read_fleet : Plan → Option InstancesOutput → Result (Map Instance)
unfolding read_reservations
read_fleet p none = err (text "incomplete instance cleanup readback")
read_fleet p (some o) =
    if not (o.next_token == "")
    then err (text "incomplete instance cleanup readback")
    else read_reservations p o.reservations []

-- a live ID needs nothing; any other is verified as purged before the rest
unfoldable pub skip_live : String → M (List String) → Option Instance → M (List String)
skip_live id rest (some i) = rest
skip_live id rest none = do verify_instance_purged id; purged ← rest; pure (id ∷ purged)

-- the IDs that are not live, each verified as purged
unfoldable pub verify_purged : Map Instance → List String → M (List String)
verify_purged live [] = pure []
verify_purged live (id ∷ ids) = skip_live id (verify_purged live ids) (lookup id live)

unfoldable pub is_terminated : Option String → Bool
is_terminated none = false
is_terminated (some s) = s == "terminated"

module _ (x : Outside) (p : Plan) where
  unfoldable pub check_terminated : Target → Option Instance → Result (Unit {0})
  unfolding is_terminated token read_tags owned
  check_terminated t none = err (at "not the terminated original instance" t.name)
  check_terminated t (some i) =
      if not (is_terminated i.state) || not (i.client_token == token x p t)
      then err (at "not the terminated original instance" t.name)
      else elim (read_tags i.tag_list []) [
        | none ↦ err (text "duplicate instance ownership tag")
        | some found ↦ refuse (not (owned p t found)) (at "cleanup ownership mismatch" t.name)
      ]

  -- every target's instance is purged, or is the terminated original
  unfoldable pub check_fleet : Record → Map Instance → List String → List Target → Result (Unit {0})
  unfolding check_terminated node_of lookup contains
  check_fleet r live purged [] = ok tt
  check_fleet r live purged (t ∷ ts) =
      let id = (node_of r t.name).instance_id in
      let rest = check_fleet r live purged ts in
      if contains id purged
      then rest
      else elim (check_terminated t (lookup id live)) [ ok u ↦ rest | err e ↦ err e ]

-- the validation copy: associations forgotten, and identities of addresses being released
unfoldable pub forget : AddressProgress → AddressProgress
forget a = record a {
  association_id = "";
  phase = if a.phase == "associated" then "allocated" else a.phase;
  allocation_id = if a.phase == "releasing" || a.phase == "released" then "" else a.allocation_id;
}

unfoldable pub forget_node : String × NodeProgress → String × NodeProgress
unfolding forget
forget_node (name, n) =
    (name, record n { address = elim n.address [ none ↦ none | some a ↦ some (forget a) ] })

unfoldable pub validation_copy : Record → Record
unfolding forget_node
validation_copy r = record r { nodes = map forget_node r.nodes }

-- One target's address against what was found, before anything is released.
unfoldable pub check_release : Target → Option AddressProgress → Option Address → M (Unit {0})
check_release t none none = pure tt
check_release t none (some a) = raise (text "nil pointer dereference")
check_release t (some j) none =
    if not (j.phase == "releasing") && not (j.phase == "released")
    then raise (at "unresolved address; no release inferred" t.name)
    else verify_address_released j.allocation_id
check_release t (some j) (some a) =
    if not (j.allocation_id == "")
      && (not (j.allocation_id == a.allocation_id) || not (j.public_ip == a.public_ip))
    then raise (at "cleanup address identity drift" t.name)
    else if j.phase == "released"
    then raise (at "released address reappeared" t.name)
    else pure tt

unfoldable pub check_releases : Record → Map Address → List Target → M (Unit {0})
check_releases r found [] = pure tt
check_releases r found (t ∷ ts) = do
  check_release t (node_of r t.name).address (lookup t.name found)
  check_releases r found ts

-- the reply of ReleaseAddress, in its text
unfoldable pub release_failure : Option Error → Option Error
release_failure none = none
release_failure (some e) = some (wrap "release; resume reconciles address absence" e)

module _ (owner : String) where
  -- the identity of an address whose allocation was never checkpointed is taken from what was found
  unfoldable pub identified : AddressProgress → Address → AddressProgress
  identified j a =
      if j.phase == "allocating"
      then record j { allocation_id = a.allocation_id; public_ip = a.public_ip }
      else j

  unfoldable pub mark_released : Target → NodeProgress → AddressProgress → M (Unit {0})
  mark_released t n j = do
    put_node t.name (record n { address = some (record j { phase = "released" }) })
    save_journal owner

  unfoldable pub release_one :
      Target → NodeProgress → AddressProgress → Option Address → M (Unit {0})
  release_one t n j none = mark_released t n j
  release_one t n j (some a) = do
    let j' = record (identified j a) { phase = "releasing" }
    put_node t.name (record n { address = some j' })
    save_journal owner
    e ← ask (release_address a.allocation_id)
    or_raise (release_failure e)
    verify_address_released j'.allocation_id
    mark_released t n j'

  unfoldable pub release_address_of :
      Map Address → Target → NodeProgress → Option AddressProgress → M (Unit {0})
  release_address_of found t n none = pure tt
  release_address_of found t n (some j) = release_one t n j (lookup t.name found)

  unfoldable pub release_target : Map Address → Target → M (Unit {0})
  release_target found t = do
    check_cancelled
    r ← get
    let n = node_of r t.name
    release_address_of found t n n.address

  unfoldable pub release_targets : Map Address → List Target → M (Unit {0})
  release_targets found [] = pure tt
  release_targets found (t ∷ ts) = do release_target found t; release_targets found ts

module _ (x : Outside) (p : Plan) (owner : String) where
  -- Every check on instances and addresses, before the first release.
  unfoldable pub check_cleanup : Record → M (Map Address)
  check_cleanup r = do
    ids ← lift (instance_ids r p.targets)
    answer ← ask (describe_ids ids)
    out ← lift answer
    live ← lift (read_fleet p out)
    purged ← verify_purged live ids
    lift (check_fleet x p r live purged p.targets)
    found ← discover_addresses p [] (validation_copy r)
    check_releases r found p.targets
    pure found

  unfoldable pub retire : M (Unit {0})
  retire = do
    r ← get
    put (record r { phase = "addresses-released"; last_error = "" })
    save_journal owner

  unfoldable pub cleanup : M (Unit {0})
  cleanup = do
    r ← get
    lift (validate_address_cleanup x r p)
    if r.phase == "addresses-released" then pure tt else do
      put (record r { last_runner = owner })
      r' ← get
      found ← check_cleanup r'
      release_targets owner found p.targets
      retire

  unfoldable pub may_mark_cleanup : Record → Bool
  unfolding is_ok validate_address_cleanup
  may_mark_cleanup r =
      is_ok (validate_address_cleanup x r p) && not (r.phase == "addresses-released")

  unfoldable pub release_addresses : M (Unit {0})
  release_addresses = do
    lift (validate_plan x p)
    if not (public_ipv4 p) || ipam_pool p == "" || owner == ""
        then raise (text "an IPAM provision plan and runner identity are required")
        else do
          verify_account p.network.aws.account_id
          c ← config p
          verify_pool p.network c
          answer ← ask (acquire owner)
          r ← lift answer
          put r
          deferring owner (λ m e. e) error_text may_mark_cleanup cleanup
