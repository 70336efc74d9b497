-- ===== src/Provision/Compute.antt =====
-- The journal record of internal/provision/runner.go with its compute validator, and the address
-- validator of ipam.go.
use dash_network_go.Common.{
  ℕ, ◌+◌, ◌%◌, ◌^◌, String, Bool, false, Option, none, some, List, [], ◌∷◌, ◌&&◌, ◌||◌, not, ◌==◌,
  Map, lookup, contains, insert, length, leb, eqb, if◌then◌else◌,
}
use dash_network_go.Common.Text.{Quad, parse_ipv4, is_private, is_global_unicast}
use dash_network_go.Common.Result.{text, at, Result, ok, err, refuse, each, ◌>>◌}
use dash_network_go.Provision.Types.{Target, Plan, AddressProgress, NodeProgress, zero_node, Record}
use dash_network_go.Provision.Outside.{Outside}
use dash_network_go.Provision.Plan.{validate_plan, same_plan}

-- `r.Revision < 0` on the int64, and `r.Revision++`
abbrev pub is_negative : ℕ → Bool
is_negative revision = leb (2 ^ 63) revision

abbrev pub next_revision : ℕ → ℕ
next_revision revision = (revision + 1) % 2 ^ 64

abbrev pub kind_name : String
kind_name = "EC2ProvisionOperation"

pending_nodes : List Target → Map NodeProgress → Map NodeProgress
unfolding insert
pending_nodes [] m = m
pending_nodes (t ∷ ts) m =
    pending_nodes ts
      (insert t.name (record zero_node { phase = "pending"; ec2_state = "unknown" }) m)

-- NewRecord at the time `now`
unfoldable pub new_record : Plan → ℕ → Record
unfolding pending_nodes
new_record p now = record {
  joining = none;
  api_version = p.api_version;
  kind = kind_name;
  revision = 0;
  plan = p;
  phase = "pending";
  application_health = "unknown";
  created_at = now;
  updated_at = now;
  last_runner = "";
  cli_version = "";
  last_error = "";
  nodes = pending_nodes p.targets [];
  bootstrap = none;
  deployment = none;
  runtime = none;
  upgrade = none;
}

unfoldable pub usable_quad : Option Quad → Bool
unfolding is_private is_global_unicast
usable_quad none = false
usable_quad (some q) = is_global_unicast q && not (is_private q)

unfoldable pub valid_ipv4 : String → Bool
unfolding parse_ipv4 usable_quad
valid_ipv4 ip = usable_quad (parse_ipv4 ip)

-- `p.Network.AWS.Provision`; the plan's validation has refused a plan without it
unfoldable pub public_ipv4 : Plan → Bool
public_ipv4 p = elim p.network.aws.provision [ none ↦ false | some c ↦ c.public_ipv4 ]

unfoldable pub ipam_pool : Plan → String
ipam_pool p = elim p.network.aws.provision [ none ↦ "" | some c ↦ c.ipam_pool_id ]

check_allocated : AddressProgress → Result (Unit {0})
check_allocated a = do
  refuse (a.allocation_id == "" || not (valid_ipv4 a.public_ip))
      (text "invalid allocated address journal")
  refuse (a.phase == "associated" && a.association_id == "")
      (text "associated address has no association identity")

-- the `switch` on the phase of an address
check_address_phase : AddressProgress → Result (Unit {0})
unfolding contains check_allocated
check_address_phase a =
    if a.phase == "allocating"
    then refuse
        (not (a.allocation_id == "") || not (a.public_ip == "") || not (a.association_id == ""))
        (text "invalid allocation intent")
    else if contains a.phase
        ("allocated" ∷ "associating" ∷ "associated" ∷ "releasing" ∷ "released" ∷ [])
    then check_allocated a
    else err (text "invalid address phase")

unfoldable pub check_address : Plan → NodeProgress → Option AddressProgress → Result (Unit {0})
unfolding public_ipv4 ipam_pool check_address_phase
check_address p n none = ok tt
check_address p n (some a) = do
  refuse
      (not (public_ipv4 p)
        || ipam_pool p == ""
        || not (n.phase == "present")
        || eqb a.attempted_at 0)
      (text "address journal has no matching IPAM launch")
  check_address_phase a

unfoldable pub validate_address : Plan → NodeProgress → Result (Unit {0})
unfolding check_address
validate_address p n = check_address p n n.address

-- the `switch` on the phase of a target
unfoldable pub check_node_phase : NodeProgress → Result (Unit {0})
check_node_phase n =
    if n.phase == "pending"
    then refuse (not (n.instance_id == "") || not (eqb n.attempted_at 0))
        (text "invalid pending target")
    else if n.phase == "launching"
    then refuse (eqb n.attempted_at 0 || not (n.instance_id == ""))
        (text "invalid launching target")
    else if n.phase == "present"
    then refuse (eqb n.attempted_at 0 || n.instance_id == "" || eqb n.observed_at 0)
        (text "invalid present target")
    else err (text "invalid target phase")

-- `node.Address != nil && node.Address.Phase != "released"`
unreleased : Option AddressProgress → Bool
unreleased none = false
unreleased (some a) = not (a.phase == "released")

unfoldable pub check_node : Plan → String → NodeProgress → Result (Unit {0})
unfolding check_node_phase validate_address unreleased
check_node p phase n = do
  check_node_phase n
  validate_address p n
  refuse (phase == "addresses-released" && (not (public_ipv4 p) || unreleased n.address))
      (text "retired allocation retains unfinished address state")

check_target : Plan → Record → Target → Result (Unit {0})
unfolding lookup check_node
check_target p r t = elim (lookup t.name r.nodes) [
  | none ↦ err (at "journal lost target" t.name)
  | some n ↦ check_node p r.phase n
]

record_phases : List String
record_phases =
    "pending" ∷ "provisioning" ∷ "interrupted" ∷ "compute-ready" ∷ "addresses-released" ∷ []

module _ (x : Outside) where
  unfoldable pub validate_compute : Record → Plan → Result (Unit {0})
  unfolding validate_plan same_plan check_target contains record_phases
  validate_compute r p = do
    validate_plan x r.plan
    refuse
        (is_negative r.revision
          || not (same_plan r.plan p)
          || not (r.api_version == p.api_version)
          || not (r.kind == kind_name)
          || not (r.application_health == "unknown")
          || not (eqb (length r.nodes) (length p.targets))
          || eqb r.created_at 0
          || eqb r.updated_at 0)
        (text "operation journal identity, schema, or target set mismatch")
    refuse (not (contains r.phase record_phases)) (text "invalid operation phase")
    each (check_target p r) p.targets

-- ValidateAddressCleanup: no two targets share an instance or an allocation
check_cleanup_node : List String → List String → List (String × NodeProgress) → Result (Unit {0})
unfolding contains
check_cleanup_node instances addresses [] = ok tt
check_cleanup_node instances addresses ((name, n) ∷ rest) =
    let allocation : String = elim n.address [ none ↦ "" | some a ↦ a.allocation_id ] in
    let next =
      check_cleanup_node (if n.instance_id == "" then instances else n.instance_id ∷ instances)
        (if allocation == "" then addresses else allocation ∷ addresses) rest in
    if not (n.instance_id == "") && contains n.instance_id instances
    then err (text "duplicate cleanup journal instance")
    else if not (allocation == "") && contains allocation addresses
    then err (text "duplicate cleanup journal allocation")
    else next

module _ (x : Outside) where
  unfoldable pub validate_address_cleanup : Record → Plan → Result (Unit {0})
  unfolding validate_compute check_cleanup_node
  validate_address_cleanup r p = do validate_compute x r p; check_cleanup_node [] [] r.nodes
