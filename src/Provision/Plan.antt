-- ===== src/Provision/Plan.antt =====
-- internal/provision/plan.go: expansion of the network definition into targets, and the plan's
-- validation by building it again.
use Prim.Native.String.{len, ◌++◌}
use dash_network_go.Common.{
  ℕ, zero, suc, ◌+◌, String, Bool, true, false, Option, none, some, List, [], ◌∷◌, ◌&&◌, ◌||◌, not,
  ◌==◌, Map, lookup, lookup_or, insert, all_of, length, ltb, eqb, if◌then◌else◌,
}
use mathlib.Core.List
use dash_network_go.Common.Int.{ℤ, pos, negsuc, pos_part, eqb_ℤ}
use dash_network_go.Common.Text.{has_prefix, contains_any, decimal, decimal3, sort_by}
use dash_network_go.Common.Result.{text, Result, ok, err, refuse, ◌>>=◌, ◌>>◌}
use dash_network_go.Spec.Types.{version, Ami, Provision, NodeGroup, Network}
use dash_network_go.Spec.Validate.{validate, validate_provision, zero_ami}
use dash_network_go.Provision.Types.{Target, Plan}
use dash_network_go.Provision.Outside.{Outside}

abbrev pub managed_by : String
managed_by = "dash-network-go"

-- `n.AWS.Provision.AMIs[arch].ID`; the callers have checked that `Provision` is there
unfoldable pub ami_of : Network → String → String
unfolding lookup_or lookup
ami_of n arch = elim n.aws.provision [ none ↦ "" | some p ↦ (lookup_or zero_ami arch p.amis).id ]

module _ (n : Network) (roots : Map String) where
  unfoldable pub target_of : NodeGroup → ℕ → Target
  unfolding lookup_or lookup ami_of decimal3
  target_of g i = record {
    name = g.name ++ "-" ++ decimal3 i;
    group = g.name;
    role = g.role;
    architecture = g.architecture;
    instance_type = g.instance_type;
    ami = ami_of n g.architecture;
    root_device = lookup_or "" g.architecture roots;
  }

  -- for i := 1; i <= g.Count; i++, from `i` on with `left` rounds left
  unfoldable pub expand_group : NodeGroup → ℕ → ℕ → List Target
  unfolding target_of
  expand_group g i zero = []
  expand_group g i (suc left) = target_of g i ∷ expand_group g (i + 1) left

  unfoldable pub expand : List NodeGroup → List Target
  unfolding expand_group
  expand [] = []
  expand (g ∷ gs) = List.◌++◌ (expand_group g 1 (pos_part g.count)) (expand gs)

module _ (x : Outside) where
  unfoldable pub build : Network → Map String → Plan
  unfolding expand sort_by
  build n roots =
      let targets = sort_by (λ (t : Target). t.name) (expand n roots n.nodes) in
      record {
        api_version = version;
        kind = "EC2ProvisionPlan";
        id = x.plan_digest version "EC2ProvisionPlan" n targets;
        network = n;
        targets = targets;
      }

  unfoldable pub token : Plan → Target → String
  token p t = x.token_digest p.id t.name

unfoldable pub key : Plan → String
key p = p.network.aws.account_id ++ "/" ++ p.network.aws.region ++ "/" ++ p.network.metadata.name

unfoldable pub int_text : ℤ → String
unfolding decimal
int_text (pos n) = decimal n
int_text (negsuc n) = "-" ++ decimal (suc n)

-- The tags of a target. ValidateProvision keeps the configured key apart from the literal ones.
unfoldable pub tags : Plan → Target → Map String
unfolding int_text
tags p t =
    ("Name", p.network.metadata.name ++ "-" ++ t.name)
    ∷ (p.network.aws.network_tag_key, p.network.metadata.name)
    ∷ ("dashnet:managed-by", managed_by)
    ∷ ("dashnet:network", p.network.metadata.name)
    ∷ ("dashnet:generation", int_text p.network.chain.generation)
    ∷ ("dashnet:plan", p.id)
    ∷ ("dashnet:node", t.name)
    ∷ ("dashnet:role", t.role)
    ∷ []

-- reflect.DeepEqual, field by field; maps are compared by their content
module _ {ℓ} {A : Type ℓ} (same : A → A → Bool) where
  unfoldable pub same_lists : List A → List A → Bool
  same_lists [] [] = true
  same_lists [] (y ∷ ys) = false
  same_lists (x ∷ xs) [] = false
  same_lists (x ∷ xs) (y ∷ ys) = same x y && same_lists xs ys

  has_entry : Map A → String × A → Bool
  unfolding lookup
  has_entry m (k, v) = elim (lookup k m) [ none ↦ false | some w ↦ same v w ]

  unfoldable pub same_maps : Map A → Map A → Bool
  unfolding has_entry
  same_maps m k = eqb (length m) (length k) && all_of (has_entry k) m

unfoldable pub same_text : String → String → Bool
same_text a b = a == b

same_bool : Bool → Bool → Bool
same_bool a b = if a then b else not b

same_ami : Ami → Ami → Bool
same_ami a b = a.id == b.id && a.owner_id == b.owner_id

same_provision : Option Provision → Option Provision → Bool
unfolding same_lists same_maps same_bool same_ami same_text
same_provision none none = true
same_provision (some p) (some q) =
    p.state_table == q.state_table
    && p.vpc_id == q.vpc_id
    && p.subnet_id == q.subnet_id
    && same_lists same_text p.security_group_ids q.security_group_ids
    && p.key_name == q.key_name
    && same_bool p.public_ipv4 q.public_ipv4
    && p.ipam_pool_id == q.ipam_pool_id
    && eqb_ℤ p.root_volume_gib q.root_volume_gib
    && same_maps same_ami p.amis q.amis
same_provision _ _ = false

same_group : NodeGroup → NodeGroup → Bool
same_group g h =
    g.name == h.name
    && g.role == h.role
    && eqb_ℤ g.count h.count
    && g.architecture == h.architecture
    && g.instance_type == h.instance_type

unfoldable pub same_network : Network → Network → Bool
unfolding same_provision same_group same_lists same_maps same_text
same_network n m =
    n.api_version == m.api_version
    && n.kind == m.kind
    && n.metadata.name == m.metadata.name
    && n.metadata.display_name == m.metadata.display_name
    && n.metadata.description == m.metadata.description
    && n.metadata.visibility == m.metadata.visibility
    && n.chain.chain_type == m.chain.chain_type
    && eqb_ℤ n.chain.generation m.chain.generation
    && n.aws.account_id == m.aws.account_id
    && n.aws.region == m.aws.region
    && n.aws.network_tag_key == m.aws.network_tag_key
    && same_provision n.aws.provision m.aws.provision
    && same_lists same_group n.nodes m.nodes
    && same_maps same_text n.images m.images

same_target : Target → Target → Bool
same_target t u =
    t.name == u.name
    && t.group == u.group
    && t.role == u.role
    && t.architecture == u.architecture
    && t.instance_type == u.instance_type
    && t.ami == u.ami
    && t.root_device == u.root_device

unfoldable pub same_plan : Plan → Plan → Bool
unfolding same_network same_target same_lists
same_plan p q =
    p.api_version == q.api_version
    && p.kind == q.kind
    && p.id == q.id
    && same_network p.network q.network
    && same_lists same_target p.targets q.targets

-- the loop over the root devices, with those seen for each architecture; its result is that map
unfoldable pub check_roots : Map String → List Target → Result (Map String)
unfolding lookup insert
check_roots roots [] = ok roots
check_roots roots (t ∷ ts) =
    let rest = check_roots (insert t.architecture t.root_device roots) ts in
    if not (has_prefix t.root_device "/dev/")
      || ltb 64 (len t.root_device)
      || contains_any t.root_device (b' ' ∷ 10 ∷ 13 ∷ 9 ∷ [])
    then err (text "invalid root device in provision plan")
    else if elim (lookup t.architecture roots) [
      | none ↦ false
      | some old ↦ not (old == t.root_device)
    ]
    then err (text "inconsistent root devices")
    else rest

module _ (x : Outside) where
  unfoldable pub validate_plan : Plan → Result (Unit {0})
  unfolding check_roots validate validate_provision same_plan
  validate_plan p = do
    validate x.parse_strict p.network
    validate_provision p.network
    roots ← check_roots [] p.targets
    refuse (not (same_plan p (build x p.network roots)))
        (text "provision plan is altered, incomplete, or has an invalid ID; regenerate it")
