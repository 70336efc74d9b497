-- ===== src/Spec/Validate.antt =====
-- Network.Validate (internal/spec/spec.go) and Network.ValidateProvision (internal/spec/provision.go).
-- The image reference parser, `name.ParseReference` of go-containerregistry, is a parameter.
use Prim.Native.String.{len, ◌++◌}
use dash_network_go.Common.{
  String, Bool, none, some, List, [], ◌∷◌, ◌&&◌, ◌||◌, not, ◌==◌, lookup_or, contains, ltb, eqb,
  length, if◌then◌else◌,
}
use dash_network_go.Common.Int.{ℤ, pos, ltb_ℤ, ◌+ℤ◌}
use dash_network_go.Common.Text.{has_prefix, has_prefix_folded, contains_any, has_tag}
use dash_network_go.Common.Result.{text, at, Result, ok, err, refuse, each, ◌>>=◌, ◌>>◌}
use dash_network_go.Spec.Types.{
  version, Ami, Provision, NodeGroup, Network, image_components, architectures,
}
use dash_network_go.Spec.Patterns.{
  is_slug, is_account, is_region, is_instance_type, is_resource_id, is_table_name, is_ipam_pool_id,
}

unfoldable pub valid_id : String → String → Bool
unfolding has_prefix is_resource_id
valid_id s prefix = has_prefix s (prefix ++ "-") && is_resource_id s

-- the loop over the security groups, with the groups seen so far
check_groups : List String → List String → Result (Unit {0})
check_groups seen [] = ok tt
check_groups seen (id ∷ ids) =
    let rest = check_groups (id ∷ seen) ids in
    if not (valid_id id "sg") || contains id seen
    then err (text "security group IDs must be valid and unique")
    else rest

sum_counts : List NodeGroup → ℤ
sum_counts [] = pos 0
sum_counts (g ∷ gs) = g.count +ℤ sum_counts gs

check_testnet_group : NodeGroup → Result (Unit {0})
check_testnet_group g = refuse (not (g.role == "fullnode")) (
    text
      "new testnet allocations currently support Core fullnodes only; use a separate allocation name and join plan")

check_testnet : Network → Result (Unit {0})
unfolding check_testnet_group
check_testnet n = do
  refuse (not (has_prefix n.metadata.name "testnet-")) (
      text
        "new testnet hosts require a distinct testnet- allocation name, never the existing testnet journal")
  each check_testnet_group n.nodes

unfoldable pub zero_ami : Ami
zero_ami = record { id = ""; owner_id = "" }

check_ami : Provision → String → Result (Unit {0})
unfolding zero_ami lookup_or
check_ami p arch =
    let ami = lookup_or zero_ami arch p.amis in
    refuse (not (valid_id ami.id "ami") || not (is_account ami.owner_id))
      (at "requires an exact AMI ID and owner account" arch)

check_footprint : Network → Provision → Result (Unit {0})
unfolding check_groups sum_counts check_testnet check_ami has_prefix_folded
check_footprint n p = do
  refuse (not (p.ipam_pool_id == "") && (not p.public_ipv4 || not (is_ipam_pool_id p.ipam_pool_id)))
      (text "ipamPoolId must be an explicit IPAM pool ID and requires publicIpv4: true")
  if n.chain.chain_type == "testnet" then check_testnet n else ok tt
  refuse
      (n.aws.network_tag_key == "Name"
        || has_prefix n.aws.network_tag_key "dashnet:"
        || has_prefix_folded n.aws.network_tag_key "aws:"
        || contains_any n.aws.network_tag_key (b'?' ∷ 0x5c ∷ []))
      (text "provisioning network tag key conflicts with reserved tags or wildcard syntax")
  refuse (not (is_table_name p.state_table))
      (text "provision.stateTable must name an existing DynamoDB table")
  refuse (not (valid_id p.vpc_id "vpc") || not (valid_id p.subnet_id "subnet"))
      (text "provision requires explicit VPC and subnet IDs")
  refuse (eqb (length p.security_group_ids) 0 || ltb 5 (length p.security_group_ids))
      (text "provision requires 1..5 explicit security groups")
  check_groups [] p.security_group_ids
  refuse
      (p.key_name == "" || ltb 255 (len p.key_name) || contains_any p.key_name (10 ∷ 13 ∷ 9 ∷ []))
      (text "provision.keyName is required for emergency access")
  refuse (ltb_ℤ p.root_volume_gib (pos 8) || ltb_ℤ (pos 16384) p.root_volume_gib)
      (text "rootVolumeGiB must be 8..16384")
  refuse (not (eqb (length p.amis) (length (architectures n))))
      (text "provide exactly one AMI per requested architecture")
  each (check_ami p) (architectures n)
  refuse (ltb_ℤ (pos 100) (sum_counts n.nodes))
      (text "initial EC2 executor is limited to 100 nodes per network")

unfoldable pub validate_provision : Network → Result (Unit {0})
unfolding check_footprint
validate_provision n = elim n.aws.provision [
  | none ↦ err (text "aws.provision is required for EC2 provisioning")
  | some p ↦ check_footprint n p
]

is_role : String → Bool
is_role r = r == "validator" || r == "seed" || r == "wallet" || r == "miner" || r == "fullnode"

check_group : List String → NodeGroup → Result (Unit {0})
unfolding is_role
check_group seen g = do
  refuse (not (is_slug g.name) || contains g.name seen)
      (text "node group names must be unique lowercase slugs")
  refuse (not (is_role g.role)) (at "unsupported node role" g.role)
  refuse (ltb_ℤ g.count (pos 1) || ltb_ℤ (pos 1000) g.count)
      (at "node group count must be 1..1000" g.name)
  refuse (not (g.architecture == "amd64") && not (g.architecture == "arm64"))
      (at "node group architecture must be amd64 or arm64" g.name)
  refuse (not (is_instance_type g.instance_type))
      (at "node group requires an explicit EC2 instance type" g.name)

-- the loop over the node groups; the total is the loop's result
check_node_groups : List String → ℤ → List NodeGroup → Result ℤ
unfolding check_group
check_node_groups seen total [] = ok total
check_node_groups seen total (g ∷ gs) =
    let rest = check_node_groups (g.name ∷ seen) (total +ℤ g.count) gs in
    check_group seen g >>= λ _. rest

module _ (parse_reference : String → Bool) where
  check_image : Network → String → Result (Unit {0})
  unfolding lookup_or
  check_image n component =
      let ref = lookup_or "" component n.images in
      do
        refuse (not (has_tag ref) || contains_any ref (b' ' ∷ 10 ∷ 13 ∷ 9 ∷ []))
            (at "image requires an explicit tag or sha256 digest" component)
        refuse (not (parse_reference ref)) (at "invalid image reference" component)

  unfoldable pub validate : Network → Result (Unit {0})
  unfolding check_node_groups check_image validate_provision
  validate n = do
    refuse (not (n.api_version == version) || not (n.kind == "Network"))
        (text "expected apiVersion and kind Network")
    refuse (not (is_slug n.metadata.name))
        (text "metadata.name must be a lowercase slug of at most 63 characters")
    refuse (not (n.metadata.visibility == "public") && not (n.metadata.visibility == "private"))
        (text "metadata.visibility must explicitly be public or private")
    refuse
        (n.metadata.display_name == ""
          || ltb 100 (len n.metadata.display_name)
          || ltb 1000 (len n.metadata.description))
        (text "displayName is required (max 100 characters); description max 1000")
    refuse (not (n.chain.chain_type == "devnet") && not (n.chain.chain_type == "testnet"))
        (text "chain.type must be devnet or testnet; mainnet is outside this tool's initial scope")
    refuse (n.chain.chain_type == "devnet" && not (has_prefix n.metadata.name "devnet-"))
        (text "devnet names must start with devnet-")
    refuse (n.chain.chain_type == "testnet" && has_prefix n.metadata.name "devnet-")
        (text "testnet name cannot have a devnet- prefix")
    refuse (ltb_ℤ n.chain.generation (pos 1))
        (text "chain.generation must be positive; increment it after a devnet reset")
    refuse (not (is_account n.aws.account_id) || not (is_region n.aws.region))
        (text "aws.accountId must have 12 digits and aws.region must be explicit")
    refuse
        (n.aws.network_tag_key == ""
          || ltb 128 (len n.aws.network_tag_key)
          || contains_any n.aws.network_tag_key (13 ∷ 10 ∷ 9 ∷ b'*' ∷ []))
        (text "aws.networkTagKey must be a nonempty exact tag key")
    refuse (eqb (length n.nodes) 0) (text "at least one node group is required")
    total ← check_node_groups [] (pos 0) n.nodes
    refuse (ltb_ℤ (pos 1000) total) (text "network exceeds the initial 1000-node limit")
    elim n.aws.provision [ none ↦ ok tt | some p ↦ validate_provision n ]
    refuse (not (eqb (length n.images) (length (image_components n))))
        (text "images must define exactly these components")
    each (check_image n) (image_components n)
