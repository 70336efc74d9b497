-- ===== src/Provision/Preflight.antt =====
-- internal/provision/preflight.go: the read-only checks of the footprint, and the plan that they give.
use dash_network_go.Common.{
  ℕ, suc, String, Bool, true, false, Option, none, some, List, [], ◌∷◌, ◌&&◌, ◌||◌, not, ◌==◌, Map,
  lookup_or, insert, contains, length, eqb, if◌then◌else◌,
}
use Prim.Native.String.{◌++◌}
use dash_network_go.Common.Int.{ℤ, pos, ltb_ℤ}
use dash_network_go.Common.Result.{text, at, Result, ok, err, refuse}
use dash_network_go.Spec.Types.{Ami, Provision, NodeGroup, Network, architectures}
use dash_network_go.Spec.Patterns.{is_ephemeral_device}
use dash_network_go.Spec.Validate.{validate, validate_provision, zero_ami}
use dash_network_go.Provision.Types.{Plan}
use dash_network_go.Provision.Outside.{Outside}
use dash_network_go.Provision.Plan.{build, validate_plan}
use dash_network_go.Provision.Cloud.{Subnet, SecurityGroup, Mapping, Image, InstanceType}
use dash_network_go.Provision.Discovery.{arch_text}
use dash_network_go.Provision.Effects.{
  caller_identity, describe_subnets, describe_groups, describe_keys, describe_images,
  describe_types, M, pure, raise, lift, ask, ◌>>=◌, ◌>>◌,
}
use dash_network_go.Provision.Ec2.{reply}
use dash_network_go.Provision.Ipam.{verify_pool}

-- VerifyAccount
unfoldable pub verify_account : String → M (Unit {0})
verify_account expected = do
  answer ← ask caller_identity
  account ← reply "verify AWS account" answer
  lift (
      refuse (not (account == expected))
        (text "AWS credentials do not match the configured account"))

-- the loop of validateImageDisks: devices and virtual names seen, and the roots counted
unfoldable pub check_mappings : String → ℤ → List String → List String → ℕ → List Mapping → Result ℕ
unfolding contains
check_mappings root size devices virtuals roots [] = ok roots
check_mappings root size devices virtuals roots (m ∷ ms) =
    let as_root = check_mappings root size (m.device_name ∷ devices) virtuals (suc roots) ms in
    let as_extra =
      check_mappings root size (m.device_name ∷ devices) (m.virtual_name ∷ virtuals) roots ms in
    let bad_root : Bool = elim m.ebs_size [
      | none ↦ true
      | some n ↦ not (m.virtual_name == "") || ltb_ℤ n (pos 1) || ltb_ℤ size n
    ] in
    let is_ebs : Bool = elim m.ebs_size [ none ↦ false | some n ↦ true ] in
    if m.device_name == "" || contains m.device_name devices || m.no_device
    then err (text "invalid, duplicate or suppressed block-device mapping")
    else if m.device_name == root
    then (if bad_root
        then err (text "root must be one EBS disk no larger than rootVolumeGiB")
        else as_root)
    else if is_ebs || not (is_ephemeral_device m.virtual_name) || contains m.virtual_name virtuals
    then err (
        text
          "extra disks must be unique ephemeral instance-store mappings, never extra EBS volumes")
    else as_extra

unfoldable pub one_root : Result ℕ → Result (Unit {0})
one_root (ok n) = refuse (not (eqb n 1)) (text "exactly one EBS root mapping is required")
one_root (err e) = err e

unfoldable pub validate_image_disks : Image → ℤ → Result (Unit {0})
unfolding check_mappings one_root
validate_image_disks i size = one_root (check_mappings i.root_device_name size [] [] 0 i.mappings)

-- the one element of a complete response
unfoldable pub the_one : {A : Type 0} → String → Option (List A) → M A
the_one m (some (a ∷ [])) = pure a
the_one m _ = raise (text m)

unfoldable pub check_groups :
    Network → Provision → List String → List SecurityGroup → Result (Unit {0})
unfolding contains
check_groups n c seen [] = ok tt
check_groups n c seen (g ∷ gs) =
    let rest = check_groups n c (g.id ∷ seen) gs in
    if contains g.id seen
      || not (contains g.id c.security_group_ids)
      || not (g.owner_id == n.aws.account_id)
      || not (g.vpc_id == c.vpc_id)
    then err (text "security group scope mismatch")
    else rest

unfoldable pub all_groups : Network → Provision → Option (List SecurityGroup) → Result (Unit {0})
unfolding check_groups
all_groups n c none = err (text "incomplete security group response")
all_groups n c (some gs) =
    if eqb (length gs) (length c.security_group_ids)
    then check_groups n c [] gs
    else err (text "incomplete security group response")

unfoldable pub is_image_of : Ami → String → Image → Bool
unfolding arch_text
is_image_of requested a i =
    i.id == requested.id
    && i.owner_id == requested.owner_id
    && i.architecture == arch_text a
    && i.state == "available"
    && i.root_device_type == "ebs"
    && i.virtualization_type == "hvm"
    && i.platform == ""
    && eqb (length i.product_codes) 0
    && not (i.root_device_name == "")

-- the loop over the architectures: the root device of each AMI
unfoldable pub check_images : Provision → List String → Map String → M (Map String)
check_images c [] roots = pure roots
check_images c (a ∷ as') roots = do
  let requested = lookup_or zero_ami a c.amis
  answer ← ask (describe_images requested.id requested.owner_id)
  out ← reply "describe AMI" answer
  image ← the_one "expected one AMI" out
  lift (
      refuse (not (is_image_of requested a image)) (
        at
          "AMI must be available, owner-pinned, architecture-matched, HVM Linux/EBS, with no marketplace product codes"
          a))
  lift (validate_image_disks image c.root_volume_gib)
  check_images c as' (insert a image.root_device_name roots)

unfoldable pub supports : NodeGroup → InstanceType → Bool
unfolding contains arch_text
supports g info =
    info.name == g.instance_type
    && elim info.architectures [ none ↦ false | some l ↦ contains (arch_text g.architecture) l ]
    && contains "ebs" info.root_device_types
    && contains "hvm" info.virtualization_types

unfoldable pub check_type : NodeGroup → M (Unit {0})
check_type g = do
  answer ← ask (describe_types g.instance_type)
  out ← reply "describe instance type" answer
  info ← the_one "incomplete instance type response" out
  lift (
      refuse (not (supports g info))
        (at "instance type does not support requested architecture/EBS/HVM" g.instance_type))

type_key : NodeGroup → String
type_key g = g.instance_type ++ "/" ++ g.architecture

-- the loop over the node groups, each instance type and architecture once
unfoldable pub check_types : List String → List NodeGroup → M (Unit {0})
unfolding type_key
check_types checked [] = pure tt
check_types checked (g ∷ gs) =
    let skip = check_types checked gs in
    let rest = check_types (type_key g ∷ checked) gs in
    if contains (type_key g) checked then skip else (check_type g >> rest)

-- Public provisioning needs the configured pool.
unfoldable pub check_public : Network → Provision → M (Unit {0})
check_public n c =
    if not c.public_ipv4
    then pure tt
    else if c.ipam_pool_id == ""
    then raise (
        text
          "public provisioning requires aws.provision.ipamPoolId; Amazon-assigned public addresses are not allowed")
    else verify_pool n c

unfoldable pub subnet_matches : Network → Provision → Subnet → Bool
subnet_matches n c s =
    s.id == c.subnet_id
    && s.vpc_id == c.vpc_id
    && s.owner_id == n.aws.account_id
    && s.state == "available"

unfoldable pub check_scope : Network → Provision → M (Unit {0})
check_scope n c = do
  subnets ← ask (describe_subnets c.subnet_id)
  out ← reply "describe subnet" subnets
  subnet ← the_one "expected exactly one subnet" out
  lift (
      refuse (not (subnet_matches n c subnet))
        (text "subnet is unavailable or does not belong to the configured VPC/account"))
  groups ← ask (describe_groups c.security_group_ids)
  gs ← reply "describe security groups" groups
  lift (all_groups n c gs)
  keys ← ask (describe_keys c.key_name)
  ks ← reply "describe emergency SSH key pair" keys
  k ← the_one "expected configured SSH key pair" ks
  lift (refuse (not (k == c.key_name)) (text "expected configured SSH key pair"))

unfoldable pub require_footprint : Option Provision → M Provision
require_footprint none = raise (text "aws.provision is required for EC2 provisioning")
require_footprint (some c) = pure c

unfoldable pub footprint_of : Network → M Provision
footprint_of n = require_footprint n.aws.provision

module _ (x : Outside) where
  -- Prepare
  unfoldable pub prepare : Network → M Plan
  prepare n = do
    lift (validate x.parse_strict n)
    lift (validate_provision n)
    verify_account n.aws.account_id
    c ← footprint_of n
    check_public n c
    check_scope n c
    roots ← check_images c (architectures n) []
    check_types [] n.nodes
    lift (validate_plan x (build x n roots))
    pure (build x n roots)
