-- ===== src/Provision/Tests.antt =====
-- One network, its plan and services that serve every call, for runs of the provisioner.
mod Runs
use Prim.Native.String.{◌++◌}
use dash_network_go.Common.{
  ℕ, suc, String, Bool, true, false, none, some, List, [], ◌∷◌, ◌==◌, length, any_of, if◌then◌else◌,
}
use dash_network_go.Common.Int.{pos}
use dash_network_go.Common.Text.{decimal}
use dash_network_go.Common.Result.{Result, ok, api}
use dash_network_go.Spec.Types.{Network, Provision, version}
use dash_network_go.Provision.Types.{Target, Plan, Record}
use dash_network_go.Provision.Outside.{Outside}
use dash_network_go.Provision.Plan.{build, tags, token}
use dash_network_go.Provision.Compute.{new_record}
use dash_network_go.Provision.Cloud.{Instance, Address}
use dash_network_go.Provision.Effects.{
  Call, now, cancelled, wait, caller_identity, describe_instances, describe_ids, run_instances,
  describe_pools, describe_addresses, describe_allocation, allocate, associate, release_address,
  describe_subnets, describe_groups, describe_keys, describe_images, describe_types, acquire, save,
  release, World, State,
}
use dash_network_go.Provision.Execute.{execute}
use dash_network_go.Provision.Release.{release_addresses}
use dash_network_go.Provision.Journaled.Rules.{AreJournaled}
use dash_network_go.Provision.Journaled.Whole.{execute-AreJournaled, release_addresses-AreJournaled}

abbrev pub outside : Outside
outside = record {
  plan_digest = λ v k n ts. "plan";
  token_digest = λ id name. name;
  new_digest = λ ref. none;
  parse_strict = λ ref. true;
  reference = λ ref. none;
  is_rfc3339 = λ t. true;
}

abbrev pub footprint : Provision
footprint = record {
  state_table = "dash.networks";
  vpc_id = "vpc-00000001";
  subnet_id = "subnet-00000001";
  security_group_ids = "sg-00000001" ∷ [];
  key_name = "emergency";
  public_ipv4 = true;
  ipam_pool_id = "ipam-pool-00000000000000001";
  root_volume_gib = pos 100;
  amis = ("arm64", record { id = "ami-00000001"; owner_id = "099720109477" }) ∷ [];
}

abbrev pub network : Network
network = record {
  api_version = version;
  kind = "Network";
  metadata = record {
    name = "devnet-a";
    display_name = "A";
    description = "";
    visibility = "private";
  };
  chain = record { chain_type = "devnet"; generation = pos 1 };
  aws = record {
    account_id = "123456789012";
    region = "us-west-2";
    network_tag_key = "Network";
    provision = some footprint;
  };
  nodes =
      record {
        name = "hp";
        role = "validator";
        count = pos 2;
        architecture = "arm64";
        instance_type = "t4g.medium";
      }
      ∷ [];
  images =
      ("core", "d/core:1")
      ∷ ("dapi", "d/dapi:1")
      ∷ ("drive", "d/drive:1")
      ∷ ("gateway", "d/gateway:1")
      ∷ ("helper", "d/helper:1")
      ∷ ("tenderdash", "d/tenderdash:1")
      ∷ [];
}

abbrev pub plan : Plan
unfolding build
plan = build outside network (("arm64", "/dev/sda1") ∷ [])

-- The launched instances, as DescribeInstances shows them.
pub instance_of : Target → Instance
unfolding tags token
instance_of t = record {
  id = "i-" ++ t.name;
  client_token = token outside plan t;
  image_id = t.ami;
  instance_type = t.instance_type;
  architecture = "arm64";
  subnet_id = footprint.subnet_id;
  vpc_id = footprint.vpc_id;
  key_name = footprint.key_name;
  public_ip = "";
  security_groups = footprint.security_group_ids;
  http_tokens = some "required";
  state = some "running";
  tag_list = tags plan t;
  interfaces = record { device_index = some (pos 0); id = "eni-" ++ t.name } ∷ [];
}

is_launch : String → Call → Bool
is_launch name (run_instances token other) = name == other
is_launch name c = false

live_instances : List Call → List Target → List Instance
unfolding is_launch instance_of
live_instances history [] = []
live_instances history (t ∷ ts) =
    let rest = live_instances history ts in
    if any_of (is_launch t.name) history then instance_of t ∷ rest else rest

is_allocation : String → Call → Bool
is_allocation name (allocate other) = name == other
is_allocation name c = false

is_association : String → Call → Bool
is_association id (associate allocation other) = id == other
is_association id c = false

address_of : List Call → ℕ → Target → Address
unfolding is_association tags
address_of history i t =
    let attached = any_of (is_association ("i-" ++ t.name)) history in
    record {
      allocation_id = "eipalloc-" ++ t.name;
      public_ip = "35.160.0." ++ decimal i;
      pool = footprint.ipam_pool_id;
      border_group = "us-west-2";
      domain = "vpc";
      association_id = if attached then "eipassoc-" ++ t.name else "";
      interface_id = if attached then "eni-" ++ t.name else "";
      instance_id = if attached then "i-" ++ t.name else "";
      tag_list = tags plan t;
    }

held_addresses : List Call → ℕ → List Target → List Address
unfolding is_allocation address_of
held_addresses history i [] = []
held_addresses history i (t ∷ ts) =
    let rest = held_addresses history (suc i) ts in
    if any_of (is_allocation t.name) history then address_of history i t ∷ rest else rest

ordinal : String → ℕ → List Target → ℕ
ordinal name i [] = i
ordinal name i (t ∷ ts) = if t.name == name then i else ordinal name (suc i) ts

-- The services, with every call served.
abbrev pub serve : World
unfolding live_instances held_addresses new_record ordinal
serve history now = length history
serve history cancelled = none
serve history wait = none
serve history caller_identity = ok "123456789012"
serve history (describe_instances page) = ok (
    some (record {
      reservations =
          record { owner_id = "123456789012"; instances = live_instances history plan.targets }
          ∷ [];
      next_token = "";
    }))
serve history (describe_ids ids) = ok (some (record { reservations = []; next_token = "" }))
serve history (run_instances token name) = ok (some (("i-" ++ name) ∷ []))
serve history (describe_pools id) = ok (
    some (record {
      pools =
          record {
            id = id;
            owner_id = "123456789012";
            locale = "us-west-2";
            state = "create-complete";
            address_family = "ipv4";
            scope_type = "public";
            public_ip_source = "byoip";
            aws_service = "ec2";
          }
          ∷ [];
      next_token = "";
    }))
serve history describe_addresses = ok (some (held_addresses history 1 plan.targets))
serve history (describe_allocation id) = some (api "InvalidAllocationID.NotFound")
serve history (allocate name) = ok (
    some (record {
      allocation_id = "eipalloc-" ++ name;
      public_ip = "35.160.0." ++ decimal (ordinal name 1 plan.targets);
    }))
serve history (associate allocation instance_id) = none
serve history (release_address id) = none
serve history (describe_subnets id) = ok (
    some (
      record { id = id; vpc_id = footprint.vpc_id; owner_id = "123456789012"; state = "available" }
      ∷ []))
serve history (describe_groups ids) = ok (
    some (record { id = "sg-00000001"; owner_id = "123456789012"; vpc_id = footprint.vpc_id } ∷ []))
serve history (describe_keys name) = ok (some (name ∷ []))
serve history (describe_images id owner) = ok (
    some (
      record {
        id = id;
        owner_id = owner;
        architecture = "arm64";
        state = "available";
        root_device_type = "ebs";
        virtualization_type = "hvm";
        platform = "";
        product_codes = [];
        root_device_name = "/dev/sda1";
        mappings =
            record {
              device_name = "/dev/sda1";
              virtual_name = "";
              no_device = false;
              ebs_size = some (pos 8);
            }
            ∷ [];
      }
      ∷ []))
serve history (describe_types name) = ok (
    some (
      record {
        name = name;
        architectures = some ("arm64" ∷ []);
        root_device_types = "ebs" ∷ [];
        virtualization_types = "hvm" ∷ [];
      }
      ∷ []))
serve history (acquire owner) = ok (new_record plan 1)
serve history (save r owner) = none
serve history (release owner) = none

abbrev pub empty : Record
unfolding new_record
empty = new_record plan 1

abbrev pub fresh : State
fresh = record { journal = empty; calls = [] }

-- One target of the plan, and a state in which only it is launched.
abbrev pub launched_first : Target
launched_first = record {
  name = "hp-001";
  group = "hp";
  role = "validator";
  architecture = "arm64";
  instance_type = "t4g.medium";
  ami = "ami-00000001";
  root_device = "/dev/sda1";
}

abbrev pub half_launched : State
half_launched = record { journal = empty; calls = run_instances "hp-001" "hp-001" ∷ [] }

abbrev pub launched : Result (Unit {0}) × State
unfolding execute
launched = execute outside plan "runner" "v1" 3 true 3 serve fresh

-- Execute at this world ends with both addresses associated.
execute-AreJournaled_example :
    AreJournaled serve (execute outside plan "runner" "v1" 3 true 3 serve fresh).1.calls
execute-AreJournaled_example = execute-AreJournaled outside plan "runner" "v1" 3 3 true serve empty

terminated : List Target → List Instance
unfolding instance_of
terminated [] = []
terminated (t ∷ ts) =
    record (instance_of t) { state = some "terminated"; interfaces = [] } ∷ terminated ts

is_release : String → Call → Bool
is_release id (release_address other) = id == other
is_release id c = false

kept_addresses : List Call → ℕ → List Target → List Address
unfolding is_release address_of
kept_addresses history i [] = []
kept_addresses history i (t ∷ ts) =
    let rest = kept_addresses history (suc i) ts in
    let a = address_of [] i t in
    if any_of (is_release a.allocation_id) history then rest else a ∷ rest

-- The services after the instances of that run are terminated.
abbrev pub serve_cleanup : World
unfolding kept_addresses terminated
serve_cleanup history describe_addresses = ok (some (kept_addresses history 1 plan.targets))
serve_cleanup history (describe_ids ids) = ok (
    some (record {
      reservations = record { owner_id = "123456789012"; instances = terminated plan.targets } ∷ [];
      next_token = "";
    }))
serve_cleanup history (acquire owner) = ok launched.1.journal
serve_cleanup history c = serve history c

abbrev pub retired : Result (Unit {0}) × State
unfolding release_addresses
retired = release_addresses outside plan "runner" serve_cleanup fresh

release_addresses-AreJournaled_example :
    AreJournaled serve_cleanup (release_addresses outside plan "runner" serve_cleanup fresh).1.calls
release_addresses-AreJournaled_example =
    release_addresses-AreJournaled outside plan "runner" serve_cleanup empty
