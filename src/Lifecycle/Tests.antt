-- ===== src/Lifecycle/Tests.antt =====
-- A devnet of thirteen validators and a wallet, its deployment plan and a new release.
mod Runs
use Prim.Native.String.{◌++◌}
use dash_network_go.Common.{
  ℕ, suc, ◌+◌, String, true, false, Option, none, some, List, [], ◌∷◌, Map, map, if◌then◌else◌, ltb,
  ◌==◌,
}
use dash_network_go.Common.Int.{pos}
use dash_network_go.Common.Text.{decimal}
use dash_network_go.Common.Result.{Result}
use dash_network_go.Spec.Types.{Network, version}
use dash_network_go.Provision.Types
use dash_network_go.Provision.Types.{FleetImages, NodeProgress, Record}
use dash_network_go.Provision.Compute.{new_record}
use dash_network_go.Lifecycle.Command.{Flags}
use dash_network_go.Provision.Outside.{Outside}
use dash_network_go.Provision.Tests
use dash_network_go.Provision.Plan
use dash_network_go.Release.Lock.{Platform, Image, Lock, Artifacts, verified}
use dash_network_go.Bootstrap.Plan as Prepared
use dash_network_go.Bootstrap.Plan.{Access, target_for}
use dash_network_go.Lifecycle.Deployment.{Deployment, Live, Options, Recipes, profile_name}
use dash_network_go.Lifecycle.Nodes.{Node}

abbrev pub old_digest : String
old_digest = "sha256:0000000000000000000000000000000000000000000000000000000000000000"

abbrev pub new_digest : String
new_digest = "sha256:1111111111111111111111111111111111111111111111111111111111111111"

abbrev pub outside : Outside
outside = record Tests.outside { new_digest = λ ref. some ("d/image", old_digest) }

abbrev pub artifacts : Artifacts
artifacts = record {
  parse_reference = λ ref. some (record { repository = "d/image"; digest = none });
  fingerprint = λ n. "fingerprint";
  digest_name = λ repository d. repository ++ "@" ++ d;
}

abbrev pub recipes : Recipes
recipes = record {
  bootstrap = record { recipe = "recipe"; plan = λ p. "bootstrap" };
  deployment = λ p. "deployment";
  node = "node";
  upgrade = "upgrade";
  mapped = λ s. none;
}

abbrev pub network : Network
network = record Tests.network {
  nodes =
      record {
        name = "hp";
        role = "validator";
        count = pos 13;
        architecture = "arm64";
        instance_type = "t4g.medium";
      }
      ∷ record {
        name = "wallet";
        role = "wallet";
        count = pos 1;
        architecture = "arm64";
        instance_type = "t4g.medium";
      }
      ∷ [];
}

image_of : String → String × String → Image
image_of d (component, reference) = record {
  component = component;
  requested = reference;
  pinned = "d/image@" ++ d;
  platforms = record { os = "linux"; architecture = "arm64"; digest = d } ∷ [];
}

unfoldable pub lock_of : String → Lock
unfolding image_of
lock_of d = record {
  api_version = version;
  kind = "ReleaseLock";
  network = "devnet-a";
  generation = pos 1;
  spec_hash = "fingerprint";
  resolved_at = 1;
  evidence = verified;
  images = map (image_of d) network.images;
}

abbrev pub compute : Types.Plan
unfolding Plan.build
compute = Plan.build outside network (("arm64", "/dev/sda1") ∷ [])

abbrev pub access : Access
access = record { user = "ubuntu"; port = pos 22; address = "private" }

abbrev pub prepared : Prepared.Plan
unfolding target_for
prepared = record {
  api_version = version;
  kind = "NodeBootstrapPlan";
  id = "bootstrap";
  compute = compute;
  release = lock_of old_digest;
  access = access;
  recipe_sha256 = "recipe";
  targets = map (target_for outside artifacts (lock_of old_digest).images) compute.targets;
}

nodes_from : ℕ → List Types.Target → List Prepared.Target → List Node
nodes_from i [] ps = []
nodes_from i (t ∷ ts) [] = []
nodes_from i (t ∷ ts) (p ∷ ps) =
    let ordinal = if ltb i 10 then "0" ++ decimal i else decimal i in
    record {
      name = t.name;
      role = t.role;
      architecture = t.architecture;
      instance_id = "i-000000" ++ ordinal;
      ssh_address = "10.0.0." ++ decimal i;
      peer_address = "35.160.0." ++ decimal i;
      private_address = "10.0.0." ++ decimal i;
      images = p.images;
    }
    ∷ nodes_from (suc i) ts ps

abbrev pub deployment : Deployment
unfolding nodes_from
deployment = record {
  api_version = version;
  kind = "DevnetDeploymentPlan";
  id = "deployment";
  bootstrap = prepared;
  profile = profile_name;
  recipe_sha256 = "node";
  core_network = "a";
  platform_chain_id = "dash-devnet-a";
  genesis_time = 1;
  initial_protocol_version = 1;
  mining_interval_seconds = pos 10;
  premine_height = pos 4032;
  platform_epoch_seconds = pos 3600;
  advertise = "public";
  gateway_tls = none;
  targets = nodes_from 1 compute.targets prepared.targets;
}

live_from : ℕ → List Types.Target → Map Live
live_from i [] = []
live_from i (t ∷ ts) =
    let ordinal = if ltb i 10 then "0" ++ decimal i else decimal i in
    (
      t.name,
      record {
        instance_id = "i-000000" ++ ordinal;
        private_ip = "10.0.0." ++ decimal i;
        public_ip = "35.160.0." ++ decimal i;
      },
    )
    ∷ live_from (suc i) ts

public_from : ℕ → List Types.Target → Map String
public_from i [] = []
public_from i (t ∷ ts) = (t.name, "35.160.0." ++ decimal i) ∷ public_from (suc i) ts

abbrev pub live : Map Live
unfolding live_from
live = live_from 1 compute.targets

abbrev pub options : Options
unfolding public_from
options = record {
  public_ips = some (public_from 1 compute.targets);
  acme_issuer = "";
  acme_email = "";
  block_seconds = pos 0;
  epoch_seconds = pos 0;
}

known_nodes : ℕ → List Types.Target → Map NodeProgress
known_nodes i [] = []
known_nodes i (t ∷ ts) =
    let ordinal = if ltb i 10 then "0" ++ decimal i else decimal i in
    (
      t.name,
      record {
        phase = "present";
        attempted_at = 1;
        instance_id = "i-000000" ++ ordinal;
        ec2_state = "running";
        observed_at = 1;
        address = some (record {
          phase = "associated";
          attempted_at = 1;
          allocation_id = "eipalloc-000000" ++ ordinal;
          public_ip = "35.160.0." ++ decimal i;
          association_id = "eipassoc-000000" ++ ordinal;
        });
      },
    )
    ∷ known_nodes (suc i) ts

-- The journal's record once the hosts are ready.
abbrev pub ready : Record
unfolding known_nodes
ready = record (new_record compute 1) {
  phase = "compute-ready";
  nodes = known_nodes 1 compute.targets;
  bootstrap = some (record { plan_id = "bootstrap"; phase = "hosts-ready"; nodes = [] });
}

abbrev pub flags : Flags
flags = record {
  gateway_tls = "auto";
  acme_email = "";
  block_seconds = 0;
  epoch_seconds = 0;
  protocol = 1;
}

images_of : String → Node → String × Map String
images_of pin t = (
  t.name,
  map (λ (i : Prepared.Image). (i.component, if i.component == "tenderdash" then pin else i.pinned))
      t.images,
)

abbrev pub deployed : FleetImages
unfolding images_of
deployed = map (images_of ("d/image@" ++ old_digest)) deployment.targets

abbrev pub upgraded : FleetImages
unfolding images_of
upgraded = map (images_of ("d/image@" ++ new_digest)) deployment.targets

core_images_of : Node → String × Map String
core_images_of t = (
  t.name,
  map
      (λ (i : Prepared.Image).
        (i.component, if i.component == "core" then "d/image@" ++ new_digest else i.pinned))
      t.images,
)

abbrev pub core_upgraded : FleetImages
unfolding core_images_of
core_upgraded = map core_images_of deployment.targets
