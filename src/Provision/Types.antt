-- ===== src/Provision/Types.antt =====
-- The structs of internal/provision that the journal holds. A time is in nanoseconds, 0 is the
-- zero time; `revision` is the bit pattern of the int64.
use dash_network_go.Common.{ℕ, String, Bool, Option, none, List, Map, lookup_or}
use dash_network_go.Common.Int.{ℤ}
use dash_network_go.Spec.Types.{Network}

pub record Target : Type 0 where
  pub name : String
  pub group : String
  pub role : String
  pub architecture : String
  pub instance_type : String
  pub ami : String
  pub root_device : String

pub record Plan : Type 0 where
  pub api_version : String
  pub kind : String
  pub id : String
  pub network : Network
  pub targets : List Target

pub record AddressProgress : Type 0 where
  pub phase : String
  pub attempted_at : ℕ
  pub allocation_id : String
  pub public_ip : String
  pub association_id : String

pub record NodeProgress : Type 0 where
  pub phase : String
  pub attempted_at : ℕ
  pub instance_id : String
  pub ec2_state : String
  pub observed_at : ℕ
  pub address : Option AddressProgress

-- What a read of a missing target gives.
abbrev pub zero_node : NodeProgress
zero_node = record {
  phase = "";
  attempted_at = 0;
  instance_id = "";
  ec2_state = "";
  observed_at = 0;
  address = none;
}

pub record BootstrapNode : Type 0 where
  pub phase : String
  pub observed_at : ℕ
  pub docker_version : String
  pub compose_version : String

pub record BootstrapProgress : Type 0 where
  pub plan_id : String
  pub phase : String
  pub nodes : Map BootstrapNode

pub record SidecarPlatform : Type 0 where
  pub architecture : String
  pub digest : String

pub record SidecarImage : Type 0 where
  pub service : String
  pub requested : String
  pub pinned : String
  pub platforms : List SidecarPlatform

pub record DeploymentNode : Type 0 where
  pub phase : String
  pub operator_public_key : String
  pub platform_node_id : String
  pub pro_tx_hash : String
  pub core_container_id : String
  pub core_height : ℤ
  pub platform_height : ℤ
  pub observed_at : ℕ

pub record DeploymentProgress : Type 0 where
  pub plan_id : String
  pub phase : String
  pub stage : String
  pub core_genesis : String
  pub payout_address : String
  pub spork_address : String
  pub genesis_core_height : ℤ
  pub observed_at : ℕ
  pub nodes : Map DeploymentNode
  pub sidecars : List SidecarImage

pub record JoinNode : Type 0 where
  pub phase : String
  pub container_id : String
  pub height : ℤ
  pub observed_at : ℕ

pub record JoinProgress : Type 0 where
  pub plan_id : String
  pub phase : String
  pub nodes : Map JoinNode

abbrev pub FleetImages : Type 0
FleetImages = Map (Map String)

pub record RuntimeState : Type 0 where
  pub deployment_id : String
  pub upgrade_id : String
  pub images : FleetImages
  pub sidecars : List SidecarImage

pub record Preservation : Type 0 where
  pub core_id : String
  pub core_started : String
  pub core_config : String
  pub core_genesis : String
  pub containers : Map String
  pub restarts : Map ℤ

pub record UpgradeProgress : Type 0 where
  pub plan_id : String
  pub previous_id : String
  pub phase : String
  pub current_node : String
  pub from_images : FleetImages
  pub to_images : FleetImages
  pub baseline : Map Preservation
  pub completed : Map Bool
  pub observed_at : ℕ
  pub scope : String
  pub sidecars : List SidecarImage
  pub changes : Map (List String)

pub record Record : Type 0 where
  pub joining : Option JoinProgress
  pub api_version : String
  pub kind : String
  pub revision : ℕ
  pub plan : Plan
  pub phase : String
  pub application_health : String
  pub created_at : ℕ
  pub updated_at : ℕ
  pub last_runner : String
  pub cli_version : String
  pub last_error : String
  pub nodes : Map NodeProgress
  pub bootstrap : Option BootstrapProgress
  pub deployment : Option DeploymentProgress
  pub runtime : Option RuntimeState
  pub upgrade : Option UpgradeProgress

-- `r.Nodes[name]`
unfoldable pub node_of : Record → String → NodeProgress
node_of r name = lookup_or zero_node name r.nodes
