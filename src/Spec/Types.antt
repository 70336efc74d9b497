-- ===== src/Spec/Types.antt =====
-- The structs of internal/spec/spec.go, its constants, and the functions on them that no check needs.
use dash_network_go.Common.{
  String, Bool, Option, none, some, List, [], ◌∷◌, ◌++◌, map, Map, lookup, ◌==◌, contains,
  if◌then◌else◌,
}
use dash_network_go.Common.Int.{ℤ}
use dash_network_go.Common.Text.{sort_by}

abbrev pub version : String
version = "dash.network/v1alpha1"

pub record Metadata : Type 0 where
  pub name : String
  pub display_name : String
  pub description : String
  pub visibility : String

pub record Chain : Type 0 where
  pub chain_type : String
  pub generation : ℤ

pub record Ami : Type 0 where
  pub id : String
  pub owner_id : String

pub record Provision : Type 0 where
  pub state_table : String
  pub vpc_id : String
  pub subnet_id : String
  pub security_group_ids : List String
  pub key_name : String
  pub public_ipv4 : Bool
  pub ipam_pool_id : String
  pub root_volume_gib : ℤ
  pub amis : Map Ami

pub record Aws : Type 0 where
  pub account_id : String
  pub region : String
  pub network_tag_key : String
  pub provision : Option Provision

pub record NodeGroup : Type 0 where
  pub name : String
  pub role : String
  pub count : ℤ
  pub architecture : String
  pub instance_type : String

pub record Network : Type 0 where
  pub api_version : String
  pub kind : String
  pub metadata : Metadata
  pub chain : Chain
  pub aws : Aws
  pub nodes : List NodeGroup
  pub images : Map String

abbrev pub components : List String
components = "core" ∷ "dapi" ∷ "drive" ∷ "gateway" ∷ "helper" ∷ "tenderdash" ∷ []

abbrev pub optional_components : List String
optional_components = "acme" ∷ []

unfoldable pub role_components : String → List String
role_components role =
    if role == "validator"
    then components
    else if role == "seed"
    then "core" ∷ "tenderdash" ∷ []
    else "core" ∷ "helper" ∷ []

defined_optional : Map String → List String → List String
defined_optional images [] = []
defined_optional images (c ∷ cs) = elim (lookup c images) [
  | none ↦ defined_optional images cs
  | some ref ↦ c ∷ defined_optional images cs
]

unfoldable pub image_components : Network → List String
unfolding defined_optional lookup
image_components n = components ++ defined_optional n.images optional_components

-- the keys of a set built in a loop: each text once
unfoldable pub distinct : List String → List String
unfolding contains
distinct [] = []
distinct (s ∷ l) = let rest = distinct l in if contains s rest then rest else s ∷ rest

unfoldable pub architectures : Network → List String
unfolding distinct sort_by
architectures n = sort_by (λ s. s) (distinct (map (λ (g : NodeGroup). g.architecture) n.nodes))
