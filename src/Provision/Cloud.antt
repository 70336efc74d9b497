-- ===== src/Provision/Cloud.antt =====
-- What the EC2 interfaces answer, as far as internal/provision reads it. A string pointer is a text,
-- "" for nil, since every read goes through aws.ToString; enumerations are their texts.
use dash_network_go.Common.{String, Bool, Option, List}
use dash_network_go.Common.Int.{ℤ}

pub record Interface : Type 0 where
  -- `Attachment.DeviceIndex`, none if either pointer is nil
  pub device_index : Option ℤ
  pub id : String

pub record Instance : Type 0 where
  pub id : String
  pub client_token : String
  pub image_id : String
  pub instance_type : String
  pub architecture : String
  pub subnet_id : String
  pub vpc_id : String
  pub key_name : String
  pub public_ip : String
  pub security_groups : List String
  -- `MetadataOptions.HttpTokens` and `State.Name`
  pub http_tokens : Option String
  pub state : Option String
  pub tag_list : List (String × String)
  pub interfaces : List Interface

pub record Reservation : Type 0 where
  pub owner_id : String
  pub instances : List Instance

pub record InstancesOutput : Type 0 where
  pub reservations : List Reservation
  pub next_token : String

pub record Address : Type 0 where
  pub allocation_id : String
  pub public_ip : String
  pub pool : String
  pub border_group : String
  pub domain : String
  pub association_id : String
  pub interface_id : String
  pub instance_id : String
  pub tag_list : List (String × String)

pub record AllocateOutput : Type 0 where
  pub allocation_id : String
  pub public_ip : String

pub record Pool : Type 0 where
  pub id : String
  pub owner_id : String
  pub locale : String
  pub state : String
  pub address_family : String
  pub scope_type : String
  pub public_ip_source : String
  pub aws_service : String

pub record PoolsOutput : Type 0 where
  pub pools : List Pool
  pub next_token : String

pub record Subnet : Type 0 where
  pub id : String
  pub vpc_id : String
  pub owner_id : String
  pub state : String

pub record SecurityGroup : Type 0 where
  pub id : String
  pub owner_id : String
  pub vpc_id : String

pub record Mapping : Type 0 where
  pub device_name : String
  pub virtual_name : String
  -- `NoDevice` is not nil
  pub no_device : Bool
  -- the EBS disk, if any, and its size, 0 for a nil size
  pub ebs_size : Option ℤ

pub record Image : Type 0 where
  pub id : String
  pub owner_id : String
  pub architecture : String
  pub state : String
  pub root_device_type : String
  pub virtualization_type : String
  pub platform : String
  pub product_codes : List String
  pub root_device_name : String
  pub mappings : List Mapping

pub record InstanceType : Type 0 where
  pub name : String
  -- `ProcessorInfo.SupportedArchitectures`, none for a nil pointer
  pub architectures : Option (List String)
  pub root_device_types : List String
  pub virtualization_types : List String
