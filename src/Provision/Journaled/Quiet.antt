-- ===== src/Provision/Journaled/Quiet.antt =====
-- The calls that the policy says nothing of, and the rules that a run without changes is proved by.
use dash_network_go.Common.{String, List}
use dash_network_go.Provision.Types.{Record}
use dash_network_go.Provision.Effects.{
  ask, now, cancelled, wait, caller_identity, describe_instances, describe_ids, describe_pools,
  describe_addresses, describe_allocation, describe_subnets, describe_groups, describe_keys,
  describe_images, describe_types, acquire, save, release,
}
use dash_network_go.Provision.Hoare.{
  Keeps, Keeps-pure, Keeps-raise, Keeps-lift, Keeps-reply, Keeps-attempt, Keeps-if, Keeps-or_raise,
  Keeps-get, Keeps-bind,
}
use dash_network_go.Provision.Journaled.Rules.{
  Policy, Keeps-ask, Keeps-put, put_node-Keeps, save_journal-Keeps,
}

pub now-Keeps : Keeps Policy (ask now)
now-Keeps = Keeps-ask now (λ w h. tt)

pub cancelled-Keeps : Keeps Policy (ask cancelled)
cancelled-Keeps = Keeps-ask cancelled (λ w h. tt)

pub wait-Keeps : Keeps Policy (ask wait)
wait-Keeps = Keeps-ask wait (λ w h. tt)

pub caller_identity-Keeps : Keeps Policy (ask caller_identity)
caller_identity-Keeps = Keeps-ask caller_identity (λ w h. tt)

pub describe_instances-Keeps : (page : String) → Keeps Policy (ask (describe_instances page))
describe_instances-Keeps page = Keeps-ask (describe_instances page) (λ w h. tt)

pub describe_ids-Keeps : (ids : List String) → Keeps Policy (ask (describe_ids ids))
describe_ids-Keeps ids = Keeps-ask (describe_ids ids) (λ w h. tt)

pub describe_pools-Keeps : (id : String) → Keeps Policy (ask (describe_pools id))
describe_pools-Keeps id = Keeps-ask (describe_pools id) (λ w h. tt)

pub describe_addresses-Keeps : Keeps Policy (ask describe_addresses)
describe_addresses-Keeps = Keeps-ask describe_addresses (λ w h. tt)

pub describe_allocation-Keeps : (id : String) → Keeps Policy (ask (describe_allocation id))
describe_allocation-Keeps id = Keeps-ask (describe_allocation id) (λ w h. tt)

pub describe_subnets-Keeps : (id : String) → Keeps Policy (ask (describe_subnets id))
describe_subnets-Keeps id = Keeps-ask (describe_subnets id) (λ w h. tt)

pub describe_groups-Keeps : (ids : List String) → Keeps Policy (ask (describe_groups ids))
describe_groups-Keeps ids = Keeps-ask (describe_groups ids) (λ w h. tt)

pub describe_keys-Keeps : (name : String) → Keeps Policy (ask (describe_keys name))
describe_keys-Keeps name = Keeps-ask (describe_keys name) (λ w h. tt)

pub describe_images-Keeps : (id owner : String) → Keeps Policy (ask (describe_images id owner))
describe_images-Keeps id owner = Keeps-ask (describe_images id owner) (λ w h. tt)

pub describe_types-Keeps : (name : String) → Keeps Policy (ask (describe_types name))
describe_types-Keeps name = Keeps-ask (describe_types name) (λ w h. tt)

pub acquire-Keeps : (owner : String) → Keeps Policy (ask (acquire owner))
acquire-Keeps owner = Keeps-ask (acquire owner) (λ w h. tt)

pub save-Keeps : (r : Record) (owner : String) → Keeps Policy (ask (save r owner))
save-Keeps r owner = Keeps-ask (save r owner) (λ w h. tt)

pub release-Keeps : (owner : String) → Keeps Policy (ask (release owner))
release-Keeps owner = Keeps-ask (release owner) (λ w h. tt)

pub ruleset quiet_calls = (
  now-Keeps, cancelled-Keeps, wait-Keeps, caller_identity-Keeps, describe_instances-Keeps,
  describe_ids-Keeps, describe_pools-Keeps, describe_addresses-Keeps, describe_allocation-Keeps,
  describe_subnets-Keeps, describe_groups-Keeps, describe_keys-Keeps, describe_images-Keeps,
  describe_types-Keeps, acquire-Keeps, save-Keeps, release-Keeps,
)

pub ruleset keeps_rules = (
  Keeps-pure, Keeps-raise, Keeps-lift, Keeps-reply, Keeps-attempt, Keeps-if, Keeps-or_raise,
  Keeps-get, Keeps-put, Keeps-bind, put_node-Keeps, save_journal-Keeps, quiet_calls,
)
