-- ===== src/Lifecycle/Command.antt =====
-- internal/cli/lifecycle.go: the command deployment-plan after its reads, and ipamAddresses.
use dash_network_go.Common.{
  ℕ, ◌%◌, ◌^◌, String, Bool, true, false, Option, none, some, List, [], ◌∷◌, ◌&&◌, ◌||◌, not, ◌==◌,
  Map, lookup, insert, if◌then◌else◌,
}
use dash_network_go.Common.Int.{pos}
use dash_network_go.Common.Result.{text, Result, err, refuse, ◌>>=◌, ◌>>◌}
use dash_network_go.Provision.Types
use dash_network_go.Provision.Types.{
  AddressProgress, NodeProgress, BootstrapProgress, DeploymentProgress, Record,
}
use dash_network_go.Provision.Compute.{public_ipv4, ipam_pool}
use dash_network_go.Provision.Outside.{Outside}
use dash_network_go.Release.Lock
use dash_network_go.Release.Lock.{Artifacts}
use dash_network_go.Bootstrap.Plan
use dash_network_go.Lifecycle.Deployment.{Deployment, Live, Options, Recipes}
use dash_network_go.Lifecycle.Building.{build_deployment}

-- `n.Address.PublicIP`, for an address that has one
unfoldable pub ip_of : Option AddressProgress → Option String
ip_of none = none
ip_of (some a) = if a.public_ip == "" then none else some a.public_ip

-- the Elastic IP that the journal holds for a target
unfoldable pub journaled_ip : Record → String → Option String
unfolding ip_of lookup
journaled_ip r name = elim (lookup name r.nodes) [ none ↦ none | some n ↦ ip_of n.address ]

unfoldable pub collect_ips : Record → List Types.Target → Map String → Option (Map String)
unfolding journaled_ip insert
collect_ips r [] ips = some ips
collect_ips r (t ∷ ts) ips = elim (journaled_ip r t.name) [
  | none ↦ none
  | some ip ↦ collect_ips r ts (insert t.name ip ips)
]

unfoldable pub ipam_addresses : Plan.Plan → Record → Option (Map String)
unfolding collect_ips
ipam_addresses b r =
    if not (public_ipv4 b.compute) || ipam_pool b.compute == ""
    then none
    else collect_ips r b.compute.targets []

-- the flags of the command, which it has checked before its reads: the protocol version is 1 to 100 and
-- the intervals are in their bounds, so that `int(blockSeconds)` is the number itself
pub record Flags : Type 0 where
  pub gateway_tls : String
  pub acme_email : String
  pub block_seconds : ℕ
  pub epoch_seconds : ℕ
  pub protocol : ℕ

has_image : List Lock.Image → String → Bool
has_image [] component = false
has_image (i ∷ is) component = i.component == component || has_image is component

-- `opts`, for the addresses found
unfoldable pub options_of : Plan.Plan → Flags → Map String → Options
unfolding has_image
options_of b f ips =
    let tls =
      if f.gateway_tls == "auto" && not (f.acme_email == "") && has_image b.release.images "acme"
      then "letsencrypt"
      else f.gateway_tls in
    let asked = not (tls == "auto") && not (tls == "self-signed") in
    record {
      public_ips = some ips;
      acme_issuer = if asked then tls else "";
      acme_email = if asked then f.acme_email else "";
      block_seconds = pos f.block_seconds;
      epoch_seconds = pos f.epoch_seconds;
    }

unfoldable pub hosts_ready : Plan.Plan → Option BootstrapProgress → Bool
hosts_ready b none = false
hosts_ready b (some progress) = progress.plan_id == b.id && progress.phase == "hosts-ready"

unfoldable pub is_deployed : Option DeploymentProgress → Bool
is_deployed none = false
is_deployed (some d) = true

module _ (x : Outside) (y : Artifacts) (z : Recipes) where
  -- BuildWith at the addresses found
  unfoldable pub plan_with :
      Plan.Plan → Flags → Map Live → ℕ → Option (Map String) → Result Deployment
  unfolding options_of
  plan_with b f live now none = err (
      text
        "dashmate-rendered devnets advertise public addresses: every host needs an IPAM Elastic IP (see docs/ipam.md)")
  plan_with b f live now (some ips) =
      build_deployment x y z b live (options_of b f ips) (f.protocol % 2 ^ 32) now

  -- The command on the journal's record and its owner, the running targets and the time. `running` is
  -- the reply of provision.RunningTargets, and may be any.
  unfoldable pub plan_deployment :
      Plan.Plan → Flags → Record → String → Result (Map Live) → ℕ → Result Deployment
  unfolding hosts_ready is_deployed ipam_addresses plan_with
  plan_deployment b f r owner running now = do
    refuse (not (owner == ""))
        (text "network has an active runner; finish or recover it before planning")
    refuse (not (hosts_ready b r.bootstrap)) (text "complete bootstrap before binding exact hosts")
    refuse (is_deployed r.deployment)
        (text "deployment already exists; retain its original plan, do not regenerate genesis time")
    live ← running
    plan_with b f live now (ipam_addresses b r)
