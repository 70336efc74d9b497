-- ===== src/Lifecycle/Building.antt =====
-- internal/lifecycle/plan.go: BuildWith, which binds the addresses of the live instances, and the
-- readers of a plan.
use Prim.Native.String.{◌++◌}
use dash_network_go.Common.{
  ℕ, String, Bool, Option, none, some, List, [], ◌∷◌, ◌&&◌, not, ◌==◌, map, Map, lookup, lookup_or,
  if◌then◌else◌,
}
use dash_network_go.Common.Int.{ℤ, pos, eqb_ℤ}
use dash_network_go.Common.Text.{sort_by, contains_any}
use dash_network_go.Common.Result.{text, at, Result, ok, err, ◌>>=◌, ◌>>◌}
use dash_network_go.Spec.Types.{version}
use dash_network_go.Provision.Types
use dash_network_go.Provision.Outside.{Outside}
use dash_network_go.Release.Lock.{Artifacts}
use dash_network_go.Bootstrap.Plan
use dash_network_go.Bootstrap.Plan.{validate_bootstrap_plan}
use dash_network_go.Lifecycle.Nodes.{Node, GatewayTls}
use dash_network_go.Lifecycle.Deployment.{
  Deployment, Live, Options, Recipes, profile_name, chain_name, gateway_tls_of,
  validate_deployment_plan,
}

-- the address that the options carry for the target, which its instance has now
unfoldable pub is_journaled_ip : Map String → String → Live → Bool
unfolding lookup_or lookup
is_journaled_ip public_ips name live =
    not (lookup_or "" name public_ips == "") && lookup_or "" name public_ips == live.public_ip

-- BuildWith has refused a plan without public addresses, so each target advertises its Elastic IP
unfoldable pub bind_target :
    Plan.Plan → Map String → Types.Target → Plan.Target → Live → Result Node
unfolding is_journaled_ip
bind_target b public_ips t images live =
    if not (is_journaled_ip public_ips t.name live)
    then err (at "public address is not its journaled IPAM Elastic IP" t.name)
    else ok (record {
      name = t.name;
      role = t.role;
      architecture = t.architecture;
      instance_id = live.instance_id;
      ssh_address = if b.access.address == "public" then live.public_ip else live.private_ip;
      peer_address = live.public_ip;
      private_address = live.private_ip;
      images = images.images;
    })

-- the loop over the targets; those of a validated bootstrap plan are as many
unfoldable pub bind_targets :
    Plan.Plan → Map Live → Map String → List Types.Target → List Plan.Target → Result (List Node)
unfolding bind_target lookup
bind_targets b live public_ips [] images = ok []
bind_targets b live public_ips (t ∷ ts) [] = err (text "index out of range")
bind_targets b live public_ips (t ∷ ts) (i ∷ is) =
    let rest = bind_targets b live public_ips ts is in
    elim (lookup t.name live) [
      | none ↦ err (at "missing target" t.name)
      | some l ↦ bind_target b public_ips t i l >>= λ n. rest >>= λ ns. ok (n ∷ ns)
    ]

-- an option's value, unless it is zero
unfoldable pub or_default : ℤ → ℤ → ℤ
or_default d n = if eqb_ℤ n (pos 0) then d else n

module _ (x : Outside) (y : Artifacts) (z : Recipes) where
  unfoldable pub requested_tls : Plan.Plan → Options → Result (Option GatewayTls)
  requested_tls b o =
      if o.acme_issuer == ""
      then ok none
      else gateway_tls_of x y b o.acme_issuer o.acme_email >>= λ g. ok (some g)

  -- BuildWith at the time `now`, for the journaled addresses
  unfoldable pub build_public :
      Plan.Plan → Map Live → Options → ℕ → ℕ → Map String → Result Deployment
  unfolding chain_name bind_targets or_default requested_tls
  build_public b live o protocol now public_ips = do
    tls ← requested_tls b o
    targets ← bind_targets b live public_ips b.compute.targets b.targets
    let network = chain_name b.compute.network.metadata.name b.compute.network.chain.generation
    let p : Deployment = record {
      api_version = version;
      kind = "DevnetDeploymentPlan";
      id = "";
      bootstrap = b;
      profile = profile_name;
      recipe_sha256 = z.node;
      core_network = network;
      platform_chain_id = "dash-devnet-" ++ network;
      genesis_time = now;
      initial_protocol_version = protocol;
      mining_interval_seconds = or_default (pos 10) o.block_seconds;
      premine_height = pos 4032;
      platform_epoch_seconds = or_default (pos 3600) o.epoch_seconds;
      advertise = "public";
      gateway_tls = tls;
      targets = targets;
    }
    let identified : Deployment = record p { id = z.deployment p }
    validate_deployment_plan x y z identified
    ok identified

  unfoldable pub build_deployment : Plan.Plan → Map Live → Options → ℕ → ℕ → Result Deployment
  unfolding build_public
  build_deployment b live o protocol now = do
    validate_bootstrap_plan x y z.bootstrap b
    elim o.public_ips [
      | none ↦ err (
          text
            "dashmate-rendered devnets advertise public addresses: every host needs an IPAM Elastic IP")
      | some public_ips ↦ build_public b live o protocol now public_ips
    ]

unfoldable pub vpc_address : Node → String
vpc_address t = if t.private_address == "" then t.peer_address else t.private_address

-- the targets of a role, in order
unfoldable pub with_role : String → List Node → List Node
with_role role [] = []
with_role role (t ∷ ts) = let rest = with_role role ts in if t.role == role then t ∷ rest else rest

first_of : List Node → Option Node
first_of [] = none
first_of (t ∷ ts) = some t

unfoldable pub validators : Deployment → List Node
unfolding with_role
validators p = with_role "validator" p.targets

-- none where Wallet panics: a plan that was not validated
unfoldable pub wallet : Deployment → Option Node
unfolding with_role first_of
wallet p = first_of (with_role "wallet" p.targets)

unfoldable pub miner : Deployment → Option Node
unfolding with_role first_of wallet
miner p = elim (first_of (with_role "miner" p.targets)) [ none ↦ wallet p | some t ↦ some t ]

-- net.JoinHostPort
join_host_port : String → String → String
unfolding contains_any
join_host_port host port =
    if contains_any host (b':' ∷ []) then "[" ++ host ++ "]:" ++ port else host ++ ":" ++ port

unfoldable pub peer_addresses : Deployment → List String
unfolding join_host_port sort_by
peer_addresses p =
    sort_by (λ (s : String). s)
      (map (λ (t : Node). join_host_port t.peer_address "20001") p.targets)
