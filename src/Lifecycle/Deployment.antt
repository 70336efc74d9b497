-- ===== src/Lifecycle/Deployment.antt =====
-- internal/lifecycle/plan.go: the plan of a devnet's deployment and its validation.
use Prim.Native.String.{len, ◌++◌}
use dash_network_go.Common.{
  ℕ, ◌+◌, String, Bool, Option, none, some, List, [], ◌∷◌, ◌&&◌, ◌||◌, not, ◌==◌, Map, lookup,
  lookup_or, insert, contains, length, ltb, eqb, if◌then◌else◌,
}
use mathlib.Core.List
use dash_network_go.Common.Int.{ℤ, pos, ltb_ℤ, eqb_ℤ}
use dash_network_go.Common.Text.{Quad, trim_prefix}
use dash_network_go.Common.Result.{text, at, Result, ok, err, refuse, ◌>>=◌, ◌>>◌}
use dash_network_go.Spec.Types.{version}
use dash_network_go.Provision.Types
use dash_network_go.Provision.Plan.{int_text, same_lists, same_maps, same_text}
use dash_network_go.Provision.Outside.{Outside}
use dash_network_go.Release.Lock
use dash_network_go.Release.Lock.{Artifacts}
use dash_network_go.Bootstrap.Plan
use dash_network_go.Bootstrap.Plan.{
  Image, Digests, platform_pin, same_image, validate_bootstrap_plan,
}
use dash_network_go.Lifecycle.Nodes.{Node, GatewayTls, validate_node, advertised, validate_tls}

pub record Deployment : Type 0 where
  pub api_version : String
  pub kind : String
  pub id : String
  pub bootstrap : Plan.Plan
  pub profile : String
  pub recipe_sha256 : String
  pub core_network : String
  pub platform_chain_id : String
  pub genesis_time : ℕ
  pub initial_protocol_version : ℕ
  pub mining_interval_seconds : ℤ
  pub premine_height : ℤ
  pub platform_epoch_seconds : ℤ
  pub advertise : String
  pub gateway_tls : Option GatewayTls
  pub targets : List Node

-- the fields of an EC2 instance that a plan binds
pub record Live : Type 0 where
  pub instance_id : String
  pub private_ip : String
  pub public_ip : String

pub record Options : Type 0 where
  pub public_ips : Option (Map String)
  pub acme_issuer : String
  pub acme_email : String
  pub block_seconds : ℤ
  pub epoch_seconds : ℤ

-- What is computed outside: the SHA-256 of a plan's JSON with an empty ID, of the node recipe and of
-- the upgrade recipe, and `net.ParseIP(s).To4()` of an address in IPv6 notation.
pub record Recipes : Type 0 where
  pub bootstrap : Digests
  pub deployment : Deployment → String
  pub node : String
  pub upgrade : String
  pub mapped : String → Option Quad

abbrev pub profile_name : String
profile_name = "devnet-dashmate-compose"

unfoldable pub chain_name : String → ℤ → String
unfolding trim_prefix int_text
chain_name network generation =
    let short = trim_prefix network "devnet-" in
    if ltb_ℤ (pos 1) generation then short ++ "-g" ++ int_text generation else short

-- the validators' architectures, each once, in the order of their first target
validator_architectures : List String → List Types.Target → List String
unfolding contains
validator_architectures seen [] = seen
validator_architectures seen (t ∷ ts) =
    let skip = validator_architectures seen ts in
    let add = validator_architectures (List.◌++◌ seen (t.architecture ∷ [])) ts in
    if t.role == "validator" && not (contains t.architecture seen) then add else skip

module _ (x : Outside) (y : Artifacts) where
  acme_platforms : List String → Lock.Image → List Lock.Platform → Map String → Map String
  unfolding contains insert platform_pin
  acme_platforms archs i [] images = images
  acme_platforms archs i (p ∷ ps) images = acme_platforms archs i ps (
      if contains p.architecture archs
      then insert p.architecture (platform_pin x y i p) images
      else images)

  acme_images : List String → List Lock.Image → Map String → Result (Map String)
  unfolding acme_platforms
  acme_images archs [] images = ok images
  acme_images archs (i ∷ is) images =
      let next = acme_images archs is (acme_platforms archs i i.platforms images) in
      let skip = acme_images archs is images in
      if not (i.component == "acme") then skip else elim (x.new_digest i.pinned) [
        | none ↦ err (at "invalid reference" i.pinned)
        | some d ↦ next
      ]

  -- gatewayTLS
  unfoldable pub gateway_tls_of : Plan.Plan → String → String → Result GatewayTls
  unfolding validator_architectures acme_images
  gateway_tls_of b issuer email = do
    let archs = validator_architectures [] b.compute.targets
    images ← acme_images archs b.release.images []
    let tls : GatewayTls = record { issuer = issuer; email = email; images = images }
    refuse (eqb (length images) 0) (
        text
          "trusted gateway certificates need an acme image (for example goacme/lego) in the network images")
    validate_tls x tls archs
    ok tls

-- What the loop over the targets has seen.
pub record Seen : Type 0 where
  pub ids : List String
  pub ips : List String
  pub counts : Map ℕ

unfoldable pub count_of : String → Map ℕ → ℕ
unfolding lookup_or lookup
count_of role counts = lookup_or 0 role counts

-- the target's identity, addresses and role after those of the targets before it
unfoldable pub see : Node → Seen → Seen
unfolding count_of insert
see t s = record {
  ids = t.instance_id ∷ s.ids;
  ips =
      if t.private_address == ""
      then t.peer_address ∷ s.ips
      else t.private_address ∷ t.peer_address ∷ s.ips;
  counts = insert t.role (count_of t.role s.counts + 1) s.counts;
}

-- the approved target of the compute plan, with the images of the bootstrap plan
unfoldable pub is_approved : Node → Types.Target → Plan.Target → Bool
unfolding same_lists same_image
is_approved t expected b =
    t.name == expected.name
    && t.role == expected.role
    && t.architecture == expected.architecture
    && same_lists same_image t.images b.images

unfoldable pub is_deployed_role : String → Bool
is_deployed_role role =
    role == "validator" || role == "wallet" || role == "miner" || role == "fullnode"

abbrev pub unseen : Seen
unseen = record { ids = []; ips = []; counts = [] }

module _ (x : Outside) (y : Artifacts) (z : Recipes) where
  -- one round of the loop
  unfoldable pub check_target :
      String → Node → Types.Target → Plan.Target → Seen → Result (Unit {0})
  unfolding is_approved is_deployed_role contains
  check_target mode t expected b s = do
    refuse (not (is_approved t expected b))
        (text "deployment differs from the approved bootstrap target")
    validate_node z.mapped t
    advertised z.mapped mode t
    refuse
        (contains t.instance_id s.ids
          || contains t.peer_address s.ips
          || (not (t.private_address == "") && contains t.private_address s.ips))
        (text "duplicate instance or peer address")
    refuse (not (is_deployed_role t.role)) (
        text
          "full devnet profile supports validator, wallet, miner and fullnode roles; seeds must not be silently omitted")

  -- The loop. The targets of the bootstrap plan are as many, and so are those of the compute plan once
  -- the bootstrap plan is validated; an index out of range is an error here.
  unfoldable pub check_targets :
      String → List Node → List Types.Target → List Plan.Target → Seen → Result Seen
  unfolding check_target see
  check_targets mode [] es bs s = ok s
  check_targets mode (t ∷ ts) (e ∷ es) (b ∷ bs) s =
      let rest = check_targets mode ts es bs (see t s) in check_target mode t e b s >> rest
  check_targets mode (t ∷ ts) _ _ s = err (text "index out of range")

  unfoldable pub check_counts : Map ℕ → Result (Unit {0})
  check_counts counts =
      refuse
        (ltb (count_of "validator" counts) 13
          || ltb 25 (count_of "validator" counts)
          || not (eqb (count_of "wallet" counts) 1)
          || ltb 1 (count_of "miner" counts))
        (text
          "full devnet profile requires 13..25 validators, exactly one wallet, and at most one separate miner")

  unfoldable pub check_identity : Deployment → Result (Unit {0})
  check_identity p =
      refuse
        (not (p.id == z.deployment (record p { id = "" }))
          || not (p.api_version == version)
          || not (p.kind == "DevnetDeploymentPlan")
          || not (p.profile == profile_name)
          || not (p.recipe_sha256 == z.node))
        (text "deployment plan altered or node recipe changed; retain exact plan/binary")

  unfoldable pub check_policy : Deployment → Result (Unit {0})
  check_policy p = do
    refuse
        (ltb p.initial_protocol_version 1
          || ltb 100 p.initial_protocol_version
          || eqb p.genesis_time 0
          || ltb_ℤ p.mining_interval_seconds (pos 8)
          || ltb_ℤ (pos 600) p.mining_interval_seconds
          || ltb_ℤ p.premine_height (pos 0)
          || ltb_ℤ (pos 20000) p.premine_height)
        (text
          "explicit protocol version (1..100), genesis time and supported mining policy required")
    refuse
        (not (eqb_ℤ p.platform_epoch_seconds (pos 0))
          && (ltb_ℤ p.platform_epoch_seconds (pos 180)
              || ltb_ℤ (pos 2592000) p.platform_epoch_seconds))
        (text "Platform epoch must be 180..2592000 seconds")

  -- an older plan names the first chain with its generation too
  unfoldable pub check_chain : Deployment → Result (Unit {0})
  unfolding chain_name trim_prefix int_text
  check_chain p =
      let network = p.bootstrap.compute.network.metadata.name in
      let generation = p.bootstrap.compute.network.chain.generation in
      let legacy = trim_prefix network "devnet-" ++ "-g" ++ int_text generation in
      refuse
        ((not (p.core_network == chain_name network generation) && not (p.core_network == legacy))
          || not (p.platform_chain_id == "dash-devnet-" ++ p.core_network)
          || ltb 50 (len p.platform_chain_id))
        (text "invalid or overlong chain identity; use a shorter devnet name")

  unfoldable pub check_tls : Deployment → Option GatewayTls → Result (Unit {0})
  unfolding same_maps same_text
  check_tls p none = ok tt
  check_tls p (some g) = do
    refuse (not (p.advertise == "public"))
        (text "trusted gateway certificates require public service addresses")
    expected ← gateway_tls_of x y p.bootstrap g.issuer g.email
    refuse
        (not (
          expected.issuer == g.issuer
          && expected.email == g.email
          && same_maps same_text expected.images g.images))
        (text "gateway TLS ACME client images differ from the release lock")

  unfoldable pub validate_deployment_plan : Deployment → Result (Unit {0})
  unfolding check_identity check_policy check_chain check_tls check_counts
  validate_deployment_plan p = do
    refuse (not (p.bootstrap.compute.network.chain.chain_type == "devnet"))
        (text "genesis lifecycle is devnet-only; existing chains require a join plan")
    validate_bootstrap_plan x y z.bootstrap p.bootstrap
    check_identity p
    check_policy p
    check_chain p
    refuse (not (eqb (length p.targets) (length p.bootstrap.targets)))
        (text "deployment target set incomplete")
    refuse (not (p.advertise == "public"))
        (text "dashmate-rendered devnets advertise public addresses")
    check_tls p p.gateway_tls
    seen ←
        check_targets p.advertise p.targets p.bootstrap.compute.targets p.bootstrap.targets unseen
    check_counts seen.counts
