-- ===== src/Provision/Progress.antt =====
-- The validators of the stages that share the journal: bootstrap.go, deployment.go, sidecar.go and
-- join.go of internal/provision.
use dash_network_go.Common.{
  String, Bool, true, false, Option, none, some, List, [], ◌∷◌, ◌&&◌, ◌||◌, not, ◌==◌, lookup,
  contains, length, eqb, map, if◌then◌else◌,
}
use dash_network_go.Common.Int.{pos, ltb_ℤ}
use dash_network_go.Common.Text.{sort_by, before}
use dash_network_go.Common.Result.{text, at, Result, ok, err, refuse, each, ◌>>◌}
use dash_network_go.Spec.Types.{architectures}
use dash_network_go.Spec.Patterns.{
  is_hex40, is_hex64, is_hex96, is_sha256_digest, is_runtime_version, is_dash_address,
}
use dash_network_go.Provision.Types.{
  Target, Plan, BootstrapNode, BootstrapProgress, SidecarPlatform, SidecarImage, DeploymentNode,
  DeploymentProgress, JoinNode, JoinProgress, Record,
}
use dash_network_go.Provision.Outside.{Outside, ImageRef}
use dash_network_go.Provision.Plan.{same_lists, same_text}

abbrev is_some {ℓ} : {A : Type ℓ} → Option A → Bool
is_some none = false
is_some (some a) = true

check_bootstrap_phase : BootstrapNode → Result (Unit {0})
unfolding contains
check_bootstrap_phase n =
    if contains n.phase ("pending" ∷ "checking" ∷ "preparing" ∷ "unknown" ∷ [])
    then ok tt
    else if n.phase == "ready"
    then refuse
        (eqb n.observed_at 0
          || not (is_runtime_version n.docker_version)
          || not (is_runtime_version n.compose_version))
        (text "missing bootstrap runtime evidence")
    else err (text "invalid bootstrap target phase")

check_bootstrap_node : String → BootstrapNode → Result (Unit {0})
unfolding check_bootstrap_phase
check_bootstrap_node phase n = do
  check_bootstrap_phase n
  refuse (phase == "hosts-ready" && not (n.phase == "ready"))
      (text "hosts-ready requires every target verified")

check_bootstrap_target : BootstrapProgress → Target → Result (Unit {0})
unfolding lookup check_bootstrap_node
check_bootstrap_target b t = elim (lookup t.name b.nodes) [
  | none ↦ err (at "bootstrap lost target" t.name)
  | some n ↦ check_bootstrap_node b.phase n
]

check_bootstrap : Plan → Option BootstrapProgress → Result (Unit {0})
unfolding check_bootstrap_target contains
check_bootstrap p none = ok tt
check_bootstrap p (some b) = do
  refuse (not (is_hex64 b.plan_id) || not (eqb (length b.nodes) (length p.targets)))
      (text "invalid bootstrap identity or target set")
  refuse (not (contains b.phase ("preparing" ∷ "interrupted" ∷ "hosts-ready" ∷ [])))
      (text "invalid bootstrap phase")
  each (check_bootstrap_target b) p.targets

unfoldable pub validate_bootstrap : Record → Plan → Result (Unit {0})
unfolding check_bootstrap
validate_bootstrap r p = check_bootstrap p r.bootstrap

abbrev pub sidecar_services : List String
sidecar_services = "core_tor" ∷ "gateway_rate_limiter" ∷ "gateway_rate_limiter_redis" ∷ []

check_platform : SidecarImage → SidecarPlatform → Result (Unit {0})
check_platform image q =
    refuse (not (is_sha256_digest q.digest)) (at "invalid platform digest" image.service)

-- the pin has the requested repository, and the requested digest if one is named
check_pin : SidecarImage → ImageRef → Option (String × String) → Result (Unit {0})
check_pin image requested none =
    err (at "must pin dashmate's requested repository by sha256" image.service)
check_pin image requested (some (repository, digest)) = do
  refuse (not (is_sha256_digest digest) || not (repository == requested.repository))
      (at "must pin dashmate's requested repository by sha256" image.service)
  elim requested.digest [
    | none ↦ ok tt
    | some d ↦
        refuse (not (d == digest)) (at "pin differs from dashmate's own digest" image.service)
  ]

platform_arch : SidecarPlatform → String
platform_arch q = q.architecture

module _ (x : Outside) where
  check_sidecar : List String → SidecarImage → Result (Unit {0})
  unfolding check_platform check_pin same_lists same_text sort_by platform_arch
  check_sidecar arches image = elim (x.reference image.requested) [
    | none ↦ err (at "invalid requested image" image.service)
    | some requested ↦ do
      check_pin image requested (x.new_digest image.pinned)
      each (check_platform image) image.platforms
      refuse
          (not (same_lists same_text (sort_by (λ s. s) (map platform_arch image.platforms)) arches))
          (at "platforms differ from network architectures" image.service)
  ]

  -- the loop over the images: the services seen, and the service of the image before
  check_sidecars : List String → List String → Option String → List SidecarImage → Result (Unit {0})
  unfolding contains before check_sidecar
  check_sidecars arches seen previous [] = ok tt
  check_sidecars arches seen previous (image ∷ rest) =
      let next = check_sidecars arches (image.service ∷ seen) (some image.service) rest in
      do
        refuse
            (not (contains image.service sidecar_services)
              || contains image.service seen
              || elim previous [ none ↦ false | some s ↦ before image.service s ])
            (text "sidecar images must name distinct supported dashmate services in order")
        check_sidecar arches image
        next

  unfoldable pub validate_sidecars : List SidecarImage → Plan → Result (Unit {0})
  unfolding check_sidecars architectures
  validate_sidecars s p = check_sidecars (architectures p.network) [] none s

deployment_phases : List String
deployment_phases = "deploying" ∷ "interrupted" ∷ "network-ready" ∷ "stopped" ∷ []

deployment_stages : List String
deployment_stages =
    "preflight" ∷ "render" ∷ "core-start" ∷ "identities" ∷ "core-finalize" ∷ "registrations"
    ∷ "core-sync" ∷ "quorums" ∷ "platform-start" ∷ "health" ∷ "ready" ∷ "stopping" ∷ "stopped" ∷ []

deployment_node_phases : List String
deployment_node_phases =
    "pending" ∷ "checking" ∷ "core-ready" ∷ "identified" ∷ "registered" ∷ "platform-started"
    ∷ "ready" ∷ "unknown" ∷ []

-- an optional piece of evidence has its form
abbrev malformed : (String → Bool) → String → Bool
malformed form s = not (s == "") && not (form s)

check_wallet_address : String → Result (Unit {0})
check_wallet_address a = refuse (malformed is_dash_address a) (text "invalid public wallet address")

check_deployment_node : DeploymentProgress → Target → DeploymentNode → Result (Unit {0})
unfolding contains deployment_node_phases
check_deployment_node d t n = do
  refuse (not (contains n.phase deployment_node_phases)) (text "invalid deployment target phase")
  refuse
      (malformed is_hex96 n.operator_public_key
        || malformed is_hex40 n.platform_node_id
        || malformed is_hex64 n.pro_tx_hash
        || malformed is_hex64 n.core_container_id
        || ltb_ℤ n.core_height (pos 0)
        || ltb_ℤ n.platform_height (pos 0))
      (text "invalid deployment target evidence")
  refuse
      (d.phase == "network-ready"
        && (not (n.phase == "ready")
            || eqb n.observed_at 0
            || n.core_container_id == ""
            || ltb_ℤ n.core_height (pos 1)
            || (t.role == "validator"
                && (ltb_ℤ n.platform_height (pos 1)
                    || n.pro_tx_hash == ""
                    || n.platform_node_id == ""
                    || n.operator_public_key == ""))))
      (text "network readiness requires all targets observed")

check_deployment_target : DeploymentProgress → Target → Result (Unit {0})
unfolding lookup check_deployment_node
check_deployment_target d t = elim (lookup t.name d.nodes) [
  | none ↦ err (text "deployment lost an intended target")
  | some n ↦ check_deployment_node d t n
]

module _ (x : Outside) where
  unfoldable pub check_deployment : Plan → Option DeploymentProgress → Result (Unit {0})
  unfolding check_deployment_target check_wallet_address validate_sidecars contains
      deployment_phases deployment_stages
  check_deployment p none = ok tt
  check_deployment p (some d) = do
    refuse
        (not (is_hex64 d.plan_id)
          || not (eqb (length d.nodes) (length p.targets))
          || ltb_ℤ d.genesis_core_height (pos 0))
        (text "invalid deployment journal identity or scope")
    refuse (not (contains d.phase deployment_phases)) (text "invalid deployment phase")
    refuse (not (contains d.stage deployment_stages)) (text "invalid deployment stage")
    refuse
        (d.phase == "network-ready"
          && (not (d.stage == "ready")
              || eqb d.observed_at 0
              || d.core_genesis == ""
              || ltb_ℤ d.genesis_core_height (pos 1)
              || d.payout_address == ""
              || d.spork_address == ""))
        (text "network-ready lacks complete chain evidence")
    validate_sidecars x d.sidecars p
    refuse (malformed is_hex64 d.core_genesis) (text "invalid Core genesis evidence")
    each check_wallet_address (d.payout_address ∷ d.spork_address ∷ [])
    each (check_deployment_target d) p.targets

  unfoldable pub validate_deployment : Record → Plan → Result (Unit {0})
  unfolding check_deployment
  validate_deployment r p = check_deployment p r.deployment

check_join_node : JoinProgress → Target → JoinNode → Result (Unit {0})
unfolding contains
check_join_node j t n = do
  refuse
      (not (t.role == "fullnode")
        || not (contains n.phase ("pending" ∷ "syncing" ∷ "ready" ∷ []))
        || ltb_ℤ n.height (pos 0)
        || malformed is_hex64 n.container_id)
      (text "invalid joined target")
  refuse
      (j.phase == "joined"
        && (not (n.phase == "ready") || eqb n.observed_at 0 || n.container_id == ""))
      (text "join ready without observed evidence")

check_join_target : JoinProgress → Target → Result (Unit {0})
unfolding lookup check_join_node
check_join_target j t = elim (lookup t.name j.nodes) [
  | none ↦ err (text "invalid joined target")
  | some n ↦ check_join_node j t n
]

check_join : Record → Plan → Option JoinProgress → Result (Unit {0})
unfolding contains check_join_target
check_join r p none = ok tt
check_join r p (some j) = do
  refuse
      (is_some r.deployment
        || is_some r.runtime
        || is_some r.upgrade
        || not (is_hex64 j.plan_id)
        || not (eqb (length j.nodes) (length p.targets)))
      (text "join record conflicts with a genesis deployment or lost targets")
  refuse (not (contains j.phase ("joining" ∷ "interrupted" ∷ "joined" ∷ [])))
      (text "invalid join phase")
  each (check_join_target j) p.targets

unfoldable pub validate_join : Record → Plan → Result (Unit {0})
unfolding check_join
validate_join r p = check_join r p r.joining
