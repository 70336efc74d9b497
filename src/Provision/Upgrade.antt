-- ===== src/Provision/Upgrade.antt =====
-- internal/provision/upgrade.go: the journal's upgrade section, and Record.Validate (runner.go),
-- which composes the validators of all sections.
use dash_network_go.Common.{
  ℕ, suc, String, Bool, false, Option, none, some, List, [], ◌∷◌, ◌&&◌, ◌||◌, not, ◌==◌, lookup,
  lookup_or, contains, length, eqb, if◌then◌else◌,
}
use dash_network_go.Common.Int.{pos, ltb_ℤ}
use dash_network_go.Common.Result.{text, at, Result, ok, err, refuse, each, ◌>>◌}
use dash_network_go.Spec.Types.{role_components}
use dash_network_go.Spec.Patterns.{is_hex64, is_sha256_digest}
use dash_network_go.Provision.Types.{
  Target, Plan, FleetImages, RuntimeState, Preservation, UpgradeProgress, DeploymentProgress,
  Record,
}
use dash_network_go.Provision.Outside.{Outside}
use dash_network_go.Provision.Compute.{validate_compute}
use dash_network_go.Provision.Progress.{
  validate_bootstrap, validate_deployment, validate_join, validate_sidecars,
}

-- `images[target][component]`, "" where either key is missing
unfoldable pub image_at : FleetImages → String → String → String
unfolding lookup_or lookup
image_at images name component = lookup_or "" component (lookup_or [] name images)

-- The planned target of a name
unfoldable pub find_target : List Target → String → Option Target
find_target [] name = none
find_target (t ∷ ts) name = if t.name == name then some t else find_target ts name

module _ (x : Outside) where
  -- name.NewDigest gives a digest of the form sha256:<64 hex>
  check_component : FleetImages → String → String → Result (Unit {0})
  unfolding image_at
  check_component images name component = elim (x.new_digest (image_at images name component)) [
    | none ↦ err (at "runtime image is not an immutable SHA256 reference" name)
    | some (repository, digest) ↦
        refuse (not (is_sha256_digest digest))
          (at "runtime image is not an immutable SHA256 reference" name)
  ]

  check_target_images : FleetImages → Target → Result (Unit {0})
  unfolding check_component lookup_or lookup role_components
  check_target_images images t = do
    refuse (not (eqb (length (lookup_or [] t.name images)) (length (role_components t.role))))
        (at "incomplete runtime images" t.name)
    each (check_component images t.name) (role_components t.role)

  unfoldable pub validate_images : FleetImages → Plan → Result (Unit {0})
  unfolding check_target_images
  validate_images images p = do
    refuse (not (eqb (length images) (length p.targets)))
        (text "runtime image set lost an intended target")
    each (check_target_images images) p.targets

abbrev pub platform_services : List String
platform_services =
    "drive_abci" ∷ "drive_tenderdash" ∷ "rs_dapi" ∷ "gateway_rate_limiter_redis"
    ∷ "gateway_rate_limiter" ∷ "gateway" ∷ []

-- the staged services of one node: each known, none twice
check_services : List String → List String → Result (Unit {0})
unfolding contains
check_services seen [] = ok tt
check_services seen (s ∷ rest) =
    let next = check_services (s ∷ seen) rest in
    if not (contains s platform_services) || contains s seen
    then err (text "invalid staged upgrade change")
    else next

check_change : Plan → UpgradeProgress → String × List String → Result (Unit {0})
unfolding find_target check_services
check_change p u (name, services) = elim (find_target p.targets name) [
  | none ↦ err (text "upgrade changes name a node outside the rollout")
  | some t ↦ do
    refuse (not (t.role == "validator") || u.scope == "core")
        (text "upgrade changes name a node outside the rollout")
    check_services [] services
]

abbrev zero_preservation : Preservation
zero_preservation = record {
  core_id = "";
  core_started = "";
  core_config = "";
  core_genesis = "";
  containers = [];
  restarts = [];
}

check_entry : UpgradeProgress → String → Result (Unit {0})
unfolding lookup
check_entry u name = elim (lookup name u.completed) [
  | none ↦ err (text "upgrade lost node progress")
  | some done ↦ ok tt
]

-- a complete upgrade has completed the node
check_done : UpgradeProgress → String → Result (Unit {0})
unfolding lookup_or lookup
check_done u name =
    refuse (u.phase == "complete" && not (lookup_or false name u.completed))
      (text "upgrade complete without every node")

check_kept_component : UpgradeProgress → String → String × String → Result (Unit {0})
unfolding image_at
check_kept_component u name (component, pin) =
    refuse (not (component == "core") && not (image_at u.to_images name component == pin))
      (text "Core upgrade attempted to alter another component")

check_scope : UpgradeProgress → RuntimeState → Target → Result (Unit {0})
unfolding check_entry check_done check_kept_component image_at lookup_or lookup
check_scope u run t =
    let kept = each (check_kept_component u t.name) (lookup_or [] t.name u.from_images) in
    let core_of = λ (images : FleetImages). image_at images t.name "core" in
    if u.scope == "core"
    then (kept >> check_entry u t.name >> check_done u t.name)
    else refuse
        (not (core_of u.from_images == core_of u.to_images)
          || not (core_of run.images == core_of u.from_images))
        (text "upgrade attempted to alter preserved Core")

check_container : Preservation → String → Result (Unit {0})
unfolding lookup_or lookup
check_container b service =
    refuse
      (not (is_hex64 (lookup_or "" service b.containers))
        || ltb_ℤ (lookup_or (pos 0) service b.restarts) (pos 0))
      (text "invalid Platform preservation baseline")

-- A Platform rollout tracks validators in `completed`; their containers are preserved in any scope.
check_validator : UpgradeProgress → Preservation → Target → Result (Unit {0})
unfolding check_container check_entry check_done
check_validator u b t =
    let unless_core = λ (m : Result (Unit {0})). if u.scope == "core" then ok tt else m in
    let preserved = each (check_container b) ("drive" ∷ "tenderdash" ∷ "dapi" ∷ "gateway" ∷ []) in
    if t.role == "validator"
    then (unless_core (check_entry u t.name) >> preserved >> unless_core (check_done u t.name))
    else ok tt

check_runtime_pin : UpgradeProgress → String → String × String → Result (Unit {0})
unfolding image_at
check_runtime_pin u name (component, pin) = do
  refuse
      (not (pin == image_at u.from_images name component)
        && not (pin == image_at u.to_images name component))
      (text "runtime outside reviewed upgrade bounds")
  refuse (u.phase == "complete" && not (pin == image_at u.to_images name component))
      (text "completed upgrade differs from desired images")

module _ (x : Outside) where
  check_baseline : Preservation → Result (Unit {0})
  check_baseline b = do
    refuse
        (not (is_hex64 b.core_id) || not (is_hex64 b.core_config) || not (is_hex64 b.core_genesis))
        (text "invalid Core preservation baseline")
    refuse (not (x.is_rfc3339 b.core_started)) (text "missing Core start evidence")

  check_upgrade_target : UpgradeProgress → RuntimeState → Target → Result (Unit {0})
  unfolding check_baseline check_scope check_validator check_runtime_pin lookup_or lookup
  check_upgrade_target u run t =
      let b = lookup_or zero_preservation t.name u.baseline in
      do
        check_baseline b
        check_scope u run t
        check_validator u b t
        each (check_runtime_pin u t.name) (lookup_or [] t.name run.images)

-- The targets that the rollout tracks, and whether the current node is one of them.
tracks : UpgradeProgress → Target → Bool
tracks u t = u.scope == "core" || t.role == "validator"

tracked : UpgradeProgress → List Target → ℕ
unfolding tracks
tracked u [] = 0
tracked u (t ∷ ts) = let rest = tracked u ts in if tracks u t then suc rest else rest

current_known : UpgradeProgress → List Target → Bool
unfolding tracks
current_known u [] = u.current_node == ""
current_known u (t ∷ ts) = (tracks u t && t.name == u.current_node) || current_known u ts

upgrade_phases : List String
upgrade_phases = "staging" ∷ "applying" ∷ "verifying" ∷ "interrupted" ∷ "complete" ∷ []

module _ (x : Outside) where
  check_upgrade :
      Plan
      → Option DeploymentProgress
      → Option RuntimeState
      → Option UpgradeProgress
      → Result (Unit {0})
  unfolding validate_images validate_sidecars check_change check_upgrade_target tracked
      current_known upgrade_phases contains
  check_upgrade p d none none = ok tt
  check_upgrade p (some d) (some run) (some u) = do
    refuse
        (not (run.deployment_id == d.plan_id)
          || not (is_hex64 run.upgrade_id)
          || not (is_hex64 u.plan_id)
          || not (run.upgrade_id == u.plan_id))
        (text "runtime/upgrade journal identity mismatch")
    refuse (not (u.previous_id == "") && not (is_hex64 u.previous_id))
        (text "invalid previous upgrade identity")
    each (λ images. validate_images x images p) (run.images ∷ u.from_images ∷ u.to_images ∷ [])
    refuse (not (contains u.phase upgrade_phases)) (text "invalid upgrade phase")
    refuse (not (eqb (length u.baseline) (length p.targets)))
        (text "upgrade preservation baseline is incomplete")
    refuse (not (u.scope == "") && not (u.scope == "core")) (text "invalid upgrade scope")
    each (λ s. validate_sidecars x s p) (run.sidecars ∷ u.sidecars ∷ [])
    each (check_change p u) u.changes
    each (check_upgrade_target x u run) p.targets
    refuse (not (current_known u p.targets) || not (eqb (length u.completed) (tracked u p.targets)))
        (text "invalid upgrade target scope")
    refuse (u.phase == "complete" && (not (u.current_node == "") || eqb u.observed_at 0))
        (text "upgrade lacks final verification")
  check_upgrade p d run u = err (text "runtime/upgrade journal identity mismatch")

  unfoldable pub validate_upgrade : Record → Plan → Result (Unit {0})
  unfolding check_upgrade
  validate_upgrade r p = check_upgrade p r.deployment r.runtime r.upgrade

  -- Record.Validate
  unfoldable pub validate_record : Record → Plan → Result (Unit {0})
  validate_record r p = do
    validate_compute x r p
    validate_bootstrap r p
    validate_deployment x r p
    validate_join r p
    validate_upgrade r p
