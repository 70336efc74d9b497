-- ===== src/Lifecycle/Planning.antt =====
-- internal/lifecycle/upgrade_plan.go, and effectiveImages of runtime.go: the plan of an upgrade and its
-- validation.
use Prim.Native.String.{len}
use dash_network_go.Common.{
  ℕ, ◌%◌, String, Bool, false, Option, none, some, List, [], ◌∷◌, ◌&&◌, ◌||◌, not, ◌==◌, Map,
  lookup, lookup_or, insert, eqb, if◌then◌else◌,
}
use dash_network_go.Common.Regex.{one_of, star, matches}
use dash_network_go.Common.Result.{text, Result, ok, err, refuse, ◌>>=◌, ◌>>◌}
use dash_network_go.Spec.Types.{version, Network}
use dash_network_go.Provision.Types
use dash_network_go.Provision.Types.{FleetImages, RuntimeState, Record}
use dash_network_go.Provision.Plan.{same_maps, same_text}
use dash_network_go.Provision.Upgrade.{image_at, validate_images, validate_record}
use dash_network_go.Provision.Outside.{Outside}
use dash_network_go.Release.Lock.{Lock, Artifacts}
use dash_network_go.Bootstrap.Plan
use dash_network_go.Bootstrap.Plan.{platform_pin}
use dash_network_go.Lifecycle.Nodes.{Node}
use dash_network_go.Lifecycle.Deployment.{Deployment, Recipes}
use dash_network_go.Lifecycle.Upgrades.{upgrade_targets}

-- hex.DecodeString has no error
is_hex_text : String → Bool
unfolding matches
is_hex_text s =
    eqb (len s % 2) 0 && matches (star (one_of ((b'0', b'9') ∷ (b'a', b'f') ∷ (b'A', b'F') ∷ []))) s

pub record UpgradePlan : Type 0 where
  pub api_version : String
  pub kind : String
  pub id : String
  pub deployment : Deployment
  pub candidate : Network
  pub release : Lock
  pub scope : String
  pub previous_id : String
  pub recipe_sha256 : String
  pub created_at : ℕ
  pub from_images : FleetImages
  pub to_images : FleetImages
  pub recovery : String

-- recoveryFor
unfoldable pub recovery_for : String → String
recovery_for scope =
    if scope == "core"
    then "forward-only; one node at a time: validators, then fullnodes, then the mining node; Platform services and mining are withdrawn gracefully around the Core replacement and restarted after Core is synced; configuration, genesis, keys, wallets and chain data are preserved; stop on failure; no automatic downgrade"
    else "forward-only; Drive replacement gracefully stops Tenderdash then restarts it after ABCI readiness; Core remains running; stop on failure; no automatic downgrade, database reset or protocol migration"

module _ (x : Outside) (y : Artifacts) (z : Recipes) where
  -- a replacement of Core stays in the repository of the deployment's
  check_core : FleetImages → List (String × Map String) → Result (Unit {0})
  unfolding image_at lookup_or lookup
  check_core now [] = ok tt
  check_core now ((name, components) ∷ more) =
      let rest = check_core now more in
      elim (x.new_digest (lookup_or "" "core" components)) [
        | none ↦ err (text "runtime attempted to replace Core with another repository")
        | some (was, old) ↦ elim (x.new_digest (image_at now name "core")) [
          | none ↦ err (text "runtime attempted to replace Core with another repository")
          | some (repository, new) ↦
              if was == repository
              then rest
              else err (text "runtime attempted to replace Core with another repository")
        ]
      ]

  image_set : List Plan.Image → Map String → Map String
  unfolding insert
  image_set [] set = set
  image_set (i ∷ is) set = image_set is (insert i.component i.pinned set)

  planned_images : List Node → FleetImages → FleetImages
  unfolding insert image_set
  planned_images [] images = images
  planned_images (t ∷ ts) images = planned_images ts (insert t.name (image_set t.images []) images)

  -- the images of the last upgrade, or else of the deployment plan
  unfoldable pub effective_images : Deployment → Option RuntimeState → Result FleetImages
  unfolding check_core planned_images
  effective_images p none = ok (planned_images p.targets [])
  effective_images p (some run) = do
    refuse (not (run.deployment_id == p.id)) (text "runtime belongs to another deployment")
    validate_images x run.images p.bootstrap.compute
    check_core run.images (planned_images p.targets [])
    ok run.images

  module _ (digest : UpgradePlan → String) where
    check_upgrade_identity : UpgradePlan → Result (Unit {0})
    unfolding recovery_for is_hex_text
    check_upgrade_identity u = do
      refuse
          (not (u.id == digest (record u { id = "" }))
            || not (u.api_version == version)
            || not (u.kind == "DevnetUpgradePlan")
            || not (u.recipe_sha256 == z.upgrade)
            || not (u.recovery == recovery_for u.scope)
            || eqb u.created_at 0)
          (text "upgrade plan altered or recipe changed; retain exact plan/binary")
      refuse
          (not (u.previous_id == "") && (not (eqb (len u.previous_id) 64) || u.previous_id == u.id))
          (text "invalid upgrade predecessor")
      refuse (not (is_hex_text u.previous_id)) (text "invalid upgrade predecessor digest")

    unfoldable pub validate_upgrade_plan : UpgradePlan → Result (Unit {0})
    unfolding check_upgrade_identity same_maps same_text
    validate_upgrade_plan u = do
      check_upgrade_identity u
      to ← upgrade_targets x y z u.deployment u.candidate u.release u.from_images u.scope
      refuse (not (same_maps (same_maps same_text) to u.to_images))
          (text "upgrade targets differ from reviewed release/scope")

    deployment_done : Deployment → Option Types.DeploymentProgress → Bool
    deployment_done p none = false
    deployment_done p (some d) = d.plan_id == p.id && d.phase == "network-ready"

    upgrade_pending : Option Types.UpgradeProgress → Bool
    upgrade_pending none = false
    upgrade_pending (some u) = not (u.phase == "complete")

    previous_of : Option RuntimeState → String
    previous_of none = ""
    previous_of (some run) = run.upgrade_id

    -- BuildUpgrade at the time `now`
    unfoldable pub build_upgrade :
        Deployment → Record → Network → Lock → String → ℕ → Result UpgradePlan
    unfolding deployment_done upgrade_pending previous_of recovery_for
    build_upgrade p r candidate lock scope now = do
      validate_record x r p.bootstrap.compute
      refuse (not (deployment_done p r.deployment))
          (text "complete the original deployment before planning an upgrade")
      refuse (upgrade_pending r.upgrade) (text "resume the unfinished upgrade; do not supersede it")
      from ← effective_images p r.runtime
      to ← upgrade_targets x y z p candidate lock from scope
      let u : UpgradePlan = record {
        api_version = version;
        kind = "DevnetUpgradePlan";
        id = "";
        deployment = p;
        candidate = candidate;
        release = lock;
        scope = scope;
        previous_id = previous_of r.runtime;
        recipe_sha256 = z.upgrade;
        created_at = now;
        from_images = from;
        to_images = to;
        recovery = recovery_for scope;
      }
      let identified : UpgradePlan = record u { id = digest u }
      validate_upgrade_plan identified
      ok identified
