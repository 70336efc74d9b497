-- ===== src/Lifecycle/Upgrades.antt =====
-- internal/lifecycle/upgrade_plan.go: which images an upgrade replaces on which node (upgradeTargets).
use dash_network_go.Common.{
  String, Bool, false, none, some, List, [], ◌∷◌, ◌&&◌, ◌||◌, not, ◌==◌, lookup, lookup_or, insert,
  contains, length, leb, if◌then◌else◌,
}
use dash_network_go.Common.Result.{text, at, Result, ok, err, refuse, ◌>>=◌, ◌>>◌}
use dash_network_go.Spec.Types.{Network, optional_components, role_components}
use dash_network_go.Spec.Validate.{validate}
use dash_network_go.Provision.Types.{FleetImages}
use dash_network_go.Provision.Plan.{same_network}
use dash_network_go.Provision.Upgrade.{image_at, validate_images}
use dash_network_go.Provision.Outside.{Outside}
use dash_network_go.Release.Lock
use dash_network_go.Release.Lock.{Lock, Artifacts, validate_lock}
use dash_network_go.Bootstrap.Plan.{platform_pin}
use dash_network_go.Lifecycle.Nodes.{Node}
use dash_network_go.Lifecycle.Deployment.{Deployment, Recipes, validate_deployment_plan}
use dash_network_go.Lifecycle.Building.{validators}

-- The images chosen so far, and whether one differs.
pub record Choice : Type 0 where
  pub images : FleetImages
  pub changed : Bool

-- `to[name][component] = pin`; every node has an entry in validated images
unfoldable pub set_pin : String → String → String → FleetImages → FleetImages
unfolding lookup_or lookup insert
set_pin name component pin images =
    insert name (insert component pin (lookup_or [] name images)) images

-- a loop whose rounds may return an error
unfoldable pub fold_result : {A C : Type 0} → (A → C → Result C) → List A → C → Result C
fold_result f [] c = ok c
fold_result f (a ∷ more) c = f a c >>= λ c'. fold_result f more c'

-- the `continue` of the Platform scopes
unfoldable pub is_skipped : String → String → String → Bool
unfolding contains role_components
is_skipped scope role component =
    component == "core"
    || contains component optional_components
    || (scope == "tenderdash" && not (component == "tenderdash"))
    || (not (role == "validator") && not (component == "helper"))
    || not (contains component (role_components role))

unfoldable pub unchanged_message : String → String
unchanged_message scope =
    if scope == "core"
    then "Core image is unchanged; no upgrade operation needed"
    else "selected runtime images are unchanged; no upgrade operation needed"

module _ (x : Outside) (y : Artifacts) (from : FleetImages) where
  -- the loop over an image's platforms, for one node
  unfoldable pub repin : Node → Lock.Image → List Lock.Platform → Choice → Choice
  unfolding set_pin image_at platform_pin
  repin t i [] c = c
  repin t i (p ∷ ps) c =
      let pin = platform_pin x y i p in
      let next : Choice = record {
        images = set_pin t.name i.component pin c.images;
        changed = c.changed || not (pin == image_at from t.name i.component);
      } in
      repin t i ps (if p.architecture == t.architecture then next else c)

  -- Core's repository stays
  unfoldable pub repin_core : Node → Lock.Image → Choice → Result Choice
  unfolding repin image_at
  repin_core t i c = elim (x.new_digest i.pinned) [
    | none ↦ err (at "invalid reference" i.pinned)
    | some (repository, digest) ↦ elim (x.new_digest (image_at from t.name "core")) [
      | none ↦ err (text "a Core upgrade keeps Core's image repository")
      | some (current, digest_now) ↦
          if current == repository
          then ok (repin t i i.platforms c)
          else err (text "a Core upgrade keeps Core's image repository")
    ]
  ]

  unfoldable pub core_image : Node → Lock.Image → Choice → Result Choice
  unfolding repin_core
  core_image t i c = if i.component == "core" then repin_core t i c else ok c

  unfoldable pub platform_image : String → Node → Lock.Image → Choice → Result Choice
  unfolding is_skipped repin
  platform_image scope t i c =
      if is_skipped scope t.role i.component then ok c else elim (x.new_digest i.pinned) [
        | none ↦ err (at "invalid reference" i.pinned)
        | some d ↦ ok (repin t i i.platforms c)
      ]

  -- the loops over the targets and the images
  unfoldable pub choose : String → List Lock.Image → List Node → Choice → Result Choice
  unfolding fold_result core_image platform_image
  choose scope images targets c =
      fold_result
        (λ t.
          fold_result (λ i. if scope == "core" then core_image t i else platform_image scope t i)
            images)
        targets c

module _ (x : Outside) (y : Artifacts) (z : Recipes) where
  unfoldable pub check_candidate :
      Deployment → Network → Lock → FleetImages → String → Result (Unit {0})
  unfolding validators same_network
  check_candidate p candidate lock from scope = do
    refuse (scope == "core" && leb 40 (length (validators p))) (
        text
          "core-scope upgrades support devnets under 40 validators: larger fleets form quorum types whose DKG sessions the quiet window does not cover")
    validate_deployment_plan x y z p
    validate x.parse_strict candidate
    validate_lock x y lock candidate
    validate_images x from p.bootstrap.compute
    refuse
        (not (
          same_network (record candidate { images = p.bootstrap.compute.network.images })
            p.bootstrap.compute.network))
        (text "upgrade cannot change network identity, topology, cloud placement or metadata")
    refuse (not (scope == "platform") && not (scope == "tenderdash") && not (scope == "core"))
        (text "executable upgrades support platform, tenderdash or core scope")

  unfoldable pub upgrade_targets :
      Deployment → Network → Lock → FleetImages → String → Result FleetImages
  unfolding check_candidate choose unchanged_message
  upgrade_targets p candidate lock from scope = do
    check_candidate p candidate lock from scope
    c ← choose x y from scope lock.images p.targets (record { images = from; changed = false })
    refuse (not c.changed) (text (unchanged_message scope))
    validate_images x c.images p.bootstrap.compute
    ok c.images
