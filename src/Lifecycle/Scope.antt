-- ===== src/Lifecycle/Scope.antt =====
-- Which images an upgrade of each scope may replace, and with which pins.
use dash_network_go.Common.{
  String, true, List, ◌≡◌, refl, ◌⊎◌, inl, not, ◌==◌, Any, All-map, All-Any, if◌then◌else◌,
}
use dash_network_go.Common.Result.{ok, refuse}
use dash_network_go.Common.Holds.{Holds, Holds-bind, Holds-ok, Holds-after}
use dash_network_go.Spec.Types.{Network}
use dash_network_go.Provision.Types.{FleetImages}
use dash_network_go.Provision.Upgrade.{image_at, validate_images}
use dash_network_go.Provision.Outside.{Outside}
use dash_network_go.Release.Lock.{Platform, Image, Lock, Artifacts}
use dash_network_go.Bootstrap.Plan.{platform_pin}
use dash_network_go.Lifecycle.Nodes.{Node}
use dash_network_go.Lifecycle.Deployment.{Deployment, Recipes}
use dash_network_go.Lifecycle.Upgrades.{
  Choice, fold_result, core_image, platform_image, choose, check_candidate, upgrade_targets,
}
use dash_network_go.Lifecycle.Replacing.{may_replace, fold_result-Holds, IsKept, image-IsKept}

-- The pin that the lock gives for a component of a target, of the target's architecture.
abbrev pub IsPinFor :
    Outside → Artifacts → String → List Image → List Node → String → String → String → Type 0
IsPinFor x y scope images targets name component pin =
    Any
      (λ (t : Node).
        (t.name ≡ name)
        × Any
            (λ (i : Image).
              (i.component ≡ component)
              × (may_replace scope t.role component ≡ true)
              × Any
                  (λ (q : Platform).
                    (q.architecture ≡ t.architecture) × (pin ≡ platform_pin x y i q))
                  i.platforms)
            images)
      targets

module _ (x : Outside) (y : Artifacts) (from : FleetImages) (scope : String) (images : List Image)
    (targets : List Node) where
  abbrev Allowed : String → String → String → Type 0
  Allowed name component pin = IsPinFor x y scope images targets name component pin

  abbrev Request : Type 0
  Request = String × String × String

  abbrev ImageAllowed : Node → Image → Request → Type 0
  ImageAllowed t i r =
      (i.component ≡ r.1)
      × (may_replace scope t.role r.1 ≡ true)
      × Any (λ (q : Platform). (q.architecture ≡ t.architecture) × (r.2 ≡ platform_pin x y i q))
          i.platforms

  abbrev TargetAllowed : Node → Request → Type 0
  TargetAllowed t r = (t.name ≡ r.0) × Any (λ i. ImageAllowed t i r) images

  -- a target's images
  target-IsKept :
      (t : Node) (s : Choice)
      → ((r : Request) → TargetAllowed t r → Allowed r.0 r.1 r.2)
      → IsKept from Allowed s
      → Holds (IsKept from Allowed) (
          fold_result
            (λ i.
              if scope == "core"
              then core_image x y from t i
              else platform_image x y from scope t i)
            images
            s)
  target-IsKept t s allow kept =
      fold_result-Holds _ _ (IsKept from Allowed)
        (λ i s' this kept'. image-IsKept x y from Allowed scope t i s' kept' λ may.
          All-map
            (λ q there same.
              allow (t.name, i.component, platform_pin x y i q)
                (
                  refl,
                  this (t.name, i.component, platform_pin x y i q)
                      (refl, may, there (platform_pin x y i q) (same, refl)),
                ))
            i.platforms
            (All-Any
              (λ (q : Platform) (pin : String).
                (q.architecture ≡ t.architecture) × (pin ≡ platform_pin x y i q))
              i.platforms))
        images s (All-Any (ImageAllowed t) images) kept

  choose-IsKept :
      (s : Choice)
      → IsKept from Allowed s
      → Holds (IsKept from Allowed) (choose x y from scope images targets s)
  unfolding choose
  choose-IsKept s kept =
      fold_result-Holds _ _ (IsKept from Allowed)
        (λ t s' allow kept'. target-IsKept t s' allow kept') targets s
        (All-Any TargetAllowed targets) kept

-- An upgrade that is planned leaves each image of each node as it was, or replaces it by the pin that
-- the release lock gives for that component and the node's architecture, where the node is a target and
-- its scope and role allow it: the scope core replaces Core alone, every other scope keeps Core, other
-- nodes than validators get only a new helper, and the scope tenderdash replaces Tenderdash alone.
pub upgrade_targets-IsPinFor :
    (x : Outside) (y : Artifacts) (z : Recipes) (p : Deployment) (candidate : Network) (lock : Lock)
    (from to : FleetImages) (scope : String)
    → upgrade_targets x y z p candidate lock from scope ≡ ok to
    → (name component : String)
    → (image_at to name component ≡ image_at from name component)
      ⊎ IsPinFor x y scope lock.images p.targets name component (image_at to name component)
unfolding upgrade_targets
upgrade_targets-IsPinFor x y z p candidate lock from to scope h =
    Holds-ok
      (λ to'.
        (name component : String)
        → (image_at to' name component ≡ image_at from name component)
          ⊎ IsPinFor x y scope lock.images p.targets name component (image_at to' name component))
      (upgrade_targets x y z p candidate lock from scope)
      (Holds-after _ (check_candidate x y z p candidate lock from scope) _ λ u.
        Holds-bind (IsKept from (IsPinFor x y scope lock.images p.targets)) _
          (choose x y from scope lock.images p.targets _) _
          (choose-IsKept x y from scope lock.images p.targets _ (λ n c. inl refl))
          (λ c kept. Holds-after _ (refuse (not c.changed) _) _ λ changed.
            Holds-after _ (validate_images x c.images p.bootstrap.compute) _ λ valid. kept))
      h
