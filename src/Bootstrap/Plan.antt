-- ===== src/Bootstrap/Plan.antt =====
-- internal/bootstrap/plan.go: the images that each host gets, and the plan's validation by building it
-- again.
use dash_network_go.Common.{
  String, Bool, false, none, some, List, [], ◌∷◌, ◌&&◌, ◌||◌, not, ◌==◌, map, contains, eqb,
  if◌then◌else◌,
}
use mathlib.Core.List
use dash_network_go.Common.Int.{ℤ, pos, ltb_ℤ, eqb_ℤ}
use dash_network_go.Common.Text.{sort_by}
use dash_network_go.Common.Regex.{one_of, seq, up_to, matches}
use dash_network_go.Common.Result.{text, Result, ok, refuse, ◌>>=◌, ◌>>◌}
use dash_network_go.Spec.Types.{version, optional_components, role_components}
use dash_network_go.Provision.Types
use dash_network_go.Provision.Plan.{validate_plan, same_plan, same_lists}
use dash_network_go.Provision.Outside.{Outside}
use dash_network_go.Release.Lock
use dash_network_go.Release.Lock.{Lock, Artifacts, validate_lock}

pub record Access : Type 0 where
  pub user : String
  pub port : ℤ
  pub address : String

pub record Image : Type 0 where
  pub component : String
  pub pinned : String

pub record Target : Type 0 where
  pub name : String
  pub architecture : String
  pub images : List Image

pub record Plan : Type 0 where
  pub api_version : String
  pub kind : String
  pub id : String
  pub compute : Types.Plan
  pub release : Lock
  pub access : Access
  pub recipe_sha256 : String
  pub targets : List Target

-- SHA-256 of the recipe in bootstrap/node.go, and of the JSON of a plan with an empty ID
pub record Digests : Type 0 where
  pub recipe : String
  pub plan : Plan → String

-- ^[a-z_][a-z0-9_-]{0,31}$
unfoldable pub is_username : String → Bool
unfolding matches up_to
is_username s =
    matches
      (seq (one_of ((b'a', b'z') ∷ (b'_', b'_') ∷ []))
        (up_to 31 (one_of ((b'a', b'z') ∷ (b'0', b'9') ∷ (b'_', b'_') ∷ (b'-', b'-') ∷ []))))
      s

same_platform : Lock.Platform → Lock.Platform → Bool
same_platform p q = p.os == q.os && p.architecture == q.architecture && p.digest == q.digest

same_lock_image : Lock.Image → Lock.Image → Bool
unfolding same_platform same_lists
same_lock_image i k =
    i.component == k.component
    && i.requested == k.requested
    && i.pinned == k.pinned
    && same_lists same_platform i.platforms k.platforms

same_lock : Lock → Lock → Bool
unfolding same_lock_image same_lists
same_lock l m =
    l.api_version == m.api_version
    && l.kind == m.kind
    && l.network == m.network
    && eqb_ℤ l.generation m.generation
    && l.spec_hash == m.spec_hash
    && eqb l.resolved_at m.resolved_at
    && l.evidence == m.evidence
    && same_lists same_lock_image l.images m.images

unfoldable pub same_image : Image → Image → Bool
same_image i k = i.component == k.component && i.pinned == k.pinned

same_target : Target → Target → Bool
unfolding same_image same_lists
same_target t u =
    t.name == u.name && t.architecture == u.architecture && same_lists same_image t.images u.images

same_access : Access → Access → Bool
same_access a b = a.user == b.user && eqb_ℤ a.port b.port && a.address == b.address

-- reflect.DeepEqual(p, expected)
unfoldable pub same_bootstrap : Plan → Plan → Bool
unfolding same_lock same_target same_access same_lists same_plan
same_bootstrap p q =
    p.api_version == q.api_version
    && p.kind == q.kind
    && p.id == q.id
    && same_plan p.compute q.compute
    && same_lock p.release q.release
    && same_access p.access q.access
    && p.recipe_sha256 == q.recipe_sha256
    && same_lists same_target p.targets q.targets

module _ (x : Outside) (y : Artifacts) where
  -- the pin of an image's platform; "" as the repository where the pin is invalid
  unfoldable pub platform_pin : Lock.Image → Lock.Platform → String
  platform_pin i p =
      y.digest_name
        (elim (x.new_digest i.pinned) [ none ↦ "" | some (repository, digest) ↦ repository ])
        p.digest

  pins_for : String → Lock.Image → List Lock.Platform → List Image
  unfolding platform_pin
  pins_for architecture i [] = []
  pins_for architecture i (p ∷ ps) =
      let rest = pins_for architecture i ps in
      if p.architecture == architecture
      then record { component = i.component; pinned = platform_pin i p } ∷ rest
      else rest

  -- the images of a role that upgrades may replace
  unfoldable pub is_needed : String → String → Bool
  unfolding contains role_components
  is_needed role component =
      not (contains component optional_components) && contains component (role_components role)

  target_images : Types.Target → List Lock.Image → List Image
  unfolding pins_for is_needed
  target_images t [] = []
  target_images t (i ∷ is) =
      let rest = target_images t is in
      if is_needed t.role i.component
      then List.◌++◌ (pins_for t.architecture i i.platforms) rest
      else rest

  unfoldable pub target_for : List Lock.Image → Types.Target → Target
  unfolding target_images sort_by
  target_for images t = record {
    name = t.name;
    architecture = t.architecture;
    images = sort_by (λ (i : Image). i.component) (target_images t images);
  }

  unfoldable pub check_access : Types.Plan → Access → Result (Unit {0})
  unfolding is_username
  check_access compute access = do
    refuse
        (not (is_username access.user)
          || ltb_ℤ access.port (pos 1)
          || ltb_ℤ (pos 65535) access.port
          || (not (access.address == "private") && not (access.address == "public")))
        (text
          "bootstrap requires an SSH user, port 1..65535, and private or public address selection")
    refuse
        (access.address == "public"
          && not (elim compute.network.aws.provision [ none ↦ false | some c ↦ c.public_ipv4 ]))
        (text "compute plan has no public IPv4 addresses")

  module _ (z : Digests) where
    unfoldable pub build : Types.Plan → Lock → Access → Result Plan
    unfolding check_access target_for
    build compute lock access = do
      validate_plan x compute
      validate_lock x y lock compute.network
      check_access compute access
      let p : Plan = record {
        api_version = version;
        kind = "NodeBootstrapPlan";
        id = "";
        compute = compute;
        release = lock;
        access = access;
        recipe_sha256 = z.recipe;
        targets = map (target_for lock.images) compute.targets;
      }
      ok (record p { id = z.plan p })

    unfoldable pub validate_bootstrap_plan : Plan → Result (Unit {0})
    validate_bootstrap_plan p = do
      expected ← build p.compute p.release p.access
      refuse (not (same_bootstrap p expected)) (
          text
            "bootstrap plan altered or recipe differs from this CLI; use the original binary/plan, not an automatic recipe replacement")
