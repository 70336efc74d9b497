-- ===== src/Planner/Build.antt =====
-- internal/plan/plan.go: Build.
use Prim.Native.String.{◌++◌}
use dash_network_go.Common.{
  String, Bool, false, Option, none, some, List, [], ◌∷◌, ◌&&◌, ◌||◌, not, ◌==◌, contains, length,
  eqb, if◌then◌else◌,
}
use mathlib.Core.List
use dash_network_go.Common.Int.{ℤ}
use dash_network_go.Common.Text.{sort_by}
use dash_network_go.Common.Result.{text, at, Result, ok, err, refuse, ◌>>◌}
use dash_network_go.Spec.Types.{version, NodeGroup, Network, components}
use dash_network_go.Spec.Validate.{validate}
use dash_network_go.Provision.Outside.{Outside}
use dash_network_go.Release.Lock.{Image, Lock, Artifacts, validate_lock}

pub record OperationPlan : Type 0 where
  pub api_version : String
  pub kind : String
  pub id : String
  pub network : String
  pub generation : ℤ
  pub account_id : String
  pub region : String
  pub spec_hash : String
  pub operation : String
  pub scope : String
  pub executable : Bool
  pub targets : List NodeGroup
  pub images : List Image
  pub preserve : List String
  pub steps : List String
  pub warnings : List String

-- `selected`: the components of a scope, none for a scope that is not supported
unfoldable pub selected_in : String → Option (List String)
selected_in scope =
    if scope == "all"
    then some components
    else if scope == "platform"
    then some ("dapi" ∷ "drive" ∷ "gateway" ∷ "helper" ∷ "tenderdash" ∷ [])
    else if scope == "core" || scope == "tenderdash"
    then some (scope ∷ [])
    else none

unfoldable pub selected_images : List String → List Image → List Image
unfolding contains
selected_images selected [] = []
selected_images selected (i ∷ is) =
    let rest = selected_images selected is in
    if contains i.component selected then i ∷ rest else rest

unfoldable pub is_target : String → NodeGroup → Bool
is_target scope g = scope == "all" || scope == "core" || g.role == "validator" || g.role == "seed"

unfoldable pub selected_groups : String → List NodeGroup → List NodeGroup
unfolding is_target
selected_groups scope [] = []
selected_groups scope (g ∷ gs) =
    let rest = selected_groups scope gs in if is_target scope g then g ∷ rest else rest

abbrev advice : List String
advice =
    "Planning foundation only: this intent plan cannot be applied; no infrastructure or node changes were made."
    ∷ "Artifact availability does not prove runtime, protocol, database, or upgrade compatibility."
    ∷ "Live target membership, current versions, quorum safety, and cloud prerequisites are not evaluated by this offline plan."
    ∷ []

steps_of : String → List String
steps_of operation =
    if operation == "create"
    then "verify-account-and-capacity" ∷ "acquire-network-lock" ∷ "create-owned-resources"
      ∷ "prepare-hosts" ∷ "start-core" ∷ "wait-for-chain-readiness" ∷ "fund-and-register-nodes"
      ∷ "start-platform" ∷ "verify-network" ∷ []
    else "verify-account-and-live-targets" ∷ "acquire-network-lock" ∷ "record-current-state"
      ∷ "check-upgrade-compatibility" ∷ "stage-pinned-images" ∷ "canary" ∷ "health-gated-rollout"
      ∷ "verify-network-and-preservation" ∷ []

unfoldable pub preserve_of : String → List String → List String
unfolding contains
preserve_of operation selected =
    let kept =
      "network-identity" ∷ "node-identities" ∷ "persistent-data" ∷ "unselected-components" ∷ [] in
    if operation == "create"
    then []
    else if contains "core" selected
    then kept
    else List.◌++◌ kept ("core-processes-and-configuration" ∷ [])

module _ (x : Outside) (y : Artifacts) (digest : OperationPlan → String) where
  -- the plan of the selected components, with an empty ID
  unfoldable pub described : Network → Lock → String → String → List String → OperationPlan
  unfolding selected_images selected_groups preserve_of steps_of sort_by
  described n lock operation scope selected = record {
    api_version = version;
    kind = "OperationPlan";
    id = "";
    network = n.metadata.name;
    generation = n.chain.generation;
    account_id = n.aws.account_id;
    region = n.aws.region;
    spec_hash = y.fingerprint n;
    operation = operation;
    scope = scope;
    executable = false;
    targets = sort_by (λ (g : NodeGroup). g.name) (selected_groups scope n.nodes);
    images = sort_by (λ (i : Image). i.component) (selected_images selected lock.images);
    preserve = preserve_of operation selected;
    steps = steps_of operation;
    warnings = advice;
  }

  unfoldable pub check_operation : Network → String → String → Result (Unit {0})
  check_operation n operation scope = do
    refuse (not (operation == "create") && not (operation == "upgrade"))
        (text "operation must be create or upgrade")
    refuse (operation == "create" && (not (n.chain.chain_type == "devnet") || not (scope == "all")))
        (text
          "create is devnet-only and requires scope all; existing testnet is never bootstrapped/reset by create")

  -- `digest` is SHA-256 over JSON, cut to 12 bytes
  unfoldable pub identified : OperationPlan → Result OperationPlan
  identified p =
      if eqb (length p.targets) 0
      then err (at "scope has no applicable node groups" p.scope)
      else ok (record p { id = "plan-" ++ digest p })

  unfoldable pub build_operation : Network → Lock → String → String → Result OperationPlan
  unfolding selected_in described check_operation identified
  build_operation n lock operation scope = do
    validate x.parse_strict n
    validate_lock x y lock n
    check_operation n operation scope
    elim (selected_in scope) [
      | none ↦ err (text "scope must be all, platform, core, or tenderdash")
      | some selected ↦ identified (described n lock operation scope selected)
    ]
