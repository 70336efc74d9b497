-- ===== src/Provision/Ec2.antt =====
-- internal/provision/ec2.go: discovery over the pages of DescribeInstances, reconciliation with the
-- journal, and the launch of one instance; `save` and the target loop of runner.go.
use dash_network_go.Common.{
  ℕ, zero, suc, String, Bool, Option, none, some, List, [], ◌∷◌, ◌&&◌, not, ◌==◌, Map, lookup,
  insert, contains, if◌then◌else◌,
}
use dash_network_go.Common.Result.{text, at, wrap, other, Result, ok, err}
use dash_network_go.Spec.Types.{Provision}
use dash_network_go.Provision.Types.{Target, Plan, NodeProgress, node_of}
use dash_network_go.Provision.Outside.{Outside}
use dash_network_go.Provision.Plan.{token}
use dash_network_go.Provision.Compute.{next_revision}
use dash_network_go.Provision.Cloud.{Instance, InstancesOutput}
use dash_network_go.Provision.Discovery.{Found, accept_reservations}
use dash_network_go.Provision.Effects.{
  describe_instances, run_instances, now, save, cancelled, M, pure, raise, lift, ask, or_raise, get,
  put, ◌>>=◌, ◌>>◌,
}

-- `if err != nil { return fmt.Errorf(m, err) }` on a reply
unfoldable pub reply : {A : Type 0} → String → Result A → M A
reply m (ok a) = pure a
reply m (err e) = raise (wrap m e)

unfoldable pub check_cancelled : M (Unit {0})
check_cancelled = do e ← ask cancelled; or_raise e

-- The `save` closure: the record with the time and the next revision, stored for the owner.
unfoldable pub save_journal : String → M (Unit {0})
save_journal owner = do
  time ← ask now
  r ← get
  put (record r { updated_at = time; revision = next_revision r.revision })
  r' ← get
  e ← ask (save r' owner)
  or_raise e

-- r.Nodes[name] = node
unfoldable pub put_node : String → NodeProgress → M (Unit {0})
put_node name n = do r ← get; put (record r { nodes = insert name n r.nodes })

-- The configured footprint; a validated plan has it.
unfoldable pub config : Plan → M Provision
config p = elim p.network.aws.provision [
  | none ↦ raise (other "nil pointer dereference")
  | some c ↦ pure c
]

module _ (x : Outside) (p : Plan) where
  -- one page's answer; `next` is the loop's next round, from a page token and what is found so far
  unfoldable pub read_page :
      Provision
      → List String
      → Found
      → (String → Found → M (Map Instance))
      → Option InstancesOutput
      → M (Map Instance)
  read_page c seen f next none = raise (text "empty EC2 discovery response")
  read_page c seen f next (some o) = do
    f' ← lift (accept_reservations x p c o.reservations f)
    if o.next_token == ""
        then pure f'.live
        else if contains o.next_token seen
        then raise (text "EC2 pagination repeated a token; refusing partial scope")
        else next o.next_token f'

  -- the loop over the pages, with the page tokens seen; `fuel` bounds the pages
  unfoldable pub discover_pages : ℕ → Provision → String → List String → Found → M (Map Instance)
  discover_pages zero c page seen f = raise (other "page limit")
  discover_pages (suc fuel) c page seen f = do
    answer ← ask (describe_instances page)
    out ← reply "reconcile EC2 scope" answer
    read_page c seen f (λ token f'. discover_pages fuel c token (token ∷ seen) f') out

  unfoldable pub discover : ℕ → M (Map Instance)
  discover fuel = do c ← config p; discover_pages fuel c "" [] (record { live = []; ids = [] })

  -- launch: the ID of the one launched instance
  unfoldable pub one_identity : Option (List String) → M String
  one_identity (some (id ∷ [])) =
      if id == "" then raise (text "expected exactly one launched instance identity") else pure id
  one_identity _ = raise (text "expected exactly one launched instance identity")

  unfoldable pub launch : Target → M String
  launch t = do
    answer ← ask (run_instances (token x p t) t.name)
    out ←
        reply "launch (outcome may be uncertain; resume reconciles, never blindly relaunches)"
          answer
    one_identity out

  -- One round of the launch loop of Execute.
  unfoldable pub launch_target : String → Target → M (Unit {0})
  launch_target owner t = do
    r ← get
    let node = node_of r t.name
    if node.phase == "present" then pure tt else do
      check_cancelled
      attempted ← ask now
      let node' = record node { phase = "launching"; attempted_at = attempted }
      put_node t.name node'
      save_journal owner
      id ← launch t
      observed ← ask now
      put_node t.name (record node' {
        instance_id = id;
        phase = "present";
        ec2_state = "pending";
        observed_at = observed;
      })
      save_journal owner

  unfoldable pub launch_targets : String → List Target → M (Unit {0})
  launch_targets owner [] = pure tt
  launch_targets owner (t ∷ ts) = do launch_target owner t; launch_targets owner ts

-- string(instance.State.Name); the discovery has refused an instance without a state
unfoldable pub state_text : Instance → String
state_text i = elim i.state [ none ↦ "" | some s ↦ s ]

-- One round of reconcile: `visible` is live[t.Name].
unfoldable pub reconcile_target : Bool → Target → Option Instance → M (Unit {0})
reconcile_target wait_for_visibility t none = do
  r ← get
  let node = node_of r t.name
  if wait_for_visibility
      then put_node t.name (record node { ec2_state = "unknown" })
      else if node.phase == "pending"
      then pure tt
      else do
        observed ← ask now
        put_node t.name (record node { ec2_state = "unknown"; observed_at = observed })
        raise (
            at
              "recorded launch intent but no visible instance; outcome unknown, no automatic relaunch"
              t.name)
reconcile_target wait_for_visibility t (some i) = do
  r ← get
  let node = node_of r t.name
  if node.phase == "pending"
      then raise (at "target exists without journaled launch intent; refusing adoption" t.name)
      else if not (node.instance_id == "") && not (node.instance_id == i.id)
      then raise (at "target instance identity changed" t.name)
      else do
        observed ← ask now
        put_node t.name (record node {
          instance_id = i.id;
          phase = "present";
          ec2_state = state_text i;
          observed_at = observed;
        })

unfoldable pub reconcile : Bool → Map Instance → List Target → M (Unit {0})
reconcile wait_for_visibility live [] = pure tt
reconcile wait_for_visibility live (t ∷ ts) = do
  reconcile_target wait_for_visibility t (lookup t.name live)
  reconcile wait_for_visibility live ts
