-- ===== src/Provision/Execute.antt =====
-- `Execute` of internal/provision/runner.go. The recovery of the deferred function runs on every exit
-- after the claim; `polls` and `pages` bound the readiness polls and the pages of one discovery.
use Prim.Native.String.{len, slice}
use dash_network_go.Common.{
  ℕ, zero, suc, String, Bool, true, false, Option, none, some, ◌&&◌, ◌||◌, not, ◌==◌, Map, all_of,
  any_of, ltb, if◌then◌else◌,
}
use dash_network_go.Common.Result.{Error, text, wrap, join, other, error_text, Result, ok, err}
use dash_network_go.Provision.Types.{Plan, NodeProgress, Record}
use dash_network_go.Provision.Outside.{Outside}
use dash_network_go.Provision.Plan.{validate_plan}
use dash_network_go.Provision.Compute.{public_ipv4, next_revision}
use dash_network_go.Provision.Upgrade.{validate_record}
use dash_network_go.Provision.Cloud.{Instance}
use dash_network_go.Provision.Effects.{
  now, wait, acquire, save, release, M, pure, raise, lift, ask, or_raise, attempt, get, put, ◌>>=◌,
  ◌>>◌,
}
use dash_network_go.Provision.Ec2.{reply, save_journal, discover, reconcile, launch_targets}
use dash_network_go.Provision.Ipam.{discover_addresses, ensure_addresses}
use dash_network_go.Provision.Preflight.{prepare}

unfoldable pub is_ok : Result (Unit {0}) → Bool
is_ok (ok u) = true
is_ok (err e) = false

-- n.Address != nil && (n.Address.Phase == "releasing" || n.Address.Phase == "released")
unfoldable pub cleanup_began : String × NodeProgress → Bool
cleanup_began (name, n) = elim n.address [
  | none ↦ false
  | some a ↦ a.phase == "releasing" || a.phase == "released"
]

unfoldable pub is_running : String × NodeProgress → Bool
is_running (name, n) = n.ec2_state == "running"

-- How a deferred function reports its own errors: Execute wraps them in a text, ReleaseAddresses does not.
abbrev pub Wording : Type 0
Wording = String → Error → Error

-- the reply of a save in the cleanup, joined to the error that led there
unfoldable pub joined : Wording → Error → Option Error → Error
joined words e none = e
joined words e (some f) = join e (words "save interruption" f)

-- the reply of the release, joined to the result
unfoldable pub released : {A : Type 0} → Wording → Result A → Option Error → Result A
released words r none = r
released words (ok a) (some f) =
    err (words "release runner claim; inspect operation before retrying" f)
released words (err e) (some f) =
    err (join e (words "release runner claim; inspect operation before retrying" f))

-- r.LastError, cut at 4096 bytes
unfoldable pub last_error_of : Error → String
unfolding error_text
last_error_of e = let m = error_text e in if ltb 4096 (len m) then slice m 0 4096 else m

module _ (owner : String) (words : Wording) where
  -- The save of the deferred function, under its own context.
  unfoldable pub interrupt : (Error → String) → Error → M Error
  interrupt message e = do
    r ← get
    time ← ask now
    put (record r {
      phase = "interrupted";
      last_error = message e;
      updated_at = time;
      revision = next_revision r.revision;
    })
    r' ← get
    reply ← ask (save r' owner)
    pure (joined words e reply)

  -- The deferred function: `mark` says whether the record may still be marked as interrupted.
  unfoldable pub recover : (Error → String) → (Record → Bool) → Result (Unit {0}) → M (Unit {0})
  recover message mark (ok u) = do reply ← ask (release owner); lift (released words (ok u) reply)
  recover message mark (err e) = do
    r ← get
    e' ← if mark r then interrupt message e else pure e
    reply ← ask (release owner)
    lift (released words (err e') reply)

  -- `defer`: the body's result, whatever it is, goes through the recovery.
  unfoldable pub deferring : (Error → String) → (Record → Bool) → M (Unit {0}) → M (Unit {0})
  deferring message mark body = do result ← attempt body; recover message mark result

module _ (x : Outside) (p : Plan) (owner version : String) (pages : ℕ) where
  unfoldable pub ready_addresses : Bool → Map Instance → M (Unit {0})
  ready_addresses ready live =
      if ready && public_ipv4 p then ensure_addresses p live owner else pure tt

  unfoldable pub mark_ready : Bool → M (Unit {0})
  mark_ready ready =
      if ready then (do r ← get; put (record r { phase = "compute-ready" })) else pure tt

  -- One round of the loop: whether every target runs, with the addresses ensured and the record saved.
  unfoldable pub poll_round : M Bool
  poll_round = do
    live ← discover x p pages
    reconcile true live p.targets
    r ← get
    let ready = all_of is_running r.nodes
    ready_addresses ready live
    mark_ready ready
    save_journal owner
    pure ready

  unfoldable pub wait_then : M (Unit {0}) → Bool → M (Unit {0})
  wait_then next ready = if ready then pure tt else do stopped ← ask wait; or_raise stopped; next

  -- The loop that polls until every target runs.
  unfoldable pub poll : ℕ → M (Unit {0})
  poll zero = raise (other "poll limit")
  poll (suc polls) = do ready ← poll_round; wait_then (poll polls) ready

  -- The first reconciliation, with all address ownership checked before any change.
  unfoldable pub check_live : M (Unit {0})
  check_live = do
    live ← discover x p pages
    reconcile false live p.targets
    r ← get
    if public_ipv4 p then (do found ← discover_addresses p live r; pure tt) else pure tt

  unfoldable pub begin : M (Unit {0})
  begin = do
    r ← get
    lift (validate_record x r p)
    if r.phase == "addresses-released"
        then raise (text "allocation retired; IPAM addresses have been released")
        else if any_of cleanup_began r.nodes
        then raise (text "address cleanup began; provisioning cannot recreate the footprint")
        else do
          put (record r {
            last_runner = owner;
            cli_version = version;
            phase = "provisioning";
            last_error = "";
          })
          save_journal owner

  -- Everything between the claim and the deferred function.
  unfoldable pub claimed : ℕ → M (Unit {0})
  claimed polls = do
    begin
    check_live
    save_journal owner
    launch_targets x p owner p.targets
    poll polls

  unfoldable pub may_mark : Record → Bool
  unfolding is_ok validate_record
  may_mark r = not (r.phase == "addresses-released") && is_ok (validate_record x r p)

  -- Execute; a poll interval that is not positive is refused with the empty owner.
  unfoldable pub execute : Bool → ℕ → M (Unit {0})
  execute positive_interval polls = do
    lift (validate_plan x p)
    if owner == "" || not positive_interval
        then raise (text "runner ID and positive poll interval required")
        else do
          verified ← prepare x p.network
          if not (verified.id == p.id)
              then raise (text "live footprint differs from approved plan; regenerate and review")
              else do
                answer ← ask (acquire owner)
                r ← reply "claim operation" answer
                put r
                deferring owner wrap last_error_of may_mark (claimed polls)
