-- ===== src/Provision/Ipam.antt =====
-- `ensureAddresses` and `verifyPool` of internal/provision/ipam.go. `n.Address` is a pointer that the
-- journal shares; the source writes the node back at once after each change through it, so a node
-- is modelled as a value.
use dash_network_go.Common.{
  ℕ, ◌+◌, ◌*◌, String, Bool, Option, none, some, List, [], ◌∷◌, ◌&&◌, ◌||◌, not, ◌==◌, Map, lookup,
  ltb, if◌then◌else◌,
}
use dash_network_go.Common.Result.{Error, text, at, wrap, join, other, Result, ok, err}
use dash_network_go.Spec.Types.{Network, Provision}
use dash_network_go.Provision.Types.{Target, Plan, AddressProgress, NodeProgress, Record, node_of}
use dash_network_go.Provision.Compute.{valid_ipv4}
use dash_network_go.Provision.Cloud.{Instance, Address, AllocateOutput, Pool, PoolsOutput}
use dash_network_go.Provision.Discovery.{primary_eni}
use dash_network_go.Provision.Addresses.{rejected, read_addresses}
use dash_network_go.Provision.Effects.{
  describe_addresses, describe_pools, allocate, associate, now, M, pure, raise, lift, ask, or_raise,
  get, attempt, ◌>>=◌, ◌>>◌,
}
use dash_network_go.Provision.Ec2.{reply, check_cancelled, save_journal, put_node}

-- StaleAllocationAfter, 15 minutes in nanoseconds
abbrev pub stale_allocation_after : ℕ
stale_allocation_after = 15 * 60 * 1000000000

-- The local variables `n`, `a` and `addresses` of a round.
pub record Reached : Type 0 where
  pub node : NodeProgress
  pub address : Address
  pub addresses : Map Address

unfoldable pub is_pool_of : Network → String → Pool → Bool
is_pool_of n id q =
    q.id == id
    && q.owner_id == n.aws.account_id
    && q.locale == n.aws.region
    && q.state == "create-complete"
    && q.address_family == "ipv4"
    && q.scope_type == "public"
    && q.public_ip_source == "byoip"
    && q.aws_service == "ec2"

unfoldable pub incomplete_pools : M (Unit {0})
incomplete_pools = raise (text "expected one complete IPAM pool response")

unfoldable pub check_pool_list : Network → String → String → List Pool → M (Unit {0})
check_pool_list n id next_token (q ∷ []) =
    if not (next_token == "")
    then incomplete_pools
    else if is_pool_of n id q
    then pure tt
    else raise
        (text "IPAM pool must be owned, ready, public BYOIP IPv4 for EC2 in the target region")
check_pool_list n id next_token _ = incomplete_pools

unfoldable pub check_pools : Network → String → Option PoolsOutput → M (Unit {0})
check_pools n id none = incomplete_pools
check_pools n id (some o) = check_pool_list n id o.next_token o.pools

unfoldable pub verify_pool : Network → Provision → M (Unit {0})
verify_pool n c = do
  answer ← ask (describe_pools c.ipam_pool_id)
  out ← reply "describe IPAM pool" answer
  check_pools n c.ipam_pool_id out

-- what a refused allocation returns, after the save that takes its intent back
unfoldable pub take_back : Error → Result NodeProgress → M AllocateOutput
take_back e (ok n) = raise (wrap "rejected, nothing allocated; fix and resume" e)
take_back e (err e') = raise (join e e')

unfoldable pub intent : ℕ → AddressProgress
intent time = record {
  phase = "allocating";
  attempted_at = time;
  allocation_id = "";
  public_ip = "";
  association_id = "";
}

unfoldable pub visible : Target → Option Address → M Address
visible t none = raise (text "allocated address not yet visible; resume reconciliation")
visible t (some a) = pure a

unfoldable pub nil_address : M NodeProgress
nil_address = raise (other "nil pointer dereference")

unfoldable pub associated_now : Target → Option Address → M Address
associated_now t none = raise (at "association not yet visible; resume reconciliation" t.name)
associated_now t (some a) =
    if a.association_id == ""
    then raise (at "association not yet visible; resume reconciliation" t.name)
    else pure a

module _ (p : Plan) (live : Map Instance) where
  unfoldable pub discover_addresses : Record → M (Map Address)
  discover_addresses r = do
    answer ← ask describe_addresses
    out ← reply "reconcile IPAM addresses" answer
    lift (read_addresses p r live out)

  -- The first loop: interfaces and unexpected public addresses, before any allocation.
  unfoldable pub check_interface : Map Address → Target → Option Instance → M (Unit {0})
  check_interface found t none = raise (at "missing primary network interface" t.name)
  check_interface found t (some i) = do
    lift (primary_eni i)
    let expected : String = elim (lookup t.name found) [ none ↦ "" | some a ↦ a.public_ip ]
    if not (i.public_ip == "") && not (i.public_ip == expected)
        then raise (at "unexpected public address; no replacement" t.name)
        else pure tt

  unfoldable pub check_interfaces : Map Address → List Target → M (Unit {0})
  check_interfaces found [] = pure tt
  check_interfaces found (t ∷ ts) = do
    check_interface found t (lookup t.name live)
    check_interfaces found ts

  module _ (owner : String) where
    -- n.Address = address; r.Nodes[t.Name] = n; save()
    unfoldable pub save_address : Target → NodeProgress → Option AddressProgress → M NodeProgress
    save_address t n address = do
      let n' = record n { address = address }
      put_node t.name n'
      save_journal owner
      pure n'

    -- an intent that may still be in flight stops the run; a stale one is forgotten
    unfoldable pub check_intent : Target → Option AddressProgress → M (Unit {0})
    check_intent t none = pure tt
    check_intent t (some j) = do
      time ← ask now
      if not (j.phase == "allocating") || ltb time (j.attempted_at + stale_allocation_after)
          then raise (
              at "IPAM allocation outcome unknown; reconcile later, no automatic reallocation"
                t.name)
          else pure tt

    -- the reply to AllocateAddress; a refusal before any action takes the intent back
    unfoldable pub allocated :
        Target → NodeProgress → Result (Option AllocateOutput) → M AllocateOutput
    allocated t n (err e) =
        if rejected e
        then (do saved ← attempt (save_address t n none); take_back e saved)
        else raise (wrap "allocate IPAM address (outcome may be uncertain)" e)
    allocated t n (ok none) =
        raise (text "invalid allocation reply; reconcile tagged intent before retrying")
    allocated t n (ok (some o)) =
        if o.allocation_id == "" || not (valid_ipv4 o.public_ip)
        then raise (text "invalid allocation reply; reconcile tagged intent before retrying")
        else pure o

    -- The branch `!found`: journal the intent, allocate once, journal the identity, look again.
    unfoldable pub allocate_missing : Target → NodeProgress → M Reached
    allocate_missing t n = do
      check_intent t n.address
      time ← ask now
      n' ← save_address t n (some (intent time))
      answer ← ask (allocate t.name)
      o ← allocated t n' answer
      let j = intent time
      n'' ← save_address t n' (
          some (record j {
            phase = "allocated";
            allocation_id = o.allocation_id;
            public_ip = o.public_ip;
          }))
      r ← get
      found ← discover_addresses r
      a ← visible t (lookup t.name found)
      pure (record { node = n''; address = a; addresses = found })

    unfoldable pub find_or_allocate :
        Map Address → Target → NodeProgress → Option Address → M Reached
    find_or_allocate addresses t n (some a) =
        pure (record { node = n; address = a; addresses = addresses })
    find_or_allocate addresses t n none = allocate_missing t n

    -- Reconcile a successful allocation whose reply or checkpoint was lost.
    unfoldable pub adopt : Target → NodeProgress → Option AddressProgress → Address → M NodeProgress
    adopt t n none a = nil_address
    adopt t n (some j) a =
        if j.phase == "allocating"
        then save_address t n (
            some (record j {
              phase = "allocated";
              allocation_id = a.allocation_id;
              public_ip = a.public_ip;
            }))
        else pure n

    -- The branch of a detached address: journal the intent, associate once, look again.
    unfoldable pub attach :
        Map Address → Target → NodeProgress → Option AddressProgress → Address → M Reached
    attach addresses t n none a = raise (other "nil pointer dereference")
    attach addresses t n (some j) a =
        if not (a.association_id == "")
        then pure (record { node = n; address = a; addresses = addresses })
        else if j.phase == "associating"
        then raise (at "association outcome unknown; no automatic reassociation" t.name)
        else do
          n' ← save_address t n (some (record j { phase = "associating" }))
          e ← ask (associate a.allocation_id n'.instance_id)
          or_raise e
          r ← get
          found ← discover_addresses r
          a' ← associated_now t (lookup t.name found)
          pure (record { node = n'; address = a'; addresses = found })

    unfoldable pub finish : Target → NodeProgress → Option AddressProgress → Address → M (Unit {0})
    finish t n none a = raise (other "nil pointer dereference")
    finish t n (some j) a = do
      save_address t n (some (record j { phase = "associated"; association_id = a.association_id }))
      pure tt

    -- One round of the second loop: the latest addresses come in, and go out with what was found again.
    unfoldable pub ensure_address : Map Address → Target → M (Map Address)
    ensure_address addresses t = do
      check_cancelled
      r ← get
      x ← find_or_allocate addresses t (node_of r t.name) (lookup t.name addresses)
      n ← adopt t x.node x.node.address x.address
      y ← attach x.addresses t n n.address x.address
      finish t y.node y.node.address y.address
      pure y.addresses

    unfoldable pub ensure_each : Map Address → List Target → M (Unit {0})
    ensure_each addresses [] = pure tt
    ensure_each addresses (t ∷ ts) = do
      addresses' ← ensure_address addresses t
      ensure_each addresses' ts

    unfoldable pub ensure_addresses : M (Unit {0})
    ensure_addresses = do
      r ← get
      found ← discover_addresses r
      check_interfaces found p.targets
      ensure_each found p.targets
