-- ===== src/Provision/Effects.antt =====
-- Runs of the provisioner against services that answer as they like. A `World` answers each call
-- from the calls before it, so that one theorem over all worlds covers every reply, failure, clock
-- and cancellation. A run has the Go function's record `r`, and the calls made so far, last first.
use dash_network_go.Common.{ℕ, String, Option, none, some, List, ◌∷◌}
use dash_network_go.Common.Result.{Error, Result, ok, err}
use dash_network_go.Provision.Types.{Record}
use dash_network_go.Provision.Cloud.{
  InstancesOutput, Address, AllocateOutput, PoolsOutput, Subnet, SecurityGroup, Image, InstanceType,
}

pub data Call : Type 0 where
  -- time.Now and ctx.Err; the poll timer with its select
  now cancelled wait : Call
  caller_identity : Call
  -- by the network tag, from a page token; by instance IDs
  describe_instances : String → Call
  describe_ids : List String → Call
  -- one instance, with the client token, for the named target
  run_instances : String → String → Call
  describe_pools : String → Call
  -- by the network tag; by allocation ID
  describe_addresses : Call
  describe_allocation : String → Call
  -- an address tagged for the named target
  allocate : String → Call
  associate : String → String → Call
  release_address : String → Call
  -- the read-only footprint checks
  describe_subnets : String → Call
  describe_groups : List String → Call
  describe_keys : String → Call
  describe_images : String → String → Call
  describe_types : String → Call
  -- the journal store
  acquire : String → Call
  save : Record → String → Call
  release : String → Call

abbrev pub Reply : Call → Type 0
Reply now = ℕ
Reply cancelled = Option Error
Reply wait = Option Error
-- the account, "" for a nil reply
Reply caller_identity = Result String
Reply (describe_instances page) = Result (Option InstancesOutput)
Reply (describe_ids ids) = Result (Option InstancesOutput)
-- the IDs of the launched instances
Reply (run_instances token name) = Result (Option (List String))
Reply (describe_pools id) = Result (Option PoolsOutput)
Reply describe_addresses = Result (Option (List Address))
Reply (describe_allocation id) = Option Error
Reply (allocate name) = Result (Option AllocateOutput)
Reply (associate allocation instance_id) = Option Error
Reply (release_address id) = Option Error
Reply (describe_subnets id) = Result (Option (List Subnet))
Reply (describe_groups ids) = Result (Option (List SecurityGroup))
-- the key names
Reply (describe_keys name) = Result (Option (List String))
Reply (describe_images id owner) = Result (Option (List Image))
Reply (describe_types name) = Result (Option (List InstanceType))
Reply (acquire owner) = Result Record
Reply (save r owner) = Option Error
Reply (release owner) = Option Error

abbrev pub World : Type 0
World = (history : List Call) (c : Call) → Reply c

pub record State : Type 0 where
  pub journal : Record
  pub calls : List Call

abbrev pub M : Type 0 → Type 0
M A = World → State → Result A × State

module _ {A : Type 0} where
  unfoldable pub pure : A → M A
  pure a w s = (ok a, s)

  unfoldable pub raise : Error → M A
  raise e w s = (err e, s)

  -- a step without effects that may fail
  unfoldable pub lift : Result A → M A
  lift r w s = (r, s)

unfoldable pub ask : (c : Call) → M (Reply c)
ask c w s = (ok (w s.calls c), record s { calls = c ∷ s.calls })

-- a call whose reply is only an error
unfoldable pub or_raise : Option Error → M (Unit {0})
unfolding pure raise
or_raise none = pure tt
or_raise (some e) = raise e

-- a call whose error the caller inspects
unfoldable pub attempt : {A : Type 0} → M A → M (Result A)
attempt m w s = let (r, s') = m w s in (ok r, s')

unfoldable pub get : M Record
get w s = (ok s.journal, s)

unfoldable pub put : Record → M (Unit {0})
put r w s = (ok tt, record s { journal = r })

module _ {A B : Type 0} where
  abbrev pub continue : Result A → (A → M B) → M B
  continue (ok a) f w s = f a w s
  continue (err e) f w s = (err e, s)

  infixl 5 ◌>>=◌ ◌>>◌
  unfoldable pub ◌>>=◌ : M A → (A → M B) → M B
  ◌>>=◌ m f w s = let (r, s') = m w s in continue r f w s'

  abbrev pub ◌>>◌ : M A → M B → M B
  m >> n = m >>= λ _. n
