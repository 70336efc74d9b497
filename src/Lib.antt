-- ===== src/Lib.antt =====
-- Verification of dash-network-go: the network definition, the EC2 provisioner, the journal store,
-- the release lock, and the plans of a deployment, of its upgrades and of operations.
--
-- The program takes a network definition (internal/spec), expands it into an immutable plan with one
-- target for each node (internal/provision/plan.go), checks the live footprint (preflight.go) and
-- executes the plan (runner.go) under a claim on a journal. The journal's record holds what is known
-- of each target, and later stages add their sections to it. The provisioner discovers instances
-- and reconciles them with the record (ec2.go), launches the missing ones, and allocates and
-- associates addresses from an IPAM pool (ipam.go). ReleaseAddresses (ipam_release.go) retires the
-- addresses of a terminated fleet.
--
-- Files:
--   Common        lists, association lists, results and errors, regular expressions by derivatives,
--                 integers and texts, as far as the program uses them
--   Spec          internal/spec: Types has the structs, Patterns the regular expressions, Validate has
--                 Network.Validate and Network.ValidateProvision
--   Provision/Types, Cloud, Outside
--                 the journal's structs, the replies of EC2, and what third-party code computes
--   Provision/Plan, Compute, Progress, Upgrade
--                 plan.go and the validators of the record: Plan.Validate, Record.Validate,
--                 validateCompute, validateBootstrap, validateDeployment, validateJoin, validateUpgrade
--   Provision/Effects
--                 the calls of a run and the monad that the stateful functions are written in
--   Provision/Discovery, Ec2, Addresses, Ipam, Preflight, Execute, Release
--                 discover, reconcile and launch; discoverAddresses and ensureAddresses; Prepare;
--                 Execute; ReleaseAddresses
--   Provision/Hoare, Journaled
--                 what a run keeps and gives, and the order of saves and calls in it
--   Provision/Discovery/Originals, Adoption
--                 which instances the discovery accepts
--   Provision/Disks
--                 which disks an accepted image declares
--   Provision/Returns, Exits
--                 what Execute and ReleaseAddresses have done when they return no error
--   Provision/Tests
--                 a network with two nodes and services that serve it
--   Journal/Table, Codec, Dynamo
--                 internal/journal/dynamodb.go: items with conditional requests, encode and decode, and
--                 the operations of the store
--   Journal/Cleanup, Retiring
--                 internal/journal/address_cleanup.go: the store that retires addresses
--   Journal/Faithful, Lock, Moves, Requests, Runs
--                 DynamoDB's documented behaviour, the abstract journal as a step relation, and why each
--                 request and operation is steps of its runner
--   Journal/Exclusion, Claims, Saves, Roundtrip, Refusals
--                 sequences of operations by several runners; what one operation proves of the item, and
--                 what the store refuses
--   Journal/Tests a DynamoDB in memory
--   Release/Lock, Pinned
--                 internal/release/release.go: Resolve and Lock.Validate; what a valid lock pins
--   Bootstrap/Plan
--                 internal/bootstrap/plan.go: Build and Plan.Validate
--   Lifecycle/Nodes
--                 internal/node/node.go: Target.Validate and GatewayTLS.Validate
--   Lifecycle/Deployment, Building
--                 internal/lifecycle/plan.go: Plan.Validate, and BuildWith with the readers of a plan
--   Lifecycle/Upgrades, Planning
--                 internal/lifecycle/upgrade_plan.go: upgradeTargets; BuildUpgrade and
--                 UpgradePlan.Validate; effectiveImages of runtime.go
--   Lifecycle/Command
--                 internal/cli/lifecycle.go: the command deployment-plan after its reads, and
--                 ipamAddresses
--   Lifecycle/Replacing, Scope, Fleet, Binding, Journaled
--                 which images an upgrade replaces; the fleet of a valid plan; its addresses, and
--                 where in the journal they come from
--   Planner/Build, Selection
--                 internal/plan/plan.go: plans that are only described, and what they select
--   Lifecycle/Tests, Planner/Tests
--                 a devnet of thirteen validators and a wallet
--
-- A Go `error` is a value of `Error`: messages keep their text and their subject, the other arguments
-- of a format are left out. A time is a count of nanoseconds, 0 for the zero time. A revision is the
-- bit pattern of the int64, and counts modulo 2 ^ 64. A map is an association list; where the source
-- iterates over a map, the result does not depend on the order but for the text of an error. A
-- pointer in the journal (`n.Address`) is a value: the source writes the node back after each change.
--
-- A run is a function of a `World`, which answers each call from the calls made before it: every
-- reply, failure, time and cancellation of a context is covered by a theorem over all worlds. What
-- go-containerregistry, encoding/json with SHA-256 and time.Parse compute is a field of `Outside`.
-- Of a request the model keeps what identifies it; the other arguments of RunInstances (disks,
-- network interface, tags) and of AllocateAddress are left out. The messages to `progress` are too.
--
-- The EC2 client has every call, so the type assertions of Execute and ReleaseAddresses on it succeed.
-- A deferred function takes the wording of its own errors as a parameter, since Execute wraps them in a
-- text and ReleaseAddresses does not.
--
-- Two loops of the source are not bounded: the pages of DescribeInstances, which end since a page token
-- may not come twice, and the readiness polls of Execute. Their rounds are bounded by the parameters
-- `pages` and `polls`; a run that exceeds one ends with an error, "page limit" or "poll limit", and the
-- theorems hold for every bound.
--
-- The executor's world answers the calls of the journal itself; the store of internal/journal is
-- modelled on its own, over a `Service` for the DynamoDB client on a state of any type. `IsFaithful`
-- says what the store relies on: a conditional write is atomic and takes effect only while its
-- condition holds, a returned success means that it took effect, and a strongly consistent read gives
-- the stored item. A failed write may have taken effect. Placeholders in expressions are replaced by
-- the names and values they stand for, and a number attribute is the bit pattern of its int64.
--
-- The plans of later stages are checked by building them again or by a digest: SHA-256 over JSON, the
-- digests of the embedded scripts, and the IPv4 address of an address in IPv6 notation are parameters
-- (`Artifacts`, `Digests`, `Recipes`). Copies of a map are the map itself, since values are not shared.
-- An index out of range is an error in the model; the lengths were compared before it.
--
-- In two places a comment of the source says other than its code, and the model follows the code: Build
-- and BuildAdvertising of internal/lifecycle/plan.go are said to keep private addresses where no public
-- ones are given, and such a plan is refused; an UpgradePlan of internal/lifecycle/upgrade_plan.go is
-- said not to replace Core, and with the scope core it replaces Core's image.
--
-- Not modelled: the runs of the stages on the provisioned hosts (internal/bootstrap, internal/lifecycle,
-- internal/join, internal/managed), the command line but for the command deployment-plan, SSH and
-- files, which are I/O, and the reading of YAML.
pub mod Common
pub mod Spec
pub mod Provision
pub mod Journal
pub mod Release
pub mod Bootstrap
pub mod Lifecycle
pub mod Planner
