-- ===== src/Provision/Addresses.antt =====
-- The checks of `discoverAddresses` (internal/provision/ipam.go) on the tagged Elastic IPs, and the
-- classification of API errors by `rejected`.
use dash_network_go.Common.{
  String, Bool, true, false, Option, none, some, List, [], ◌∷◌, ◌&&◌, ◌||◌, not, ◌==◌, Map, lookup,
  lookup_or, insert, contains, if◌then◌else◌,
}
use dash_network_go.Common.Text.{has_prefix}
use dash_network_go.Common.Result.{Error, text, at, api_code, Result, ok, err, refuse, ◌>>=◌, ◌>>◌}
use dash_network_go.Provision.Types.{Target, Plan, AddressProgress, NodeProgress, Record, node_of}
use dash_network_go.Provision.Compute.{valid_ipv4, ipam_pool}
use dash_network_go.Provision.Cloud.{Instance, Address}
use dash_network_go.Provision.Discovery.{read_tags, owned, targets_by_name, primary_eni}

refusing_codes : List String
refusing_codes =
    "UnauthorizedOperation" ∷ "AuthFailure" ∷ "MissingParameter" ∷ "AddressLimitExceeded"
    ∷ "InvalidParameterValue" ∷ "InvalidParameterCombination" ∷ "InvalidParameter"
    ∷ "DryRunOperation" ∷ []

-- rejected: AWS refused the request before performing it
unfoldable pub rejected : Error → Bool
unfolding api_code contains refusing_codes has_prefix
rejected e = elim (api_code e) [
  | none ↦ false
  | some code ↦
      contains code refusing_codes
      || has_prefix code "InvalidIpamPool"
      || has_prefix code "InvalidPublicIpv4Pool"
]

-- What the discovery has accepted: the addresses by target, and their allocation IDs.
pub record FoundAddresses : Type 0 where
  pub addresses : Map Address
  pub ids : List String

check_attached :
    Target → NodeProgress → AddressProgress → Address → Option Instance → Result (Unit {0})
unfolding primary_eni
check_attached t n j a none = err (at "address attached without live owned instance" t.name)
check_attached t n j a (some i) = do
  eni ← primary_eni i
  refuse
      (a.association_id == ""
        || not (a.interface_id == eni)
        || not (a.instance_id == n.instance_id)
        || (not (j.association_id == "") && not (j.association_id == a.association_id)))
      (at "address association drift; no reassociation" t.name)

-- the journal's part: the address was intended, has its recorded identity, and is attached as recorded
unfoldable pub check_journaled :
    Map Instance → Target → NodeProgress → Option AddressProgress → Address → Result (Unit {0})
unfolding check_attached lookup
check_journaled live t n none a =
    err (at "address exists without journaled intent; no adoption" t.name)
check_journaled live t n (some j) a = do
  refuse
      (not (j.allocation_id == "")
        && (not (j.allocation_id == a.allocation_id) || not (j.public_ip == a.public_ip)))
      (at "address identity changed" t.name)
  if not (a.association_id == "") || not (a.interface_id == "") || not (a.instance_id == "")
      then check_attached t n j a (lookup t.name live)
      else refuse (j.phase == "associated") (at "address unexpectedly detached" t.name)

module _ (p : Plan) (r : Record) (live : Map Instance) where
  check_found : Target → Map String → Address → FoundAddresses → Result (Unit {0})
  unfolding owned lookup contains valid_ipv4 ipam_pool
  check_found t found a f = do
    refuse (not (owned p t found)) (at "address ownership mismatch" t.name)
    refuse
        (elim (lookup t.name f.addresses) [ none ↦ false | some other ↦ true ]
          || a.allocation_id == ""
          || contains a.allocation_id f.ids
          || not (valid_ipv4 a.public_ip)
          || not (a.pool == ipam_pool p)
          || not (a.border_group == p.network.aws.region)
          || not (a.domain == "vpc"))
        (at "duplicate or wrong-pool address" t.name)

  unfoldable pub accept_address : Address → FoundAddresses → Result FoundAddresses
  unfolding read_tags targets_by_name lookup lookup_or insert check_found check_journaled node_of
  accept_address a f = elim (read_tags a.tag_list []) [
    | none ↦ err (text "duplicate address tag")
    | some found ↦
        elim (lookup (lookup_or "" "dashnet:node" found) (targets_by_name p.targets [])) [
          | none ↦ err (text "unexpected address in network scope; no adoption")
          | some t ↦ do
            check_found t found a f
            let n = node_of r t.name
            check_journaled live t n n.address a
            ok (record { addresses = insert t.name a f.addresses; ids = a.allocation_id ∷ f.ids })
        ]
  ]

  unfoldable pub accept_addresses : List Address → FoundAddresses → Result FoundAddresses
  unfolding accept_address
  accept_addresses [] f = ok f
  accept_addresses (a ∷ as') f = accept_address a f >>= λ f'. accept_addresses as' f'

-- every recorded allocation is visible
unfoldable pub check_recorded : Map Address → List (String × NodeProgress) → Result (Unit {0})
unfolding lookup
check_recorded found [] = ok tt
check_recorded found ((name, n) ∷ rest) =
    let next = check_recorded found rest in
    let allocated : Bool = elim n.address [ none ↦ false | some j ↦ not (j.allocation_id == "") ] in
    let missing : Bool = elim (lookup name found) [ none ↦ true | some a ↦ false ] in
    if allocated && missing
    then err (at "recorded address not visible; no replacement" name)
    else next

-- discoverAddresses, from the reply on
unfoldable pub read_addresses :
    Plan → Record → Map Instance → Option (List Address) → Result (Map Address)
unfolding accept_addresses check_recorded
read_addresses p r live none = err (text "empty address response")
read_addresses p r live (some found) = do
  f ← accept_addresses p r live found (record { addresses = []; ids = [] })
  check_recorded f.addresses r.nodes
  ok f.addresses
