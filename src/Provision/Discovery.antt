-- ===== src/Provision/Discovery.antt =====
-- The checks of `discover` (internal/provision/ec2.go) on what one page of DescribeInstances holds,
-- and `primaryENI` of ipam.go.
pub mod Originals
use dash_network_go.Common.{
  String, Bool, true, false, Option, none, some, List, [], ◌∷◌, ◌&&◌, ◌||◌, not, ◌==◌, Map, lookup,
  lookup_or, insert, contains, length, all_of, eqb, if◌then◌else◌,
}
use dash_network_go.Common.Int.{pos, eqb_ℤ}
use dash_network_go.Common.Result.{text, at, Result, ok, err, refuse, ◌>>=◌, ◌>>◌}
use dash_network_go.Spec.Types.{Provision}
use dash_network_go.Provision.Types.{Target, Plan}
use dash_network_go.Provision.Outside.{Outside}
use dash_network_go.Provision.Plan.{token, tags}
use dash_network_go.Provision.Cloud.{Instance, Interface, Reservation}

-- string(arch(a))
unfoldable pub arch_text : String → String
arch_text a = if a == "amd64" then "x86_64" else "arm64"

-- the tags as a map, none if a key stands twice
unfoldable pub read_tags : List (String × String) → Map String → Option (Map String)
unfolding lookup insert
read_tags [] m = some m
read_tags ((k, v) ∷ rest) m =
    let further = read_tags rest (insert k v m) in
    elim (lookup k m) [ none ↦ further | some old ↦ none ]

-- `for k, v := range p.Tags(t) { if tags[k] != v … }`
has_tag_value : Map String → String × String → Bool
unfolding lookup_or lookup
has_tag_value found (k, v) = lookup_or "" k found == v

unfoldable pub owned : Plan → Target → Map String → Bool
unfolding tags has_tag_value
owned p t found = all_of (has_tag_value found) (tags p t)

-- the targets by name
unfoldable pub targets_by_name : List Target → Map Target → Map Target
unfolding insert
targets_by_name [] m = m
targets_by_name (t ∷ ts) m = targets_by_name ts (insert t.name t m)

distinct_groups : List String → List String
unfolding contains
distinct_groups [] = []
distinct_groups (g ∷ gs) =
    let rest = distinct_groups gs in if contains g rest then rest else g ∷ rest

same_groups : Instance → List String → Bool
unfolding distinct_groups contains
same_groups i groups =
    eqb (length (distinct_groups i.security_groups)) (length groups)
    && all_of (λ g. contains g i.security_groups) groups

is_active : Option String → Bool
is_active none = false
is_active (some s) = s == "pending" || s == "running"

requires_tokens : Option String → Bool
requires_tokens none = false
requires_tokens (some s) = s == "required"

-- What the discovery has accepted: the instances by target, and their IDs.
pub record Found : Type 0 where
  pub live : Map Instance
  pub ids : List String

module _ (x : Outside) (p : Plan) where
  launch_matches : Provision → Target → Instance → Bool
  unfolding token arch_text
  launch_matches c t i =
      i.client_token == token x p t
      && i.image_id == t.ami
      && i.instance_type == t.instance_type
      && i.architecture == arch_text t.architecture
      && i.subnet_id == c.subnet_id
      && i.vpc_id == c.vpc_id
      && i.key_name == c.key_name

  -- The checks on one instance of the target that its tags name, in the source's order.
  unfoldable pub check_instance :
      Provision → Target → Map String → Instance → Found → Result (Unit {0})
  unfolding launch_matches owned contains lookup same_groups is_active requires_tokens
  check_instance c t found i f = do
    refuse (not (owned p t found)) (at "ownership mismatch for target" t.name)
    refuse (i.id == "" || contains i.id f.ids) (text "missing or duplicate EC2 identity")
    refuse (elim (lookup t.name f.live) [ none ↦ false | some other ↦ true ])
        (at "multiple instances for target" t.name)
    refuse (not (launch_matches c t i)) (at "launch identity or placement drift for target" t.name)
    refuse (not (same_groups i c.security_group_ids)) (at "security group drift" t.name)
    refuse (not (requires_tokens i.http_tokens)) (at "IMDSv2 drift" t.name)
    refuse (not (is_active i.state))
        (at "target is not pending/running; no implicit restart or replacement" t.name)

  -- the rest of a round of the loop, for the target that the tag dashnet:node names
  accept_target : Provision → Instance → Found → Map String → Option Target → Result Found
  unfolding check_instance insert
  accept_target c i f found none =
      err (text "network tag includes an unmanaged or unexpected target; refusing legacy adoption")
  accept_target c i f found (some t) = do
    check_instance c t found i f
    ok (record { live = insert t.name i f.live; ids = i.id ∷ f.ids })

  accept_tagged : Provision → Instance → Found → Option (Map String) → Result Found
  unfolding accept_target targets_by_name lookup lookup_or
  accept_tagged c i f none = err (text "duplicate ownership tag")
  accept_tagged c i f (some found) =
      accept_target c i f found
        (lookup (lookup_or "" "dashnet:node" found) (targets_by_name p.targets []))

  unfoldable pub accept_instance : Provision → Instance → Found → Result Found
  unfolding read_tags accept_tagged
  accept_instance c i f = accept_tagged c i f (read_tags i.tag_list [])

  accept_instances : Provision → List Instance → Found → Result Found
  unfolding accept_instance
  accept_instances c [] f = ok f
  accept_instances c (i ∷ is) f = accept_instance c i f >>= λ f'. accept_instances c is f'

  unfoldable pub accept_reservations : Provision → List Reservation → Found → Result Found
  unfolding accept_instances
  accept_reservations c [] f = ok f
  accept_reservations c (v ∷ vs) f = do
    refuse (not (v.owner_id == p.network.aws.account_id)) (text "EC2 reservation account mismatch")
    f' ← accept_instances c v.instances f
    accept_reservations c vs f'

-- primaryENI: the one interface with device index 0
primary_from : String → List Interface → Result String
primary_from id [] = if id == "" then err (text "missing primary network interface") else ok id
primary_from id (i ∷ is) =
    let here : Bool = elim i.device_index [ none ↦ false | some d ↦ eqb_ℤ d (pos 0) ] in
    let found = primary_from i.id is in
    let skip = primary_from id is in
    if here
    then (if not (id == "") || i.id == ""
        then err (text "ambiguous primary network interface")
        else found)
    else skip

unfoldable pub primary_eni : Instance → Result String
unfolding primary_from
primary_eni i = primary_from "" i.interfaces
