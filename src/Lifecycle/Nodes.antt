-- ===== src/Lifecycle/Nodes.antt =====
-- internal/node/node.go: the node targets and gateway certificates of a deployment plan.
use dash_network_go.Common.{
  String, Bool, false, Option, none, some, List, [], ◌∷◌, ◌&&◌, ◌||◌, not, ◌==◌, Map, lookup_or,
  lookup, contains, length, leb, eqb, if◌then◌else◌,
}
use dash_network_go.Common.Text.{Quad, parse_ipv4, is_private, is_global_unicast, has_prefix}
use dash_network_go.Common.Regex.{one_of, seq, alt, word, times, up_to, lower, hex, matches}
use dash_network_go.Common.Result.{text, at, Result, ok, err, refuse, each, ◌>>◌}
use dash_network_go.Provision.Outside.{Outside}
use dash_network_go.Bootstrap.Plan.{Image}

-- node.Target
pub record Node : Type 0 where
  pub name : String
  pub role : String
  pub architecture : String
  pub instance_id : String
  pub ssh_address : String
  pub peer_address : String
  pub private_address : String
  pub images : List Image

pub record GatewayTls : Type 0 where
  pub issuer : String
  pub email : String
  pub images : Map String

-- ^i-([0-9a-f]{8}|[0-9a-f]{17})$
unfoldable pub is_instance_id : String → Bool
unfolding matches times word
is_instance_id s = matches (seq (word "i-") (alt (times 8 hex) (times 17 hex))) s

-- ^[a-z][a-z0-9-]{0,66}$
unfoldable pub is_node_name : String → Bool
unfolding matches up_to
is_node_name s =
    matches (seq lower (up_to 66 (one_of ((b'a', b'z') ∷ (b'0', b'9') ∷ (b'-', b'-') ∷ [])))) s

-- net.ParseIP(s).To4() for dotted quads, and by the parameter for IPv6 notation
unfoldable pub to_ipv4 : (String → Option Quad) → String → Option Quad
unfolding parse_ipv4
to_ipv4 mapped s = elim (parse_ipv4 s) [ none ↦ mapped s | some q ↦ some q ]

-- not loopback, link-local, unspecified or multicast
unfoldable pub is_usable : Option Quad → Bool
is_usable none = false
is_usable (some q) =
    not (eqb q.a 127)
    && not (eqb q.a 169 && eqb q.b 254)
    && not (eqb q.a 0 && eqb q.b 0 && eqb q.c 0 && eqb q.d 0)
    && not (leb 224 q.a && leb q.a 239)

is_public : Option Quad → Bool
unfolding is_private is_global_unicast
is_public none = false
is_public (some q) = not (is_private q) && is_global_unicast q

is_private_ip : Option Quad → Bool
unfolding is_private
is_private_ip none = false
is_private_ip (some q) = is_private q

module _ (mapped : String → Option Quad) where
  check_address : String → Result (Unit {0})
  unfolding to_ipv4 is_usable
  check_address s =
      refuse (not (is_usable (to_ipv4 mapped s))) (text "node requires usable IPv4 addresses")

  -- Target.Validate
  unfoldable pub validate_node : Node → Result (Unit {0})
  unfolding is_node_name is_instance_id check_address
  validate_node t = do
    refuse (not (is_node_name t.name) || not (is_instance_id t.instance_id))
        (text "invalid node name or instance ID")
    check_address t.ssh_address
    check_address t.peer_address
    if t.private_address == "" then ok tt else check_address t.private_address

  -- the plan's address mode, for a target that has been validated
  unfoldable pub advertised : String → Node → Result (Unit {0})
  unfolding to_ipv4 is_public is_private_ip
  advertised mode t =
      if mode == "public"
      then refuse
          (not (is_public (to_ipv4 mapped t.peer_address))
            || not (is_private_ip (to_ipv4 mapped t.private_address)))
          (at "public advertising requires a public peer address and a private VPC address" t.name)
      else refuse (not (t.private_address == ""))
          (at "a private-address plan carries no separate private address" t.name)

-- the keys of ACMEIssuers
abbrev issuers : List String
issuers = "letsencrypt" ∷ "letsencrypt-staging" ∷ []

-- ^[A-Za-z0-9._%+-]{1,64}@[A-Za-z0-9.-]{1,190}\.[A-Za-z]{2,24}$
unfoldable pub is_email : String → Bool
unfolding matches up_to times word
is_email s =
    let letter = one_of ((b'A', b'Z') ∷ (b'a', b'z') ∷ []) in
    let local = one_of (
      (b'A', b'Z')
      ∷ (b'a', b'z')
      ∷ (b'0', b'9')
      ∷ (b'.', b'.')
      ∷ (b'_', b'_')
      ∷ (b'%', b'%')
      ∷ (b'+', b'+')
      ∷ (b'-', b'-')
      ∷ []) in
    let host =
      one_of ((b'A', b'Z') ∷ (b'a', b'z') ∷ (b'0', b'9') ∷ (b'.', b'.') ∷ (b'-', b'-') ∷ []) in
    matches
      (seq (seq local (up_to 63 local)) (
        seq (word "@") (
          seq (seq host (up_to 189 host))
            (seq (word ".") (seq (times 2 letter) (up_to 22 letter))))))
      s

module _ (x : Outside) where
  check_acme : GatewayTls → String → Result (Unit {0})
  unfolding lookup_or lookup has_prefix
  check_acme g arch = elim (x.new_digest (lookup_or "" arch g.images)) [
    | none ↦ err (text "gateway TLS ACME client images must be pinned by sha256")
    | some (repository, digest) ↦
        refuse (not (has_prefix digest "sha256:"))
          (text "gateway TLS ACME client images must be pinned by sha256")
  ]

  -- GatewayTLS.Validate
  unfoldable pub validate_tls : GatewayTls → List String → Result (Unit {0})
  unfolding is_email contains check_acme
  validate_tls g archs = do
    refuse (not (contains g.issuer issuers) || not (is_email g.email))
        (text "gateway TLS needs a supported issuer and a contact email")
    refuse (not (eqb (length g.images) (length archs)))
        (text "gateway TLS needs one pinned ACME client image per validator architecture")
    each (check_acme g) archs
