-- ===== src/Lifecycle/Fleet.antt =====
-- What a valid deployment plan says of its fleet.
use dash_network_go.Common.{
  arith, ℕ, ◌+◌, ◌≤◌, String, Bool, true, false, List, [], ◌∷◌, ◌≡◌, refl, sym, ap, ◌∙◌, ◌||◌, ◌&&◌,
  not, ◌==◌, eq_iff, lookup_or, lookup, lookup_or-insert_self, lookup_or-insert_ne, insert,
  contains, length, ltb, eqb, if◌then◌else◌,
}
use dash_network_go.Common.Result.{ok, refuse}
use dash_network_go.Common.Holds.{
  Holds, Holds-bind, Holds-then, Holds-last, Holds-weaken, Holds-ok, Holds-any, skip,
}
use dash_network_go.Provision.Types
use dash_network_go.Provision.Outside.{Outside}
use dash_network_go.Release.Lock.{Artifacts}
use dash_network_go.Bootstrap.Plan
use dash_network_go.Bootstrap.Plan.{validate_bootstrap_plan}
use dash_network_go.Lifecycle.Nodes.{Node, validate_node, advertised}
use dash_network_go.Lifecycle.Deployment.{
  Deployment, Recipes, Seen, count_of, see, unseen, is_approved, is_deployed_role, check_identity,
  check_policy, check_chain, check_tls, check_target, check_targets, check_counts,
  validate_deployment_plan,
}
use dash_network_go.Lifecycle.Building.{with_role}

-- the number of targets of a role
abbrev pub role_count : String → List Node → ℕ
role_count role ts = length (with_role role ts)

-- No instance ID is one of `seen`, and none stands twice.
abbrev pub AreNewIds : List String → List Node → Type 0
AreNewIds seen [] = Unit
AreNewIds seen (t ∷ ts) =
    (contains t.instance_id seen ≡ false) × AreNewIds (t.instance_id ∷ seen) ts

count_of-see :
    (role : String) (t : Node) (s : Seen) (ts : List Node)
    → count_of role (see t s).counts + role_count role ts
      ≡ count_of role s.counts + role_count role (t ∷ ts)
unfolding count_of see with_role
count_of-see role t s ts = decided (t.role == role) refl
  where
    decided :
        (b : Bool)
        → (t.role == role) ≡ b
        → count_of role (insert t.role (count_of t.role s.counts + 1) s.counts) + role_count role ts
          ≡ count_of role s.counts + length (if b then t ∷ with_role role ts else with_role role ts)
    decided true is =
        let same = (eq_iff t.role role).0 is in
        let now = lookup_or-insert_self 0 t.role (count_of t.role s.counts + 1) s.counts in
        let at_role =
          ap (λ r. lookup_or 0 r (insert t.role (count_of t.role s.counts + 1) s.counts))
            (sym same) in
        let before = ap (λ r. count_of r s.counts) same in omega (arith, now, at_role, before)
    decided false is =
        omega (arith, lookup_or-insert_ne 0 t.role role (count_of t.role s.counts + 1) s.counts is)

module _ (x : Outside) (y : Artifacts) (z : Recipes) where
  check_target-Holds :
      (mode : String) (t : Node) (e : Types.Target) (b : Plan.Target) (s : Seen)
      → Holds (λ u. contains t.instance_id s.ids ≡ false) (check_target x y z mode t e b s)
  unfolding check_target
  check_target-Holds mode t e b s =
      skip (contains t.instance_id s.ids ≡ false) (refuse (not (is_approved t e b)) _) _ (
        skip _ (validate_node z.mapped t) _ (
          skip _ (advertised z.mapped mode t) _ (
            Holds-then (λ u. contains t.instance_id s.ids ≡ false)
              (contains t.instance_id s.ids
                || contains t.peer_address s.ips
                || (not (t.private_address == "") && contains t.private_address s.ips))
              _ _ λ fresh. Holds-any (refuse (not (is_deployed_role t.role)) _) (ground arith))))

  Sound : List Node → Seen → Seen → Type 0
  Sound ts s s' =
      ((role : String) → count_of role s'.counts ≡ count_of role s.counts + role_count role ts)
      × AreNewIds s.ids ts

  check_targets-Holds :
      (mode : String) (ts : List Node) (es : List Types.Target) (bs : List Plan.Target) (s : Seen)
      → Holds (Sound ts s) (check_targets x y z mode ts es bs s)
  unfolding check_targets Sound with_role
  check_targets-Holds mode [] es bs s = (λ role. omega arith, tt)
  check_targets-Holds mode (t ∷ ts) [] bs s = tt
  check_targets-Holds mode (t ∷ ts) (e ∷ es) [] s = tt
  check_targets-Holds mode (t ∷ ts) (e ∷ es) (b ∷ bs) s =
      Holds-bind (λ u. contains t.instance_id s.ids ≡ false) (Sound (t ∷ ts) s)
        (check_target x y z mode t e b s) _ (check_target-Holds mode t e b s)
        λ u fresh.
          Holds-weaken (Sound ts (see t s)) (Sound (t ∷ ts) s) _
            (λ s' (counted, unused).
              (λ role. counted role ∙ count_of-see role t s ts, (fresh, unused)))
            (check_targets-Holds mode ts es bs (see t s))

  abbrev IsFleet : Deployment → Type 0
  IsFleet p =
      (13 ≤ role_count "validator" p.targets)
      × (role_count "validator" p.targets ≤ 25)
      × (role_count "wallet" p.targets ≡ 1)
      × (role_count "miner" p.targets ≤ 1)
      × AreNewIds [] p.targets

  counts-IsFleet :
      (p : Deployment) (s' : Seen)
      → Sound p.targets unseen s'
      → Holds (λ u. IsFleet p) (check_counts x y z s'.counts)
  unfolding check_counts Sound count_of lookup_or lookup
  counts-IsFleet p s' (counted, unused) =
      Holds-last (λ u. IsFleet p)
        (ltb (count_of "validator" s'.counts) 13
          || ltb 25 (count_of "validator" s'.counts)
          || not (eqb (count_of "wallet" s'.counts) 1)
          || ltb 1 (count_of "miner" s'.counts))
        _
        λ within.
          let validators = counted "validator" in
          let wallets = counted "wallet" in
          let miners = counted "miner" in
          (ground arith, ground arith, ground arith, ground arith, unused)

  -- The targets of a deployment plan that Plan.Validate accepts have 13 to 25 validators, exactly one
  -- wallet and at most one miner, and no instance ID stands twice among them.
  pub validate_deployment_plan-IsFleet :
      (p : Deployment)
      → validate_deployment_plan x y z p ≡ ok tt
      → (13 ≤ role_count "validator" p.targets)
        × (role_count "validator" p.targets ≤ 25)
        × (role_count "wallet" p.targets ≡ 1)
        × (role_count "miner" p.targets ≤ 1)
        × AreNewIds [] p.targets
  unfolding validate_deployment_plan
  validate_deployment_plan-IsFleet p h =
      Holds-ok (λ u. IsFleet p) (validate_deployment_plan x y z p)
        (skip (IsFleet p)
          (refuse (not (p.bootstrap.compute.network.chain.chain_type == "devnet")) _) _
          (skip (IsFleet p) (validate_bootstrap_plan x y z.bootstrap p.bootstrap) _ (
            skip (IsFleet p) (check_identity x y z p) _ (
              skip (IsFleet p) (check_policy x y z p) _ (
                skip (IsFleet p) (check_chain x y z p) _ (
                  skip (IsFleet p)
                    (refuse (not (eqb (length p.targets) (length p.bootstrap.targets))) _) _
                    (skip (IsFleet p) (refuse (not (p.advertise == "public")) _) _ (
                      skip (IsFleet p) (check_tls x y z p p.gateway_tls) _ (
                        Holds-bind (Sound p.targets unseen) (λ u. IsFleet p)
                          (check_targets x y z p.advertise p.targets p.bootstrap.compute.targets
                            p.bootstrap.targets unseen)
                          (λ s'. check_counts x y z s'.counts)
                          (check_targets-Holds p.advertise p.targets p.bootstrap.compute.targets
                            p.bootstrap.targets unseen)
                          (λ s' sound. counts-IsFleet p s' sound))))))))))
        h
