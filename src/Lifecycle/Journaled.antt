-- ===== src/Lifecycle/Journaled.antt =====
-- Where the addresses of a planned deployment come from.
use mathlib.Core.Path.{subst}
use dash_network_go.Common.{
  arith, ℕ, ◌%◌, ◌^◌, String, Bool, true, false, Option, none, some, List, [], ◌∷◌, ◌≡◌, refl, sym,
  ap, ◌∙◌, inl, inr, not, ◌==◌, ◌||◌, eq_iff, Bool-cases, Map, lookup, lookup_or, insert,
  lookup-insert_self, lookup-insert_ne, All, All-map, if◌then◌else◌,
}
use dash_network_go.Common.Result.{Result, ok, err, ◌>>=◌}
use dash_network_go.Common.Holds.{Holds, Holds-then, Holds-all, Holds-ok, Holds-weaken}
use dash_network_go.Provision.Types
use dash_network_go.Provision.Types.{
  AddressProgress, NodeProgress, BootstrapProgress, DeploymentProgress, Record,
}
use dash_network_go.Provision.Compute.{public_ipv4, ipam_pool}
use dash_network_go.Provision.Outside.{Outside}
use dash_network_go.Release.Lock.{Artifacts}
use dash_network_go.Bootstrap.Plan
use dash_network_go.Lifecycle.Nodes.{Node}
use dash_network_go.Lifecycle.Deployment.{Deployment, Live, Recipes}
use dash_network_go.Lifecycle.Binding.{IsBound, build_deployment-IsBound}
use dash_network_go.Lifecycle.Command.{
  Flags, ip_of, journaled_ip, collect_ips, ipam_addresses, options_of, hosts_ready, is_deployed,
  plan_with, plan_deployment,
}

-- The target has the ID and the private address of the running instance of its name, and advertises
-- its public address, which the journal's record holds as the target's Elastic IP.
abbrev pub IsJournaled : Map Live → Record → Node → Type 0
IsJournaled live r t =
    (l : Live) × (n : NodeProgress) × (a : AddressProgress) × (lookup t.name live ≡ some l)
    × (t.instance_id ≡ l.instance_id)
    × (t.private_address ≡ l.private_ip)
    × (t.peer_address ≡ l.public_ip)
    × (lookup t.name r.nodes ≡ some n)
    × (n.address ≡ some a)
    × (a.public_ip ≡ l.public_ip)

-- Every address in the map is the journal's for its name.
abbrev AreJournaledIps : Record → Map String → Type 0
AreJournaledIps r ips =
    (name ip : String) → lookup name ips ≡ some ip → journaled_ip r name ≡ some ip

collect_ips-AreJournaledIps :
    (r : Record) (ts : List Types.Target) (ips found : Map String)
    → AreJournaledIps r ips
    → collect_ips r ts ips ≡ some found
    → AreJournaledIps r found
unfolding collect_ips
collect_ips-AreJournaledIps r [] ips found all is = subst (AreJournaledIps r) (some_eq is) all
  where
    some_eq : some ips ≡ some found → ips ≡ found
    some_eq h = cc
collect_ips-AreJournaledIps r (t ∷ ts) ips found all is =
    decided (λ ips' all'. collect_ips-AreJournaledIps r ts ips' found all') (journaled_ip r t.name)
      refl is
  where
    one_more :
        (ip : String) → journaled_ip r t.name ≡ some ip → AreJournaledIps r (insert t.name ip ips)
    one_more ip found' name jp h = elim (Bool-cases (t.name == name)) [
      | inr other ↦ all name jp (sym (lookup-insert_ne t.name name ip ips other) ∙ h)
      | inl here' ↦
          let same = (eq_iff t.name name).0 here' in
          ap (journaled_ip r) (sym same)
          ∙ found'
          ∙ sym (lookup-insert_self t.name ip ips)
          ∙ ap (λ k. lookup k (insert t.name ip ips)) same
          ∙ h
    ]

    decided :
        ((ips' : Map String)
          → AreJournaledIps r ips'
          → collect_ips r ts ips' ≡ some found
          → AreJournaledIps r found)
        → (o : Option String) → journaled_ip r t.name ≡ o
        → (elim o [ none ↦ none | some ip ↦ collect_ips r ts (insert t.name ip ips) ]) ≡ some found
        → AreJournaledIps r found
    decided further none found' h = absurd (cc)
    decided further (some ip) found' h = further (insert t.name ip ips) (one_more ip found') h

none_yet : (r : Record) → AreJournaledIps r []
unfolding lookup
none_yet r name ip h = absurd (cc)

ipam_addresses-AreJournaledIps :
    (b : Plan.Plan) (r : Record) (found : Map String)
    → ipam_addresses b r ≡ some found
    → AreJournaledIps r found
unfolding ipam_addresses
ipam_addresses-AreJournaledIps b r found =
    decided (not (public_ipv4 b.compute) || ipam_pool b.compute == "")
  where
    decided :
        (c : Bool)
        → (if c then none else collect_ips r b.compute.targets []) ≡ some found
        → AreJournaledIps r found
    decided true h = absurd (cc)
    decided false h = collect_ips-AreJournaledIps r b.compute.targets [] found (none_yet r) h

-- An address of the journal, with the node that it is of.
node_address :
    (r : Record) (name ip : String)
    → journaled_ip r name ≡ some ip
    → (n : NodeProgress) × (a : AddressProgress) × (lookup name r.nodes ≡ some n)
      × (n.address ≡ some a)
      × (a.public_ip ≡ ip)
unfolding journaled_ip ip_of
node_address r name ip = decided (lookup name r.nodes) refl
  where
    nonempty :
        (n : NodeProgress) (a : AddressProgress) (c : Bool)
        → lookup name r.nodes ≡ some n
        → n.address ≡ some a
        → (if c then none else some a.public_ip) ≡ some ip
        → (n' : NodeProgress) × (a' : AddressProgress) × (lookup name r.nodes ≡ some n')
          × (n'.address ≡ some a')
          × (a'.public_ip ≡ ip)
    nonempty n a true is_node is_address h = absurd (cc)
    nonempty n a false is_node is_address h = (n, a, is_node, is_address, cc)

    addressed :
        (n : NodeProgress) (o : Option AddressProgress)
        → lookup name r.nodes ≡ some n
        → n.address ≡ o
        → ip_of o ≡ some ip
        → (n' : NodeProgress) × (a' : AddressProgress) × (lookup name r.nodes ≡ some n')
          × (n'.address ≡ some a')
          × (a'.public_ip ≡ ip)
    addressed n none is_node is_address h = absurd (cc)
    addressed n (some a) is_node is_address h =
        nonempty n a (a.public_ip == "") is_node is_address h

    decided :
        (o : Option NodeProgress)
        → lookup name r.nodes ≡ o
        → (elim o [ none ↦ none | some n ↦ ip_of n.address ]) ≡ some ip
        → (n : NodeProgress) × (a : AddressProgress) × (lookup name r.nodes ≡ some n)
          × (n.address ≡ some a)
          × (a.public_ip ≡ ip)
    decided none is_node h = absurd (cc)
    decided (some n) is_node h = addressed n n.address is_node refl h

bound-IsJournaled :
    (r : Record) (live : Map Live) (ips : Map String)
    → AreJournaledIps r ips
    → (t : Node) → IsBound live ips t
    → IsJournaled live r t
unfolding lookup_or
bound-IsJournaled r live ips all t (l, is, same_id, same_peer, same_private, same, present) =
    decided (lookup t.name ips) refl same
  where
    decided :
        (o : Option String)
        → lookup t.name ips ≡ o
        → (elim o [ none ↦ "" | some v ↦ v ]) ≡ l.public_ip
        → IsJournaled live r t
    decided none found same' =
        let never : ("" == "") ≡ false = ap (λ k. k == "") same' ∙ present in absurd (cc)
    decided (some ip) found same' =
        let (n, a, is_node, is_address, here') = node_address r t.name ip (all t.name ip found) in
        (l, n, a, is, same_id, same_private, same_peer, is_node, is_address, here' ∙ same')

module _ (x : Outside) (y : Artifacts) (z : Recipes) (b : Plan.Plan) (f : Flags) (r : Record)
    (now : ℕ) where
  abbrev IsPlanned : Map Live → Deployment → Type 0
  IsPlanned live p = All (IsJournaled live r) p.targets

  plan_with-Holds :
      (live : Map Live) (ips : Option (Map String))
      → ipam_addresses b r ≡ ips
      → Holds (IsPlanned live) (plan_with x y z b f live now ips)
  unfolding plan_with options_of
  plan_with-Holds live none is = tt
  plan_with-Holds live (some ips) is =
      Holds-all (IsPlanned live) (plan_with x y z b f live now (some ips)) λ p h.
        let (given, same, bound) =
          build_deployment-IsBound x y z b live (options_of b f ips) (f.protocol % 2 ^ 32) now p
            h in
        All-map (bound-IsJournaled r live given (journaled given same)) p.targets bound
    where
      journaled : (given : Map String) → some ips ≡ some given → AreJournaledIps r given
      journaled given same =
          let equal : ips ≡ given = cc in
          subst (AreJournaledIps r) equal (ipam_addresses-AreJournaledIps b r ips is)

  running-Holds :
      (running : Result (Map Live))
      → Holds
          (λ p. (live : Map Live) × (running ≡ ok live) × IsPlanned live p)
          (running >>= λ live. plan_with x y z b f live now (ipam_addresses b r))
  running-Holds (err e) = tt
  running-Holds (ok live) =
      Holds-weaken (IsPlanned live) _ _ (λ p bound. (live, refl, bound))
        (plan_with-Holds live (ipam_addresses b r) refl)

-- The hosts are ready for this plan, nobody holds the journal, and nothing is deployed yet.
abbrev pub MayPlan : Plan.Plan → Record → String → Type 0
MayPlan b r owner =
    (owner ≡ "")
    × (r.deployment ≡ none)
    × ((progress : BootstrapProgress) × (r.bootstrap ≡ some progress)
        × (progress.plan_id ≡ b.id)
        × (progress.phase ≡ "hosts-ready"))

hosts_ready-some :
    (b : Plan.Plan) (o : Option BootstrapProgress)
    → not (hosts_ready b o) ≡ false
    → (progress : BootstrapProgress) × (o ≡ some progress)
      × (progress.plan_id ≡ b.id)
      × (progress.phase ≡ "hosts-ready")
unfolding hosts_ready
hosts_ready-some b none h = absurd (cc)
hosts_ready-some b (some progress) h = (
  progress,
  refl,
  (eq_iff progress.plan_id b.id).0 (ground arith),
  (eq_iff progress.phase "hosts-ready").0 (ground arith),
)

is_deployed-none : (o : Option DeploymentProgress) → is_deployed o ≡ false → o ≡ none
unfolding is_deployed
is_deployed-none none h = refl
is_deployed-none (some d) h = absurd (cc)

-- The command deployment-plan writes a plan only when nobody holds the journal, nothing is deployed
-- yet and the bootstrap of this plan is in the phase hosts-ready. Every target of the plan is bound to
-- the journal: the target has the ID and the private address of the running instance of its name, it
-- advertises that instance's public address, and the journal's record holds that address as the
-- Elastic IP of the node of that name.
pub plan_deployment-IsJournaled :
    (x : Outside) (y : Artifacts) (z : Recipes) (b : Plan.Plan) (f : Flags) (r : Record)
    (owner : String) (running : Result (Map Live)) (now : ℕ) (p : Deployment)
    → plan_deployment x y z b f r owner running now ≡ ok p
    → MayPlan b r owner
      × ((live : Map Live) × (running ≡ ok live) × All (IsJournaled live r) p.targets)
unfolding plan_deployment
plan_deployment-IsJournaled x y z b f r owner running now p =
    Holds-ok
      (λ p'.
        MayPlan b r owner
        × ((live : Map Live) × (running ≡ ok live) × All (IsJournaled live r) p'.targets))
      (plan_deployment x y z b f r owner running now)
      (Holds-then _ (not (owner == "")) _ _ λ free.
        Holds-then _ (not (hosts_ready b r.bootstrap)) _ _ λ is_ready.
          Holds-then _ (is_deployed r.deployment) _ _ λ new.
            let may : MayPlan b r owner = (
              (eq_iff owner "").0 (ground arith),
              is_deployed-none r.deployment new,
              hosts_ready-some b r.bootstrap is_ready,
            ) in
            Holds-weaken
              (λ p'. (live : Map Live) × (running ≡ ok live) × All (IsJournaled live r) p'.targets)
              (λ p'.
                MayPlan b r owner
                × ((live : Map Live) × (running ≡ ok live) × All (IsJournaled live r) p'.targets))
              _ (λ p' bound. (may, bound)) (running-Holds x y z b f r now running))
