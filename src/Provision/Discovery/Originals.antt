-- ===== src/Provision/Discovery/Originals.antt =====
-- What the discovery accepts: only instances that carry a target's tags and launch identity.
use native.Mathlib.Omega.{arith}
use mathlib.Core.List.{Memᴰ}
use dash_network_go.Common.{
  String, Bool, true, false, Option, none, some, List, [], ◌∷◌, ◌≡◌, refl, sym, ◌∙◌, ◌⊎◌, inl, inr,
  ◌==◌, not, ◌||◌, Map, lookup, insert, lookup-insert, lookup-insert_ne, All-insert, ap, lookup_or,
  contains, All, eq_iff, Bool-cases,
}
use dash_network_go.Common.Holds.{Holds, Holds-bind, Holds-then, Holds-last}
use dash_network_go.Spec.Types.{Provision}
use dash_network_go.Provision.Types.{Target, Plan}
use dash_network_go.Provision.Outside.{Outside}
use dash_network_go.Provision.Plan.{token}
use dash_network_go.Provision.Cloud.{Instance, Reservation}
use dash_network_go.Provision.Discovery.{
  read_tags, owned, targets_by_name, is_active, requires_tokens, same_groups, launch_matches,
  check_instance, accept_target, accept_tagged, accept_instance, accept_instances,
  accept_reservations, Found,
}

-- The instance is of a target of that name: with all of the target's tags, none of them twice, the
-- client token of its launch, its image and the plan's subnet, IMDSv2 required, and a state that is
-- pending or running.
abbrev pub IsOriginal : Outside → Plan → Provision → String × Instance → Type 0
IsOriginal x p c (name, i) =
    (t : Target) × Memᴰ t p.targets
    × (t.name ≡ name)
    × ((found : Map String) × (read_tags i.tag_list [] ≡ some found) × (owned p t found ≡ true))
    × (i.client_token ≡ token x p t)
    × (i.image_id ≡ t.ami)
    × (i.subnet_id ≡ c.subnet_id)
    × (i.http_tokens ≡ some "required")
    × ((i.state ≡ some "pending") ⊎ (i.state ≡ some "running"))

written :
    (k : String) (t u : Target) (m : Map Target)
    → lookup k (insert u.name u m) ≡ some t
    → ((t ≡ u) × (u.name ≡ k)) ⊎ (lookup k m ≡ some t)
written k t u m h =
    let read = lookup-insert u.name k u m in
    elim (Bool-cases (u.name == k)) [
      | inl same ↦ inl (grind arith, (eq_iff _ _).0 same)
      | inr other ↦ inr (sym (lookup-insert_ne u.name k u m other) ∙ h)
    ]

named_target :
    (k : String) (t : Target) (ts : List Target) (m : Map Target)
    → lookup k (targets_by_name ts m) ≡ some t
    → (Memᴰ t ts × (t.name ≡ k)) ⊎ (lookup k m ≡ some t)
unfolding targets_by_name
named_target k t [] m h = inr h
named_target k t (u ∷ ts) m h = elim (named_target k t ts (insert u.name u m) h) [
  | inl (here, is) ↦ inl (Memᴰ.tail here, is)
  | inr there ↦ elim (written k t u m there) [
    | inl (is, named) ↦ inl (Memᴰ.head is, ap (λ (v : Target). v.name) is ∙ named)
    | inr before ↦ inr before
  ]
]

negated : (b : Bool) → not b ≡ false → b ≡ true
negated b h = ground arith

active_states :
    (s : Option String) → is_active s ≡ true → (s ≡ some "pending") ⊎ (s ≡ some "running")
unfolding is_active
active_states none h = grind arith
active_states (some s) h = elim (Bool-cases (s == "pending")) [
  | inl is ↦ inl (ap some ((eq_iff s "pending").0 is))
  | inr other ↦ inr (ap some ((eq_iff s "running").0 (ground arith)))
]

imdsv2 : (o : Option String) → requires_tokens o ≡ true → o ≡ some "required"
unfolding requires_tokens
imdsv2 none h = grind arith
imdsv2 (some s) h = ap some ((eq_iff s "required").0 h)

module _ (x : Outside) (p : Plan) (c : Provision) where
  launched_as :
      (t : Target) (i : Instance)
      → launch_matches x p c t i ≡ true
      → (i.client_token ≡ token x p t) × (i.image_id ≡ t.ami) × (i.subnet_id ≡ c.subnet_id)
  unfolding launch_matches
  launched_as t i h = (
    (eq_iff i.client_token (token x p t)).0 (ground arith),
    (eq_iff i.image_id t.ami).0 (ground arith),
    (eq_iff i.subnet_id c.subnet_id).0 (ground arith),
  )

  abbrev Checked : Target → Map String → Instance → Unit {0} → Type 0
  Checked t found i u =
      (owned p t found ≡ true)
      × (launch_matches x p c t i ≡ true)
      × (requires_tokens i.http_tokens ≡ true)
      × (is_active i.state ≡ true)

  check_instance-Holds :
      (t : Target) (found : Map String) (i : Instance) (f : Found)
      → Holds (Checked t found i) (check_instance x p c t found i f)
  unfolding check_instance
  check_instance-Holds t found i f =
      let Q = Checked t found i in
      Holds-then Q (not (owned p t found)) _ _ λ owns.
        Holds-then Q (i.id == "" || contains i.id f.ids) _ _ λ h2.
          Holds-then Q (elim (lookup t.name f.live) [ none ↦ false | some other ↦ true ]) _ _
            λ h3. Holds-then Q (not (launch_matches x p c t i)) _ _ λ matches.
              Holds-then Q (not (same_groups i c.security_group_ids)) _ _ λ h5.
                Holds-then Q (not (requires_tokens i.http_tokens)) _ _ λ h6.
                  Holds-last Q (not (is_active i.state)) _
                    λ active. (negated _ owns, negated _ matches, negated _ h6, negated _ active)

  abbrev pub AreOriginal : Found → Type 0
  AreOriginal f = All (IsOriginal x p c) f.live

  accept_target-Holds :
      (i : Instance) (f : Found) (found : Map String) (o : Option Target)
      → read_tags i.tag_list [] ≡ some found
      → ((t : Target) → o ≡ some t → Memᴰ t p.targets)
      → AreOriginal f
      → Holds AreOriginal (accept_target x p c i f found o)
  unfolding accept_target
  accept_target-Holds i f found none tagged named all = tt
  accept_target-Holds i f found (some t) tagged named all =
      Holds-bind (Checked t found i) _ _ _ (check_instance-Holds t found i f)
        λ u (owns, matches, tokens, active).
          let (by_token, image, subnet) = launched_as t i matches in
          All-insert (IsOriginal x p c) t.name i f.live
            (
              t,
              named t refl,
              refl,
              (found, tagged, owns),
              by_token,
              image,
              subnet,
              imdsv2 i.http_tokens tokens,
              active_states i.state active,
            )
            all

  accept_tagged-Holds :
      (i : Instance) (f : Found) (o : Option (Map String))
      → read_tags i.tag_list [] ≡ o
      → AreOriginal f
      → Holds AreOriginal (accept_tagged x p c i f o)
  unfolding accept_tagged
  accept_tagged-Holds i f none is all = tt
  accept_tagged-Holds i f (some found) is all =
      accept_target-Holds i f found _ is
        (λ t named. elim (named_target (lookup_or "" "dashnet:node" found) t p.targets [] named) [
          | inl (here, same) ↦ here
          | inr there ↦ grind arith
        ])
        all

  accept_instances-Holds :
      (is : List Instance) (f : Found)
      → AreOriginal f
      → Holds AreOriginal (accept_instances x p c is f)
  unfolding accept_instances accept_instance
  accept_instances-Holds [] f all = all
  accept_instances-Holds (i ∷ is) f all =
      Holds-bind AreOriginal AreOriginal (accept_instance x p c i f) _
        (accept_tagged-Holds i f _ refl all) (accept_instances-Holds is)

  pub accept_reservations-Holds :
      (vs : List Reservation) (f : Found)
      → AreOriginal f
      → Holds AreOriginal (accept_reservations x p c vs f)
  unfolding accept_reservations
  accept_reservations-Holds [] f all = all
  accept_reservations-Holds (v ∷ vs) f all =
      Holds-then AreOriginal (not (v.owner_id == p.network.aws.account_id)) _ _ λ account.
        Holds-bind AreOriginal AreOriginal (accept_instances x p c v.instances f) _
          (accept_instances-Holds v.instances f all) (accept_reservations-Holds vs)
