-- ===== src/Journal/Requests.antt =====
-- Each request of the store is one step of its runner, or none.
use native.Mathlib.Omega.{arith}
use mathlib.Core.Path.{subst}
use dash_network_go.Common.{
  ℕ, ◌-◌, ◌≤◌, String, Bool, true, false, Option, none, some, [], ◌∷◌, ◌≡◌, ◌≢◌, refl, sym, ap, ◌∙◌,
  ◌⊎◌, inl, inr, ◌&&◌, eq_iff, lookup, insert, Bool-cases, if◌then◌else◌,
}
use dash_network_go.Provision.Types.{Plan}
use dash_network_go.Provision.Plan.{key}
use dash_network_go.Journal.Table.{
  Value, str, number, same_value, Item, Condition, equals, not_exists, both, either, Update,
  Service, holds, has_value, attribute, is_missing, set_all, erase_all, base, changed, updated,
  written,
}
use dash_network_go.Journal.Faithful.{IsFaithful}
use dash_network_go.Journal.Lock.{create, claim, checkpoint, free, Steps, here, Steps-step}
use dash_network_go.Journal.Moves.{Moves}
use dash_network_go.Journal.Dynamo.{create_request, claim_request, save_request, release_request}

and_true : (a b : Bool) → (a && b) ≡ true → (a ≡ true) × (b ≡ true)
and_true a b h = (ground arith, ground arith)

same-eq : (w u : Value) → same_value w u ≡ true → w ≡ u
unfolding same_value
same-eq (str s) (str t) h = ap str ((eq_iff s t).0 h)
same-eq (number n) (number m) h = ground arith
same-eq (str s) (number m) h = grind arith
same-eq (number n) (str t) h = grind arith

pub present : (o : Option Value) (u : Value) → has_value o u ≡ true → o ≡ some u
unfolding has_value
present none u h = grind arith
present (some w) u h = ap some (same-eq w u h)

missing : (o : Option Value) → is_missing o ≡ true → o ≡ none
unfolding is_missing
missing none h = refl
missing (some w) h = grind arith

-- What a condition on an item says of its attributes.
equals_lem :
    (k : String) (u : Value) (item : Item)
    → holds (equals k u) (some item) ≡ true
    → lookup k item ≡ some u
unfolding holds attribute
equals_lem k u item h = present (lookup k item) u h

not_exists_lem :
    (k : String) (item : Item) → holds (not_exists k) (some item) ≡ true → lookup k item ≡ none
unfolding holds attribute
not_exists_lem k item h = missing (lookup k item) h

both_lem :
    (c d : Condition) (i : Option Item)
    → holds (both c d) i ≡ true
    → (holds c i ≡ true) × (holds d i ≡ true)
unfolding holds
both_lem c d i h = and_true (holds c i) (holds d i) h

either_lem :
    (c d : Condition) (i : Option Item)
    → holds (either c d) i ≡ true
    → (holds c i ≡ true) ⊎ (holds d i ≡ true)
unfolding holds
either_lem c d i h = elim (Bool-cases (holds c i)) [
  | inl yes' ↦ inl yes'
  | inr not' ↦ inr (ground arith)
]

-- Setting what is there already changes nothing.
insert_same :
    (k : String) (u : Value) (item : Item) → lookup k item ≡ some u → insert k u item ≡ item
unfolding lookup insert
insert_same k u [] h = grind arith
insert_same k u ((j, w) ∷ item) h = ground (arith, eq_iff j k, insert_same k u item)

module _ (table : String) (p : Plan) (owner : String) where
  -- the condition of a claim, and of a save, as facts on the item
  pub claimable :
      (item : Item)
      → holds (claim_request table p owner).condition (some item) ≡ true
      → (lookup "PlanID" item ≡ some (str p.id)) × (lookup "Owner" item ≡ none)
  unfolding claim_request
  claimable item h =
      let (plan, is_free) = both_lem _ _ (some item) h in
      (equals_lem "PlanID" (str p.id) item plan, not_exists_lem "Owner" item is_free)

  pub releasable :
      (item : Item)
      → holds (release_request table p owner).condition (some item) ≡ true
      → (lookup "PlanID" item ≡ some (str p.id)) × (lookup "Owner" item ≡ some (str owner))
  unfolding release_request
  releasable item h =
      let (plan, held) = both_lem _ _ (some item) h in
      (equals_lem "PlanID" (str p.id) item plan, equals_lem "Owner" (str owner) item held)

  pub savable :
      (revision : ℕ) (d : String) (item : Item)
      → holds (save_request table p owner revision d).condition (some item) ≡ true
      → (lookup "PlanID" item ≡ some (str p.id))
        × (lookup "Owner" item ≡ some (str owner))
        × ((lookup "Revision" item ≡ some (number (revision - 1)))
            ⊎ ((lookup "Revision" item ≡ some (number revision))
                × (lookup "Data" item ≡ some (str d))))
  unfolding save_request
  savable revision d item h =
      let (mine, at_revision) = both_lem _ _ (some item) h in
      let (plan, held) = both_lem _ _ (some item) mine in
      (
        equals_lem "PlanID" (str p.id) item plan,
        equals_lem "Owner" (str owner) item held,
        elim (either_lem _ _ (some item) at_revision) [
          | inl previous ↦ inl (equals_lem "Revision" (number (revision - 1)) item previous)
          | inr again ↦
              let (same, payload) = both_lem _ _ (some item) again in
              inr (
                equals_lem "Revision" (number revision) item same,
                equals_lem "Data" (str d) item payload,
              )
        ],
      )

  created_by :
      (d : String) (i : Option Item)
      → ((item : Item) → i ≡ some item → lookup "Network" item ≢ none)
      → Steps owner i (written (create_request table p owner d) i)
  unfolding written create_request holds attribute is_missing lookup
  created_by d none keyed = Steps-step (create (key p) p.id d)
  created_by d (some item) keyed = existing (lookup "Network" item) (keyed item refl)
    where
      existing :
          (o : Option Value)
          → o ≢ none
          → Steps owner
              (some item)
              (if is_missing o then some (create_request table p owner d).item else some item)
      existing none ne = absurd (ne refl)
      existing (some w) ne = here

  -- An update whose condition fails for a missing item.
  by_condition :
      (q : Update) (i : Option Item)
      → holds q.condition none ≡ false
      → ((item : Item)
          → holds q.condition (some item) ≡ true
          → Steps owner (some item) (some (changed q (some item))))
      → Steps owner i (updated q i)
  unfolding updated
  by_condition q none none_fails k = rw none_fails here
  by_condition q (some item) none_fails k = decided (holds q.condition (some item)) refl
    where
      decided :
          (b : Bool)
          → holds q.condition (some item) ≡ b
          → Steps owner (some item) (if b then some (changed q (some item)) else some item)
      decided true is = k item is
      decided false is = here

  claimed_by : (i : Option Item) → Steps owner i (updated (claim_request table p owner) i)
  unfolding claim_request changed set_all erase_all base holds attribute has_value
  claimed_by i =
      by_condition (claim_request table p owner) i refl
        λ item h. Steps-step (claim item (claimable item h).1)

  released_by : (i : Option Item) → Steps owner i (updated (release_request table p owner) i)
  unfolding release_request changed set_all erase_all base holds attribute has_value
  released_by i =
      by_condition (release_request table p owner) i refl
        λ item h. Steps-step (free item (releasable item h).1)

  unchanged :
      (revision : ℕ) (d : String) (item : Item)
      → lookup "Revision" item ≡ some (number revision)
      → lookup "Data" item ≡ some (str d)
      → insert "Revision" (number revision) (insert "Data" (str d) item) ≡ item
  unchanged revision d item same payload =
      ap (insert "Revision" (number revision)) (insert_same "Data" (str d) item payload)
      ∙ insert_same "Revision" (number revision) item same

  -- an accepted save is the next revision, or writes what is there
  saved_by :
      (revision : ℕ) (d : String) (i : Option Item)
      → 1 ≤ revision
      → Steps owner i (updated (save_request table p owner revision d) i)
  unfolding save_request changed set_all erase_all base holds attribute has_value
  saved_by revision d i positive =
      by_condition (save_request table p owner revision d) i refl λ item h.
        let (plan, held, before) = savable revision d item h in
        elim before [
          | inl previous ↦
              Steps-step (checkpoint item (revision - 1) revision d held previous (omega arith))
          | inr (same, payload) ↦
              subst (λ (after : Item). Steps owner (some item) (some after))
                (sym (unchanged revision d item same payload)) here
        ]

module _ {S : Type 0} {v : Service S} (f : IsFaithful v) (table : String) (p : Plan)
    (owner : String) where
  update_Moves :
      (q : Update)
      → ((i : Option Item) → Steps owner i (updated q i))
      → Moves f.stored owner (v.update_item q)
  update_Moves q k = record {
    at = λ s t n. elim (f.update_effect q s t n) [
      | inl same ↦ subst (Steps owner (f.stored s t n)) (sym same) here
      | inr (of_table, of_network, after) ↦
          subst (Steps owner (f.stored s t n)) (sym after) (k (f.stored s t n))
    ];
  }

  pub claim_request-Moves : Moves f.stored owner (v.update_item (claim_request table p owner))
  claim_request-Moves = update_Moves _ (claimed_by table p owner)

  pub release_request-Moves : Moves f.stored owner (v.update_item (release_request table p owner))
  release_request-Moves = update_Moves _ (released_by table p owner)

  pub save_request-Moves :
      (revision : ℕ) (d : String)
      → 1 ≤ revision
      → Moves f.stored owner (v.update_item (save_request table p owner revision d))
  save_request-Moves revision d positive =
      update_Moves _ (λ i. saved_by table p owner revision d i positive)

  pub create_request-Moves :
      (d : String) → Moves f.stored owner (v.put_item (create_request table p owner d))
  create_request-Moves d = record {
    at = λ s t n. elim (f.put_effect (create_request table p owner d) s t n) [
      | inl same ↦ subst (Steps owner (f.stored s t n)) (sym same) here
      | inr (of_table, of_network, after) ↦ subst (Steps owner (f.stored s t n)) (sym after) (
          created_by table p owner d (f.stored s t n)
            (λ item is. named item (f.keyed s t n item is)))
    ];
  }
    where
      named :
          (item : Item)
          → {n : String} → lookup "Network" item ≡ some (str n)
          → lookup "Network" item ≢ none
      named item is = cc
