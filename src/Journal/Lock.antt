-- ===== src/Journal/Lock.antt =====
-- The abstract journal: what one runner may do to an item, whatever the others do. It is created
-- with a holder and revision 0, claimed only while free, and changed or freed only by its holder.
use native.Mathlib.Omega.{arith}
use mathlib.Core.Path.{subst}
use dash_network_go.Common.{
  ℕ, ◌+◌, ◌≤◌, String, Option, none, some, [], ◌∷◌, ◌≡◌, ◌≢◌, refl, sym, ◌∙◌, ◌==◌, false, eq_iff,
  lookup, insert, lookup-insert_ne, lookup-insert_self,
}
use dash_network_go.Journal.Table.{Value, str, number, Item, erase}

abbrev pub created : String → String → String → String → Item
created network plan_id data_text owner =
    ("Network", str network)
    ∷ ("PlanID", str plan_id)
    ∷ ("Data", str data_text)
    ∷ ("Owner", str owner)
    ∷ ("Revision", number 0)
    ∷ []

-- One change by a runner.
pub data Step (owner : String) : Option Item → Option Item → Type 0 where
  create :
      (network plan_id data_text : String)
      → Step owner none (some (created network plan_id data_text owner))
  claim :
      (item : Item)
      → lookup "Owner" item ≡ none
      → Step owner (some item) (some (insert "Owner" (str owner) item))
  checkpoint :
      (item : Item) (n m : ℕ) (data_text : String)
      → lookup "Owner" item ≡ some (str owner)
      → lookup "Revision" item ≡ some (number n)
      → m ≡ n + 1
      → Step owner
          (some item)
          (some (insert "Revision" (number m) (insert "Data" (str data_text) item)))
  free :
      (item : Item)
      → lookup "Owner" item ≡ some (str owner)
      → Step owner (some item) (some (erase "Owner" item))

pub data Steps (owner : String) (i : Option Item) : Option Item → Type 0 where
  here : Steps owner i i
  next : {j k : Option Item} → Steps owner i j → Step owner j k → Steps owner i k

pub Steps-trans :
    {owner : String} {i j k : Option Item} → Steps owner i j → Steps owner j k → Steps owner i k
Steps-trans p here = p
Steps-trans p (next q s) = next (Steps-trans p q) s

pub Steps-step : {owner : String} {i j : Option Item} → Step owner i j → Steps owner i j
Steps-step s = next here s

-- The item has this holder.
abbrev pub IsHeld : String → Option Item → Type 0
IsHeld a none = ⊥
IsHeld a (some item) = lookup "Owner" item ≡ some (str a)

-- From a held item only the holder steps.
Step-IsHeld : {owner a : String} {i j : Option Item} → Step owner i j → IsHeld a i → owner ≡ a
Step-IsHeld (create network plan_id data_text) h = absurd h
Step-IsHeld (claim item is_free) h = cc
Step-IsHeld (checkpoint item n m data_text held revision grows) h = cc
Step-IsHeld (free item held) h = cc

-- While a runner holds the item, the others leave it as it is.
pub Steps-IsHeld :
    {owner a : String} {i j : Option Item} → Steps owner i j → IsHeld a i → owner ≢ a → j ≡ i
Steps-IsHeld here h ne = refl
Steps-IsHeld {owner} {a} {i} (next {j} p s) h ne =
    let same = Steps-IsHeld p h ne in absurd (ne (Step-IsHeld s (subst (IsHeld a) (sym same) h)))

-- The plan stays, and the revision does not fall.
abbrev pub Grows : Option Item → Option Item → Type 0
Grows none j = Unit
Grows (some item) none = ⊥
Grows (some item) (some item') =
    (lookup "PlanID" item' ≡ lookup "PlanID" item)
    × ((n : ℕ)
        → lookup "Revision" item ≡ some (number n)
        → (m : ℕ) × (lookup "Revision" item' ≡ some (number m)) × (n ≤ m))

pub Grows-trans : (i j k : Option Item) → Grows i j → Grows j k → Grows i k
Grows-trans none j k g h = tt
Grows-trans (some a) none k g h = absurd g
Grows-trans (some a) (some b) none g h = h
Grows-trans (some a) (some b) (some c) (plan, grows) (plan', grows') = (
  plan' ∙ plan,
  λ n is.
      let (m, is', le) = grows n is in let (l, is2, le2) = grows' m is' in (l, is2, omega arith),
)

lookup-erase_ne :
    (k j : String) (item : Item) → (k == j) ≡ false → lookup j (erase k item) ≡ lookup j item
unfolding lookup erase
lookup-erase_ne k j [] ne = refl
lookup-erase_ne k j ((l, v) ∷ item) ne =
    ground (arith, eq_iff l k, eq_iff l j, eq_iff k j, lookup-erase_ne k j item)

-- An attribute that is written besides.
kept :
    (k j : String) (v : Value) (item : Item)
    → (k == j) ≡ false
    → lookup j (insert k v item) ≡ lookup j item
kept k j v item ne = lookup-insert_ne k j v item ne

Step-Grows : {owner : String} {i j : Option Item} → Step owner i j → Grows i j
Step-Grows (create network plan_id data_text) = tt
Step-Grows {owner} (claim item is_free) = (
  kept "Owner" "PlanID" (str owner) item refl,
  λ n is. (n, kept "Owner" "Revision" (str owner) item refl ∙ is, omega arith),
)
Step-Grows (checkpoint item n m data_text held revision grows) = (
  kept "Revision" "PlanID" (number m) (insert "Data" (str data_text) item) refl
      ∙ kept "Data" "PlanID" (str data_text) item refl,
  λ k is. (
    m,
    lookup-insert_self "Revision" (number m) (insert "Data" (str data_text) item),
    below k m n is revision grows,
  ),
)
  where
    below :
        (k m n : ℕ)
        → lookup "Revision" item ≡ some (number k)
        → lookup "Revision" item ≡ some (number n)
        → m ≡ n + 1
        → k ≤ m
    below k m n is revision grows = grind arith
Step-Grows (free item held) = (
  lookup-erase_ne "Owner" "PlanID" item refl,
  λ n is. (n, lookup-erase_ne "Owner" "Revision" item refl ∙ is, omega arith),
)

pub Grows-refl : (i : Option Item) → Grows i i
Grows-refl none = tt
Grows-refl (some item) = (refl, λ n is. (n, is, omega arith))

pub Steps-Grows : {owner : String} {i j : Option Item} → Steps owner i j → Grows i j
Steps-Grows {i} here = Grows-refl i
Steps-Grows {i} {j} (next {j = k} p s) = Grows-trans i k j (Steps-Grows p) (Step-Grows s)
