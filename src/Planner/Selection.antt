-- ===== src/Planner/Selection.antt =====
-- What a plan of an operation selects.
use mathlib.Core.Path.{subst}
use dash_network_go.Common.{
  arith, String, Bool, true, false, Option, none, some, List, [], ◌∷◌, ◌≡◌, refl, sym, eq_iff,
  Bool-cases, ◌⊎◌, inl, inr, ◌||◌, ◌&&◌, not, ◌==◌, All, All-if, contains, length, eqb,
  if◌then◌else◌,
}
use dash_network_go.Common.Text.{sort_by, sort_insert, before}
use dash_network_go.Common.Result.{text, ok, err}
use dash_network_go.Common.Holds.{
  Holds, Holds-if, Holds-ok, Holds-after, Holds-bind, Holds-then, Holds-last, Holds-weaken,
}
use dash_network_go.Spec.Types.{NodeGroup, Network, components}
use dash_network_go.Spec.Validate.{validate}
use dash_network_go.Provision.Outside.{Outside}
use dash_network_go.Release.Lock.{Image, Lock, Artifacts, validate_lock}
use dash_network_go.Planner.Build.{
  OperationPlan, selected_in, selected_images, is_target, selected_groups, described,
  check_operation, identified, build_operation,
}

-- What holds of all elements holds of all sorted ones.
module _ {A : Type 0} (by_key : A → String) (P : A → Type 0) where
  All-sort_insert : (a : A) (l : List A) → P a → All P l → All P (sort_insert by_key a l)
  unfolding sort_insert
  All-sort_insert a [] this all = (this, tt)
  All-sort_insert a (b ∷ l) this (first, others) =
      All-if P (before (by_key b) (by_key a)) (b ∷ sort_insert by_key a l) (a ∷ b ∷ l)
        (first, All-sort_insert a l this others) (this, (first, others))

  All-sort_by : (l : List A) → All P l → All P (sort_by by_key l)
  unfolding sort_by
  All-sort_by [] all = tt
  All-sort_by (a ∷ l) (this, others) =
      All-sort_insert a (sort_by by_key l) this (All-sort_by l others)

-- The components that a scope replaces.
abbrev pub in_scope : String → String → Bool
in_scope scope component =
    if scope == "all"
    then true
    else if scope == "platform"
    then not (component == "core")
    else component == scope

abbrev platform : List String
platform = "dapi" ∷ "drive" ∷ "gateway" ∷ "helper" ∷ "tenderdash" ∷ []

no_core : contains "core" platform ≡ true → ⊥
unfolding contains
no_core h = cc

some_eq : {l k : List String} → some l ≡ some k → l ≡ k
some_eq h = cc

module _ (scope : String) where
  All-selected_groups :
      (gs : List NodeGroup) → All (λ g. is_target scope g ≡ true) (selected_groups scope gs)
  unfolding selected_groups
  All-selected_groups [] = tt
  All-selected_groups (g ∷ gs) = decided (is_target scope g) refl (All-selected_groups gs)
    where
      decided :
          (b : Bool)
          → is_target scope g ≡ b
          → All (λ h. is_target scope h ≡ true) (selected_groups scope gs)
          → All
              (λ h. is_target scope h ≡ true)
              (if b then g ∷ selected_groups scope gs else selected_groups scope gs)
      decided true is rest = (is, rest)
      decided false is rest = rest

  selected-in_scope :
      (selected : List String) (component : String)
      → selected_in scope ≡ some selected
      → contains component selected ≡ true
      → in_scope scope component ≡ true
  unfolding selected_in contains
  selected-in_scope selected component is h =
      decided (scope == "all") (scope == "platform") (scope == "core" || scope == "tenderdash") is
    where
      core_free :
          (b : Bool) → (component == "core") ≡ b → contains component platform ≡ true → not b ≡ true
      core_free false is_core within = refl
      core_free true is_core within = absurd (
          no_core
            (subst (λ c. contains c platform ≡ true) ((eq_iff component "core").0 is_core) within))

      alone : contains component (scope ∷ []) ≡ true → (component == scope) ≡ true
      alone within = ground (arith, eq_iff scope component, eq_iff component scope)

      decided :
          (a b c : Bool)
          → (if a
              then some components
              else if b
              then some platform
              else if c
              then some (scope ∷ [])
              else none)
            ≡ some selected
          → (if a then true else if b then not (component == "core") else component == scope) ≡ true
      decided true b c which = refl
      decided false true c which =
          core_free (component == "core") refl
            (subst (λ l. contains component l ≡ true) (some_eq (sym which)) h)
      decided false false true which =
          alone (subst (λ l. contains component l ≡ true) (some_eq (sym which)) h)
      decided false false false which = absurd (cc)

  All-selected_images :
      (selected : List String)
      → selected_in scope ≡ some selected
      → (is : List Image)
      → All (λ i. in_scope scope i.component ≡ true) (selected_images selected is)
  unfolding selected_images
  All-selected_images selected which [] = tt
  All-selected_images selected which (i ∷ is) =
      decided (contains i.component selected) refl (All-selected_images selected which is)
    where
      decided :
          (b : Bool)
          → contains i.component selected ≡ b
          → All (λ k. in_scope scope k.component ≡ true) (selected_images selected is)
          → All
              (λ k. in_scope scope k.component ≡ true)
              (if b then i ∷ selected_images selected is else selected_images selected is)
      decided true h rest = (selected-in_scope selected i.component which h, rest)
      decided false h rest = rest

-- What a plan of an operation says of its selection.
abbrev pub IsSelection : String → String → Network → OperationPlan → Type 0
IsSelection operation scope n p =
    All (λ (i : Image). in_scope scope i.component ≡ true) p.images
    × All (λ (g : NodeGroup). is_target scope g ≡ true) p.targets
    × (eqb (length p.targets) 0 ≡ false)
    × (p.executable ≡ false)

module _ (x : Outside) (y : Artifacts) (digest : OperationPlan → String) where
  identified-IsSelection :
      (n : Network) (lock : Lock) (operation scope : String) (o : Option (List String))
      → selected_in scope ≡ o
      → Holds (IsSelection operation scope n) (elim o [
        | none ↦ err (text "scope must be all, platform, core, or tenderdash")
        | some selected ↦
            identified x y digest (described x y digest n lock operation scope selected)
      ])
  unfolding identified described
  identified-IsSelection n lock operation scope none which = tt
  identified-IsSelection n lock operation scope (some selected) which =
      let targets = sort_by (λ (g : NodeGroup). g.name) (selected_groups scope n.nodes) in
      Holds-if (IsSelection operation scope n) (eqb (length targets) 0) _ _ (λ none_left. tt)
        λ some_left. (
          All-sort_by (λ (i : Image). i.component) _ (selected_images selected lock.images)
              (All-selected_images scope selected which lock.images),
          All-sort_by (λ (g : NodeGroup). g.name) _ (selected_groups scope n.nodes)
              (All-selected_groups scope n.nodes),
          some_left,
          refl,
        )

  allowed_operation :
      (n : Network) (operation scope : String)
      → Holds
          (λ u.
            ((operation == "create") ≡ false) ⊎ ((n.chain.chain_type ≡ "devnet") × (scope ≡ "all")))
          (check_operation x y digest n operation scope)
  unfolding check_operation
  allowed_operation n operation scope =
      Holds-then _ (not (operation == "create") && not (operation == "upgrade")) _ _ λ known.
        Holds-last _
          (operation == "create" && (not (n.chain.chain_type == "devnet") || not (scope == "all")))
          _
          λ allowed. elim (Bool-cases (operation == "create")) [
            | inr other ↦ inl other
            | inl creates ↦ inr (
              (eq_iff n.chain.chain_type "devnet").0 (ground arith),
              (eq_iff scope "all").0 (ground arith),
            )
          ]

  -- A plan of an operation that Build returns is not executable, has only images of components in the
  -- scope (all components, all but Core, or the one that the scope names) and at least one node group,
  -- each a group that the scope takes; and it creates only a devnet, with the scope all.
  pub build_operation-IsSelection :
      (n : Network) (lock : Lock) (operation scope : String) (p : OperationPlan)
      → build_operation x y digest n lock operation scope ≡ ok p
      → (((operation == "create") ≡ false) ⊎ ((n.chain.chain_type ≡ "devnet") × (scope ≡ "all")))
        × IsSelection operation scope n p
  unfolding build_operation
  build_operation-IsSelection n lock operation scope p h =
      Holds-ok _ (build_operation x y digest n lock operation scope)
        (Holds-after
          (λ p'.
            (((operation == "create") ≡ false)
              ⊎ ((n.chain.chain_type ≡ "devnet") × (scope ≡ "all")))
            × IsSelection operation scope n p')
          (validate x.parse_strict n) _
          λ u. Holds-after _ (validate_lock x y lock n) _ λ v.
            Holds-bind _ _ (check_operation x y digest n operation scope) _
              (allowed_operation n operation scope)
              λ w allowed.
                Holds-weaken (IsSelection operation scope n)
                  (λ p'.
                    (((operation == "create") ≡ false)
                      ⊎ ((n.chain.chain_type ≡ "devnet") × (scope ≡ "all")))
                    × IsSelection operation scope n p')
                  _ (λ p' selection. (allowed, selection))
                  (identified-IsSelection n lock operation scope (selected_in scope) refl))
        h
