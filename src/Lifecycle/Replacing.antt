-- ===== src/Lifecycle/Replacing.antt =====
-- What each round of upgradeTargets replaces.
use mathlib.Core.Path.{subst}
use dash_network_go.Common.{
  arith, String, Bool, true, false, Option, none, some, List, [], ◌∷◌, ◌≡◌, refl, sym, ap, ◌∙◌, ◌⊎◌,
  inl, inr, ◌&&◌, ◌||◌, not, ◌==◌, eq_iff, Bool-cases, lookup_or, lookup_or-insert_self,
  lookup_or-insert_ne, insert, contains, All, if◌then◌else◌,
}
use dash_network_go.Common.Result.{text, at, Result, ok, err}
use dash_network_go.Common.Holds.{Holds, Holds-bind, Holds-if}
use dash_network_go.Spec.Types.{role_components}
use dash_network_go.Provision.Types.{FleetImages}
use dash_network_go.Provision.Upgrade.{image_at}
use dash_network_go.Provision.Outside.{Outside}
use dash_network_go.Release.Lock.{Platform, Image, Artifacts}
use dash_network_go.Bootstrap.Plan.{platform_pin}
use dash_network_go.Lifecycle.Nodes.{Node}
use dash_network_go.Lifecycle.Upgrades.{
  Choice, set_pin, fold_result, repin, repin_core, core_image, is_skipped, platform_image,
}

-- A Core upgrade replaces Core alone. The other scopes keep Core: they replace the helper of every node
-- that has one, and of validators also the other components of the role, in the scope tenderdash
-- Tenderdash alone.
abbrev pub may_replace : String → String → String → Bool
may_replace scope role component =
    if scope == "core"
    then component == "core"
    else not (component == "core")
      && contains component (role_components role)
      && (role == "validator" || component == "helper")
      && (not (scope == "tenderdash") || component == "tenderdash")

image_at-set_pin_self :
    (name component pin : String) (images : FleetImages)
    → image_at (set_pin name component pin images) name component ≡ pin
unfolding image_at set_pin
image_at-set_pin_self name component pin images =
    ap (lookup_or "" component)
      (lookup_or-insert_self [] name (insert component pin (lookup_or [] name images)) images)
    ∙ lookup_or-insert_self "" component pin (lookup_or [] name images)

image_at-set_pin_ne :
    (name component pin n c : String) (images : FleetImages)
    → (name == n && component == c) ≡ false
    → image_at (set_pin name component pin images) n c ≡ image_at images n c
unfolding image_at set_pin
image_at-set_pin_ne name component pin n c images other = elim (Bool-cases (name == n)) [
  | inr elsewhere ↦ ap (lookup_or "" c) (
      lookup_or-insert_ne [] name n (insert component pin (lookup_or [] name images)) images
        elsewhere)
  | inl here' ↦
      let same = (eq_iff name n).0 here' in
      subst
        (λ m.
          lookup_or "" c
            (lookup_or [] m (insert name (insert component pin (lookup_or [] name images)) images))
          ≡ lookup_or "" c (lookup_or [] m images))
        same
        (ap (lookup_or "" c)
            (lookup_or-insert_self [] name (insert component pin (lookup_or [] name images)) images)
          ∙ lookup_or-insert_ne "" component c pin (lookup_or [] name images) (ground arith))
]

-- What a loop's rounds keep, the loop keeps.
pub fold_result-Holds :
    {A C : Type 0} (f : A → C → Result C) (P : A → Type 0) (Q : C → Type 0)
    → ((a : A) (c : C) → P a → Q c → Holds Q (f a c))
    → (l : List A) (c : C) → All P l
    → Q c
    → Holds Q (fold_result f l c)
unfolding fold_result
fold_result-Holds f P Q k [] c all q = q
fold_result-Holds f P Q k (a ∷ l) c (this, others) q =
    Holds-bind Q Q (f a c) (fold_result f l) (k a c this q)
      (λ c' q'. fold_result-Holds f P Q k l c' others q')

-- Every image is as before, or as `R` allows.
abbrev pub IsKept : FleetImages → (String → String → String → Type 0) → Choice → Type 0
IsKept from R s =
    (n c : String) → (image_at s.images n c ≡ image_at from n c) ⊎ R n c (image_at s.images n c)

module _ (x : Outside) (y : Artifacts) (from : FleetImages)
    (R : String → String → String → Type 0) where
  set_pin-IsKept :
      (name component pin : String) (s : Choice) (changed : Bool)
      → R name component pin
      → IsKept from R s
      → IsKept from R (record { images = set_pin name component pin s.images; changed = changed })
  set_pin-IsKept name component pin s changed new kept n c =
      elim (Bool-cases (name == n && component == c)) [
        | inr other ↦
            subst (λ v. (v ≡ image_at from n c) ⊎ R n c v)
              (sym (image_at-set_pin_ne name component pin n c s.images other)) (kept n c)
        | inl same ↦
            let e_n = (eq_iff name n).0 (ground arith) in
            let e_c = (eq_iff component c).0 (ground arith) in
            inr (
              subst (λ m. R m c (image_at (set_pin name component pin s.images) m c)) e_n
                (subst (λ d. R name d (image_at (set_pin name component pin s.images) name d)) e_c
                  (subst (R name component)
                    (sym (image_at-set_pin_self name component pin s.images)) new)))
      ]

  repin-IsKept :
      (t : Node) (i : Image) (ps : List Platform) (s : Choice)
      → All
          (λ (q : Platform).
            q.architecture ≡ t.architecture → R t.name i.component (platform_pin x y i q))
          ps
      → IsKept from R s
      → IsKept from R (repin x y from t i ps s)
  unfolding repin
  repin-IsKept t i [] s all kept = kept
  repin-IsKept t i (q ∷ ps) s (this, others) kept =
      repin-IsKept t i ps _ others (decided (q.architecture == t.architecture) refl)
    where
      decided :
          (b : Bool)
          → (q.architecture == t.architecture) ≡ b
          → IsKept from R (
              if b
              then record {
                images = set_pin t.name i.component (platform_pin x y i q) s.images;
                changed =
                    s.changed || not (platform_pin x y i q == image_at from t.name i.component);
              }
              else s)
      decided true is =
          set_pin-IsKept t.name i.component (platform_pin x y i q) s
            (s.changed || not (platform_pin x y i q == image_at from t.name i.component))
            (this ((eq_iff q.architecture t.architecture).0 is)) kept
      decided false is = kept

  -- One image for one node.
  module _ (scope : String) (t : Node) (i : Image) (s : Choice) (kept : IsKept from R s) where
    pinned :
        (o : Option (String × String))
        → All
            (λ (q : Platform).
              q.architecture ≡ t.architecture → R t.name i.component (platform_pin x y i q))
            i.platforms
        → Holds (IsKept from R) (elim o [
          | none ↦ err (at "invalid reference" i.pinned)
          | some d ↦ ok (repin x y from t i i.platforms s)
        ])
    pinned none all = tt
    pinned (some d) all = repin-IsKept t i i.platforms s all kept

    module _
        (all : may_replace scope t.role i.component ≡ true
          → All
              (λ (q : Platform).
                q.architecture ≡ t.architecture → R t.name i.component (platform_pin x y i q))
              i.platforms) where
      platform_image-IsKept :
          (scope == "core") ≡ false → Holds (IsKept from R) (platform_image x y from scope t i s)
      unfolding platform_image is_skipped
      platform_image-IsKept is = decided (is_skipped scope t.role i.component) refl
        where
          decided :
              (b : Bool)
              → is_skipped scope t.role i.component ≡ b
              → Holds (IsKept from R) (
                  if b then ok s else elim (x.new_digest i.pinned) [
                    | none ↦ err (at "invalid reference" i.pinned)
                    | some d ↦ ok (repin x y from t i i.platforms s)
                  ])
          decided true skip = kept
          decided false skip = pinned (x.new_digest i.pinned) (all (ground arith))

      same_repository :
          (current repository : String)
          → may_replace scope t.role i.component ≡ true
          → Holds (IsKept from R) (
              if current == repository
              then ok (repin x y from t i i.platforms s)
              else err (text "a Core upgrade keeps Core's image repository"))
      same_repository current repository may =
          Holds-if (IsKept from R) (current == repository) _ _
            (λ is. repin-IsKept t i i.platforms s (all may) kept) (λ is. tt)

      repin_core-IsKept :
          may_replace scope t.role i.component ≡ true
          → Holds (IsKept from R) (repin_core x y from t i s)
      unfolding repin_core
      repin_core-IsKept may =
          decided (x.new_digest i.pinned) (x.new_digest (image_at from t.name "core"))
        where
          decided :
              (o now : Option (String × String))
              → Holds (IsKept from R) (elim o [
                | none ↦ err (at "invalid reference" i.pinned)
                | some (repository, digest) ↦ elim now [
                  | none ↦ err (text "a Core upgrade keeps Core's image repository")
                  | some (current, digest_now) ↦
                      if current == repository
                      then ok (repin x y from t i i.platforms s)
                      else err (text "a Core upgrade keeps Core's image repository")
                ]
              ])
          decided none now = tt
          decided (some (repository, digest)) none = tt
          decided (some (repository, digest)) (some (current, digest_now)) =
              same_repository current repository may

      core_image-IsKept :
          (scope == "core") ≡ true → Holds (IsKept from R) (core_image x y from t i s)
      unfolding core_image
      core_image-IsKept is =
          Holds-if (IsKept from R) (i.component == "core") _ _
            (λ core. repin_core-IsKept (ground arith)) (λ other. kept)

      pub image-IsKept : Holds (IsKept from R) (
          (if scope == "core" then core_image x y from t i else platform_image x y from scope t i)
            s)
      image-IsKept = decided (scope == "core") refl
        where
          decided :
              (b : Bool)
              → (scope == "core") ≡ b
              → Holds
                  (IsKept from R)
                  ((if b then core_image x y from t i else platform_image x y from scope t i) s)
          decided true is = core_image-IsKept is
          decided false is = platform_image-IsKept is
