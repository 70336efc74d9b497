-- ===== src/Release/Pinned.antt =====
-- What a valid release lock pins.
use mathlib.Core.Path.{subst}
use dash_network_go.Common.{
  arith, String, true, false, Option, none, some, List, [], ◌∷◌, ◌≡◌, refl, sym, ap, ◌∙◌, ◌⊎◌, inl,
  inr, ◌||◌, not, ◌==◌, eq_iff, map, lookup, contains, length, eqb, All,
}
use dash_network_go.Common.Int.{eqb_ℤ}
use dash_network_go.Common.Text.{sort_by}
use dash_network_go.Common.Result.{at, ok, err, refuse, each, ◌>>◌}
use dash_network_go.Common.Holds.{
  Holds, Holds-bind, Holds-then, Holds-last, Holds-ok, Holds-weaken, skip,
}
use dash_network_go.Spec.Types.{version, Network, architectures}
use dash_network_go.Spec.Patterns.{is_sha256_digest}
use dash_network_go.Provision.Plan.{same_lists, same_text}
use dash_network_go.Provision.Outside.{Outside, ImageRef}
use dash_network_go.Release.Lock.{
  Platform, Image, Lock, Artifacts, verified, changes_digest, check_pin, check_platform,
  check_platforms, check_image, check_images, validate_lock,
}

abbrev arch_of : Platform → String
arch_of p = p.architecture

-- The pin is in the repository that was requested, by a SHA-256 digest, which is the requested one if
-- the request names one.
abbrev pub IsPin : Outside → Artifacts → Image → String → Type 0
IsPin x y i requested =
    (ref : ImageRef) × (digest : String) × (y.parse_reference requested ≡ some ref)
    × (x.new_digest i.pinned ≡ some (ref.repository, digest))
    × (is_sha256_digest digest ≡ true)
    × ((ref.digest ≡ none) ⊎ (ref.digest ≡ some digest))

-- The image that the definition asks for, pinned, with one platform for each architecture.
abbrev pub IsPinned : Outside → Artifacts → Network → Image → Type 0
IsPinned x y n i =
    (lookup i.component n.images ≡ some i.requested)
    × IsPin x y i i.requested
    × (sort_by (λ (s : String). s) (map (λ (p : Platform). p.architecture) i.platforms)
        ≡ architectures n)

-- No component is one of `seen`, and none stands twice.
abbrev pub AreNewComponents : List String → List Image → Type 0
AreNewComponents seen [] = Unit
AreNewComponents seen (i ∷ is) =
    (contains i.component seen ≡ false) × AreNewComponents (i.component ∷ seen) is

same_lists-eq : (xs ys : List String) → same_lists same_text xs ys ≡ true → xs ≡ ys
unfolding same_lists same_text
same_lists-eq [] [] h = refl
same_lists-eq [] (b ∷ ys) h = cc
same_lists-eq (a ∷ xs) [] h = cc
same_lists-eq (a ∷ xs) (b ∷ ys) h =
    let rest = same_lists-eq xs ys (ground arith) in let here' = (eq_iff a b).0 (ground arith) in cc

kept_digest :
    (o : Option String) (d : String) → changes_digest o d ≡ false → (o ≡ none) ⊎ (o ≡ some d)
unfolding changes_digest
kept_digest none d h = inl refl
kept_digest (some e) d h = inr (ap some ((eq_iff e d).0 (ground arith)))

module _ (x : Outside) (y : Artifacts) where
  check_pin-Holds :
      (i : Image) (requested : String)
      → Holds (λ u. IsPin x y i requested) (check_pin x y i requested)
  unfolding check_pin
  check_pin-Holds i requested =
      decided (y.parse_reference requested) (x.new_digest i.pinned) refl refl
    where
      decided :
          (o : Option ImageRef) (p : Option (String × String))
          → y.parse_reference requested ≡ o
          → x.new_digest i.pinned ≡ p
          → Holds
              (λ u. IsPin x y i requested)
              (elim o [
                | none ↦ err (at "invalid reference" requested)
                | some ref ↦ elim p [
                  | none ↦ err (at "must pin the requested repository by sha256" i.component)
                  | some (repository, digest) ↦
                      refuse
                        (not (is_sha256_digest digest) || not (ref.repository == repository))
                        (at "must pin the requested repository by sha256" i.component)
                      >> refuse
                          (changes_digest ref.digest digest)
                          (at "changed an explicitly requested digest" i.component)
                ]
              ])
      decided none p is_ref is_pin = tt
      decided (some ref) none is_ref is_pin = tt
      decided (some ref) (some (repository, digest)) is_ref is_pin =
          Holds-then (λ u. IsPin x y i requested)
            (not (is_sha256_digest digest) || not (ref.repository == repository)) _ _
            λ sound.
              Holds-last (λ u. IsPin x y i requested) (changes_digest ref.digest digest) _
                λ kept.
                  let same = (eq_iff ref.repository repository).0 (ground arith) in
                  (ref, digest, is_ref, cc, ground arith, kept_digest ref.digest digest kept)

  check_platforms-Holds :
      (n : Network) (i : Image)
      → Holds
          (λ u.
            sort_by (λ (s : String). s) (map (λ (p : Platform). p.architecture) i.platforms)
            ≡ architectures n)
          (check_platforms x y n i)
  unfolding check_platforms
  check_platforms-Holds n i =
      skip _ (refuse (not (eqb (length i.platforms) (length (architectures n)))) _) _ (
        skip _ (each (check_platform x y i) i.platforms) _ (
          Holds-last _
            (not (
              same_lists same_text (architectures n)
                (sort_by (λ (s : String). s) (map (λ (p : Platform). p.architecture) i.platforms))))
            _ (λ same. sym (same_lists-eq _ _ (ground arith)))))

  check_image-Holds :
      (n : Network) (seen : List String) (i : Image)
      → Holds
          (λ u. (contains i.component seen ≡ false) × IsPinned x y n i)
          (check_image x y n seen i)
  unfolding check_image
  check_image-Holds n seen i = decided (lookup i.component n.images) refl
    where
      decided :
          (o : Option String)
          → lookup i.component n.images ≡ o
          → Holds
              (λ u. (contains i.component seen ≡ false) × IsPinned x y n i)
              (elim o [
                | none ↦ err (at "is duplicated or differs from intent" i.component)
                | some requested ↦
                    refuse
                      (contains i.component seen || not (i.requested == requested))
                      (at "is duplicated or differs from intent" i.component)
                    >> (check_pin x y i requested >> check_platforms x y n i)
              ])
      decided none is = tt
      decided (some requested) is =
          Holds-then _ (contains i.component seen || not (i.requested == requested)) _ _ λ sound.
            let same = (eq_iff i.requested requested).0 (ground arith) in
            Holds-bind (λ u. IsPin x y i requested) _ (check_pin x y i requested) _
              (check_pin-Holds i requested)
              λ u pin.
                Holds-weaken _ _ (check_platforms x y n i)
                  (λ u sorted. (
                    ground arith,
                    (is ∙ ap some (sym same), subst (IsPin x y i) (sym same) pin, sorted),
                  ))
                  (check_platforms-Holds n i)

  check_images-Holds :
      (n : Network) (seen : List String) (is : List Image)
      → Holds (λ u. AreNewComponents seen is × All (IsPinned x y n) is) (check_images x y n seen is)
  unfolding check_images
  check_images-Holds n seen [] = (tt, tt)
  check_images-Holds n seen (i ∷ is) =
      Holds-bind (λ u. (contains i.component seen ≡ false) × IsPinned x y n i) _
        (check_image x y n seen i) _ (check_image-Holds n seen i)
        λ u (fresh, pinned).
          Holds-weaken _ _ (check_images x y n (i.component ∷ seen) is)
            (λ u (others, pins). ((fresh, others), (pinned, pins)))
            (check_images-Holds n (i.component ∷ seen) is)

  -- A release lock that Lock.Validate accepts holds as many images as the network definition names, no
  -- component twice, and each image is the one that the definition requests for its component, pinned in
  -- the requested repository by a SHA-256 digest, which is the requested digest where the request names
  -- one, with one platform for each architecture of the network.
  pub validate_lock-IsPinned :
      (l : Lock) (n : Network)
      → validate_lock x y l n ≡ ok tt
      → (length l.images ≡ length n.images)
        × AreNewComponents [] l.images
        × All (IsPinned x y n) l.images
  unfolding validate_lock
  validate_lock-IsPinned l n h =
      Holds-ok
        (λ u.
          (length l.images ≡ length n.images)
          × AreNewComponents [] l.images
          × All (IsPinned x y n) l.images)
        (validate_lock x y l n)
        (skip _
          (refuse
            (not (l.api_version == version)
              || not (l.kind == "ReleaseLock")
              || not (l.evidence == verified)
              || eqb l.resolved_at 0)
            _)
          _
          (skip _
            (refuse
              (not (l.network == n.metadata.name)
                || not (eqb_ℤ l.generation n.chain.generation)
                || not (l.spec_hash == y.fingerprint n))
              _)
            _
            (Holds-then _ (not (eqb (length l.images) (length n.images))) _ _ λ complete.
              Holds-weaken _ _ (check_images x y n [] l.images)
                (λ u (fresh, pins). (ground arith, fresh, pins))
                (check_images-Holds n [] l.images))))
        h
