-- ===== src/Release/Lock.antt =====
-- internal/release/release.go: Resolve and Lock.Validate. The registry's Inspector is a parameter.
use dash_network_go.Common.{
  ℕ, String, Bool, false, Option, none, some, List, [], ◌∷◌, ◌||◌, not, ◌==◌, map, lookup,
  lookup_or, contains, length, eqb,
}
use dash_network_go.Common.Int.{ℤ, eqb_ℤ}
use dash_network_go.Common.Text.{sort_by}
use dash_network_go.Common.Result.{text, at, wrap, Result, ok, err, refuse, each, ◌>>=◌, ◌>>◌}
use dash_network_go.Spec.Types.{version, Network, image_components, architectures}
use dash_network_go.Spec.Validate.{validate}
use dash_network_go.Spec.Patterns.{is_sha256_digest}
use dash_network_go.Provision.Plan.{same_lists, same_text}
use dash_network_go.Provision.Outside.{Outside, ImageRef}

pub record Platform : Type 0 where
  pub os : String
  pub architecture : String
  pub digest : String

pub record Image : Type 0 where
  pub component : String
  pub requested : String
  pub pinned : String
  pub platforms : List Platform

pub record Lock : Type 0 where
  pub api_version : String
  pub kind : String
  pub network : String
  pub generation : ℤ
  pub spec_hash : String
  pub resolved_at : ℕ
  pub evidence : String
  pub images : List Image

abbrev pub verified : String
verified = "artifacts-verified"

-- What the release lock takes from outside the repository.
pub record Artifacts : Type 0 where
  -- name.ParseReference(_, StrictValidation): the repository, and the digest of a name.Digest
  pub parse_reference : String → Option ImageRef
  -- Network.Fingerprint: SHA-256 over canonical JSON
  pub fingerprint : Network → String
  -- the name of a repository's image with a digest: `repo.Context().Digest(d).Name()`
  pub digest_name : String → String → String

-- `original.DigestStr() != pinned.DigestStr()`, if the request names a digest
unfoldable pub changes_digest : Option String → String → Bool
changes_digest none pinned = false
changes_digest (some original) pinned = not (original == pinned)

module _ (x : Outside) (y : Artifacts) where
  -- the pinned reference of an image, of the repository that was requested
  unfoldable pub check_pin : Image → String → Result (Unit {0})
  unfolding changes_digest
  check_pin i requested = elim (y.parse_reference requested) [
    | none ↦ err (at "invalid reference" requested)
    | some ref ↦ elim (x.new_digest i.pinned) [
      | none ↦ err (at "must pin the requested repository by sha256" i.component)
      | some (repository, digest) ↦ do
        refuse (not (is_sha256_digest digest) || not (ref.repository == repository))
            (at "must pin the requested repository by sha256" i.component)
        refuse (changes_digest ref.digest digest)
            (at "changed an explicitly requested digest" i.component)
    ]
  ]

  unfoldable pub check_platform : Image → Platform → Result (Unit {0})
  check_platform i p =
      refuse (not (p.os == "linux") || not (is_sha256_digest p.digest))
        (at "invalid platform descriptor" i.component)

  -- the platforms, sorted, are the network's architectures
  unfoldable pub check_platforms : Network → Image → Result (Unit {0})
  unfolding check_platform sort_by same_lists same_text
  check_platforms n i = do
    refuse (not (eqb (length i.platforms) (length (architectures n))))
        (at "platform set differs from network architectures" i.component)
    each (check_platform i) i.platforms
    refuse
        (not (
          same_lists same_text (architectures n)
            (sort_by (λ (s : String). s) (map (λ (p : Platform). p.architecture) i.platforms))))
        (at "missing/duplicate architecture" i.component)

  -- an image that the definition names, whose component is not among `seen`
  unfoldable pub check_image : Network → List String → Image → Result (Unit {0})
  unfolding check_pin check_platforms
  check_image n seen i = elim (lookup i.component n.images) [
    | none ↦ err (at "is duplicated or differs from intent" i.component)
    | some requested ↦ do
      refuse (contains i.component seen || not (i.requested == requested))
          (at "is duplicated or differs from intent" i.component)
      check_pin i requested
      check_platforms n i
  ]

  -- the loop over the images, with the components seen
  unfoldable pub check_images : Network → List String → List Image → Result (Unit {0})
  unfolding check_image
  check_images n seen [] = ok tt
  check_images n seen (i ∷ is) =
      let rest = check_images n (i.component ∷ seen) is in check_image n seen i >> rest

  unfoldable pub validate_lock : Lock → Network → Result (Unit {0})
  unfolding check_images
  validate_lock l n = do
    refuse
        (not (l.api_version == version)
          || not (l.kind == "ReleaseLock")
          || not (l.evidence == verified)
          || eqb l.resolved_at 0)
        (text "invalid release lock version, kind, evidence, or timestamp")
    refuse
        (not (l.network == n.metadata.name)
          || not (eqb_ℤ l.generation n.chain.generation)
          || not (l.spec_hash == y.fingerprint n))
        (text "release lock does not match this network definition/generation; resolve it again")
    refuse (not (eqb (length l.images) (length n.images)))
        (text "release lock component set is incomplete")
    check_images n [] l.images

  -- the loop of Resolve over the components, with the registry's answers
  resolve_images :
      (String → List String → Result Image) → Network → List String → Result (List Image)
  unfolding lookup_or lookup
  resolve_images inspect n [] = ok []
  resolve_images inspect n (c ∷ cs) =
      let rest = resolve_images inspect n cs in
      elim (inspect (lookup_or "" c n.images) (architectures n)) [
        | err e ↦ err (wrap "resolve" e)
        | ok i ↦ rest >>= λ images. ok (record i { component = c } ∷ images)
      ]

  -- Resolve at the time `now`
  unfoldable pub resolve : (String → List String → Result Image) → Network → ℕ → Result Lock
  unfolding resolve_images
  resolve inspect n now = do
    validate x.parse_strict n
    images ← resolve_images inspect n (image_components n)
    let lock : Lock = record {
      api_version = version;
      kind = "ReleaseLock";
      network = n.metadata.name;
      generation = n.chain.generation;
      spec_hash = y.fingerprint n;
      resolved_at = now;
      evidence = verified;
      images = images;
    }
    validate_lock lock n
    ok lock
