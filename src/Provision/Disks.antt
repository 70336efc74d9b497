-- ===== src/Provision/Disks.antt =====
-- validateImageDisks of preflight.go: which disks an accepted image declares.
use native.Mathlib.Omega.{arith}
use dash_network_go.Common.{
  ℕ, suc, ◌+◌, String, Bool, true, false, Option, none, some, List, [], ◌∷◌, ◌≡◌, refl, ◌⊎◌, inl,
  inr, ◌==◌, not, ◌||◌, All, contains, eq_iff, if◌then◌else◌,
}
use dash_network_go.Common.Int.{ℤ, pos, ltb_ℤ}
use dash_network_go.Common.Result.{Result, ok, err}
use dash_network_go.Common.Holds.{Holds, Holds-if, Holds-weaken}
use dash_network_go.Spec.Patterns.{is_ephemeral_device}
use dash_network_go.Provision.Cloud.{Mapping, Image}
use dash_network_go.Provision.Preflight.{check_mappings, one_root, validate_image_disks}

-- The number of mappings of the root device.
abbrev pub roots_in : String → List Mapping → ℕ
roots_in root [] = 0
roots_in root (m ∷ ms) =
    let rest = roots_in root ms in if m.device_name == root then suc rest else rest

-- A root mapping is an EBS disk of at least 1 GiB and no larger than requested; any other is an
-- ephemeral instance store.
abbrev pub IsRootDisk : ℤ → Mapping → Type 0
IsRootDisk size m =
    (n : ℤ) × (m.ebs_size ≡ some n)
    × (ltb_ℤ n (pos 1) ≡ false)
    × (ltb_ℤ size n ≡ false)
    × (m.virtual_name ≡ "")

abbrev pub IsAllowed : String → ℤ → Mapping → Type 0
IsAllowed root size m =
    ((m.device_name ≡ root) × IsRootDisk size m)
    ⊎ (((m.device_name == root) ≡ false)
        × (m.ebs_size ≡ none)
        × (is_ephemeral_device m.virtual_name ≡ true))

abbrev bad_root : ℤ → String → Option ℤ → Bool
bad_root size v o = elim o [
  | none ↦ true
  | some n ↦ not (v == "") || ltb_ℤ n (pos 1) || ltb_ℤ size n
]

abbrev is_ebs : Option ℤ → Bool
is_ebs o = elim o [ none ↦ false | some n ↦ true ]

fitting :
    (size : ℤ) (v : String) (o : Option ℤ)
    → bad_root size v o ≡ false
    → (n : ℤ) × (o ≡ some n) × (ltb_ℤ n (pos 1) ≡ false) × (ltb_ℤ size n ≡ false) × (v ≡ "")
fitting size v none h = grind arith
fitting size v (some n) h = (n, refl, ground arith, ground arith, (eq_iff v "").0 (ground arith))

no_ebs : (o : Option ℤ) (b c : Bool) → (is_ebs o || not b || c) ≡ false → (o ≡ none) × (b ≡ true)
no_ebs none b c h = (refl, ground arith)
no_ebs (some n) b c h = grind arith

module _ (root : String) (size : ℤ) where
  Accepted : ℕ → List Mapping → ℕ → Type 0
  Accepted roots ms n = (n ≡ roots + roots_in root ms) × All (IsAllowed root size) ms

  check_mappings-Holds :
      (devices virtuals : List String) (roots : ℕ) (ms : List Mapping)
      → Holds (Accepted roots ms) (check_mappings root size devices virtuals roots ms)
  unfolding check_mappings Accepted
  check_mappings-Holds devices virtuals roots [] = (omega arith, tt)
  check_mappings-Holds devices virtuals roots (m ∷ ms) =
      let Q = Accepted roots (m ∷ ms) in
      Holds-if Q (m.device_name == "" || contains m.device_name devices || m.no_device) _ _
        (λ e. tt)
        λ e.
          Holds-if Q (m.device_name == root) _ _
            (λ is.
              Holds-if Q (bad_root size m.virtual_name m.ebs_size) _ _ (λ bad. tt)
                λ fits.
                  Holds-weaken (Accepted (suc roots) ms) Q _
                    (λ n (total, all). (
                      ground arith,
                      (
                        inl (
                          (eq_iff m.device_name root).0 is,
                          fitting size m.virtual_name m.ebs_size fits,
                        ),
                        all,
                      ),
                    ))
                    (check_mappings-Holds (m.device_name ∷ devices) virtuals (suc roots) ms))
            λ isnt.
              Holds-if Q
                (is_ebs m.ebs_size
                  || not (is_ephemeral_device m.virtual_name)
                  || contains m.virtual_name virtuals)
                _ _ (λ bad. tt)
                λ fine.
                  let (absent, ephemeral) =
                    no_ebs m.ebs_size (is_ephemeral_device m.virtual_name)
                      (contains m.virtual_name virtuals) fine in
                  Holds-weaken (Accepted roots ms) Q _
                    (λ n (total, all). (ground arith, (inr (isnt, absent, ephemeral), all)))
                    (check_mappings-Holds (m.device_name ∷ devices) (m.virtual_name ∷ virtuals)
                      roots ms)

one_root-ok :
    (root : String) (size : ℤ) (ms : List Mapping) (r : Result ℕ)
    → Holds (Accepted root size 0 ms) r
    → one_root r ≡ ok tt
    → (roots_in root ms ≡ 1) × All (IsAllowed root size) ms
unfolding one_root Accepted
one_root-ok root size ms (ok n) (total, all) h = (grind arith, all)
one_root-ok root size ms (err e) q h = grind arith

-- An image that validateImageDisks accepts maps its root device exactly once, to an EBS disk of at
-- least 1 GiB and no larger than requested, and every other device to an ephemeral instance store
-- without an EBS disk.
pub validate_image_disks-ok :
    (i : Image) (size : ℤ)
    → validate_image_disks i size ≡ ok tt
    → (roots_in i.root_device_name i.mappings ≡ 1)
      × All (IsAllowed i.root_device_name size) i.mappings
unfolding validate_image_disks
validate_image_disks-ok i size h =
    one_root-ok i.root_device_name size i.mappings _
      (check_mappings-Holds i.root_device_name size [] [] 0 i.mappings) h
