-- ===== src/Common/Maps.antt =====
-- A Go map with string keys as an association list: a write replaces or adds the one entry of its
-- key. The order of iteration, which Go leaves open, is the order of the list.
use Prim.Native.String.{String}
use mathlib.Core.Path.{◌≡◌, refl}
use mathlib.Core.Bool.{Bool, true, false}
use mathlib.Core.Option.{Option, none, some}
use mathlib.Core.List.{List, [], ◌∷◌}
use native.Mathlib.Omega.{arith}
use text.Mathlib.TextPositions.{eq_refl}
use text.Mathlib.TextEquality.{eq_iff}
use text.Mathlib.Text.{◌==◌}
use dash_network_go.Common.Lists.{All, All-if}
use dash_network_go.Common.Tests.{if◌then◌else◌}

abbrev pub Map {ℓ} : Type ℓ → Type ℓ
Map V = List (String × V)

module _ {ℓ} {V : Type ℓ} where
  -- m[name], for the keys that are there
  unfoldable pub lookup : String → Map V → Option V
  lookup name ((key, value) ∷ rest) = if key == name then some value else lookup name rest
  lookup name [] = none

  -- m[name] = value, in place
  unfoldable pub insert : String → V → Map V → Map V
  insert name value ((key, old) ∷ rest) =
      let further = insert name value rest in
      if key == name then (name, value) ∷ rest else (key, old) ∷ further
  insert name value [] = (name, value) ∷ []

  -- Reading a missing key gives the zero value.
  unfoldable pub lookup_or : V → String → Map V → V
  lookup_or d k m = elim (lookup k m) [ none ↦ d | some v ↦ v ]

  -- A read after a write: the written value at its key, and at every other key what was there.
  pub lookup-insert :
      (name read : String) (value : V) (entries : Map V)
      → lookup read (insert name value entries)
        ≡ (if name == read then some value else lookup read entries)
  unfolding lookup insert
  lookup-insert name read value ((key, old) ∷ rest) =
      let further = lookup-insert name read value rest in
      ground (arith, eq_iff key read, eq_iff key name, eq_iff name read, further)
  lookup-insert name read value [] = refl

  pub lookup-insert_self :
      (name : String) (value : V) (entries : Map V)
      → lookup name (insert name value entries) ≡ some value
  lookup-insert_self name value entries = simp (lookup-insert name name value entries, eq_refl)

  -- What holds of every entry holds of every entry after a write of an entry that has it.
  pub All-insert {κ} :
      (P : String × V → Type κ) (name : String) (value : V) (entries : Map V)
      → P (name, value)
      → All P entries
      → All P (insert name value entries)
  unfolding insert
  All-insert P name value ((key, old) ∷ rest) new (this, others) =
      All-if P (key == name) ((name, value) ∷ rest) ((key, old) ∷ insert name value rest)
        (new, others) (this, All-insert P name value rest new others)
  All-insert P name value [] new all = (new, tt)

  pub lookup-insert_ne :
      (k j : String) (v : V) (m : Map V) → (k == j) ≡ false → lookup j (insert k v m) ≡ lookup j m
  lookup-insert_ne k j v m h = simp (lookup-insert, h)

  pub lookup_or-insert_self :
      (d : V) (k : String) (v : V) (m : Map V) → lookup_or d k (insert k v m) ≡ v
  unfolding lookup_or
  lookup_or-insert_self d k v m = rw (lookup-insert_self k v m, lookup_or)

  pub lookup_or-insert_ne :
      (d : V) (k j : String) (v : V) (m : Map V)
      → (k == j) ≡ false
      → lookup_or d j (insert k v m) ≡ lookup_or d j m
  unfolding lookup_or
  lookup_or-insert_ne d k j v m h = rw (lookup-insert_ne k j v m h, lookup_or)

-- A set of strings kept as a map to `true`.
unfoldable pub contains : String → List String → Bool
contains k [] = false
contains k (j ∷ l) = if j == k then true else contains k l
