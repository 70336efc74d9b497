-- ===== src/Common/Regex.antt =====
-- The anchored regular expressions of the validators (Go's regexp, `^ … $`), matched by
-- derivatives on the code points of a text.
use Prim.Native.Nat.{ℕ, zero, suc}
use Prim.Native.Char.{code}
use Prim.Native.String.{String}
use mathlib.Core.Bool.{Bool, true, false, ◌&&◌, ◌||◌}
use mathlib.Core.List.{List, [], ◌∷◌}
use mathlib.Core.Path.{◌≡◌, refl}
use dash_network_go.Common.Tests.{leb, if◌then◌else◌}

abbrev pub codes : String → List ℕ
codes String.[] = []
codes (String.◌∷◌ c s) = code c ∷ codes s

pub data Regex : Type 0 where
  never empty : Regex
  -- a class as ranges of code points, `[a-z0-9]`
  one_of : List (ℕ × ℕ) → Regex
  seq alt : Regex → Regex → Regex
  star : Regex → Regex

in_ranges : List (ℕ × ℕ) → ℕ → Bool
in_ranges [] c = false
in_ranges ((lo, hi) ∷ r) c = (leb lo c && leb c hi) || in_ranges r c

nullable : Regex → Bool
nullable never = false
nullable empty = true
nullable (one_of r) = false
nullable (seq a b) = nullable a && nullable b
nullable (alt a b) = nullable a || nullable b
nullable (star a) = true

-- Constructors that drop what cannot match, so that derivatives stay small.
seq_of : Regex → Regex → Regex
seq_of never b = never
seq_of empty b = b
seq_of a b = seq a b

alt_of : Regex → Regex → Regex
alt_of never b = b
alt_of a never = a
alt_of a b = alt a b

derivative : ℕ → Regex → Regex
unfolding in_ranges nullable seq_of alt_of
derivative c never = never
derivative c empty = never
derivative c (one_of r) = if in_ranges r c then empty else never
derivative c (seq a b) =
    let later = derivative c b in
    let first = seq_of (derivative c a) b in if nullable a then alt_of first later else first
derivative c (alt a b) = alt_of (derivative c a) (derivative c b)
derivative c (star a) = seq_of (derivative c a) (star a)

unfoldable pub matches_codes : Regex → List ℕ → Bool
unfolding derivative
matches_codes r [] = nullable r
matches_codes r (c ∷ s) = matches_codes (derivative c r) s

unfoldable pub matches : Regex → String → Bool
unfolding matches_codes
matches r s = matches_codes r (codes s)

-- Building blocks: a literal, `x{n}`, `x{0,n}`, `x+`.
unfoldable pub literal : List ℕ → Regex
literal [] = empty
literal (c ∷ s) = seq (one_of ((c, c) ∷ [])) (literal s)

unfoldable pub word : String → Regex
unfolding literal
word s = literal (codes s)

unfoldable pub times : ℕ → Regex → Regex
times zero r = empty
times (suc n) r = seq r (times n r)

unfoldable pub up_to : ℕ → Regex → Regex
up_to zero r = empty
up_to (suc n) r = alt empty (seq r (up_to n r))

unfoldable pub plus : Regex → Regex
plus r = seq r (star r)

abbrev pub lower : Regex
lower = one_of ((b'a', b'z') ∷ [])

abbrev pub digit : Regex
digit = one_of ((b'0', b'9') ∷ [])

abbrev pub hex : Regex
hex = one_of ((b'0', b'9') ∷ (b'a', b'f') ∷ [])

account_matches : matches (times 12 digit) "123456789012" ≡ true
unfolding matches times
account_matches = refl

account_refuses : matches (times 12 digit) "12345678901x" ≡ false
unfolding matches times
account_refuses = refl
