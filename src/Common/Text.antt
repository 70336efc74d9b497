-- ===== src/Common/Text.antt =====
-- What the code takes of Go's `strings`, `fmt`, `sort` and `net/netip`.
use Prim.Native.Nat.{ℕ, zero, suc, ◌+◌, ◌-◌, ◌*◌, ◌/◌, ◌%◌, Ordering}
use Prim.Native.Char.{Char, code}
use Prim.Native.String.{String, compare, ◌++◌}
use mathlib.Core.Bool.{Bool, true, false, ◌&&◌, ◌||◌, not}
use mathlib.Core.Option.{Option, none, some}
use mathlib.Core.List.{List, [], ◌∷◌}
use dash_network_go.Common.Tests.{ltb, leb, eqb, if◌then◌else◌}
use dash_network_go.Common.Regex.{codes}

contains_code : ℕ → List ℕ → Bool
contains_code c [] = false
contains_code c (d ∷ l) = eqb c d || contains_code c l

any_code : List ℕ → List ℕ → Bool
any_code [] set = false
any_code (c ∷ l) set = contains_code c set || any_code l set

-- strings.ContainsAny, with the set as code points
unfoldable pub contains_any : String → List ℕ → Bool
unfolding contains_code any_code
contains_any s set = any_code (codes s) set

-- the part behind the last `/`, `s[strings.LastIndex(s, "/")+1:]`
after_slash : List ℕ → List ℕ → List ℕ
after_slash [] acc = acc
after_slash (c ∷ l) acc = after_slash l (if eqb c b'/' then l else acc)

-- strings.Contains(s[strings.LastIndex(s, "/")+1:], ":")
unfoldable pub has_tag : String → Bool
unfolding after_slash contains_code
has_tag s = contains_code b':' (after_slash (codes s) (codes s))

-- strings.Split by one character
cons_first : Char → List String → List String
cons_first c [] = (String.◌∷◌ c "") ∷ []
cons_first c (s ∷ rest) = (String.◌∷◌ c s) ∷ rest

unfoldable pub split_on : ℕ → String → List String
unfolding cons_first
split_on d String.[] = "" ∷ []
split_on d (String.◌∷◌ c s) =
    let rest = split_on d s in if eqb (code c) d then "" ∷ rest else cons_first c rest

lower_code : ℕ → ℕ
lower_code c = if leb b'A' c && leb c b'Z' then c + 32 else c

is_prefix : List ℕ → List ℕ → Bool
is_prefix [] s = true
is_prefix (c ∷ p) [] = false
is_prefix (c ∷ p) (d ∷ s) = eqb c d && is_prefix p s

lower_codes : List ℕ → List ℕ
lower_codes [] = []
lower_codes (c ∷ s) = lower_code c ∷ lower_codes s

-- strings.HasPrefix
unfoldable pub has_prefix : String → String → Bool
unfolding is_prefix
has_prefix s p = is_prefix (codes p) (codes s)

after_prefix : String → String → Option String
after_prefix String.[] s = some s
after_prefix (String.◌∷◌ c p) String.[] = none
after_prefix (String.◌∷◌ c p) (String.◌∷◌ d s) =
    let rest = after_prefix p s in if eqb (code c) (code d) then rest else none

-- strings.TrimPrefix
unfoldable pub trim_prefix : String → String → String
unfolding after_prefix
trim_prefix s p = elim (after_prefix p s) [ none ↦ s | some rest ↦ rest ]

-- strings.HasPrefix(strings.ToLower(s), p) for an ASCII `p` without `k`: outside ASCII, `ToLower`
-- gives no other ASCII letter.
unfoldable pub has_prefix_folded : String → String → Bool
unfolding is_prefix lower_code lower_codes
has_prefix_folded s p = is_prefix (codes p) (lower_codes (codes s))

digit_text : ℕ → String
digit_text zero = "0"
digit_text (suc zero) = "1"
digit_text (suc (suc zero)) = "2"
digit_text (suc (suc (suc zero))) = "3"
digit_text (suc (suc (suc (suc zero)))) = "4"
digit_text (suc (suc (suc (suc (suc zero))))) = "5"
digit_text (suc (suc (suc (suc (suc (suc zero)))))) = "6"
digit_text (suc (suc (suc (suc (suc (suc (suc zero))))))) = "7"
digit_text (suc (suc (suc (suc (suc (suc (suc (suc zero)))))))) = "8"
digit_text _ = "9"

decimal_from : ℕ → ℕ → String
unfolding digit_text
decimal_from zero n = ""
decimal_from (suc f) n =
    let more = decimal_from f (n / 10) ++ digit_text (n % 10) in
    if ltb n 10 then digit_text n else more

-- fmt.Sprint of a machine integer that is not negative: twenty digits are enough for 64 bits
unfoldable pub decimal : ℕ → String
unfolding decimal_from
decimal n = decimal_from 20 n

-- fmt.Sprintf("%03d", n)
unfoldable pub decimal3 : ℕ → String
unfolding decimal
decimal3 n =
    if ltb n 10 then "00" ++ decimal n else if ltb n 100 then "0" ++ decimal n else decimal n

-- `a < b` on texts
unfoldable pub before : String → String → Bool
before a b = elim (compare a b) [ Ordering.lt ↦ true | _ ↦ false ]

-- sort.Slice by a text key; the keys of the callers are distinct
module _ {ℓ} {A : Type ℓ} (key : A → String) where
  unfoldable pub sort_insert : A → List A → List A
  sort_insert x [] = x ∷ []
  sort_insert x (y ∷ l) =
      let rest = sort_insert x l in if before (key y) (key x) then y ∷ rest else x ∷ y ∷ l

  unfoldable pub sort_by : List A → List A
  unfolding sort_insert before
  sort_by [] = []
  sort_by (x ∷ l) = sort_insert x (sort_by l)

-- netip.ParseAddr on a text without a colon: four decimal fields, each of one to three digits,
-- without a leading zero and at most 255. A text with a colon is not an IPv4 address.
pub record Quad : Type 0 where
  pub a : ℕ
  pub b : ℕ
  pub c : ℕ
  pub d : ℕ

-- one pass: the fields read (last first), the digits of the current field and its value
quad_fields : List ℕ → List ℕ → ℕ → ℕ → Option (List ℕ)
quad_fields [] fields count value = if eqb count 0 then none else some (value ∷ fields)
quad_fields (c ∷ s) fields count value =
    let digit = leb b'0' c && leb c b'9' in
    let next = value * 10 + (c - b'0') in
    let bad_digit = (eqb count 1 && eqb value 0) || ltb 255 next in
    let further = quad_fields s fields (count + 1) next in
    let field = quad_fields s (value ∷ fields) 0 0 in
    if digit
    then (if bad_digit then none else further)
    else if eqb c b'.' && not (eqb count 0)
    then field
    else none

four : Option (List ℕ) → Option Quad
four (some (d ∷ c ∷ b ∷ a ∷ [])) = some (record { a = a; b = b; c = c; d = d })
four _ = none

unfoldable pub parse_ipv4 : String → Option Quad
unfolding quad_fields four
parse_ipv4 s = four (quad_fields (codes s) [] 0 0)

-- Addr.IsPrivate for IPv4
unfoldable pub is_private : Quad → Bool
is_private q =
    eqb q.a 10 || (eqb q.a 172 && (leb 16 q.b && leb q.b 31)) || (eqb q.a 192 && eqb q.b 168)

-- Addr.IsGlobalUnicast for IPv4: not unspecified, loopback, multicast, link-local or the broadcast
unfoldable pub is_global_unicast : Quad → Bool
is_global_unicast q =
    not (eqb q.a 0 && eqb q.b 0 && eqb q.c 0 && eqb q.d 0)
    && not (eqb q.a 255 && eqb q.b 255 && eqb q.c 255 && eqb q.d 255)
    && not (eqb q.a 127)
    && not (leb 224 q.a && leb q.a 239)
    && not (eqb q.a 169 && eqb q.b 254)
