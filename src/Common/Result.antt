-- ===== src/Common/Result.antt =====
-- Go's `error`: a message, a wrapped cause, two joined errors, or the typed error of a service.
use Prim.Native.String.{String, ◌++◌}
use mathlib.Core.Option.{Option, none, some}
use mathlib.Core.Bool.{Bool}
use mathlib.Core.List.{List, [], ◌∷◌}
use dash_network_go.Common.Tests.{if◌then◌else◌}

pub data Error : Type 0 where
  text : String → Error
  at : String → String → Error
  wrap : String → Error → Error
  join : Error → Error → Error
  api : String → Error
  -- an error of the services without an API error code: a timeout, a lost reply, a cancellation
  other : String → Error

-- `errors.As` to a `smithy.APIError`, then `ErrorCode`: the first in the tree.
unfoldable pub api_code : Error → Option String
api_code (text m) = none
api_code (at m n) = none
api_code (wrap m e) = api_code e
api_code (join e f) = let s = api_code f in elim (api_code e) [ none ↦ s | some c ↦ some c ]
api_code (api c) = some c
api_code (other m) = none

-- `err.Error()`; a service's error is shown by its code or message
unfoldable pub error_text : Error → String
error_text (text m) = m
error_text (at m n) = n ++ ": " ++ m
error_text (wrap m e) = m ++ ": " ++ error_text e
error_text (join e f) = error_text e ++ "\n" ++ error_text f
error_text (api c) = c
error_text (other m) = m

pub data Result {ℓ} (A : Type ℓ) : Type ℓ where
  ok : A → Result A
  err : Error → Result A

infixl 5 ◌>>=◌ ◌>>◌
-- `if err != nil { return err }` between two steps
abbrev pub ◌>>=◌ {ℓ κ} : {A : Type ℓ} {B : Type κ} → Result A → (A → Result B) → Result B
err e >>= next = err e
ok a >>= next = next a

abbrev pub ◌>>◌ {ℓ} : {B : Type ℓ} → Result (Unit {0}) → Result B → Result B
first >> second = first >>= λ _. second

-- `if bad { return errors.New(m) }`
abbrev pub refuse : Bool → Error → Result (Unit {0})
refuse b e = if b then err e else ok tt

-- A loop that returns at the first error.
abbrev pub each {ℓ} : {A : Type ℓ} → (A → Result (Unit {0})) → List A → Result (Unit {0})
each f [] = ok tt
each f (x ∷ xs) = f x >> each f xs
