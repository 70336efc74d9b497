-- ===== src/Journal/Table.antt =====
-- DynamoDB items and conditional requests, as internal/journal/dynamodb.go writes them, with the
-- documented meaning of the expressions. The service itself is a parameter, in `Service`.
use dash_network_go.Common.{
  ℕ, String, Bool, true, false, Option, none, some, List, [], ◌∷◌, ◌&&◌, ◌||◌, ◌==◌, Map, lookup,
  insert, eqb, if◌then◌else◌,
}
use dash_network_go.Common.Result.{Result}

-- `types.AttributeValueMemberS` and `…MemberN`, whose number is the bit pattern of an int64
pub data Value : Type 0 where
  str : String → Value
  number : ℕ → Value

unfoldable pub same_value : Value → Value → Bool
same_value (str s) (str t) = s == t
same_value (number n) (number m) = eqb n m
same_value _ _ = false

abbrev pub Item : Type 0
Item = Map Value

-- value(item, k): "" for a missing attribute and for one that is no text
unfoldable pub text_of : Option Value → String
text_of (some (str s)) = s
text_of _ = ""

unfoldable pub value : Item → String → String
unfolding text_of
value item k = text_of (lookup k item)

-- A condition expression, with the placeholders replaced by the names and values they stand for.
pub data Condition : Type 0 where
  not_exists : String → Condition
  equals : String → Value → Condition
  both : Condition → Condition → Condition
  either : Condition → Condition → Condition

-- An update expression: the attributes to set, and those to remove.
pub record Update : Type 0 where
  pub table : String
  pub key : Item
  pub set : List (String × Value)
  pub remove : List String
  pub condition : Condition
  -- `ReturnValues: ALL_NEW`
  pub returns_new : Bool

pub record Put : Type 0 where
  pub table : String
  pub item : Item
  pub condition : Condition

-- What a condition means of the stored item: a missing item has no attributes.
unfoldable pub has_value : Option Value → Value → Bool
unfolding same_value
has_value none v = false
has_value (some w) v = same_value w v

unfoldable pub attribute : Option Item → String → Option Value
unfolding lookup
attribute none k = none
attribute (some item) k = lookup k item

unfoldable pub is_missing : Option Value → Bool
is_missing none = true
is_missing (some v) = false

unfoldable pub holds : Condition → Option Item → Bool
unfolding has_value attribute is_missing
holds (not_exists k) i = is_missing (attribute i k)
holds (equals k v) i = has_value (attribute i k) v
holds (both c d) i = holds c i && holds d i
holds (either c d) i = holds c i || holds d i

unfoldable pub erase : String → Item → Item
erase k [] = []
erase k ((j, v) ∷ rest) = let further = erase k rest in if j == k then further else (j, v) ∷ further

unfoldable pub set_all : List (String × Value) → Item → Item
unfolding insert
set_all [] item = item
set_all ((k, v) ∷ more) item = set_all more (insert k v item)

unfoldable pub erase_all : List String → Item → Item
unfolding erase
erase_all [] item = item
erase_all (k ∷ more) item = erase_all more (erase k item)

-- an update of a missing item creates it with the key
unfoldable pub base : Option Item → Item → Item
base none key = key
base (some item) key = item

unfoldable pub changed : Update → Option Item → Item
unfolding set_all erase_all base
changed u i = erase_all u.remove (set_all u.set (base i u.key))

-- The stored item after one attempt of a conditional request.
unfoldable pub updated : Update → Option Item → Option Item
updated u i = if holds u.condition i then some (changed u i) else i

unfoldable pub written : Put → Option Item → Option Item
written p i = if holds p.condition i then some p.item else i

-- `len(table.KeySchema)` and so on, as `Verify` reads them
pub record TableDescription : Type 0 where
  pub arn : String
  pub status : String
  -- the attribute names with their key types
  pub key_schema : List (String × String)
  -- the attribute names with their scalar types
  pub attributes : List (String × String)

-- The DynamoDB client, on the service's state.
pub record Service (S : Type 0) : Type 0 where
  -- none for a missing output or table
  pub describe_table : String → S → Result (Option TableDescription) × S
  -- by a key, strongly consistent; none for a missing output, [] for a missing item
  pub get_item : String → Item → S → Result (Option Item) × S
  pub put_item : Put → S → Result (Unit {0}) × S
  -- the returned attributes, none for a missing output
  pub update_item : Update → S → Result (Option Item) × S
