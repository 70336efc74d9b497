-- ===== src/Journal/Codec.antt =====
-- `encode` and `decodeRecord` of internal/journal/dynamodb.go, over encoding/json.
use Prim.Native.String.{len}
use dash_network_go.Common.{
  ℕ, String, Bool, false, Option, some, ◌||◌, not, ◌==◌, Map, lookup, ltb, eqb, if◌then◌else◌,
}
use dash_network_go.Common.Result.{text, Result, ok, err, refuse, ◌>>=◌, ◌>>◌}
use dash_network_go.Provision.Types.{Plan, Record}
use dash_network_go.Provision.Plan.{key}
use dash_network_go.Provision.Outside.{Outside}
use dash_network_go.Provision.Upgrade.{validate_record}
use dash_network_go.Journal.Table.{Value, number, Item, value}

-- What encoding/json computes.
pub record Json : Type 0 where
  -- json.Marshal of a record, and of the list of its application sections
  pub marshal : Record → Result String
  pub history : Record → Result String
  -- the first JSON value of a text as a record, without unknown fields
  pub decode : String → Result Record
  -- a second Decode finds the end of the text
  pub at_end : String → Bool
  -- json.Unmarshal into a map of raw messages; json.Marshal of a field's name
  pub fields : String → Result (Map String)
  pub quote : String → String

-- the item budget
abbrev pub budget : ℕ
budget = 300000

unfoldable pub check_size : String → Result String
check_size data_text =
    if ltb budget (len data_text)
    then err (text "operation journal exceeds conservative DynamoDB item budget")
    else ok data_text

unfoldable pub has_revision : Option Value → ℕ → Bool
has_revision (some (number n)) revision = eqb n revision
has_revision _ revision = false

module _ (j : Json) where
  unfoldable pub encode : Outside → Record → Result String
  encode x r = do validate_record x r r.plan; b ← j.marshal r; check_size b

  -- decodeRecord, with the validator
  unfoldable pub decode_record : (Record → Plan → Result (Unit {0})) → Item → Plan → Result Record
  unfolding has_revision
  decode_record validate item p = do
    refuse (not (value item "Network" == key p) || not (value item "PlanID" == p.id)) (
        text
          "network is already bound to a different plan; no automatic reset, replacement, or state deletion")
    refuse (value item "Data" == "" || ltb budget (len (value item "Data")))
        (text "invalid journal payload size")
    r ← j.decode (value item "Data")
    refuse (not (j.at_end (value item "Data"))) (text "trailing journal payload")
    refuse (not (has_revision (lookup "Revision" item) r.revision))
        (text "journal revision mismatch")
    validate r p
    ok r

  unfoldable pub decode_item : Outside → Item → Plan → Result Record
  decode_item x item p = decode_record (validate_record x) item p
