-- ===== src/Journal/Dynamo.antt =====
-- internal/journal/dynamodb.go: the store of the journal in one DynamoDB item for each network.
use dash_network_go.Common.{
  ℕ, ◌-◌, String, Bool, true, false, Option, none, some, List, [], ◌∷◌, ◌&&◌, ◌||◌, not, ◌==◌, eqb,
  any_of, if◌then◌else◌,
}
use Prim.Native.String.{◌++◌}
use dash_network_go.Common.Text.{split_on}
use dash_network_go.Common.Result.{Error, text, wrap, api_code, Result, ok, err, refuse}
use dash_network_go.Common.Stateful.{M, pure, raise, lift, attempt, ◌>>=◌, ◌>>◌}
use dash_network_go.Provision.Types.{Plan, Record}
use dash_network_go.Provision.Plan.{key}
use dash_network_go.Provision.Outside.{Outside}
use dash_network_go.Provision.Compute.{is_negative, new_record}
use dash_network_go.Journal.Table.{
  str, number, Item, value, not_exists, equals, both, either, Update, Put, TableDescription,
  Service,
}
use dash_network_go.Journal.Codec.{Json, encode, decode_item}

unfoldable pub key_of : Plan → Item
key_of p = ("Network", str (key p)) ∷ []

-- conditional(err): a ConditionalCheckFailedException in the chain
unfoldable pub is_conditional : Error → Bool
is_conditional e = elim (api_code e) [
  | none ↦ false
  | some c ↦ c == "ConditionalCheckFailedException"
]

-- `if conditional(err) { return errors.New(m) }; return err`
unfoldable pub unless_conditional : String → Error → Error
unless_conditional m e = if is_conditional e then text m else e

-- The requests of the store.
module _ (table : String) (p : Plan) (owner : String) where
  unfoldable pub create_request : String → Put
  create_request data_text = record {
    table = table;
    item =
        ("Network", str (key p))
        ∷ ("PlanID", str p.id)
        ∷ ("Data", str data_text)
        ∷ ("Owner", str owner)
        ∷ ("Revision", number 0)
        ∷ [];
    condition = not_exists "Network";
  }

  unfoldable pub claim_request : Update
  claim_request = record {
    table = table;
    key = key_of p;
    set = ("Owner", str owner) ∷ [];
    remove = [];
    condition = both (equals "PlanID" (str p.id)) (not_exists "Owner");
    returns_new = true;
  }

  -- of a revision that is at least 1
  unfoldable pub save_request : ℕ → String → Update
  save_request revision data_text = record {
    table = table;
    key = key_of p;
    set = ("Data", str data_text) ∷ ("Revision", number revision) ∷ [];
    remove = [];
    condition = both (both (equals "PlanID" (str p.id)) (equals "Owner" (str owner))) (
        either (equals "Revision" (number (revision - 1)))
          (both (equals "Revision" (number revision)) (equals "Data" (str data_text))));
    returns_new = false;
  }

  unfoldable pub release_request : Update
  release_request = record {
    table = table;
    key = key_of p;
    set = [];
    remove = "Owner" ∷ [];
    condition = both (equals "PlanID" (str p.id)) (equals "Owner" (str owner));
    returns_new = false;
  }

-- Verify's test of the description
arn_matches : String → Plan → List String → Bool
arn_matches table p (arn ∷ partition ∷ service ∷ region ∷ account ∷ resource ∷ []) =
    arn == "arn"
    && service == "dynamodb"
    && region == p.network.aws.region
    && account == p.network.aws.account_id
    && resource == ("table/" ++ table)
arn_matches table p _ = false

is_network_key : List (String × String) → Bool
is_network_key ((name, key_type) ∷ []) = name == "Network" && key_type == "HASH"
is_network_key _ = false

is_network_string : String × String → Bool
is_network_string (name, scalar) = name == "Network" && scalar == "S"

unfoldable pub check_table : String → Plan → Option TableDescription → Result (Unit {0})
unfolding arn_matches is_network_key is_network_string
check_table table p none = err (text "missing journal table")
check_table table p (some d) =
    if not (arn_matches table p (split_on b':' d.arn))
      || not (d.status == "ACTIVE")
      || not (is_network_key d.key_schema)
    then err (
        text
          "journal table must be ACTIVE in the configured account/region, with only the Network string partition key")
    else refuse (not (any_of is_network_string d.attributes))
        (text "journal Network partition key must be a string")

-- p.Network.AWS.Provision.StateTable, of a plan that has been validated
unfoldable pub state_table_of : Plan → String
state_table_of p = elim p.network.aws.provision [ none ↦ "" | some c ↦ c.state_table ]

-- readItem's reply: none and an empty item are not found
unfoldable pub found_item : Option Item → Result Item
found_item none = err (text "operation not found")
found_item (some []) = err (text "operation not found")
found_item (some (a ∷ item)) = ok (a ∷ item)

-- the reply to a claim
unfoldable pub claimed_item : String → Option Item → Result Item
claimed_item owner none = err (text "empty claim response; inspect operation before retrying")
claimed_item owner (some item) =
    if value item "Owner" == owner
    then ok item
    else err (text "claim response owner mismatch; inspect operation before retrying")

unfoldable pub described : String → Plan → Result (Option TableDescription) → Result (Unit {0})
unfolding check_table
described table p (ok d) = check_table table p d
described table p (err e) = err (wrap "describe journal table" e)

module _ {S : Type 0} (v : Service S) (table : String) where
  unfoldable pub verify : Plan → M S (Unit {0})
  verify p =
      if not (table == state_table_of p)
      then raise (text "journal table differs from provision plan")
      else do answer ← attempt (v.describe_table table); lift (described table p answer)

  unfoldable pub read_item : Plan → M S Item
  read_item p = do out ← v.get_item table (key_of p); lift (found_item out)

  -- `err == nil`, a refused condition, or another error
  unfoldable pub claim_reply : String → Result (Option Item) → M S Item
  claim_reply owner (ok out) = lift (claimed_item owner out)
  claim_reply owner (err e) = raise (
      unless_conditional
        "network already has an active runner claim; inspect operation; claims never expire automatically"
        e)

  unfoldable pub claim : Plan → String → M S Item
  claim p owner = do
    answer ← attempt (v.update_item (claim_request table p owner))
    claim_reply owner answer

  unfoldable pub update_reply : String → Result (Option Item) → M S (Unit {0})
  update_reply m (ok out) = pure tt
  update_reply m (err e) = raise (unless_conditional m e)

  -- save, of an encoded record
  unfoldable pub save_data : Record → String → String → M S (Unit {0})
  save_data r owner data_text = do
    answer ← attempt (v.update_item (save_request table r.plan owner r.revision data_text))
    update_reply "runner ownership or journal revision changed; stale write refused" answer

  unfoldable pub release : Plan → String → M S (Unit {0})
  release p owner = if owner == "" then raise (text "empty runner ID") else do
    answer ← attempt (v.update_item (release_request table p owner))
    update_reply "runner claim changed or was already released; no change made" answer

  module _ (x : Outside) (j : Json) where
    -- Read: the record and the owner
    unfoldable pub read : Plan → M S (Record × String)
    read p = do item ← read_item p; r ← lift (decode_item j x item p); pure (r, value item "Owner")

    -- an item that exists is only claimed
    unfoldable pub acquire_existing : Plan → String → M S Record
    acquire_existing p owner = do read p; item ← claim p owner; lift (decode_item j x item p)

    unfoldable pub create_reply : Plan → String → Record → Result (Unit {0}) → M S Record
    create_reply p owner r (ok u) = pure r
    create_reply p owner r (err e) = if is_conditional e then acquire_existing p owner else raise e

    -- Acquire at the time `now`
    unfoldable pub acquire : ℕ → Plan → String → M S Record
    acquire now p owner = if owner == "" then raise (text "empty runner ID") else do
      let r = new_record p now
      data_text ← lift (encode j x r)
      answer ← attempt (v.put_item (create_request table p owner data_text))
      create_reply p owner r answer

    -- a revision from 1 on, as an int64
    unfoldable pub save : Record → String → M S (Unit {0})
    save r owner =
        if owner == ""
        then raise (text "empty runner ID")
        else if is_negative r.revision || eqb r.revision 0
        then raise (text "save requires the next journal revision")
        else do data_text ← lift (encode j x r); save_data r owner data_text
