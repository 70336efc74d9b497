-- ===== src/Journal/Cleanup.antt =====
-- internal/journal/address_cleanup.go: what the store that retires addresses keeps of the
-- application's history, and the data that it writes.
use dash_network_go.Common.{
  String, Bool, false, Option, none, some, List, [], ◌∷◌, ◌||◌, not, ◌==◌, Map, lookup, insert,
  contains, ltb, eqb, if◌then◌else◌,
}
use Prim.Native.String.{◌++◌, len}
use dash_network_go.Common.Text.{sort_by}
use dash_network_go.Common.Result.{text, Result, ok, err, refuse, ◌>>=◌, ◌>>◌}
use dash_network_go.Provision.Types.{Plan, Record}
use dash_network_go.Provision.Outside.{Outside}
use dash_network_go.Provision.Plan.{same_plan}
use dash_network_go.Provision.Compute.{is_negative, validate_address_cleanup}
use dash_network_go.Journal.Table.{Item, value}
use dash_network_go.Journal.Codec.{Json, budget}

-- addressCleanupStore without its client; `plan` is none before an acquisition
pub record CleanupStore : Type 0 where
  pub plan : Option Plan
  pub owner : String
  pub history : Map String
  pub canonical : String

abbrev pub fresh_store : CleanupStore
fresh_store = record { plan = none; owner = ""; history = []; canonical = "" }

abbrev pub history_fields : List String
history_fields = "bootstrap" ∷ "deployment" ∷ "join" ∷ "runtime" ∷ "upgrade" ∷ []

-- the raw fields of the application's sections
keep_history : Map String → List String → Map String
unfolding lookup
keep_history fields [] = []
keep_history fields (name ∷ names) =
    let rest = keep_history fields names in
    elim (lookup name fields) [ none ↦ rest | some raw ↦ (name, raw) ∷ rest ]

drop_history : Map String → Map String
unfolding contains
drop_history [] = []
drop_history ((name, raw) ∷ rest) =
    let further = drop_history rest in
    if contains name history_fields then further else (name, raw) ∷ further

add_fields : Map String → Map String → Map String
unfolding insert
add_fields [] fields = fields
add_fields ((name, raw) ∷ more) fields = add_fields more (insert name raw fields)

field_name : String × String → String
field_name (name, raw) = name

unfoldable pub is_plan_of : Option Plan → Plan → Bool
unfolding same_plan
is_plan_of none p = false
is_plan_of (some q) p = same_plan p q

module _ (j : Json) where
  -- the fields of the payload, by `sep` and then name, colon and raw value
  write_fields : String → Map String → String
  write_fields sep [] = ""
  write_fields sep ((name, raw) ∷ rest) = sep ++ j.quote name ++ ":" ++ raw ++ write_fields "," rest

  -- the record's own fields, with the history in place of its sections
  unfoldable pub payload : CleanupStore → Map String → String
  unfolding drop_history add_fields sort_by field_name write_fields
  payload s fields =
      "{"
      ++ write_fields "" (sort_by field_name (add_fields s.history (drop_history fields)))
      ++ "}"

  -- the checks of Save, and the data that it writes
  unfoldable pub cleanup_data : Outside → CleanupStore → Record → String → Result String
  unfolding is_plan_of
  cleanup_data x s r owner = do
    refuse
        (s.owner == ""
          || not (owner == s.owner)
          || not (is_plan_of s.plan r.plan)
          || is_negative r.revision
          || eqb r.revision 0)
        (text "cleanup save lost its acquired plan, runner, or revision")
    elim s.plan [
      | none ↦ err (text "cleanup save lost its acquired plan, runner, or revision")
      | some p ↦ validate_address_cleanup x r p
    ]
    history ← j.history r
    refuse (not (history == s.canonical)) (text "address cleanup cannot change application history")
    data_text ← j.marshal r
    fields ← j.fields data_text
    refuse (ltb budget (len (payload s fields)))
        (text "operation journal exceeds conservative DynamoDB item budget")
    ok (payload s fields)

  -- the store after an acquisition
  unfoldable pub acquired_store : Item → Record → String → Result CleanupStore
  unfolding keep_history
  acquired_store item r owner = do
    fields ← j.fields (value item "Data")
    canonical ← j.history r
    ok (record {
      plan = some r.plan;
      owner = owner;
      history = keep_history fields history_fields;
      canonical = canonical;
    })
