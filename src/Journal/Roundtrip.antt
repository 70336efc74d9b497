-- ===== src/Journal/Roundtrip.antt =====
-- A record that was saved is read back.
use native.Mathlib.Omega.{arith}
use text.Mathlib.TextPositions.{eq_refl}
use Prim.Native.String.{len}
use dash_network_go.Common.{
  ℕ, String, Bool, true, false, Option, some, [], ◌∷◌, ◌≡◌, refl, sym, ap, ◌∙◌, inl, inr, ◌==◌, eqb,
  ltb, lookup, insert, lookup-insert_ne, lookup-insert_self, if◌then◌else◌,
}
use dash_network_go.Common.Result.{Error, Result, ok, err, ◌>>=◌, ◌>>◌}
use dash_network_go.Common.Stateful
use dash_network_go.Common.Stateful.{M, pure, lift}
use dash_network_go.Provision.Types.{Plan, Record}
use dash_network_go.Provision.Plan.{key}
use dash_network_go.Provision.Outside.{Outside}
use dash_network_go.Provision.Upgrade.{validate_record}
use dash_network_go.Journal.Table.{Value, str, number, Item, value, text_of, Service}
use dash_network_go.Journal.Faithful.{IsFaithful}
use dash_network_go.Journal.Codec.{
  Json, budget, encode, check_size, decode_record, decode_item, has_revision,
}
use dash_network_go.Journal.Dynamo.{key_of, save, read_item, found_item, read}
use dash_network_go.Journal.Saves.{saved_item, save-IsSaved}

-- encoding/json reads back what it writes for a record.
pub record IsCodec (j : Json) (r : Record) : Type 0 where
  pub reads_back : (d : String) → j.marshal r ≡ ok d → j.decode d ≡ ok r
  pub ends : (d : String) → j.marshal r ≡ ok d → j.at_end d ≡ true
  pub nonempty : (d : String) → j.marshal r ≡ ok d → (d == "") ≡ false

bounded :
    (e : Error) (over : Bool) {d' d : String}
    → (if over then err e else ok d') ≡ ok d
    → (d' ≡ d) × (over ≡ false)
bounded e true h = absurd (cc)
bounded e false h = (cc, refl)

-- a validation, a computation and a bound before the result
checked :
    (b : Result (Unit {0})) (m : Result String) {d : String}
    → (b >> (m >>= check_size)) ≡ ok d
    → (b ≡ ok tt) × (m ≡ ok d) × (ltb budget (len d) ≡ false)
unfolding check_size
checked (err e) m h = absurd (cc)
checked (ok u) (err e) h = absurd (cc)
checked (ok u) (ok d') {d} h =
    let (same, within) = bounded _ (ltb budget (len d')) h in
    (refl, ap ok same, ap (λ t. ltb budget (len t)) (sym same) ∙ within)

encode_lem :
    (j : Json) (x : Outside) (r : Record) (d : String)
    → encode j x r ≡ ok d
    → (validate_record x r r.plan ≡ ok tt) × (j.marshal r ≡ ok d) × (ltb budget (len d) ≡ false)
unfolding encode
encode_lem j x r d h = checked (validate_record x r r.plan) (j.marshal r) h

eqb_refl : (n : ℕ) → eqb n n ≡ true
eqb_refl n = ground arith

decode_lem :
    (j : Json) (validate : Record → Plan → Result (Unit {0})) (item : Item) (p : Plan) (r : Record)
    (d : String)
    → value item "Network" ≡ key p
    → value item "PlanID" ≡ p.id
    → value item "Data" ≡ d
    → (d == "") ≡ false
    → ltb budget (len d) ≡ false
    → j.decode d ≡ ok r
    → j.at_end d ≡ true
    → lookup "Revision" item ≡ some (number r.revision)
    → validate r p ≡ ok tt
    → decode_record j validate item p ≡ ok r
unfolding decode_record has_revision
decode_lem j validate item p r d network plan payload nonempty within decoded ended revision valid =
    rw
      (
        network,
        plan,
        payload,
        eq_refl (key p),
        eq_refl p.id,
        nonempty,
        within,
        decoded,
        ended,
        revision,
        eqb_refl r.revision,
        valid,
      )
      refl

nonempty_item :
    (k : String) (u : Value) (item : Item)
    → lookup k item ≡ some u
    → found_item (some item) ≡ ok item
unfolding lookup found_item
nonempty_item k u [] h = absurd (cc)
nonempty_item k u (a ∷ item) h = refl

text_value : (k t : String) (item : Item) → lookup k item ≡ some (str t) → value item k ≡ t
unfolding value text_of
text_value k t item is = ap text_of is

module _ {S : Type 0} {v : Service S} (f : IsFaithful v) (table : String) (x : Outside)
    (j : Json) where
  -- the item that an accepted save leaves decodes to the record
  saved-decodes :
      (r : Record) (codec : IsCodec j r) (owner d : String) (item : Item)
      → encode j x r ≡ ok d
      → lookup "PlanID" item ≡ some (str r.plan.id)
      → lookup "Network" (saved_item r.revision d item) ≡ some (str (key r.plan))
      → decode_item j x (saved_item r.revision d item) r.plan ≡ ok r
  unfolding decode_item
  saved-decodes r codec owner d item encoded plan network =
      let (valid, marshalled, within) = encode_lem j x r d encoded in
      let written = insert "Data" (str d) item in
      decode_lem j (validate_record x) (saved_item r.revision d item) r.plan r d
        (text_value "Network" (key r.plan) _ network)
        (text_value "PlanID" r.plan.id _ (
          lookup-insert_ne "Revision" "PlanID" (number r.revision) written refl
          ∙ lookup-insert_ne "Data" "PlanID" (str d) item refl
          ∙ plan))
        (text_value "Data" d _ (
          lookup-insert_ne "Revision" "Data" (number r.revision) written refl
          ∙ lookup-insert_self "Data" (str d) item))
        (codec.nonempty d marshalled) within (codec.reads_back d marshalled)
        (codec.ends d marshalled) (lookup-insert_self "Revision" (number r.revision) written) valid

  -- what Read gives for an item that decodes
  read_lem :
      (p : Plan) (item : Item) (r : Record) (s : S)
      → (v.get_item table (key_of p) s).0 ≡ ok (some item)
      → found_item (some item) ≡ ok item
      → decode_item j x item p ≡ ok r
      → (read v table x j p s).0 ≡ ok (r, value item "Owner")
  unfolding read read_item Stateful.◌>>=◌ lift pure
  read_lem p item r s got found decoded = rw (got, found, decoded) refl

  -- a read of an item that is stored gives it
  read_stored :
      (p : Plan) (s : S) (item : Item) (out : Option Item)
      → f.stored s table (key p) ≡ some item
      → (v.get_item table (key_of p) s).0 ≡ ok out
      → out ≡ some item
  unfolding key_of value text_of lookup
  read_stored p s item out is got = elim (f.get_reads table (key_of p) s out got) [
    | inl (gone, empty) ↦ absurd (cc)
    | inr same ↦ sym same ∙ is
  ]

  -- On a service that keeps DynamoDB's documented behaviour (IsFaithful), if encoding/json reads back
  -- the text it writes for the record (IsCodec): after a save that returns no error, a read that the
  -- service answers returns the saved record, with the runner that saved it as its owner.
  pub read-save :
      (r : Record) (owner : String) (s : S) (out : Option Item)
      → IsCodec j r
      → (save v table x j r owner s).0 ≡ ok tt
      → (v.get_item table (key_of r.plan) (save v table x j r owner s).1).0 ≡ ok out
      → (read v table x j r.plan (save v table x j r owner s).1).0 ≡ ok (r, owner)
  unfolding key_of value text_of lookup
  read-save r owner s out codec accepted got =
      let s' = (save v table x j r owner s).1 in
      let (d, encoded, (item, before, plan, held, revision, after)) =
        save-IsSaved f table x j r owner s accepted in
      let item' = saved_item r.revision d item in
      let network = f.keyed s' table (key r.plan) item' after in
      let stored_item = read_stored r.plan s' item' out after got in
      read_lem r.plan item' r s' (got ∙ ap ok stored_item)
        (nonempty_item "Network" (str (key r.plan)) item' network)
        (saved-decodes r codec owner d item encoded plan network)
      ∙ ap (λ o. ok (r, o))
          (text_value "Owner" owner item' (
            lookup-insert_ne "Revision" "Owner" (number r.revision) (insert "Data" (str d) item)
              refl
            ∙ lookup-insert_ne "Data" "Owner" (str d) item refl
            ∙ held))
