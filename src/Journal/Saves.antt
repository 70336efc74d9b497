-- ===== src/Journal/Saves.antt =====
-- What an accepted save proves of the item, and that it is read back as it was written.
use mathlib.Core.Path.{subst}
use dash_network_go.Common.{
  ℕ, ◌-◌, String, Bool, true, false, Option, none, some, ◌≡◌, refl, sym, ap, ◌∙◌, ◌⊎◌, ◌||◌, ◌==◌,
  eqb, lookup, insert, if◌then◌else◌,
}
use dash_network_go.Common.Result.{Error, Result, ok, err}
use dash_network_go.Common.Stateful.{M, pure, raise, lift, attempt, ◌>>=◌}
use dash_network_go.Provision.Types.{Plan, Record}
use dash_network_go.Provision.Plan.{key}
use dash_network_go.Provision.Outside.{Outside}
use dash_network_go.Provision.Compute.{is_negative}
use dash_network_go.Journal.Table.{
  str, number, Item, value, text_of, Service, holds, changed, set_all, erase_all, base,
}
use dash_network_go.Journal.Faithful.{IsFaithful}
use dash_network_go.Journal.Codec.{Json, encode}
use dash_network_go.Journal.Dynamo.{key_of, save_request, update_reply, save_data, save}
use dash_network_go.Journal.Requests.{savable}

abbrev pub saved_item : ℕ → String → Item → Item
saved_item revision d item = insert "Revision" (number revision) (insert "Data" (str d) item)

-- What an accepted save of encoded data says of the item before and after it.
abbrev pub IsSaved : Plan → String → ℕ → String → Option Item → Option Item → Type 0
IsSaved p owner revision d i i' =
    (item : Item) × (i ≡ some item)
    × (lookup "PlanID" item ≡ some (str p.id))
    × (lookup "Owner" item ≡ some (str owner))
    × ((lookup "Revision" item ≡ some (number (revision - 1)))
        ⊎ ((lookup "Revision" item ≡ some (number revision)) × (lookup "Data" item ≡ some (str d))))
    × (i' ≡ some (saved_item revision d item))

reply_ok :
    {S : Type 0} (v : Service S) (table m : String) (r : Result (Option Item)) (s : S)
    → (update_reply v table m r s).0 ≡ ok tt
    → (out : Option Item) × (r ≡ ok out) × ((update_reply v table m r s).1 ≡ s)
unfolding update_reply pure raise
reply_ok v table m (ok out) s h = (out, refl, refl)
reply_ok v table m (err e) s h = absurd (cc)

-- Two refusals and a computation before a step.
unrefused :
    {S : Type 0} (a b : Bool) (e1 e2 : Error) (r : Result String) (k : String → M S (Unit {0}))
    (s : S)
    → ((if a then raise e1 else if b then raise e2 else (lift r >>= k)) s).0 ≡ ok tt
    → (d : String) × (r ≡ ok d)
      × ((if a then raise e1 else if b then raise e2 else (lift r >>= k)) s ≡ k d s)
unfolding raise lift ◌>>=◌
unrefused true b e1 e2 r k s h = absurd (cc)
unrefused false true e1 e2 r k s h = absurd (cc)
unrefused false false e1 e2 (err e) k s h = absurd (cc)
unrefused false false e1 e2 (ok d) k s h = (d, refl, refl)

module _ {S : Type 0} {v : Service S} (f : IsFaithful v) (table : String) where
  held_before :
      (p : Plan) (owner d : String) (revision : ℕ) (i i' : Option Item)
      → holds (save_request table p owner revision d).condition i ≡ true
      → i' ≡ some (changed (save_request table p owner revision d) i)
      → IsSaved p owner revision d i i'
  unfolding save_request changed set_all erase_all base holds
  held_before p owner d revision none i' h is = cc
  held_before p owner d revision (some item) i' h is =
      let (plan, held, before) = savable table p owner revision d item h in
      (item, refl, plan, held, before, is)

  save_data-IsSaved :
      (r : Record) (owner d : String) (s : S)
      → (save_data v table r owner d s).0 ≡ ok tt
      → IsSaved r.plan owner r.revision d
          (f.stored s table (key r.plan))
          (f.stored (save_data v table r owner d s).1 table (key r.plan))
  unfolding save_data attempt ◌>>=◌ save_request key_of value text_of lookup
  save_data-IsSaved r owner d s h =
      let q = save_request table r.plan owner r.revision d in
      let (out, accepted, unmoved) =
        reply_ok v table _ (v.update_item q s).0 (v.update_item q s).1 h in
      let (holding, written) = f.update_accepted q s out accepted in
      held_before r.plan owner d r.revision _ _ holding
        (ap (λ (s' : S). f.stored s' table (key r.plan)) unmoved ∙ written)

  module _ (x : Outside) (j : Json) where
    -- A save that returns no error has written the record's encoding.
    save_lem :
        (r : Record) (owner : String) (s : S)
        → (save v table x j r owner s).0 ≡ ok tt
        → (d : String) × (encode j x r ≡ ok d)
          × ((save v table x j r owner s) ≡ save_data v table r owner d s)
    unfolding save
    save_lem r owner s h =
        unrefused (owner == "") (is_negative r.revision || eqb r.revision 0) _ _ (encode j x r)
          (save_data v table r owner) s h

    -- On a service that keeps DynamoDB's documented behaviour (IsFaithful): a save that returns no
    -- error found the plan's item held by its runner, at the previous revision or at this one with the
    -- same data, and left it with the record's encoding, its revision and nothing else changed (IsSaved).
    pub save-IsSaved :
        (r : Record) (owner : String) (s : S)
        → (save v table x j r owner s).0 ≡ ok tt
        → (d : String) × (encode j x r ≡ ok d)
          × IsSaved r.plan owner r.revision d
              (f.stored s table (key r.plan))
              (f.stored (save v table x j r owner s).1 table (key r.plan))
    save-IsSaved r owner s h =
        let (d, encoded, same) = save_lem r owner s h in
        let saved =
          save_data-IsSaved r owner d s (ap (λ (o : Result (Unit {0}) × S). o.0) (sym same) ∙ h) in
        (
          d,
          encoded,
          subst
              (λ (o : Result (Unit {0}) × S).
                IsSaved r.plan owner r.revision d (f.stored s table (key r.plan))
                  (f.stored o.1 table (key r.plan)))
              (sym same) saved,
        )
