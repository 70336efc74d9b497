-- ===== src/Journal/Claims.antt =====
-- What a successful acquisition proves of the item before and after it.
use mathlib.Core.Path.{subst}
use dash_network_go.Common.{
  ℕ, String, Bool, true, false, Option, none, some, ◌≡◌, ◌≢◌, refl, sym, ap, ◌∙◌, ◌⊎◌, inl, inr,
  ◌==◌, lookup, insert, if◌then◌else◌,
}
use dash_network_go.Common.Result.{Error, Result, ok, err}
use dash_network_go.Common.Stateful.{M, pure, raise, lift, attempt, ◌>>=◌, bind_lem, bind_keeps}
use dash_network_go.Provision.Types.{Plan, Record}
use dash_network_go.Provision.Plan.{key}
use dash_network_go.Provision.Outside.{Outside}
use dash_network_go.Provision.Compute.{new_record}
use dash_network_go.Journal.Table.{
  Value, str, Item, value, text_of, Service, holds, attribute, is_missing, changed, set_all,
  erase_all, base, written,
}
use dash_network_go.Journal.Faithful.{IsFaithful}
use dash_network_go.Journal.Codec.{Json, encode, decode_item}
use dash_network_go.Journal.Dynamo.{
  key_of, is_conditional, create_request, claim_request, claim_reply, claim, read_item, read,
  acquire_existing, create_reply, acquire,
}
use dash_network_go.Journal.Lock.{created}
use dash_network_go.Journal.Requests.{claimable}

-- The runner has claimed an item that was free, or created one where there was none.
abbrev pub IsClaimed : Plan → String → Option Item → Option Item → Type 0
IsClaimed p owner i i' =
    ((d : String) × (i ≡ none) × (i' ≡ some (created (key p) p.id d owner)))
    ⊎ ((item : Item) × (i ≡ some item)
        × (lookup "PlanID" item ≡ some (str p.id))
        × (lookup "Owner" item ≡ none)
        × (i' ≡ some (insert "Owner" (str owner) item)))

abbrev IsFreed : Plan → String → Option Item → Option Item → Type 0
IsFreed p owner i i' =
    (item : Item) × (i ≡ some item)
    × (lookup "PlanID" item ≡ some (str p.id))
    × (lookup "Owner" item ≡ none)
    × (i' ≡ some (insert "Owner" (str owner) item))

reply_ok :
    {S : Type 0} (v : Service S) (table owner : String) (r : Result (Option Item)) (s : S)
    {item : Item}
    → (claim_reply v table owner r s).0 ≡ ok item
    → (out : Option Item) × (r ≡ ok out) × ((claim_reply v table owner r s).1 ≡ s)
unfolding claim_reply raise lift
reply_ok v table owner (ok out) s h = (out, refl, refl)
reply_ok v table owner (err e) s h = absurd (cc)

moved :
    (p : Plan) (owner : String) {i j i' j' : Option Item}
    → i ≡ j
    → i' ≡ j'
    → IsFreed p owner i i'
    → IsFreed p owner j j'
moved p owner {i} {j} {i'} {j'} e e' h =
    subst (λ k. IsFreed p owner j k) e' (subst (λ k. IsFreed p owner k i') e h)

reply_same : {r r' : Result (Unit {0})} → ok r ≡ ok r' → r ≡ r'
reply_same h = cc

permitted :
    {S : Type 0} (b : Bool) (e : Error) (m : M S Record) (s : S) {r : Record}
    → ((if b then raise e else m) s).0 ≡ ok r
    → (if b then raise e else m) s ≡ m s
unfolding raise
permitted true e m s h = absurd (cc)
permitted false e m s h = refl

free_as :
    {item other : Item}
    → lookup "Owner" item ≡ none
    → some item ≡ some other
    → lookup "Owner" other ≡ none
unfolding attribute
free_as is_free same = subst (λ (o : Option Item). attribute o "Owner" ≡ none) same is_free

module _ {S : Type 0} {v : Service S} (f : IsFaithful v) (table : String) (p : Plan)
    (owner : String) where
  was_free :
      (i i' : Option Item)
      → holds (claim_request table p owner).condition i ≡ true
      → i' ≡ some (changed (claim_request table p owner) i)
      → IsFreed p owner i i'
  unfolding claim_request changed set_all erase_all base holds
  was_free none i' h is = cc
  was_free (some item) i' h is =
      let (plan, is_free) = claimable table p owner item h in (item, refl, plan, is_free, is)

  claim-IsFreed :
      (s : S) {item : Item}
      → (claim v table p owner s).0 ≡ ok item
      → IsFreed p owner
          (f.stored s table (key p))
          (f.stored (claim v table p owner s).1 table (key p))
  unfolding claim attempt ◌>>=◌ claim_request key_of value text_of lookup
  claim-IsFreed s h =
      let q = claim_request table p owner in
      let (out, accepted, unmoved) =
        reply_ok v table owner (v.update_item q s).0 (v.update_item q s).1 h in
      let (holding, after) = f.update_accepted q s out accepted in
      was_free _ _ holding (ap (λ (s' : S). f.stored s' table (key p)) unmoved ∙ after)

  -- The item before a creation that was refused, if the item is free after it.
  not_created :
      (d : String) (i i' : Option Item)
      → ((item : Item) → i ≡ some item → lookup "Network" item ≢ none)
      → i' ≡ written (create_request table p owner d) i
      → ((item : Item) → i' ≡ some item → lookup "Owner" item ≡ none)
      → i' ≡ i
  unfolding written create_request holds attribute is_missing lookup
  not_created d none i' keyed is is_free = absurd (owned_by (is_free _ is))
    where
      owned_by : ◌≡◌ {A = Option Value} (some (str owner)) none → ⊥
      owned_by h = cc
  not_created d (some item) i' keyed is is_free =
      is ∙ refused (lookup "Network" item) (keyed item refl)
    where
      refused :
          (o : Option Value)
          → o ≢ none
          → (if is_missing o then some (create_request table p owner d).item else some item)
            ≡ some item
      refused none ne = absurd (ne refl)
      refused (some w) ne = refl

  absent :
      (d : String) (i : Option Item)
      → ((item : Item) → i ≡ some item → lookup "Network" item ≡ some (str (key p)))
      → holds (create_request table p owner d).condition i ≡ true
      → i ≡ none
  unfolding create_request holds attribute is_missing
  absent d none keyed h = refl
  absent d (some item) keyed h = absurd (present (lookup "Network" item) (keyed item refl) h)
    where
      present : (o : Option Value) → o ≡ some (str (key p)) → is_missing o ≡ true → ⊥
      present none is h = cc
      present (some w) is h = cc

  named : (item : Item) → lookup "Network" item ≡ some (str (key p)) → lookup "Network" item ≢ none
  named item is = cc

  untouched :
      (s : S) (d : String)
      → ((item : Item)
          → f.stored (v.put_item (create_request table p owner d) s).1 table (key p) ≡ some item
          → lookup "Owner" item ≡ none)
      → f.stored (v.put_item (create_request table p owner d) s).1 table (key p)
        ≡ f.stored s table (key p)
  untouched s d is_free = elim (f.put_effect (create_request table p owner d) s table (key p)) [
    | inl same ↦ same
    | inr (of_table, of_network, after) ↦
        not_created d (f.stored s table (key p)) _
          (λ item is. named item (f.keyed s table (key p) item is)) after is_free
  ]

  module _ (x : Outside) (j : Json) where
    read_keeps : (s : S) → f.stored (read v table x j p s).1 ≡ f.stored s
    unfolding read read_item lift pure
    read_keeps s =
        bind_keeps (λ s'. f.stored s' ≡ f.stored s) (read_item v table p) _ s
          (bind_keeps (λ s'. f.stored s' ≡ f.stored s) (v.get_item table (key_of p)) _ s
            (f.get_keeps table (key_of p) s) (λ out s' k. k))
          (λ item s' k. bind_keeps (λ s'. f.stored s' ≡ f.stored s) (lift _) _ s' k (λ r s2 k2. k2))

    existing-IsFreed :
        (s : S) {r : Record}
        → (acquire_existing v table x j p owner s).0 ≡ ok r
        → IsFreed p owner
            (f.stored s table (key p))
            (f.stored (acquire_existing v table x j p owner s).1 table (key p))
    unfolding acquire_existing lift
    existing-IsFreed s h =
        let (before, read_ok, claiming) = bind_lem (read v table x j p) _ s h in
        let s1 = (read v table x j p s).1 in
        let (item, claimed, lifted) =
          bind_lem (claim v table p owner) (λ item. lift (decode_item j x item p)) s1
            (ap (λ (o : Result Record × S). o.0) (sym claiming) ∙ h) in
        moved p owner (ap (λ (g : String → String → Option Item). g table (key p)) (read_keeps s))
          (ap (λ (o : Result Record × S). f.stored o.1 table (key p)) (sym (claiming ∙ lifted)))
          (claim-IsFreed s1 claimed)

    refused_creation :
        (s : S) (d : String) (c : Bool) (e : Error) {r : Record}
        → ((if c then acquire_existing v table x j p owner else raise e)
            (v.put_item (create_request table p owner d) s).1).0
          ≡ ok r
        → IsClaimed p owner (f.stored s table (key p)) (
            f.stored
              ((if c then acquire_existing v table x j p owner else raise e)
                (v.put_item (create_request table p owner d) s).1).1
              table
              (key p))
    unfolding raise
    refused_creation s d false e h = absurd (cc)
    refused_creation s d true e h =
        let s1 = (v.put_item (create_request table p owner d) s).1 in
        let (item, is, plan, is_free, after) = existing-IsFreed s1 h in
        let same = untouched s d (λ other is'. free_as is_free (sym is ∙ is')) in
        inr (item, sym same ∙ is, plan, is_free, after)

    -- The reply to the creation, and what follows when the item is there already.
    create_reply-IsClaimed :
        (s : S) (d : String) (r0 : Record) (reply : Result (Unit {0})) {r : Record}
        → (v.put_item (create_request table p owner d) s).0 ≡ reply
        → (create_reply v table x j p owner r0 reply
            (v.put_item (create_request table p owner d) s).1).0
          ≡ ok r
        → IsClaimed p owner (f.stored s table (key p)) (
            f.stored
              (create_reply v table x j p owner r0 reply
                (v.put_item (create_request table p owner d) s).1).1
              table
              (key p))
    unfolding create_reply pure create_request value text_of lookup
    create_reply-IsClaimed s d r0 (ok u) replied h =
        let (holding, after) = f.put_accepted (create_request table p owner d) s replied in
        inl (d, absent d (f.stored s table (key p)) (f.keyed s table (key p)) holding, after)
    create_reply-IsClaimed s d r0 (err e) replied h = refused_creation s d (is_conditional e) e h

    -- the same of two equal runs
    along :
        (i : Option Item) {o o' : Result Record × S}
        → o ≡ o'
        → IsClaimed p owner i (f.stored o'.1 table (key p))
        → IsClaimed p owner i (f.stored o.1 table (key p))
    along i same h = subst (λ o. IsClaimed p owner i (f.stored o.1 table (key p))) (sym same) h

    created-IsClaimed :
        (r0 : Record) (s : S) {r : Record}
        → ((lift (encode j x r0) >>= λ d.
              attempt (v.put_item (create_request table p owner d))
              >>= create_reply v table x j p owner r0)
            s).0
          ≡ ok r
        → IsClaimed p owner (f.stored s table (key p)) (
            f.stored
              ((lift (encode j x r0) >>= λ d.
                  attempt (v.put_item (create_request table p owner d))
                  >>= create_reply v table x j p owner r0)
                s).1
              table
              (key p))
    unfolding lift attempt
    created-IsClaimed r0 s h =
        let (d, encoded, rest) =
          bind_lem (lift (encode j x r0))
            (λ d.
              attempt (v.put_item (create_request table p owner d))
              >>= create_reply v table x j p owner r0)
            s h in
        let h1 = ap (λ (o : Result Record × S). o.0) (sym rest) ∙ h in
        let (reply, replied, end) =
          bind_lem (attempt (v.put_item (create_request table p owner d)))
            (create_reply v table x j p owner r0) s h1 in
        along (f.stored s table (key p)) (rest ∙ end) (
          create_reply-IsClaimed s d r0 reply (reply_same replied)
            (ap (λ (o : Result Record × S). o.0) (sym end) ∙ h1))

    -- On a service that keeps DynamoDB's documented behaviour (IsFaithful): an acquisition that
    -- returns a record has created the plan's item, with itself as the owner, where there was none, or
    -- has set itself as the owner of the plan's item, which nobody held (IsClaimed).
    pub acquire-IsClaimed :
        (now : ℕ) (s : S) {r : Record}
        → (acquire v table x j now p owner s).0 ≡ ok r
        → IsClaimed p owner
            (f.stored s table (key p))
            (f.stored (acquire v table x j now p owner s).1 table (key p))
    unfolding acquire
    acquire-IsClaimed now s h =
        let r0 = new_record p now in
        let same =
          permitted (owner == "") _
            (lift (encode j x r0) >>= λ d.
              attempt (v.put_item (create_request table p owner d))
              >>= create_reply v table x j p owner r0)
            s h in
        along (f.stored s table (key p)) same
          (created-IsClaimed r0 s (ap (λ (o : Result Record × S). o.0) (sym same) ∙ h))
