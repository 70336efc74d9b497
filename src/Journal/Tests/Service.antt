-- ===== src/Journal/Tests/Service.antt =====
-- A DynamoDB in memory that answers every call, and that it behaves as documented.
use native.Mathlib.Omega.{arith}
use mathlib.Core.Path.{subst}
use dash_network_go.Common.{
  String, Bool, true, false, Option, none, some, ◌≡◌, refl, sym, ap, ◌∙◌, ◌⊎◌, inl, inr, ◌&&◌, ◌==◌,
  eq_iff, Bool-cases, lookup, if◌then◌else◌,
}
use dash_network_go.Common.Result.{Result, ok, err, api}
use dash_network_go.Journal.Table.{
  str, Item, value, has_value, Condition, Update, Service, holds, changed, updated, written,
}
use dash_network_go.Journal.Requests.{present}
use dash_network_go.Journal.Faithful.{IsFaithful}

-- the rows of each table by their network
abbrev pub Rows : Type 0
Rows = String → String → Option Item

-- a row under a key that is not its own does not count
unfoldable pub own : String → Option Item → Option Item
own n none = none
own n (some item) = if has_value (lookup "Network" item) (str n) then some item else none

unfoldable pub row : Rows → Rows
unfolding own
row s t n = own n (s t n)

unfoldable pub store : String → String → Item → Rows → Rows
store t n item s t' n' = if t' == t && n' == n then some item else s t' n'

-- one write, if its row is under its own key and its condition holds
accepts : String → String → Item → Condition → Rows → Bool
unfolding row
accepts t n item c s = has_value (lookup "Network" item) (str n) && holds c (row s t n)

unfoldable pub answer : {A : Type 0} → Bool → A → Rows → Rows → Result A × Rows
answer true a s' s = (ok a, s')
answer false a s' s = (err (api "ConditionalCheckFailedException"), s)

unfoldable pub memory : Service Rows
unfolding row store accepts answer changed value
memory = record {
  describe_table = λ t s. (ok none, s);
  get_item = λ t k s. (ok (row s t (value k "Network")), s);
  put_item = λ q s.
      let n = value q.item "Network" in
      answer (accepts q.table n q.item q.condition s) tt (store q.table n q.item s) s;
  update_item = λ q s.
      let n = value q.key "Network" in
      let item = changed q (row s q.table n) in
      answer (accepts q.table n item q.condition s) (if q.returns_new then some item else none)
        (store q.table n item s) s;
}

own-some :
    (n : String) (i : Option Item) (item : Item)
    → own n i ≡ some item
    → lookup "Network" item ≡ some (str n)
unfolding own
own-some n none item h = absurd (cc)
own-some n (some i) item h = decided (has_value (lookup "Network" i) (str n)) refl h
  where
    decided :
        (b : Bool)
        → has_value (lookup "Network" i) (str n) ≡ b
        → (if b then some i else none) ≡ some item
        → lookup "Network" item ≡ some (str n)
    decided false is e = absurd (cc)
    decided true is e = present (lookup "Network" item) (str n) (
        subst
          (λ (o : Option Item).
            has_value (elim o [ none ↦ none | some w ↦ lookup "Network" w ]) (str n) ≡ true)
          e is)

and_true : (a b : Bool) → (a && b) ≡ true → (a ≡ true) × (b ≡ true)
and_true a b h = (ground arith, ground arith)

own_kept :
    (n : String) (item : Item)
    → has_value (lookup "Network" item) (str n) ≡ true
    → own n (some item) ≡ some item
unfolding own
own_kept n item h = rw h refl

same_text : (t : String) → (t == t) ≡ true
same_text t = (eq_iff t t).1 refl

-- a write that is accepted is what is stored
store_self :
    (t n : String) (item : Item) (s : Rows)
    → has_value (lookup "Network" item) (str n) ≡ true
    → row (store t n item s) t n ≡ some item
unfolding row store
store_self t n item s own_key = rw (same_text t, same_text n) (own_kept n item own_key)

-- the other rows stay
store_other :
    (t n : String) (item : Item) (s : Rows) (t' n' : String)
    → (t' == t && n' == n) ≡ false
    → row (store t n item s) t' n' ≡ row s t' n'
unfolding row store
store_other t n item s t' n' other = rw other refl

module _ {A : Type 0} (a : A) (t n : String) (item : Item) (c : Condition) (s : Rows) where
  -- an answered write
  write_accepted :
      (b : Bool)
      → accepts t n item c s ≡ b
      → (out : A) → (answer b a (store t n item s) s).0 ≡ ok out
      → (holds c (row s t n) ≡ true)
        × (row (answer b a (store t n item s) s).1 t n ≡ some item)
        × (out ≡ a)
  unfolding answer accepts
  write_accepted false is out h = absurd (cc)
  write_accepted true is out h =
      let (own_key, holding) =
        and_true (has_value (lookup "Network" item) (str n)) (holds c (row s t n)) is in
      (holding, store_self t n item s own_key, cc)

  write_effect :
      (b : Bool) (t' n' : String)
      → accepts t n item c s ≡ b
      → (row (answer b a (store t n item s) s).1 t' n' ≡ row s t' n')
        ⊎ ((t' ≡ t)
            × (n' ≡ n)
            × (row (answer b a (store t n item s) s).1 t' n'
                ≡ (if holds c (row s t' n') then some item else row s t' n')))
  unfolding answer accepts
  write_effect false t' n' is = inl refl
  write_effect true t' n' is = elim (Bool-cases (t' == t && n' == n)) [
    | inr other ↦ inl (store_other t n item s t' n' other)
    | inl same ↦
        let (same_t, same_n) = and_true (t' == t) (n' == n) same in
        let (own_key, holding) =
          and_true (has_value (lookup "Network" item) (str n)) (holds c (row s t n)) is in
        let e_t = (eq_iff t' t).0 same_t in
        let e_n = (eq_iff n' n).0 same_n in
        inr (e_t, e_n, rw (e_t, e_n, holding) (store_self t n item s own_key))
  ]

after_update :
    (q : Update) (s : Rows) (t n : String)
    → t ≡ q.table
    → n ≡ value q.key "Network"
    → (if holds q.condition (row s t n)
        then some (changed q (row s q.table (value q.key "Network")))
        else row s t n)
      ≡ updated q (row s t n)
unfolding updated
after_update q s t n e_t e_n =
    ap (λ o. if holds q.condition (row s t n) then some (changed q o) else row s t n)
      (sym (ap (λ t'. row s t' n) e_t ∙ ap (λ n'. row s q.table n') e_n))

returned :
    (b : Bool) (o : Option Item) {item : Item}
    → b ≡ true
    → some item ≡ (if b then o else none)
    → o ≡ some item
returned true o is h = sym h
returned false o is h = cc

pub memory-IsFaithful : IsFaithful memory
unfolding memory written
memory-IsFaithful = record {
  stored = row;
  keyed = λ s t n item h. own-some n (s t n) item h;
  describe_keeps = λ t s. refl;
  get_keeps = λ t k s. refl;
  get_reads = λ t k s out h. inr (cc);
  put_effect =
      λ q s t n. write_effect tt q.table (value q.item "Network") q.item q.condition s _ t n refl;
  put_accepted = λ q s h.
      let (holding, after, same) =
        write_accepted tt q.table (value q.item "Network") q.item q.condition s _ refl tt h in
      (holding, after);
  update_effect = λ q s t n.
      elim (write_effect
        (if q.returns_new then some (changed q (row s q.table (value q.key "Network"))) else none)
        q.table (value q.key "Network") (changed q (row s q.table (value q.key "Network")))
        q.condition s _ t n refl) [
          | inl same ↦ inl same
          | inr (e_t, e_n, after) ↦ inr (e_t, e_n, after ∙ after_update q s t n e_t e_n)
        ];
  update_accepted = λ q s out h.
      let (holding, after, same) =
        write_accepted _ q.table (value q.key "Network") _ q.condition s _ refl out h in
      (holding, after);
  update_returned = λ q s item h new.
      let (holding, after, same) =
        write_accepted _ q.table (value q.key "Network") _ q.condition s _ refl (some item) h in
      after ∙ returned q.returns_new _ new same;
}

pub stored_lem : row ≡ memory-IsFaithful.stored
unfolding memory-IsFaithful
stored_lem = refl
