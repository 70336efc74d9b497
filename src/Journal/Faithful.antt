-- ===== src/Journal/Faithful.antt =====
-- What the store relies on of DynamoDB, as documented: a conditional write is atomic, and takes
-- effect only while its condition holds. A call may fail after its write took effect (a lost reply,
-- or a repeated attempt that meets the first one's effect), also by a refused condition.
use dash_network_go.Common.{String, true, Option, none, some, [], ◌≡◌, ◌⊎◌, lookup}
use dash_network_go.Common.Result.{ok}
use dash_network_go.Journal.Table.{
  str, Item, value, Update, Put, Service, holds, changed, updated, written,
}

pub record IsFaithful {S : Type 0} (v : Service S) : Type 0 where
  -- the item of a table and a network
  pub stored : S → String → String → Option Item
  pub keyed :
      (s : S) (t n : String) (item : Item)
      → stored s t n ≡ some item
      → lookup "Network" item ≡ some (str n)
  pub describe_keeps : (t : String) (s : S) → stored (v.describe_table t s).1 ≡ stored s
  pub get_keeps : (t : String) (k : Item) (s : S) → stored (v.get_item t k s).1 ≡ stored s
  pub get_reads :
      (t : String) (k : Item) (s : S) (out : Option Item)
      → (v.get_item t k s).0 ≡ ok out
      → ((stored s t (value k "Network") ≡ none) × ((out ≡ none) ⊎ (out ≡ some [])))
        ⊎ (stored s t (value k "Network") ≡ out)
  -- a write of one item: nothing, or one attempt
  pub put_effect :
      (q : Put) (s : S) (t n : String)
      → (stored (v.put_item q s).1 t n ≡ stored s t n)
        ⊎ ((t ≡ q.table)
            × (n ≡ value q.item "Network")
            × (stored (v.put_item q s).1 t n ≡ written q (stored s t n)))
  pub put_accepted :
      (q : Put) (s : S)
      → (v.put_item q s).0 ≡ ok tt
      → (holds q.condition (stored s q.table (value q.item "Network")) ≡ true)
        × (stored (v.put_item q s).1 q.table (value q.item "Network") ≡ some q.item)
  pub update_effect :
      (q : Update) (s : S) (t n : String)
      → (stored (v.update_item q s).1 t n ≡ stored s t n)
        ⊎ ((t ≡ q.table)
            × (n ≡ value q.key "Network")
            × (stored (v.update_item q s).1 t n ≡ updated q (stored s t n)))
  pub update_accepted :
      (q : Update) (s : S) (out : Option Item)
      → (v.update_item q s).0 ≡ ok out
      → (holds q.condition (stored s q.table (value q.key "Network")) ≡ true)
        × (stored (v.update_item q s).1 q.table (value q.key "Network")
            ≡ some (changed q (stored s q.table (value q.key "Network"))))
  -- ALL_NEW
  pub update_returned :
      (q : Update) (s : S) (item : Item)
      → (v.update_item q s).0 ≡ ok (some item)
      → q.returns_new ≡ true
      → stored (v.update_item q s).1 q.table (value q.key "Network") ≡ some item
