-- ===== src/Journal/Retiring.antt =====
-- internal/journal/address_cleanup.go: the operations of the store that retires addresses, on its own
-- fields and the service's state.
pub mod Runs
use dash_network_go.Common.{
  String, Bool, true, false, Option, none, some, List, [], ◌∷◌, ◌||◌, not, ◌==◌, if◌then◌else◌,
}
use dash_network_go.Common.Result.{text, Result, ok, err}
use dash_network_go.Common.Stateful.{M, pure, raise, lift, ◌>>=◌, ◌>>◌}
use dash_network_go.Provision.Types.{Plan, Record}
use dash_network_go.Provision.Outside.{Outside}
use dash_network_go.Provision.Compute.{validate_address_cleanup}
use dash_network_go.Journal.Table.{Item, Service}
use dash_network_go.Journal.Codec.{Json, decode_record}
use dash_network_go.Journal.Dynamo
use dash_network_go.Journal.Dynamo.{read_item, claim, save_data}
use dash_network_go.Journal.Cleanup.{CleanupStore, is_plan_of, cleanup_data, acquired_store}

-- a step of the service beside the store's own fields
unfoldable pub beside : {S A : Type 0} → M S A → M (CleanupStore × S) A
beside m (c, s) = let (r, s') = m s in (r, (c, s'))

unfoldable pub get_store : {S : Type 0} → M (CleanupStore × S) CleanupStore
get_store (c, s) = (ok c, (c, s))

unfoldable pub put_store : {S : Type 0} → CleanupStore → M (CleanupStore × S) (Unit {0})
put_store c' (c, s) = (ok tt, (c', s))

module _ {S : Type 0} (v : Service S) (table : String) where
  module _ (x : Outside) (j : Json) where
    -- the part of Acquire that reads and claims
    unfoldable pub claim_existing : Plan → String → M S Item
    claim_existing p owner = do
      before ← read_item v table p
      lift (decode_record j (validate_address_cleanup x) before p)
      claim v table p owner

    unfoldable pub cleanup_acquire : Plan → String → M (CleanupStore × S) Record
    cleanup_acquire p owner = do
      c ← get_store
      if owner == "" || not (c.owner == "")
          then raise (text "cleanup requires a fresh store and runner identity")
          else do
            item ← beside (claim_existing p owner)
            r ← lift (decode_record j (validate_address_cleanup x) item p)
            c' ← lift (acquired_store j item r owner)
            put_store c'
            pure r

    unfoldable pub cleanup_save : Record → String → M (CleanupStore × S) (Unit {0})
    cleanup_save r owner = do
      c ← get_store
      data_text ← lift (cleanup_data j x c r owner)
      beside (save_data v table r owner data_text)

  unfoldable pub cleanup_release : Plan → String → M (CleanupStore × S) (Unit {0})
  unfolding is_plan_of
  cleanup_release p owner = do
    c ← get_store
    if c.owner == "" || not (owner == c.owner) || not (is_plan_of c.plan p)
        then raise (text "cleanup release lost its acquired plan or runner")
        else do beside (Dynamo.release v table p owner); put_store (record c { owner = "" })
