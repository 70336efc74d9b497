-- ===== src/Journal/Retiring/Runs.antt =====
-- The operations of the store that retires addresses take only their runner's steps too.
use dash_network_go.Common.{◌≤◌, String, ◌≡◌, ◌||◌, not, ◌==◌, eqb, Option}
use dash_network_go.Common.Result.{ok}
use dash_network_go.Common.Holds.{Holds-then, Holds-fact, Holds-any}
use dash_network_go.Common.Stateful.{M}
use dash_network_go.Provision.Types.{Plan, Record}
use dash_network_go.Provision.Outside.{Outside}
use dash_network_go.Provision.Compute.{is_negative}
use dash_network_go.Journal.Table.{Item, Service}
use dash_network_go.Journal.Faithful.{IsFaithful}
use dash_network_go.Journal.Codec.{Json}
use dash_network_go.Journal.Cleanup.{CleanupStore, is_plan_of, cleanup_data}
use dash_network_go.Journal.Lock.{here}
use dash_network_go.Journal.Moves.{
  Moves, Moves-pure, Moves-raise, Moves-lift, Moves-if, Moves-bind, Moves-given,
}
use dash_network_go.Journal.Runs.{
  positive, read_item-Moves, claim-Moves, save_data-Moves, release-Moves,
}
use dash_network_go.Journal.Retiring.{
  beside, get_store, put_store, claim_existing, cleanup_acquire, cleanup_save, cleanup_release,
}

-- the items that the service stores, in a state with a store beside it
abbrev pub besides :
    {S : Type 0}
    → (S → String → String → Option Item)
    → CleanupStore × S
    → String
    → String
    → Option Item
besides stored o = stored o.1

module _ {S : Type 0} (stored : S → String → String → Option Item) {owner : String} where
  beside-Moves :
      {A : Type 0} (m : M S A) → Moves stored owner m → Moves (besides stored) owner (beside m)
  unfolding beside
  beside-Moves m k = record { at = λ (c, s) t n. k.at s t n }

  get_store-Moves : Moves (besides stored) owner get_store
  unfolding get_store
  get_store-Moves = record { at = λ (c, s) t n. here }

  put_store-Moves : (c' : CleanupStore) → Moves (besides stored) owner (put_store c')
  unfolding put_store
  put_store-Moves c' = record { at = λ (c, s) t n. here }

-- data is only written for a revision from 1 on
data-positive :
    (j : Json) (x : Outside) (c : CleanupStore) (r : Record) (owner d : String)
    → cleanup_data j x c r owner ≡ ok d
    → 1 ≤ r.revision
unfolding cleanup_data
data-positive j x c r owner d is =
    Holds-fact (cleanup_data j x c r owner)
      (Holds-then (λ b. 1 ≤ r.revision)
        (c.owner == ""
          || not (owner == c.owner)
          || not (is_plan_of c.plan r.plan)
          || is_negative r.revision
          || eqb r.revision 0)
        _ _ (λ ready. Holds-any _ (positive r.revision _ ready)))
      is

module _ {S : Type 0} {v : Service S} (f : IsFaithful v) (table owner : String) where
  pub cleanup_release-Moves :
      (p : Plan) → Moves (besides f.stored) owner (cleanup_release v table p owner)
  unfolding cleanup_release
  cleanup_release-Moves p = Moves-bind _ _ (get_store-Moves f.stored) λ c.
      Moves-if (c.owner == "" || not (owner == c.owner) || not (is_plan_of c.plan p)) _ _
        (λ e. Moves-raise _)
        λ e.
          Moves-bind _ _ (beside-Moves f.stored _ (release-Moves f table owner p))
            λ u. put_store-Moves f.stored _

  module _ (x : Outside) (j : Json) where
    claim_existing-Moves : (p : Plan) → Moves f.stored owner (claim_existing v table x j p owner)
    unfolding claim_existing
    claim_existing-Moves p =
        Moves-bind _ _ (read_item-Moves f table owner p)
          λ item. Moves-bind _ _ (Moves-lift _) λ r. claim-Moves f table owner p

    pub cleanup_acquire-Moves :
        (p : Plan) → Moves (besides f.stored) owner (cleanup_acquire v table x j p owner)
    unfolding cleanup_acquire
    cleanup_acquire-Moves p = Moves-bind _ _ (get_store-Moves f.stored) λ c.
        Moves-if (owner == "" || not (c.owner == "")) _ _ (λ e. Moves-raise _)
          λ e. Moves-bind _ _ (beside-Moves f.stored _ (claim_existing-Moves p)) λ item.
            Moves-bind _ _ (Moves-lift _) λ r.
              Moves-bind _ _ (Moves-lift _)
                λ c'. Moves-bind _ _ (put_store-Moves f.stored c') λ u. Moves-pure r

    pub cleanup_save-Moves :
        (r : Record) → Moves (besides f.stored) owner (cleanup_save v table x j r owner)
    unfolding cleanup_save
    cleanup_save-Moves r = Moves-bind _ _ (get_store-Moves f.stored) λ c. Moves-given _ _ λ d is.
        beside-Moves f.stored _
          (save_data-Moves f table owner r d (data-positive j x c r owner d is))
