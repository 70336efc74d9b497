-- ===== src/Journal/Refusals.antt =====
-- What the store refuses a runner while another holds the item.
use mathlib.Core.Path.{subst}
use dash_network_go.Common.{ℕ, String, Option, ◌≡◌, ◌≢◌, inl, inr}
use dash_network_go.Common.Result.{ok}
use dash_network_go.Provision.Types.{Plan, Record}
use dash_network_go.Provision.Plan.{key}
use dash_network_go.Provision.Outside.{Outside}
use dash_network_go.Journal.Table.{Item, Service}
use dash_network_go.Journal.Faithful.{IsFaithful}
use dash_network_go.Journal.Codec.{Json}
use dash_network_go.Journal.Dynamo.{acquire, save}
use dash_network_go.Journal.Lock.{IsHeld, Steps-IsHeld}
use dash_network_go.Journal.Runs.{acquire-Moves, save-Moves}
use dash_network_go.Journal.Saves.{IsSaved, save-IsSaved}
use dash_network_go.Journal.Claims.{IsClaimed, acquire-IsClaimed}

-- The holder of an item is the runner whose save it accepted, and a claimed item had no holder.
saved_by_holder :
    (p : Plan) (owner a d : String) (revision : ℕ) (i i' : Option Item)
    → IsSaved p owner revision d i i'
    → IsHeld a i
    → owner ≡ a
saved_by_holder p owner a d revision i i' (item, is, plan, held, before, after) h =
    let held_by_a = subst (IsHeld a) is h in cc

unclaimed :
    (p : Plan) (owner a : String) (i i' : Option Item) → IsClaimed p owner i i' → IsHeld a i → ⊥
unclaimed p owner a i i' (inl (d, is, after)) h = subst (IsHeld a) is h
unclaimed p owner a i i' (inr (item, is, plan, is_free, after)) h =
    let held_by_a = subst (IsHeld a) is h in absurd (cc)

module _ {S : Type 0} {v : Service S} (f : IsFaithful v) (table : String) (x : Outside)
    (j : Json) where
  -- On a service that keeps DynamoDB's documented behaviour (IsFaithful), while another runner holds
  -- the plan's item: a save returns an error and leaves the item as it is.
  pub save-refused :
      (r : Record) (owner a : String) (s : S)
      → IsHeld a (f.stored s table (key r.plan))
      → owner ≢ a
      → ((save v table x j r owner s).0 ≢ ok tt)
        × (f.stored (save v table x j r owner s).1 table (key r.plan)
            ≡ f.stored s table (key r.plan))
  save-refused r owner a s held other = (
    λ accepted.
        let (d, encoded, saved) = save-IsSaved f table x j r owner s accepted in
        other (saved_by_holder r.plan owner a d r.revision _ _ saved held),
    Steps-IsHeld ((save-Moves f table owner x j r).at s table (key r.plan)) held other,
  )

  -- On a service that keeps DynamoDB's documented behaviour (IsFaithful), while another runner holds
  -- the plan's item: an acquisition returns an error and leaves the item as it is.
  pub acquire-refused :
      (now : ℕ) (p : Plan) (owner a : String) (s : S) (r : Record)
      → IsHeld a (f.stored s table (key p))
      → owner ≢ a
      → ((acquire v table x j now p owner s).0 ≢ ok r)
        × (f.stored (acquire v table x j now p owner s).1 table (key p) ≡ f.stored s table (key p))
  acquire-refused now p owner a s r held other = (
    λ accepted. unclaimed p owner a _ _ (acquire-IsClaimed f table p owner x j now s accepted) held,
    Steps-IsHeld ((acquire-Moves f table owner x j now p).at s table (key p)) held other,
  )
