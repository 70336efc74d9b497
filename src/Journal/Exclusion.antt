-- ===== src/Journal/Exclusion.antt =====
-- Runners that share a journal: any sequence of operations of both stores, by any runners.
use mathlib.Core.Path.{subst}
use dash_network_go.Common.{ℕ, String, List, [], ◌∷◌, ◌≡◌, ◌≢◌, refl, sym, ◌∙◌, All}
use dash_network_go.Provision.Types.{Plan, Record}
use dash_network_go.Provision.Outside.{Outside}
use dash_network_go.Journal.Table.{Service}
use dash_network_go.Journal.Faithful.{IsFaithful}
use dash_network_go.Journal.Codec.{Json}
use dash_network_go.Journal.Cleanup.{CleanupStore}
use dash_network_go.Journal.Dynamo
use dash_network_go.Journal.Retiring
use dash_network_go.Journal.Lock.{
  Steps, IsHeld, Steps-IsHeld, Grows, Steps-Grows, Grows-refl, Grows-trans,
}
use dash_network_go.Journal.Runs.{
  verify-Moves, read-Moves, acquire-Moves, save-Moves, release-Moves,
}
use dash_network_go.Journal.Retiring.Runs.{
  cleanup_acquire-Moves, cleanup_save-Moves, cleanup_release-Moves,
}

-- One operation, with the runner that calls it; a store that retires addresses comes with its fields.
pub data Op : Type 0 where
  verify : Plan → String → Op
  read : Plan → String → Op
  acquire : ℕ → Plan → String → Op
  save : Record → String → Op
  release : Plan → String → Op
  cleanup_acquire : CleanupStore → Plan → String → Op
  cleanup_save : CleanupStore → Record → String → Op
  cleanup_release : CleanupStore → Plan → String → Op

abbrev pub runner : Op → String
runner (verify p owner) = owner
runner (read p owner) = owner
runner (acquire now p owner) = owner
runner (save r owner) = owner
runner (release p owner) = owner
runner (cleanup_acquire c p owner) = owner
runner (cleanup_save c r owner) = owner
runner (cleanup_release c p owner) = owner

module _ {S : Type 0} (v : Service S) (table : String) (x : Outside) (j : Json) where
  -- the service's state after an operation
  unfoldable pub after : Op → S → S
  after (verify p owner) s = (Dynamo.verify v table p s).1
  after (read p owner) s = (Dynamo.read v table x j p s).1
  after (acquire now p owner) s = (Dynamo.acquire v table x j now p owner s).1
  after (save r owner) s = (Dynamo.save v table x j r owner s).1
  after (release p owner) s = (Dynamo.release v table p owner s).1
  after (cleanup_acquire c p owner) s = (Retiring.cleanup_acquire v table x j p owner (c, s)).1.1
  after (cleanup_save c r owner) s = (Retiring.cleanup_save v table x j r owner (c, s)).1.1
  after (cleanup_release c p owner) s = (Retiring.cleanup_release v table p owner (c, s)).1.1

  unfoldable pub after_all : List Op → S → S
  after_all [] s = s
  after_all (o ∷ os) s = after_all os (after o s)

module _ {S : Type 0} {v : Service S} (f : IsFaithful v) (table : String) (x : Outside)
    (j : Json) where
  -- On a service that keeps DynamoDB's documented behaviour (IsFaithful), each operation of the store
  -- and of the store that retires addresses, whether it succeeds or fails, refines the abstract
  -- journal: it changes the item of any table and network only by steps of its own runner (Steps).
  pub after-Steps :
      (o : Op) (s : S) (t n : String)
      → Steps (runner o) (f.stored s t n) (f.stored (after v table x j o s) t n)
  unfolding after
  after-Steps (verify p owner) s t n = (verify-Moves f table owner p).at s t n
  after-Steps (read p owner) s t n = (read-Moves f table owner x j p).at s t n
  after-Steps (acquire now p owner) s t n = (acquire-Moves f table owner x j now p).at s t n
  after-Steps (save r owner) s t n = (save-Moves f table owner x j r).at s t n
  after-Steps (release p owner) s t n = (release-Moves f table owner p).at s t n
  after-Steps (cleanup_acquire c p owner) s t n =
      (cleanup_acquire-Moves f table owner x j p).at (c, s) t n
  after-Steps (cleanup_save c r owner) s t n =
      (cleanup_save-Moves f table owner x j r).at (c, s) t n
  after-Steps (cleanup_release c p owner) s t n =
      (cleanup_release-Moves f table owner p).at (c, s) t n

  -- On a service that keeps DynamoDB's documented behaviour (IsFaithful): while a runner holds an
  -- item, no sequence of operations of other runners changes it.
  pub after_all-IsHeld :
      (a : String) (os : List Op) (s : S) (t n : String)
      → IsHeld a (f.stored s t n)
      → All (λ o. runner o ≢ a) os
      → f.stored (after_all v table x j os s) t n ≡ f.stored s t n
  unfolding after_all
  after_all-IsHeld a [] s t n held others = refl
  after_all-IsHeld a (o ∷ os) s t n held (other, others) =
      let same = Steps-IsHeld (after-Steps o s t n) held other in
      after_all-IsHeld a os (after v table x j o s) t n (subst (IsHeld a) (sym same) held) others
      ∙ same

  -- On a service that keeps DynamoDB's documented behaviour (IsFaithful), in every sequence of
  -- operations of any runners: an item that exists stays, keeps its plan, and its revision does not
  -- fall (Grows).
  pub after_all-Grows :
      (os : List Op) (s : S) (t n : String)
      → Grows (f.stored s t n) (f.stored (after_all v table x j os s) t n)
  unfolding after_all
  after_all-Grows [] s t n = Grows-refl (f.stored s t n)
  after_all-Grows (o ∷ os) s t n =
      Grows-trans _ _ (f.stored (after_all v table x j os (after v table x j o s)) t n)
        (Steps-Grows (after-Steps o s t n)) (after_all-Grows os (after v table x j o s) t n)
