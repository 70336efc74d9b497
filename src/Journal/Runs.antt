-- ===== src/Journal/Runs.antt =====
-- Every operation of both stores takes only its runner's steps, whatever DynamoDB answers.
use native.Mathlib.Omega.{arith}
use dash_network_go.Common.{ℕ, ◌≤◌, String, Bool, false, Option, ◌≡◌, ◌||◌, not, ◌==◌, eqb}
use dash_network_go.Common.Result.{Result, ok, err}
use dash_network_go.Provision.Types.{Plan, Record}
use dash_network_go.Provision.Outside.{Outside}
use dash_network_go.Provision.Compute.{is_negative}
use dash_network_go.Journal.Table.{Item, Service}
use dash_network_go.Journal.Faithful.{IsFaithful}
use dash_network_go.Journal.Codec.{Json}
use dash_network_go.Journal.Dynamo.{
  key_of, state_table_of, is_conditional, verify, read_item, claim_reply, claim, update_reply,
  save_data, release, read, acquire_existing, create_reply, acquire, save,
}
use dash_network_go.Journal.Moves.{
  Moves, Moves-pure, Moves-raise, Moves-lift, Moves-attempt, Moves-if, Moves-bind, Moves-keeps,
}
use dash_network_go.Journal.Requests.{
  claim_request-Moves, release_request-Moves, save_request-Moves, create_request-Moves,
}

pub positive : (revision : ℕ) (b : Bool) → (b || eqb revision 0) ≡ false → 1 ≤ revision
positive revision b h = ground arith

module _ {S : Type 0} {v : Service S} (f : IsFaithful v) (table : String) where
  module _ (owner : String) where
    pub verify-Moves : (p : Plan) → Moves f.stored owner (verify v table p)
    unfolding verify
    verify-Moves p =
        Moves-if (not (table == state_table_of p)) _ _ (λ e. Moves-raise _)
          λ e.
            Moves-bind _ _ (Moves-attempt _ (Moves-keeps _ (f.describe_keeps table)))
              λ answer. Moves-lift _

    pub read_item-Moves : (p : Plan) → Moves f.stored owner (read_item v table p)
    unfolding read_item
    read_item-Moves p =
        Moves-bind _ _ (Moves-keeps _ (f.get_keeps table (key_of p))) λ out. Moves-lift _

    claim_reply-Moves :
        (r : Result (Option Item)) → Moves f.stored owner (claim_reply v table owner r)
    unfolding claim_reply
    claim_reply-Moves (ok out) = Moves-lift _
    claim_reply-Moves (err e) = Moves-raise _

    pub claim-Moves : (p : Plan) → Moves f.stored owner (claim v table p owner)
    unfolding claim
    claim-Moves p =
        Moves-bind _ _ (Moves-attempt _ (claim_request-Moves f table p owner)) claim_reply-Moves

    update_reply-Moves :
        (m : String) (r : Result (Option Item)) → Moves f.stored owner (update_reply v table m r)
    unfolding update_reply
    update_reply-Moves m (ok out) = Moves-pure tt
    update_reply-Moves m (err e) = Moves-raise _

    pub save_data-Moves :
        (r : Record) (d : String)
        → 1 ≤ r.revision
        → Moves f.stored owner (save_data v table r owner d)
    unfolding save_data
    save_data-Moves r d at_least =
        Moves-bind _ _
          (Moves-attempt _ (save_request-Moves f table r.plan owner r.revision d at_least))
          (update_reply-Moves _)

    pub release-Moves : (p : Plan) → Moves f.stored owner (release v table p owner)
    unfolding release
    release-Moves p =
        Moves-if (owner == "") _ _ (λ e. Moves-raise _)
          λ e.
            Moves-bind _ _ (Moves-attempt _ (release_request-Moves f table p owner))
              (update_reply-Moves _)

    module _ (x : Outside) (j : Json) where
      pub read-Moves : (p : Plan) → Moves f.stored owner (read v table x j p)
      unfolding read
      read-Moves p =
          Moves-bind _ _ (read_item-Moves p) λ item. Moves-bind _ _ (Moves-lift _) λ r. Moves-pure _

      acquire_existing-Moves :
          (p : Plan) → Moves f.stored owner (acquire_existing v table x j p owner)
      unfolding acquire_existing
      acquire_existing-Moves p =
          Moves-bind _ _ (read-Moves p)
            λ before. Moves-bind _ _ (claim-Moves p) λ item. Moves-lift _

      create_reply-Moves :
          (p : Plan) (r : Record) (reply : Result (Unit {0}))
          → Moves f.stored owner (create_reply v table x j p owner r reply)
      unfolding create_reply
      create_reply-Moves p r (ok u) = Moves-pure r
      create_reply-Moves p r (err e) =
          Moves-if (is_conditional e) _ _ (λ e. acquire_existing-Moves p) (λ e. Moves-raise _)

      pub acquire-Moves :
          (now : ℕ) (p : Plan) → Moves f.stored owner (acquire v table x j now p owner)
      unfolding acquire
      acquire-Moves now p =
          Moves-if (owner == "") _ _ (λ e. Moves-raise _)
            λ e. Moves-bind _ _ (Moves-lift _) λ d.
              Moves-bind _ _ (Moves-attempt _ (create_request-Moves f table p owner d))
                (create_reply-Moves p _)

      pub save-Moves : (r : Record) → Moves f.stored owner (save v table x j r owner)
      unfolding save
      save-Moves r =
          Moves-if (owner == "") _ _ (λ e. Moves-raise _)
            λ e.
              Moves-if (is_negative r.revision || eqb r.revision 0) _ _ (λ e. Moves-raise _)
                λ ready.
                  Moves-bind _ _ (Moves-lift _)
                    λ d. save_data-Moves r d (positive r.revision (is_negative r.revision) ready)
