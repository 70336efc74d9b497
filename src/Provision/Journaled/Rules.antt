-- ===== src/Provision/Journaled/Rules.antt =====
-- The write-ahead policy and its rules for sequences, over the effects of internal/provision.
use dash_network_go.Common.{String, none, some, List, [], ◌∷◌, ◌≡◌}
use dash_network_go.Provision.Types.{AddressProgress, NodeProgress, Record, node_of}
use dash_network_go.Provision.Effects.{
  Call, World, State, run_instances, allocate, associate, release_address, save, ask, get, put,
}
use dash_network_go.Provision.Hoare.{Keeps, Keeps-bind, Keeps-get, Keeps-or_raise}
use dash_network_go.Provision.Ec2.{save_journal, put_node}

-- The last call was a save that the store accepted, of a record with the property.
abbrev pub Saved : World → (Record → Type 0) → List Call → Type 0
Saved w P [] = ⊥
Saved w P (save r owner ∷ h) = (w h (save r owner) ≡ none) × P r
Saved w P (c ∷ h) = ⊥

-- The node's address is journaled in this phase.
abbrev pub HasAddressPhase : String → NodeProgress → Type 0
HasAddressPhase phase n = (a : AddressProgress) × (n.address ≡ some a) × (a.phase ≡ phase)

-- What a call rests on: a launch, an allocation, an association and a release each follow, with no
-- call between, an accepted save of the record that announces them.
abbrev pub Rests : World → Call → List Call → Type 0
Rests w (run_instances token name) h = Saved w (λ r. (node_of r name).phase ≡ "launching") h
Rests w (allocate name) h = Saved w (λ r. HasAddressPhase "allocating" (node_of r name)) h
Rests w (associate allocation instance_id) h =
    Saved w
      (λ r.
        (name : String) × HasAddressPhase "associating" (node_of r name)
        × ((node_of r name).instance_id ≡ instance_id))
      h
Rests w (release_address id) h =
    Saved w (λ r. (name : String) × HasAddressPhase "releasing" (node_of r name)) h
Rests w c h = Unit

abbrev pub AreJournaled : World → List Call → Type 0
AreJournaled w [] = Unit
AreJournaled w (c ∷ h) = Rests w c h × AreJournaled w h

-- The policy as a property of a run's state.
abbrev pub Policy : World → State → Type 0
Policy w s = AreJournaled w s.calls

pub Keeps-put : (r : Record) → Keeps Policy (put r)
unfolding put
Keeps-put r = record { at = λ w s h. h }

-- A call that the policy says nothing of.
pub Keeps-ask : (c : Call) → ((w : World) (h : List Call) → Rests w c h) → Keeps Policy (ask c)
unfolding ask
Keeps-ask c quiet = record { at = λ w s h. (quiet w s.calls, h) }

pub put_node-Keeps : (name : String) (n : NodeProgress) → Keeps Policy (put_node name n)
unfolding put_node
put_node-Keeps name n = Keeps-bind get _ Keeps-get (λ r. Keeps-put _)

pub save_journal-Keeps : (owner : String) → Keeps Policy (save_journal owner)
unfolding save_journal
save_journal-Keeps owner = Keeps-bind (ask Call.now) _ (Keeps-ask Call.now (λ w h. tt)) λ time.
    Keeps-bind get _ Keeps-get λ r. Keeps-bind (put _) _ (Keeps-put _) λ u.
      Keeps-bind get _ Keeps-get λ r'.
        Keeps-bind (ask (save r' owner)) _ (Keeps-ask (save r' owner) (λ w h. tt))
          λ e. Keeps-or_raise e
