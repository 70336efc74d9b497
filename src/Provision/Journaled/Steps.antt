-- ===== src/Provision/Journaled/Steps.antt =====
-- The step that announces a change: a node written, the record saved, and the change called next.
use dash_network_go.Common.{
  String, Option, none, some, List, [], ◌∷◌, ◌≡◌, refl, lookup_or-insert_self,
}
use dash_network_go.Common.Result.{Error}
use dash_network_go.Provision.Types.{NodeProgress, zero_node, Record, node_of}
use dash_network_go.Provision.Effects.{
  Call, World, State, M, save, pure, raise, ask, or_raise, get, put, ◌>>=◌,
}
use dash_network_go.Provision.Ec2.{save_journal, put_node}
use dash_network_go.Provision.Hoare.{Keeps, keeps_continue}
use dash_network_go.Provision.Journaled.Rules.{Policy, Saved, Rests, AreJournaled}

-- What the announcement of a node gives to the run that follows it.
abbrev pub Announced : World → String → NodeProgress → State → Type 0
Announced w name n s = AreJournaled w s.calls × Saved w (λ r. node_of r name ≡ n) s.calls

-- A run that keeps to the policy after the announcement.
abbrev pub Follows : {A : Type 0} → String → NodeProgress → M A → Type 0
Follows name n k = (w : World) (s : State) → Announced w name n s → AreJournaled w (k w s).1.calls

module _ {A : Type 0} (owner name : String) (n : NodeProgress) (k : M A)
    (follows : Follows name n k) where
  after_save :
      (w : World) (h : List Call) (r : Record) (e : Option Error)
      → w h (save r owner) ≡ e
      → AreJournaled w h
      → node_of r name ≡ n
      → AreJournaled w
          ((or_raise e >>= λ _. k) w (record { journal = r; calls = save r owner ∷ h })).1.calls
  unfolding or_raise pure raise ◌>>=◌
  after_save w h r none eq j is = follows w _ ((tt, j), (eq, is))
  after_save w h r (some e) eq j is = (tt, j)

  -- A node put into the record and saved is announced to what comes next.
  pub Keeps-announce : Keeps Policy (put_node name n >>= λ _. save_journal owner >>= λ _. k)
  unfolding put_node save_journal ◌>>=◌ ask get put node_of
  Keeps-announce = record {
    at = λ w s h.
        after_save w (Call.now ∷ s.calls) _ _ refl (tt, h)
          (lookup_or-insert_self zero_node name n s.journal.nodes);
  }

Saved-map :
    (w : World) (P Q : Record → Type 0) (h : List Call)
    → ((r : Record) → P r → Q r)
    → Saved w P h
    → Saved w Q h
Saved-map w P Q [] f h = elim h [ ]
Saved-map w P Q (save r owner ∷ cs) f h = (h.0, f r h.1)
Saved-map w P Q (c ∷ cs) f h = elim h [ ]

module _ {A B : Type 0} (name : String) (n : NodeProgress) where
  pub Follows-bind :
      (m : M A) (f : A → M B)
      → Follows name n m
      → ((a : A) → Keeps Policy (f a))
      → Follows name n (m >>= f)
  unfolding ◌>>=◌
  Follows-bind m f fm kf = λ w s h. keeps_continue w (m w s) f (fm w s h) kf

-- The announced change is called: the policy asks for what the announced node says.
pub Follows-ask :
    (name : String) (n : NodeProgress) (c : Call) (Q : World → Record → Type 0)
    → ((w : World) (r : Record) → node_of r name ≡ n → Q w r)
    → ((w : World) (h : List Call) → Saved w (Q w) h → Rests w c h)
    → Follows name n (ask c)
unfolding ask
Follows-ask name n c Q gives rests =
    λ w s h. (rests w s.calls (Saved-map w _ (Q w) s.calls (gives w) h.1), h.0)

-- A step that keeps to the policy may follow an announcement too.
pub Follows-Keeps :
    {A : Type 0} (name : String) (n : NodeProgress) {m : M A} → Keeps Policy m → Follows name n m
Follows-Keeps name n k = λ w s h. k.at w s h.0
