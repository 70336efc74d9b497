-- ===== src/Provision/Exits.antt =====
-- How Execute and ReleaseAddresses end when they return no error: the deferred function of
-- runner.go and ipam_release.go, after the body's last save.
use native.Mathlib.Omega.{arith}
use dash_network_go.Common.{
  ℕ, zero, suc, String, ap, ◌∙◌, eq_iff, Bool, true, false, Option, none, some, List, ◌∷◌, ◌≡◌,
  refl, not, ◌||◌, ◌⊎◌, inr, ◌==◌,
}
use dash_network_go.Common.Result.{Error, Result, ok, err}
use dash_network_go.Provision.Types.{Record, Plan}
use dash_network_go.Provision.Outside.{Outside}
use dash_network_go.Provision.Effects.{
  Call, wait, acquire, save, release, World, State, M, pure, raise, lift, ask, or_raise, attempt,
  get, put, ◌>>=◌,
}
use dash_network_go.Provision.Release.{retire, cleanup, release_addresses}
use dash_network_go.Provision.Returns.{
  Any, Gives-last, Gives-pure, Gives-raise, Gives-if, Gives-put, Gives-look, Gives-lift, Gives-inl,
}
use dash_network_go.Provision.Hoare.{Gives, Outcome, Gives-bind}
use dash_network_go.Provision.Compute.{public_ipv4, ipam_pool}
use dash_network_go.Provision.Ec2.{save_journal}
use dash_network_go.Provision.Execute.{
  Wording, released, recover, deferring, mark_ready, poll_round, wait_then, poll, claimed, execute,
}

-- The last call was a save that the store accepted, of the run's record, which is in this phase.
abbrev pub IsSavedIn : String → String → World → State → Type 0
IsSavedIn owner phase w s =
    (h : List Call) × (s.calls ≡ save s.journal owner ∷ h)
    × (w h (save s.journal owner) ≡ none)
    × (s.journal.phase ≡ phase)

accepted :
    (owner phase : String) (w : World) (r : Record) (h : List Call) (e : Option Error)
    → w h (save r owner) ≡ e
    → r.phase ≡ phase
    → Outcome
        (λ u. IsSavedIn owner phase w)
        (Any w)
        (or_raise e w (record { journal = r; calls = save r owner ∷ h }))
unfolding or_raise pure raise
accepted owner phase w r h none is in_phase = (h, refl, is, in_phase)
accepted owner phase w r h (some e) is in_phase = tt

pub save_journal-Gives :
    (owner phase : String)
    → Gives (λ w s. s.journal.phase ≡ phase) (save_journal owner) (λ u. IsSavedIn owner phase) Any
unfolding save_journal ask get put ◌>>=◌
save_journal-Gives owner phase = record { at = λ w s p. accepted owner phase w _ _ _ refl p }

-- The deferred function passes a body without an error on only if the claim is released.
abbrev pub IsReleasedAfter : (World → State → Type 0) → String → World → State → Type 0
IsReleasedAfter Q owner w s =
    (s' : State) × Q w s'
    × (s.journal ≡ s'.journal)
    × (s.calls ≡ release owner ∷ s'.calls)
    × (w s'.calls (release owner) ≡ none)

released-Outcome :
    (Q : World → State → Type 0) (owner : String) (words : Wording) (w : World) (s : State)
    (e : Option Error)
    → w s.calls (release owner) ≡ e
    → Q w s
    → Outcome
        (λ u. IsReleasedAfter Q owner w)
        (Any w)
        (lift (released words (ok tt) e) w (record s { calls = release owner ∷ s.calls }))
unfolding lift released
released-Outcome Q owner words w s none is q = (s, q, refl, refl, is)
released-Outcome Q owner words w s (some e) is q = tt

failed-Outcome :
    (R : Unit {0} → World → State → Type 0) (words : Wording) (w : World) (s : State) (e : Error)
    (f : Option Error)
    → Outcome (λ u. R u w) (Any w) (lift (released {A = Unit {0}} words (err e) f) w s)
unfolding lift released
failed-Outcome R words w s e none = tt
failed-Outcome R words w s e (some f) = tt

module _ (owner : String) (words : Wording) (message : Error → String) (mark : Record → Bool)
    (Q : World → State → Type 0) where
  failing-Gives :
      (e : Error)
      → Gives Any (recover owner words message mark (err e)) (λ u. IsReleasedAfter Q owner) Any
  unfolding recover
  failing-Gives e = Gives-last get _ λ r. Gives-last _ _ λ e'.
      Gives-last (ask (release owner)) _
        λ f. record { at = λ w s p. failed-Outcome (λ u. IsReleasedAfter Q owner) words w s e' f }

  recover-Outcome :
      (w : World) (o : Result (Unit {0}) × State)
      → Outcome (λ u. Q w) (Any w) o
      → Outcome
          (λ u. IsReleasedAfter Q owner w)
          (Any w)
          (recover owner words message mark o.0 w o.1)
  unfolding recover ask ◌>>=◌
  recover-Outcome w (ok u, s) q = released-Outcome Q owner words w s _ refl q
  recover-Outcome w (err e, s) q = (failing-Gives e).at w s tt

  pub deferring-Gives :
      {P : World → State → Type 0} (body : M (Unit {0}))
      → Gives P body (λ u. Q) Any
      → Gives P (deferring owner words message mark body) (λ u. IsReleasedAfter Q owner) Any
  unfolding deferring attempt ◌>>=◌
  deferring-Gives body k = record { at = λ w s p. recover-Outcome w (body w s) (k.at w s p) }

module _ (x : Outside) (p : Plan) (owner version : String) (pages : ℕ) where
  abbrev Ready : Bool → World → State → Type 0
  Ready ready w s = ready ≡ true → IsSavedIn owner "compute-ready" w s

  mark_ready-Gives :
      Gives Any
        (mark_ready x p owner version pages true)
        (λ u w s. s.journal.phase ≡ "compute-ready")
        Any
  unfolding mark_ready get put ◌>>=◌
  mark_ready-Gives = record { at = λ w s h. refl }

  saved_round :
      (ready : Bool)
      → Gives Any
          (mark_ready x p owner version pages ready >>= λ u. save_journal owner >>= λ v. pure ready)
          Ready
          Any
  saved_round false =
      Gives-last _ _ λ u. Gives-last _ _ λ v. Gives-pure false (λ w s h e. grind arith)
  saved_round true = Gives-bind _ _ _ mark_ready-Gives λ u.
      Gives-bind _ _ _ (save_journal-Gives owner "compute-ready")
        λ v. Gives-pure true (λ w s h e. h)

  poll_round-Gives : Gives Any (poll_round x p owner version pages) Ready Any
  unfolding poll_round
  poll_round-Gives =
      Gives-last _ _
        λ live. Gives-last _ _ λ u. Gives-last _ _ λ r. Gives-last _ _ λ v. saved_round _

  wait_then-Gives :
      (next : M (Unit {0})) (ready : Bool)
      → Gives Any next (λ u. IsSavedIn owner "compute-ready") Any
      → Gives
          (Ready ready)
          (wait_then x p owner version pages next ready)
          (λ u. IsSavedIn owner "compute-ready")
          Any
  unfolding wait_then
  wait_then-Gives next true k = Gives-pure tt (λ w s ready. ready refl)
  wait_then-Gives next false k =
      Gives-last (ask wait) _ λ stopped. Gives-last (or_raise stopped) _ λ u. k

  poll-Gives :
      (polls : ℕ)
      → Gives Any (poll x p owner version pages polls) (λ u. IsSavedIn owner "compute-ready") Any
  unfolding poll
  poll-Gives zero = Gives-raise _
  poll-Gives (suc polls) =
      Gives-bind Ready (poll_round x p owner version pages) _ poll_round-Gives
        (λ ready. wait_then-Gives (poll x p owner version pages polls) ready (poll-Gives polls))

  claimed-Gives :
      (polls : ℕ)
      → Gives Any (claimed x p owner version pages polls) (λ u. IsSavedIn owner "compute-ready") Any
  unfolding claimed
  claimed-Gives polls =
      Gives-last _ _
        λ u. Gives-last _ _ λ v. Gives-last _ _ λ a. Gives-last _ _ λ b. poll-Gives polls

  execute-Gives :
      (positive_interval : Bool) (polls : ℕ)
      → Gives Any
          (execute x p owner version pages positive_interval polls)
          (λ u. IsReleasedAfter (IsSavedIn owner "compute-ready") owner)
          Any
  unfolding execute
  execute-Gives positive_interval polls = Gives-last _ _ λ u.
      Gives-if (owner == "" || not positive_interval) _ _ (λ e. Gives-raise _)
        λ e. Gives-last _ _ λ verified.
          Gives-if (not (verified.id == p.id)) _ _ (λ f. Gives-raise _)
            λ f. Gives-last (ask (acquire owner)) _ λ answer.
              Gives-last _ _
                λ r. Gives-last (put r) _ λ v. deferring-Gives owner _ _ _ _ _ (claimed-Gives polls)

-- The run's record is the one that the store gave for the claim, which was the last call.
abbrev pub IsAcquired : String → World → State → Type 0
IsAcquired owner w s =
    (h : List Call) × (s.calls ≡ acquire owner ∷ h) × (w h (acquire owner) ≡ ok s.journal)

-- The record of retired addresses: saved by the last call, or just acquired in this phase.
abbrev pub IsRetired : String → World → State → Type 0
IsRetired owner w s =
    IsSavedIn owner "addresses-released" w s
    ⊎ (IsAcquired owner w s × (s.journal.phase ≡ "addresses-released"))

-- The last call was a claim with this reply.
abbrev IsClaim : String → Result Record → World → State → Type 0
IsClaim owner answer w s =
    (h : List Call) × (s.calls ≡ acquire owner ∷ h) × (w h (acquire owner) ≡ answer)

claiming-Gives : (owner : String) → Gives Any (ask (acquire owner)) (IsClaim owner) Any
unfolding ask
claiming-Gives owner = record { at = λ w s p. (s.calls, refl, refl) }

claimed_record-Gives :
    (owner : String) (answer : Result Record)
    → Gives (IsClaim owner answer) (lift answer) (λ r. IsClaim owner (ok r)) Any
unfolding lift
claimed_record-Gives owner (ok r) = record { at = λ w s claim. claim }
claimed_record-Gives owner (err e) = record { at = λ w s claim. tt }

module _ (x : Outside) (p : Plan) (owner : String) where
  retire-Gives : Gives Any (retire x p owner) (λ u. IsRetired owner) Any
  unfolding retire
  retire-Gives = Gives-last get _ λ r.
      Gives-bind _ (put _) _ (Gives-put _ (λ w s h. refl))
        λ u. Gives-inl _ (save_journal-Gives owner "addresses-released")

  cleanup-Gives : Gives (IsAcquired owner) (cleanup x p owner) (λ u. IsRetired owner) Any
  unfolding cleanup
  cleanup-Gives =
      Gives-bind (λ r w s. IsAcquired owner w s × (s.journal ≡ r)) get _ Gives-look
        λ r.
          Gives-bind (λ u w s. IsAcquired owner w s × (s.journal ≡ r)) (lift _) _ (Gives-lift _)
            λ u.
              Gives-if (r.phase == "addresses-released") _ _
                (λ e. Gives-pure tt (λ w s (mine, is).
                  inr (mine, ap (λ (r : Record). r.phase) is ∙ (eq_iff _ _).0 e)))
                λ e.
                  Gives-last _ _
                    λ a. Gives-last _ _ λ b. Gives-last _ _ λ c. Gives-last _ _ λ d. retire-Gives

  release_addresses-Gives :
      Gives Any (release_addresses x p owner) (λ u. IsReleasedAfter (IsRetired owner) owner) Any
  unfolding release_addresses
  release_addresses-Gives = Gives-last _ _ λ u.
      Gives-if (not (public_ipv4 p) || ipam_pool p == "" || owner == "") _ _ (λ e. Gives-raise _)
        λ e. Gives-last _ _ λ a. Gives-last _ _ λ b. Gives-last _ _ λ c.
          Gives-bind (IsClaim owner) (ask (acquire owner)) _ (claiming-Gives owner) λ answer.
            Gives-bind (λ r. IsClaim owner (ok r)) (lift answer) _
              (claimed_record-Gives owner answer)
              λ r.
                Gives-bind (λ v. IsAcquired owner) (put r) _ (Gives-put r (λ w s claim. claim))
                  λ v. deferring-Gives owner _ _ _ _ _ cleanup-Gives

returned :
    (Q E : State → Type 0) (o : Result (Unit {0}) × State)
    → Outcome (λ u. Q) E o
    → o.0 ≡ ok tt
    → Q o.1
returned Q E (ok u, s) q is = q
returned Q E (err e, s) q is = grind arith

-- When Execute returns no error, its last two calls are a save that the store accepted, of its record
-- in the phase compute-ready, and the release of the claim, which the store accepted too.
pub execute-IsReady :
    (x : Outside) (p : Plan) (owner version : String) (pages polls : ℕ) (positive_interval : Bool)
    (w : World) (s : State)
    → (execute x p owner version pages positive_interval polls w s).0 ≡ ok tt
    → IsReleasedAfter
        (IsSavedIn owner "compute-ready")
        owner
        w
        (execute x p owner version pages positive_interval polls w s).1
execute-IsReady x p owner version pages polls positive_interval w s =
    returned _ _ _ ((execute-Gives x p owner version pages positive_interval polls).at w s tt)

-- When ReleaseAddresses returns no error, its last call is the accepted release of the claim, and its
-- record is in the phase addresses-released: the call just before is either a save of that record,
-- which the store accepted, or the claim of the operation, which the store answered with that record.
pub release_addresses-IsRetired :
    (x : Outside) (p : Plan) (owner : String) (w : World) (s : State)
    → (release_addresses x p owner w s).0 ≡ ok tt
    → IsReleasedAfter (IsRetired owner) owner w (release_addresses x p owner w s).1
release_addresses-IsRetired x p owner w s =
    returned _ _ _ ((release_addresses-Gives x p owner).at w s tt)
