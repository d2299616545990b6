-- ===== src/Controller/Reporting.antt =====
-- packages/demo-controller/src/orchestrator.ts: the steps on outcomes, timers and public states keep
-- the invariant of the controller.
use midnight_private_negotia.Common.{◌≡◌, refl, Bool, true, false, not, ◌||◌, List, arith, Text}
use midnight_private_negotia.Agent.Types.{PartyRole}
use midnight_private_negotia.Contract.Circuits.{
  DealStatus, waiting_seller, opened, authorized, settled, cancelled,
}
use midnight_private_negotia.Protocol.Types.{
  DemoState, room_joined, peer_joined, limit_locked, waiting_peer, peer_ready_state,
  commitment_created, peer_commitment_registered, open_state, negotiating, negotiation_complete,
  verifying, finalizing, proofs_complete, agreed_state, authorized_state, settled_state,
  cancelled_state, error_state, stopped, DemoEvent, observer, Outcome, settled_at, cancelled_deal,
}
use midnight_private_negotia.Runtime.Action.{
  ◌>>=◌, ◌>>◌, get, modify, done, bind-Keeps, then-Keeps, get-Keeps, ensure-Keeps, required-Keeps,
  modify-Keeps, done-Keeps,
}
use midnight_private_negotia.Controller.State.{
  has, add_to, Timer, shows_negotiation, cancels_demo, verifies_demo, completes_proofs, agrees_demo,
  settles_demo, Surroundings, ControllerState,
}
use midnight_private_negotia.Controller.Sessions.{when}
use midnight_private_negotia.Controller.Outcomes.{
  finish_as, finish_rest, finish_session, takes_outcome, accept_outcome, show_negotiating, fire,
  observe, accept_chain_transaction, note_authorized, accept_public_state, accept_observer_event,
}
use midnight_private_negotia.Controller.Invariant.{
  IsSound, All-map, add_to-has, Kept, schedule-Keeps, send-Keeps, send_both-Keeps,
}
use midnight_private_negotia.Controller.Starting.{
  when-Keeps, drawn-Keeps, pair-Keeps, publish_public-Keeps, emit_notices-Keeps, announce-Keeps,
  try_start-Keeps,
}

-- A session that is opened leaves the open ones open.
open_grows :
    (x session : Text) (chain_mode : Bool) (open_sessions : List Text)
    → (not chain_mode || has x open_sessions) ≡ true
    → (not chain_mode || has x (add_to session open_sessions)) ≡ true
open_grows x session false open_sessions h = refl
open_grows x session true open_sessions h = add_to-has x session open_sessions h

module _ (env : Surroundings) where
  finish_as-Keeps :
      (chain_mode : Bool) (session : Text) (result : Outcome)
      → Kept env (finish_as env chain_mode session result)
  finish_as-Keeps true session cancelled_deal = pair-Keeps env _ _ _ _ _ _ _
  finish_as-Keeps false session cancelled_deal = schedule-Keeps env _
  finish_as-Keeps true session (settled_at amount) =
      then-Keeps (modify-Keeps _ (λ s v. v)) (pair-Keeps env _ _ _ _ _ _ _)
  finish_as-Keeps false session (settled_at amount) =
      then-Keeps (schedule-Keeps env _) (
        then-Keeps (schedule-Keeps env _)
          (then-Keeps (schedule-Keeps env _) (schedule-Keeps env _)))

  finish_rest-Keeps :
      (session : Text) (result : Outcome) → Kept env (finish_rest env session result)
  unfolding finish_rest
  finish_rest-Keeps session result =
      then-Keeps (pair-Keeps env _ _ _ _ _ _ _) (finish_as-Keeps env.chain_mode session result)

  -- An outcome is taken only of a started session.
  finish_when :
      (b : Bool) (session : Text) (result : Outcome) (s : ControllerState)
      → takes_outcome env s session ≡ b
      → IsSound env.chain_mode 0 0 s
      → IsSound env.chain_mode 0 0 (when env b (finish_session env session result) s).1
  unfolding done ◌>>=◌ ◌>>◌ modify
  finish_when false session result s e v = v
  finish_when true session result s e (n, f, x, y, shown) =
      (finish_rest-Keeps session result).kept _ (n, (ground (arith, e), f), x, y, shown)

  pub accept_outcome-Keeps :
      (session : Text) (result : Outcome) → Kept env (accept_outcome env session result)
  unfolding accept_outcome ◌>>=◌ get
  accept_outcome-Keeps session result = record {
    kept = λ s v. finish_when _ session result s refl v;
  }

  show_negotiating-Keeps : (session : Text) → Kept env (show_negotiating env session)
  show_negotiating-Keeps session = then-Keeps (pair-Keeps env _ _ _ _ _ _ _) (
      then-Keeps
        (modify-Keeps _ (λ s v. (
          (
            All-map s.negotiating_sessions
                (λ x h.
                  let (p, d, o) = h in (p, add_to-has x session s.display_ready_sessions d, o))
                v.0.0,
            v.0.1,
          ),
          v.1,
          v.2,
          v.3,
          v.4,
        )))
        (try_start-Keeps env session))

  pub fire-Keeps : (timer : Timer) → Kept env (fire env timer)
  unfolding fire
  fire-Keeps (shows_negotiation session) =
      get-Keeps (λ s _. when-Keeps env _ _ (show_negotiating-Keeps session))
  fire-Keeps (cancels_demo session) =
      drawn-Keeps env
        (λ n. then-Keeps (pair-Keeps env _ _ _ _ _ _ _) (publish_public-Keeps env _ _ _ _))
  fire-Keeps (verifies_demo session) = pair-Keeps env _ _ _ _ _ _ _
  fire-Keeps (completes_proofs session) =
      drawn-Keeps env
        (λ n. then-Keeps (pair-Keeps env _ _ _ _ _ _ _) (publish_public-Keeps env _ _ _ _))
  fire-Keeps (agrees_demo session amount) = pair-Keeps env _ _ _ _ _ _ _
  fire-Keeps (settles_demo session) =
      drawn-Keeps env
        (λ n. then-Keeps (pair-Keeps env _ _ _ _ _ _ _) (publish_public-Keeps env _ _ _ _))

  observe-Keeps :
      (session address : Text) (status : DealStatus) → Kept env (observe env session address status)
  observe-Keeps session address waiting_seller = done-Keeps
  observe-Keeps session address opened = send-Keeps env observer _ refl
  observe-Keeps session address authorized = send-Keeps env observer _ refl
  observe-Keeps session address settled = send-Keeps env observer _ refl
  observe-Keeps session address cancelled = send-Keeps env observer _ refl

  pub accept_chain_transaction-Keeps :
      (role : PartyRole) (session address : Text) (status : DealStatus)
      → Kept env (accept_chain_transaction env role session address status)
  unfolding accept_chain_transaction
  accept_chain_transaction-Keeps role session address status =
      then-Keeps (ensure-Keeps _ _) (observe-Keeps session address status)

  note_authorized-Keeps : (session time : Text) → Kept env (note_authorized env session time)
  note_authorized-Keeps session time =
      then-Keeps (modify-Keeps _ (λ s v. v))
        (then-Keeps (pair-Keeps env _ _ _ _ _ _ _) (pair-Keeps env _ _ _ _ _ _ _))

  accept_public_state-Keeps :
      (state : DemoState) (session time : Text)
      → Kept env (accept_public_state env state session time)
  unfolding accept_public_state
  accept_public_state-Keeps open_state session time =
      then-Keeps
        (modify-Keeps _ (λ s v. (
          (
            All-map s.negotiating_sessions
                (λ x h.
                  let (p, d, o) = h in
                  (p, d, open_grows x session env.chain_mode s.chain_open_sessions o))
                v.0.0,
            v.0.1,
          ),
          v.1,
          v.2,
          v.3,
          v.4,
        )))
        (get-Keeps (λ s _.
          then-Keeps
            (when-Keeps env _ _ (
              drawn-Keeps env
                (λ n. then-Keeps (emit_notices-Keeps env _ _ _) (announce-Keeps env session))))
            (try_start-Keeps env session)))
  accept_public_state-Keeps authorized_state session time = note_authorized-Keeps session time
  accept_public_state-Keeps cancelled_state session time = get-Keeps (λ s _.
      then-Keeps (modify-Keeps _ (λ t v. v))
        (then-Keeps (send_both-Keeps env _ refl) (pair-Keeps env _ _ _ _ _ _ _)))
  accept_public_state-Keeps settled_state session time = get-Keeps (λ s _.
      bind-Keeps (required-Keeps _ _) (λ amount.
        then-Keeps (when-Keeps env _ _ (note_authorized-Keeps session time)) (
          then-Keeps (pair-Keeps env _ _ _ _ _ _ _) (
            then-Keeps (pair-Keeps env _ _ _ _ _ _ _)
              (then-Keeps (modify-Keeps _ (λ t v. v)) (send_both-Keeps env _ refl))))))
  accept_public_state-Keeps room_joined session time = done-Keeps
  accept_public_state-Keeps peer_joined session time = done-Keeps
  accept_public_state-Keeps limit_locked session time = done-Keeps
  accept_public_state-Keeps waiting_peer session time = done-Keeps
  accept_public_state-Keeps peer_ready_state session time = done-Keeps
  accept_public_state-Keeps commitment_created session time = done-Keeps
  accept_public_state-Keeps peer_commitment_registered session time = done-Keeps
  accept_public_state-Keeps negotiating session time = done-Keeps
  accept_public_state-Keeps negotiation_complete session time = done-Keeps
  accept_public_state-Keeps verifying session time = done-Keeps
  accept_public_state-Keeps finalizing session time = done-Keeps
  accept_public_state-Keeps proofs_complete session time = done-Keeps
  accept_public_state-Keeps agreed_state session time = done-Keeps
  accept_public_state-Keeps error_state session time = done-Keeps
  accept_public_state-Keeps stopped session time = done-Keeps

  pub accept_observer_event-Keeps : (e : DemoEvent) → Kept env (accept_observer_event env e)
  unfolding accept_observer_event
  accept_observer_event-Keeps e = when-Keeps env _ _ (accept_public_state-Keeps _ _ _)
