-- ===== src/Controller/Outcomes.antt =====
-- packages/demo-controller/src/orchestrator.ts: the outcome of a negotiation, the timers, and the
-- public states that the observer reports.
use midnight_private_negotia.Common.{
  Bool, true, false, not, ◌&&◌, Option, none, some, ◌∷◌, Text, codes,
}
use midnight_private_negotia.Agent.Types.{PartyRole, buyer, seller}
use midnight_private_negotia.Contract.Circuits.{
  DealStatus, waiting_seller, opened, authorized, settled, cancelled,
}
use midnight_private_negotia.Protocol.Types.{
  observer, DemoState, open_state, negotiating, negotiation_complete, verifying, finalizing,
  proofs_complete, agreed_state, authorized_state, settled_state, cancelled_state, DemoEvent,
  observe_chain_state, finalize_session, Outcome, settled_at, cancelled_deal,
}
use midnight_private_negotia.Protocol.Events.{is_public}
use midnight_private_negotia.Runtime.Action.{
  unexpected_state, no_negotiated_amount, ◌>>=◌, ◌>>◌, done, modify, get, ensure, required,
}
use midnight_private_negotia.Controller.State.{
  ByParty, has, add_to, settlement_of, without_settlement, Timer, shows_negotiation, cancels_demo,
  verifies_demo, completes_proofs, agrees_demo, settles_demo, Surroundings, ControllerState, draw,
  schedule, send, send_both, emit_participant_pair, keys_for, no_keys,
}
use midnight_private_negotia.Controller.Sessions.{
  Step, when, publish_public, emit_notices, announce, try_start,
}

module _ (env : Surroundings) where
  -- A pair of events with one code for both parties.
  abbrev pub pair :
      Text → DemoState → Text → Option Text → ByParty (Option Text) → Option Text → Step env
  pair session state code time keys amount =
      emit_participant_pair env session state code code time keys amount

  abbrev pub emit_verifying : Text → Step env
  emit_verifying session =
      pair session verifying (codes "VERIFYING") none (keys_for (codes "proof")) none

  -- `#emitProofsComplete`
  abbrev pub emit_proofs_complete : Text → Text → Step env
  emit_proofs_complete session time =
      pair session proofs_complete (codes "PROOFS_COMPLETE") (some time) (keys_for (codes "proof"))
        none

  -- `#emitSettlementFinalizing`
  abbrev pub emit_settlement_finalizing : Text → Text → Step env
  emit_settlement_finalizing session time =
      pair session finalizing (codes "FINALIZING_SETTLEMENT") (some time)
        (keys_for (codes "settlement")) none

  abbrev pub finish_as : Bool → Text → Outcome → Step env
  finish_as true session cancelled_deal =
      pair session finalizing (codes "FINALIZING_CANCELLATION") none
        (keys_for (codes "cancellation")) none
  finish_as false session cancelled_deal = schedule (cancels_demo session)
  finish_as true session (settled_at amount) = do
    modify (λ s. record s {
      pending_settlements = (session, amount) ∷ without_settlement session s.pending_settlements;
    })
    emit_verifying session
  finish_as false session (settled_at amount) = do
    schedule (verifies_demo session)
    schedule (completes_proofs session)
    schedule (agrees_demo session amount)
    schedule (settles_demo session)

  unfoldable pub finish_rest : Text → Outcome → Step env
  finish_rest session result = do
    pair session negotiation_complete (codes "NEGOTIATION_COMPLETE") none
        (keys_for (codes "negotiation")) none
    finish_as env.chain_mode session result

  abbrev pub finish_session : Text → Outcome → Step env
  finish_session session result = do
    modify (λ s. record s { finished_sessions = session ∷ s.finished_sessions })
    finish_rest session result

  abbrev pub takes_outcome : ControllerState → Text → Bool
  takes_outcome s session =
      has session s.negotiating_sessions && not (has session s.finished_sessions)

  -- `#acceptOutcome`
  unfoldable pub accept_outcome : Text → Outcome → Step env
  accept_outcome session result = do
    s ← get
    when env (takes_outcome s session) (finish_session session result)

  abbrev pub show_negotiating : Text → Step env
  show_negotiating session = do
    pair session negotiating (codes "NEGOTIATING") none (keys_for (codes "negotiation")) none
    modify (λ s. record s { display_ready_sessions = add_to session s.display_ready_sessions })
    try_start env session

  -- The callbacks that were scheduled.
  unfoldable pub fire : Timer → Step env
  fire (shows_negotiation session) = do
    s ← get
    when env (not (has session s.finished_sessions)) (show_negotiating session)
  fire (cancels_demo session) = do
    n ← draw
    pair session cancelled_state (codes "NEGOTIATION_CANCELLED") (some (env.now n)) no_keys none
    publish_public env session cancelled (codes "OBSERVER_CANCELLED") (env.now n)
  fire (verifies_demo session) = emit_verifying session
  fire (completes_proofs session) = do
    n ← draw
    emit_proofs_complete session (env.now n)
    publish_public env session authorized (codes "OBSERVER_AUTHORIZED") (env.now n)
  fire (agrees_demo session amount) =
      pair session agreed_state (codes "NEGOTIATION_SETTLED") none no_keys (some amount)
  fire (settles_demo session) = do
    n ← draw
    pair session settled_state (codes "ONCHAIN_RECORDED") (some (env.now n)) no_keys none
    publish_public env session settled (codes "OBSERVER_SETTLED") (env.now n)

  -- The roles that may report each state of the chain.
  abbrev pub may_report : PartyRole → DealStatus → Bool
  may_report buyer waiting_seller = true
  may_report buyer authorized = true
  may_report buyer cancelled = true
  may_report seller opened = true
  may_report seller settled = true
  may_report seller cancelled = true
  may_report _ _ = false

  abbrev pub observe : Text → Text → DealStatus → Step env
  observe session address waiting_seller = done
  observe session address status = send env observer (observe_chain_state session address status)

  -- `#acceptChainTransaction`
  unfoldable pub accept_chain_transaction : PartyRole → Text → Text → DealStatus → Step env
  accept_chain_transaction role session address status = do
    ensure (env.chain_mode && may_report role status) unexpected_state
    observe session address status

  abbrev pub cancellation_keys : Bool → ByParty (Option Text)
  cancellation_keys true = keys_for (codes "settlement")
  cancellation_keys false = keys_for (codes "cancellation")

  abbrev pub note_authorized : Text → Text → Step env
  note_authorized session time = do
    modify
        (λ s. record s { chain_authorized_sessions = add_to session s.chain_authorized_sessions })
    emit_proofs_complete session time
    emit_settlement_finalizing session time

  -- `#acceptObserverEvent` on each state
  unfoldable pub accept_public_state : DemoState → Text → Text → Step env
  accept_public_state open_state session time = do
    modify (λ s. record s { chain_open_sessions = add_to session s.chain_open_sessions })
    s ← get
    when env (has session s.peer_ready_sessions)
        (do n ← draw; emit_notices env session time (env.random_id n); announce env session)
    try_start env session
  accept_public_state authorized_state session time = note_authorized session time
  accept_public_state cancelled_state session time = do
    s ← get
    modify
        (λ t. record t { pending_settlements = without_settlement session t.pending_settlements })
    send_both env (finalize_session session)
    pair session cancelled_state (codes "NEGOTIATION_CANCELLED") (some time)
        (cancellation_keys (has session s.chain_authorized_sessions)) none
  accept_public_state settled_state session time = do
    s ← get
    amount ← required (settlement_of session s.pending_settlements) no_negotiated_amount
    when env (not (has session s.chain_authorized_sessions)) (note_authorized session time)
    pair session agreed_state (codes "NEGOTIATION_SETTLED") (some time)
        (keys_for (codes "settlement")) (some amount)
    pair session settled_state (codes "ONCHAIN_RECORDED") (some time) no_keys none
    modify
        (λ t. record t { pending_settlements = without_settlement session t.pending_settlements })
    send_both env (finalize_session session)
  accept_public_state _ session time = done

  -- `#acceptObserverEvent`
  unfoldable pub accept_observer_event : DemoEvent → Step env
  accept_observer_event event =
      when env (env.chain_mode && is_public event.audience)
        (accept_public_state event.state event.session_id event.occurred_at)
