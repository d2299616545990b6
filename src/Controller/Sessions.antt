-- ===== src/Controller/Sessions.antt =====
-- packages/demo-controller/src/orchestrator.ts: the matching of rooms, the commitments of the parties
-- and the start of a negotiation.
use midnight_private_negotia.Common.{
  Bool, true, false, not, ◌&&◌, ◌||◌, Option, none, some, Text, codes, text_eq,
}
use midnight_private_negotia.Agent.Types.{PartyRole, buyer, seller}
use midnight_private_negotia.Contract.Circuits.{DealStatus, opened}
use midnight_private_negotia.Relay.Server.{peer_of}
use midnight_private_negotia.Protocol.Types.{
  observer, peer_joined, peer_commitment_registered, negotiating, participants, configure_observer,
  start_runtime, peer_ready, publish_public_state,
}
use midnight_private_negotia.Protocol.Events.{create_demo_event}
use midnight_private_negotia.Runtime.Action.{Action, ◌>>=◌, ◌>>◌, done, modify, get}
use midnight_private_negotia.Controller.State.{
  at_party, put_party, has, add_to, is_session, PartyRoom, shows_negotiation, Surroundings,
  ControllerState, draw, schedule, show, send, send_both, event_for, emit_participant_pair,
  keys_for,
}

module _ (env : Surroundings) where
  abbrev pub Step : Type 0
  Step = Action ControllerState (Unit {0})

  abbrev pub when : Bool → Step → Step
  when true m = m
  when false m = done

  -- `#publishPublicState`
  unfoldable pub publish_public : Text → DealStatus → Text → Text → Step
  publish_public session status code time = do
    s ← get
    when (has session s.observer_sessions)
        (send env observer (publish_public_state session status code time))

  -- `configureObserver`
  unfoldable pub configure : Text → Text → Step
  configure session product = do
    send env observer (configure_observer session product)
    modify (λ s. record s { observer_sessions = add_to session s.observer_sessions })

  abbrev peer_code : PartyRole → Text
  peer_code buyer = codes "SELLER_COMMITMENT_REGISTERED"
  peer_code seller = codes "BUYER_COMMITMENT_REGISTERED"

  abbrev commitment_key : PartyRole → Text
  commitment_key buyer = codes "buyer-peer-commitment"
  commitment_key seller = codes "seller-peer-commitment"

  abbrev needs_notice : ControllerState → PartyRole → Text → Bool
  needs_notice s role session =
      is_session (at_party (peer_of role) s.commitment_sessions) session
      && not (has session (at_party role s.notices))
      && (not env.chain_mode || has session s.chain_open_sessions)

  abbrev add_notice : PartyRole → Text → ControllerState → ControllerState
  add_notice role session s = record s {
    notices = put_party role (add_to session (at_party role s.notices)) s.notices;
  }

  abbrev pub notify_peer : PartyRole → Text → Text → Text → Step
  notify_peer role session time correlation = do
    modify (add_notice role session)
    n ← draw
    show env (
        create_demo_event env.is_date (
          event_for env role session peer_commitment_registered (peer_code role) participants time
            (some correlation) (some (commitment_key role)) none n))

  -- `#emitPeerCommitmentNotice`
  unfoldable pub emit_notice : PartyRole → Text → Text → Text → Step
  emit_notice role session time correlation = do
    s ← get
    when (needs_notice s role session) (notify_peer role session time correlation)

  -- The notices to both, at one time and with one correlation.
  unfoldable pub emit_notices : Text → Text → Text → Step
  emit_notices session time correlation = do
    emit_notice buyer session time correlation
    emit_notice seller session time correlation

  abbrev pub match_rooms : Option PartyRoom → Option PartyRoom → Text → Step
  match_rooms (some b) (some s) session =
      when
        (text_eq b.session_id session
          && text_eq s.session_id session
          && text_eq b.product_code s.product_code)
        (do
          emit_participant_pair env session peer_joined (codes "SELLER_JOINED")
              (codes "BUYER_JOINED") none (keys_for (codes "peer-entry")) none
          n ← draw
          m ← draw
          emit_notice buyer session (env.now n) (env.random_id m)
          i ← draw
          j ← draw
          emit_notice seller session (env.now i) (env.random_id j)
          t ← get
          when (not (has session t.observer_sessions)) (configure session b.product_code))
  match_rooms _ _ session = done

  -- `#tryMatchRoom`
  unfoldable pub try_match_room : Text → Step
  try_match_room session = do
    s ← get
    match_rooms s.party_rooms.of_buyer s.party_rooms.of_seller session

  -- `#announceNegotiation`
  unfoldable pub announce : Text → Step
  announce session = do
    s ← get
    when
        (not (has session s.announced_sessions)
          && not (has session s.finished_sessions)
          && (not env.chain_mode || has session s.chain_open_sessions))
        (do
          modify (λ t. record t { announced_sessions = add_to session t.announced_sessions })
          emit_participant_pair env session negotiating (codes "NEGOTIATION_START")
              (codes "NEGOTIATION_START") none (keys_for (codes "negotiation")) none
          schedule (shows_negotiation session))

  abbrev pub can_start : ControllerState → Text → Bool
  can_start s session =
      has session s.peer_ready_sessions
      && has session s.display_ready_sessions
      && (not env.chain_mode || has session s.chain_open_sessions)
      && is_session s.relay_channel_sessions.of_buyer session
      && is_session s.relay_channel_sessions.of_seller session
      && not (has session s.negotiating_sessions)
      && not (has session s.finished_sessions)

  abbrev pub start_session : Text → Step
  start_session session = do
    modify (λ s. record s { negotiating_sessions = add_to session s.negotiating_sessions })
    send_both env start_runtime

  -- `#tryStartNegotiation`
  unfoldable pub try_start : Text → Step
  try_start session = do s ← get; when (can_start s session) (start_session session)

  abbrev pub becomes_ready : ControllerState → Text → Bool
  becomes_ready s session =
      is_session s.commitment_sessions.of_buyer session
      && is_session s.commitment_sessions.of_seller session
      && not (has session s.peer_ready_sessions)

  abbrev pub ready_session : Text → Step
  ready_session session = do
    modify (λ s. record s { peer_ready_sessions = add_to session s.peer_ready_sessions })
    send_both env (peer_ready session)
    n ← draw
    m ← draw
    emit_notices session (env.now n) (env.random_id m)
    announce session
    i ← draw
    when (not env.chain_mode) (publish_public session opened (codes "OBSERVER_OPEN") (env.now i))

  -- `#tryReadySession`
  unfoldable pub try_ready : Text → Step
  try_ready session = do s ← get; when (becomes_ready s session) (ready_session session)
