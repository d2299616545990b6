-- ===== src/Controller/Messages.antt =====
-- packages/demo-controller/src/orchestrator.ts: the messages of the processes, the calls of the
-- server, and the runs of the controller.
use midnight_private_negotia.Common.{
  ℕ, zero, suc, Bool, true, false, not, ◌&&◌, ◌||◌, Option, none, some, List, [], ◌∷◌, ◌==◌, Text,
  codes, text_eq, ok,
}
use midnight_private_negotia.Agent.Types.{PartyRole, buyer, seller}
use midnight_private_negotia.Relay.Server.{peer_of}
use midnight_private_negotia.Protocol.Types.{
  Role, party, observer, same_role, DemoState, waiting_peer, role_local, DemoEvent, join_room,
  set_limit, chain_funded, RuntimeMessage, runtime_ready, runtime_boot_failed, demo_event,
  relay_channel_ready, chain_wallet_ready, chain_tx_confirmed, negotiation_outcome,
}
use midnight_private_negotia.Protocol.Events.{check_event, create_demo_event, is_room_joined}
use midnight_private_negotia.Protocol.Checks.{is_message}
use midnight_private_negotia.Runtime.Action.{
  invalid_message, wrong_process, no_such_task, ◌>>=◌, ◌>>◌, throw, modify, get, ensure, lifted,
}
use midnight_private_negotia.Controller.State.{
  ByParty, at_party, put_party, has, PartyRoom, Timer, Surroundings, ControllerState, event_of,
  draw, show, send, send_both, event_for,
}
use midnight_private_negotia.Controller.Sessions.{
  Step, when, configure, try_match_room, try_start, try_ready,
}
use midnight_private_negotia.Controller.Outcomes.{
  accept_outcome, fire, accept_chain_transaction, accept_observer_event,
}

abbrev pub same_room : Option PartyRoom → Text → Text → Bool
same_room none session product = false
same_room (some room) session product =
    text_eq room.session_id session && text_eq room.product_code product

abbrev pub is_waiting_peer : DemoState → Bool
is_waiting_peer waiting_peer = true
is_waiting_peer _ = false

-- The code with which a party waits for its peer's commitment.
abbrev pub waiting_code : PartyRole → Text
waiting_code buyer = codes "WAITING_SELLER_COMMITMENT"
waiting_code seller = codes "WAITING_BUYER_COMMITMENT"

abbrev pub is_commitment : DemoEvent → Bool
is_commitment e =
    is_waiting_peer e.state
    && (text_eq e.message_code (waiting_code buyer) || text_eq e.message_code (waiting_code seller))

abbrev pub has_identity : Role → List Role → Bool
has_identity role [] = false
has_identity role (r ∷ rs) = same_role role r || has_identity role rs

-- What happens to the controller: its server's calls, the messages, timers and ends of processes.
pub data ControllerEvent : Type 0 where
  room_requested : PartyRole → (session_id product_code : Text) → ControllerEvent
  limit_requested : PartyRole → (session_id limit_krw : Text) → ControllerEvent
  observer_requested : (session_id product_code : Text) → ControllerEvent
  start_requested : (session_id : Text) → ControllerEvent
  message_arrives : Role → RuntimeMessage → ControllerEvent
  timer_fires : ℕ → ControllerEvent
  funding_completes : ControllerEvent
  process_exits : Role → ControllerEvent

abbrev pub kept_timer : Timer → Option (Timer × List Timer) → Option (Timer × List Timer)
kept_timer timer none = none
kept_timer timer (some (fired, left)) = some (fired, timer ∷ left)

-- The timer at a place, and the others.
abbrev pub take_timer : ℕ → List Timer → Option (Timer × List Timer)
take_timer n [] = none
take_timer zero (timer ∷ timers) = some (timer, timers)
take_timer (suc n) (timer ∷ timers) = kept_timer timer (take_timer n timers)

abbrev pub without_role : Role → List Role → List Role
without_role role [] = []
without_role role (r ∷ rs) = elim (same_role role r) [
  | true ↦ without_role role rs
  | false ↦ r ∷ without_role role rs
]

abbrev pub disconnected : Role → (Role → Bool) → Role → Bool
disconnected role connected r = not (same_role role r) && connected r

abbrev pub both_given : ByParty (Option Text) → Bool
both_given m = elim m.of_buyer [
  | none ↦ false
  | some b ↦ elim m.of_seller [ none ↦ false | some s ↦ true ]
]

abbrev pub is_missing : Option Text → Bool
is_missing none = true
is_missing (some t) = false

module _ (env : Surroundings) where
  abbrev entry_code : PartyRole → Text
  entry_code buyer = codes "WAITING_SELLER"
  entry_code seller = codes "WAITING_BUYER"

  abbrev entry_key : PartyRole → Text
  entry_key buyer = codes "buyer-peer-entry"
  entry_key seller = codes "seller-peer-entry"

  abbrev pub joined : PartyRole → Text → Text → Step env
  joined role session product = do
    modify (λ s. record s {
      party_rooms =
          put_party role (some (record { session_id = session; product_code = product }))
            s.party_rooms;
      commitment_sessions = put_party role none s.commitment_sessions;
    })
    s ← get
    when env (not (same_room (at_party (peer_of role) s.party_rooms) session product)) (do
      n ← draw
      show env (
          create_demo_event env.is_date (
            event_for env role session waiting_peer (entry_code role) role_local (env.now n) none
              (some (entry_key role)) none n)))
    try_match_room env session

  abbrev pub committed : PartyRole → Text → Step env
  committed role session = do
    modify (λ s. record s {
      commitment_sessions = put_party role (some session) s.commitment_sessions;
    })
    try_ready env session

  abbrev pub accept_joined : PartyRole → DemoEvent → Bool → Option Text → Step env
  accept_joined role event true (some product) = joined role event.session_id product
  accept_joined role event _ _ = when env (is_commitment event) (committed role event.session_id)

  -- `#acceptPartyEvent`
  unfoldable pub accept_party_event : PartyRole → DemoEvent → Step env
  accept_party_event role event =
      accept_joined role event (is_room_joined event.state) event.product_code

  -- `#shouldDisplayPartyEvent`
  abbrev pub should_display : PartyRole → DemoEvent → ControllerState → Bool
  should_display role event s = not (
      is_waiting_peer event.state
      && text_eq event.message_code (waiting_code role)
      && has event.session_id (at_party role s.notices))

  -- The `DEMO_EVENT` case; the event is tested by `parseDemoEvent`.
  abbrev pub accept_event : Role → DemoEvent → Step env
  accept_event observer event = do show env (ok event); accept_observer_event env event
  accept_event (party role) event = do
    s ← get
    when env (should_display role event s) (show env (ok event))
    accept_party_event role event

  -- `#tryStartFunder` up to the start of its process
  unfoldable pub try_start_funder : Step env
  try_start_funder = do
    s ← get
    when env (env.chain_mode && not s.funding_started && both_given s.chain_wallet_addresses)
        (modify (λ t. record t { funding_started = true }))

  -- The cases of the `message` handler of the process with a role; `controller-error` events are not
  -- kept.
  unfoldable pub accept_message : Role → RuntimeMessage → Step env
  accept_message role (runtime_ready r pid) = do
    s ← get
    ensure (same_role r role && pid == env.child_pid role && not (has_identity role s.identities))
        wrong_process
    modify (λ t. record t { identities = role ∷ t.identities })
  accept_message role (demo_event event) = do
    checked ← lifted (event_of (check_event env.is_date event))
    ensure (same_role checked.panel role) wrong_process
    accept_event role checked
  accept_message role (runtime_boot_failed r reason) =
      ensure (same_role (party r) role) wrong_process
  accept_message role (chain_wallet_ready r address) = do
    s ← get
    ensure (same_role (party r) role && is_missing (at_party r s.chain_wallet_addresses))
        wrong_process
    modify (λ t. record t {
      chain_wallet_addresses = put_party r (some address) t.chain_wallet_addresses;
    })
    try_start_funder
  accept_message role (chain_tx_confirmed r session address status) = do
    ensure (same_role (party r) role) wrong_process
    accept_chain_transaction env r session address status
  accept_message role (relay_channel_ready r session) = do
    ensure (same_role (party r) role) wrong_process
    modify (λ s. record s {
      relay_channel_sessions = put_party r (some session) s.relay_channel_sessions;
    })
    try_start env session
  accept_message role (negotiation_outcome session result) = do
    ensure (same_role role (party buyer)) wrong_process
    accept_outcome env session result

  abbrev pub fire_taken : Option (Timer × List Timer) → Step env
  fire_taken none = throw no_such_task
  fire_taken (some (timer, others)) = do modify (λ s. record s { timers = others }); fire env timer

  unfoldable pub take_event : ControllerEvent → Step env
  take_event (room_requested role session product) =
      send env (party role) (join_room session product)
  take_event (limit_requested role session limit) = send env (party role) (set_limit session limit)
  take_event (observer_requested session product) = configure env session product
  take_event (start_requested session) = try_start env session
  take_event (message_arrives role message) = do
    ensure (is_message env.is_date message) invalid_message
    accept_message role message
  take_event (timer_fires place) = do s ← get; fire_taken (take_timer place s.timers)
  take_event funding_completes = send_both env chain_funded
  take_event (process_exits role) = modify (λ s. record s {
    connected = disconnected role s.connected;
    identities = without_role role s.identities;
  })

  -- The state after each of the events in turn, the newest last.
  unfoldable pub run_events : List ControllerEvent → ControllerState → ControllerState
  run_events [] s = s
  run_events (e ∷ es) s = run_events es (take_event e s).1
