-- ===== src/Controller/Tests.antt =====
-- A session of packages/demo-controller/src/orchestrator.ts that starts, and the theorems there.
use midnight_private_negotia.Common.{
  suc, inl, ◌≡◌, refl, true, false, some, none, List, [], ◌∷◌, Text, codes, value_from, ok,
}
use midnight_private_negotia.Agent.Types.{PartyRole, buyer, seller}
use midnight_private_negotia.Protocol.Types.{
  party, is_identifier, room_joined, waiting_peer, role_local, DemoState, DemoEvent, demo_event,
  relay_channel_ready, negotiation_outcome, settled_at,
}
use midnight_private_negotia.Protocol.Events.{create_demo_event}
use midnight_private_negotia.Protocol.Checks.{is_command, is_message}
use midnight_private_negotia.Runtime.Action.{
  ◌>>=◌, ◌>>◌, done, throw, lifted, modify, get, required, ensure,
}
use midnight_private_negotia.Controller.State.{
  has, Surroundings, ControllerState, reset_state, draw, schedule, show, send_checked, send,
  send_both, emit_participant_pair,
}
use midnight_private_negotia.Controller.Sessions.{
  publish_public, configure, emit_notice, emit_notices, try_match_room, announce, try_start,
  try_ready,
}
use midnight_private_negotia.Controller.Outcomes.{finish_rest, accept_outcome, fire}
use midnight_private_negotia.Controller.Messages.{
  accept_party_event, accept_message, ControllerEvent, message_arrives, timer_fires, take_event,
  run_events,
}
use midnight_private_negotia.Controller.Naming.{
  create_room_session_id, create_room_session_id-injective,
}
use midnight_private_negotia.Controller.Invariant.{IsSound, starts}
use midnight_private_negotia.Controller.Safety.{run_events-IsSound}
use midnight_private_negotia.Controller.Liveness.{IsAwaiting, channel_ready-starts}

abbrev surroundings : Surroundings
surroundings = record {
  chain_mode = false;
  is_date = λ t. true;
  now = λ n. codes "2025-01-01";
  random_id = λ n. codes "id";
  child_pid = λ role. 1;
}

abbrev event_of_party : PartyRole → DemoState → Text → DemoEvent
event_of_party role state code = record {
  event_id = codes "event";
  occurred_at = codes "2025-01-01";
  panel = party role;
  session_id = codes "s1";
  state = state;
  message_code = code;
  audience = role_local;
  product_code = none;
  correlation_id = none;
  replace_key = none;
  agreed_amount = none;
}

abbrev joined_event : PartyRole → ControllerEvent
joined_event role = message_arrives (party role) (
    demo_event (record (event_of_party role room_joined (codes "ROOM_JOINED")) {
      product_code = some (codes "4821");
    }))

abbrev committed_event : PartyRole → Text → ControllerEvent
committed_event role code =
    message_arrives (party role) (demo_event (event_of_party role waiting_peer code))

abbrev channel_event : PartyRole → ControllerEvent
channel_event role = message_arrives (party role) (relay_channel_ready role (codes "s1"))

abbrev readying : List ControllerEvent
readying =
    joined_event buyer
    ∷ joined_event seller
    ∷ committed_event buyer (codes "WAITING_SELLER_COMMITMENT")
    ∷ committed_event seller (codes "WAITING_BUYER_COMMITMENT")
    ∷ timer_fires 0
    ∷ channel_event buyer
    ∷ []

abbrev started : List ControllerEvent
started =
    joined_event buyer
    ∷ joined_event seller
    ∷ committed_event buyer (codes "WAITING_SELLER_COMMITMENT")
    ∷ committed_event seller (codes "WAITING_BUYER_COMMITMENT")
    ∷ timer_fires 0
    ∷ channel_event buyer
    ∷ channel_event seller
    ∷ message_arrives (party buyer) (negotiation_outcome (codes "s1") (settled_at (codes "100000")))
    ∷ []

unfoldable controller_code : Unit {0}
unfolding value_from create_demo_event is_command is_message ◌>>=◌ ◌>>◌ done throw lifted modify get
    required ensure reset_state draw schedule show send_checked send send_both emit_participant_pair
    publish_public configure emit_notice emit_notices try_match_room announce try_start try_ready
    finish_rest accept_outcome fire accept_party_event accept_message take_event run_events
controller_code = tt

session_runs :
    ((run_events surroundings started (reset_state (λ role. true))).negotiating_sessions
      ≡ codes "s1" ∷ [])
    × ((run_events surroundings started (reset_state (λ role. true))).finished_sessions
        ≡ codes "s1" ∷ [])
unfolding controller_code
session_runs = (refl, refl)

run_events-IsSound_example :
    IsSound false 0 0 (run_events surroundings started (reset_state (λ role. true)))
run_events-IsSound_example = run_events-IsSound surroundings started (λ role. true)

-- The session before the seller's channel is ready
abbrev before_start : ControllerState
before_start = run_events surroundings readying (reset_state (λ role. true))

before_start-IsAwaiting : IsAwaiting surroundings seller (codes "s1") before_start
unfolding controller_code
before_start-IsAwaiting = record {
  message = refl;
  peer_channel = refl;
  peers_ready = refl;
  displayed = refl;
  chain_open = inl refl;
  not_started = refl;
  not_finished = refl;
  identifiers = λ n. refl;
  connected = λ r. refl;
}

-- The state after the seller's channel is ready
abbrev after_start : ControllerState
after_start = (take_event surroundings (channel_event seller) before_start).1

channel_ready-starts_example :
    (starts buyer after_start.sent ≡ suc (starts buyer before_start.sent))
    × (starts seller after_start.sent ≡ suc (starts seller before_start.sent))
    × (has (codes "s1") after_start.negotiating_sessions ≡ true)
    × ((take_event surroundings (channel_event seller) after_start).1.sent ≡ after_start.sent)
channel_ready-starts_example =
    channel_ready-starts surroundings seller (codes "s1") before_start before_start-IsAwaiting

room_named : create_room_session_id (codes "4821") (codes "demo1") ≡ ok (codes "room-4821-demo1")
unfolding create_room_session_id
room_named = refl

create_room_session_id-injective_example :
    (is_identifier (codes "room-4821-demo1") ≡ true)
    × (codes "4821" ≡ codes "4821")
    × (codes "demo1" ≡ codes "demo1")
create_room_session_id-injective_example =
    create_room_session_id-injective (codes "4821") (codes "4821") (codes "demo1") (codes "demo1")
      (codes "room-4821-demo1") room_named room_named
