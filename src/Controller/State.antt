-- ===== src/Controller/State.antt =====
-- packages/demo-controller/src/orchestrator.ts: the fields of `IsolatedRuntimeController`, the
-- events that it shows and the commands that it sends.
use midnight_private_negotia.Common.{
  ℕ, suc, Bool, false, ◌||◌, Option, none, some, List, [], ◌∷◌, ◌++◌, Text, codes, text_eq, Result,
  ok, err, if◌then◌else◌,
}
use midnight_private_negotia.Agent.Types.{PartyRole, buyer, seller}
use midnight_private_negotia.Protocol.Types.{
  Role, party, DemoState, participants, DemoEvent, RuntimeCommand, CommandBody, EventAudience,
}
use midnight_private_negotia.Protocol.Events.{EventError, create_demo_event}
use midnight_private_negotia.Protocol.Checks.{is_command}
use midnight_private_negotia.Runtime.Action.{
  RuntimeError, not_connected, invalid_command, invalid_event, Action, ◌>>=◌, ◌>>◌, modify, get,
  ensure, lifted,
}

-- A map with the two parties as its keys.
pub record ByParty (A : Type 0) : Type 0 where
  pub of_buyer : A
  pub of_seller : A

abbrev pub at_party : {A : Type 0} → PartyRole → ByParty A → A
at_party buyer m = m.of_buyer
at_party seller m = m.of_seller

abbrev pub put_party : {A : Type 0} → PartyRole → A → ByParty A → ByParty A
put_party buyer a m = record m { of_buyer = a }
put_party seller a m = record m { of_seller = a }

abbrev pub empty_map : {A : Type 0} → ByParty (Option A)
empty_map = record { of_buyer = none; of_seller = none }

-- `Set.prototype.has` and `Set.prototype.add` on a set of sessions
abbrev pub has : Text → List Text → Bool
has x [] = false
has x (y ∷ ys) = text_eq x y || has x ys

abbrev pub add_to : Text → List Text → List Text
add_to x xs = if has x xs then xs else x ∷ xs

abbrev pub is_session : Option Text → Text → Bool
is_session none session = false
is_session (some s) session = text_eq s session

-- `Map.prototype.get`, `set` and `delete` on the pending settlements
abbrev pub settlement_of : Text → List (Text × Text) → Option Text
settlement_of session [] = none
settlement_of session ((s, amount) ∷ rest) =
    if text_eq session s then some amount else settlement_of session rest

abbrev pub without_settlement : Text → List (Text × Text) → List (Text × Text)
without_settlement session [] = []
without_settlement session ((s, amount) ∷ rest) =
    if text_eq session s
    then without_settlement session rest
    else (s, amount) ∷ without_settlement session rest

pub record PartyRoom : Type 0 where
  pub session_id : Text
  pub product_code : Text

-- The callbacks that `#schedule` waits with.
pub data Timer : Type 0 where
  shows_negotiation : (session_id : Text) → Timer
  cancels_demo : (session_id : Text) → Timer
  verifies_demo : (session_id : Text) → Timer
  completes_proofs : (session_id : Text) → Timer
  agrees_demo : (session_id agreed_amount : Text) → Timer
  settles_demo : (session_id : Text) → Timer

-- What the controller calls: its mode, the clock and random identifiers by number, and the process
-- numbers of its children.
pub record Surroundings : Type 0 where
  pub chain_mode : Bool
  pub is_date : Text → Bool
  pub now : ℕ → Text
  pub random_id : ℕ → Text
  pub child_pid : Role → ℕ

-- The sets of sessions are lists without repetition. The commands sent and the events shown since the
-- last reset are kept, newest first.
pub record ControllerState : Type 0 where
  pub connected : Role → Bool
  pub identities : List Role
  pub party_rooms : ByParty (Option PartyRoom)
  pub relay_channel_sessions : ByParty (Option Text)
  pub commitment_sessions : ByParty (Option Text)
  pub notices : ByParty (List Text)
  pub peer_ready_sessions : List Text
  pub observer_sessions : List Text
  pub chain_open_sessions : List Text
  pub chain_authorized_sessions : List Text
  pub chain_wallet_addresses : ByParty (Option Text)
  pub pending_settlements : List (Text × Text)
  pub announced_sessions : List Text
  pub display_ready_sessions : List Text
  pub negotiating_sessions : List Text
  pub finished_sessions : List Text
  pub funding_started : Bool
  pub timers : List Timer
  pub draws : ℕ
  pub sent : List RuntimeCommand
  pub shown : List DemoEvent

-- `#resetState`, which a new controller starts from.
unfoldable pub reset_state : (Role → Bool) → ControllerState
reset_state connected = record {
  connected = connected;
  identities = [];
  party_rooms = empty_map;
  relay_channel_sessions = empty_map;
  commitment_sessions = empty_map;
  notices = record { of_buyer = []; of_seller = [] };
  peer_ready_sessions = [];
  observer_sessions = [];
  chain_open_sessions = [];
  chain_authorized_sessions = [];
  chain_wallet_addresses = empty_map;
  pending_settlements = [];
  announced_sessions = [];
  display_ready_sessions = [];
  negotiating_sessions = [];
  finished_sessions = [];
  funding_started = false;
  timers = [];
  draws = 0;
  sent = [];
  shown = [];
}

unfoldable pub draw : Action ControllerState ℕ
draw s = (ok s.draws, record s { draws = suc s.draws })

abbrev pub event_of : Result EventError DemoEvent → Result RuntimeError DemoEvent
event_of (ok e) = ok e
event_of (err e) = err invalid_event

-- `#schedule`
unfoldable pub schedule : Timer → Action ControllerState (Unit {0})
schedule timer = modify (λ s. record s { timers = timer ∷ s.timers })

abbrev pub keys_for : Text → ByParty (Option Text)
keys_for name = record {
  of_buyer = some (codes "buyer-" ++ name);
  of_seller = some (codes "seller-" ++ name);
}

abbrev pub no_keys : ByParty (Option Text)
no_keys = empty_map

module _ (env : Surroundings) where
  -- `#emit`
  unfoldable pub show : Result EventError DemoEvent → Action ControllerState (Unit {0})
  show checked = do
    event ← lifted (event_of checked)
    modify (λ s. record s { shown = event ∷ s.shown })

  -- `#send`, of a command that is checked
  unfoldable pub send_checked : RuntimeCommand → Action ControllerState (Unit {0})
  send_checked command = do
    ensure (is_command env.is_date command) invalid_command
    s ← get
    ensure (s.connected command.target) not_connected
    modify (λ t. record t { sent = command ∷ t.sent })

  abbrev pub command_for : Role → CommandBody → ℕ → RuntimeCommand
  command_for target body n = record { request_id = env.random_id n; target = target; body = body }

  -- `#send` with a new request
  unfoldable pub send : Role → CommandBody → Action ControllerState (Unit {0})
  send target body = do n ← draw; send_checked (command_for target body n)

  unfoldable pub send_both : CommandBody → Action ControllerState (Unit {0})
  send_both body = do send (party buyer) body; send (party seller) body

  abbrev pub event_for :
      PartyRole
      → Text
      → DemoState
      → Text
      → EventAudience
      → Text
      → Option Text
      → Option Text
      → Option Text
      → ℕ
      → DemoEvent
  event_for panel session state code audience time correlation replace_key amount n = record {
    event_id = env.random_id n;
    occurred_at = time;
    panel = party panel;
    session_id = session;
    state = state;
    message_code = code;
    audience = audience;
    product_code = none;
    correlation_id = correlation;
    replace_key = replace_key;
    agreed_amount = amount;
  }

  abbrev time_or : ℕ → Option Text → Text
  time_or n none = env.now n
  time_or n (some t) = t

  -- `#emitParticipantPair`, from the time, which is a new one where none is given.
  unfoldable pub emit_participant_pair :
      Text
      → DemoState
      → Text
      → Text
      → Option Text
      → ByParty (Option Text)
      → Option Text
      → Action ControllerState (Unit {0})
  emit_participant_pair session state buyer_code seller_code time keys amount = do
    n ← draw
    correlation ← draw
    i ← draw
    j ← draw
    show (
        create_demo_event env.is_date (
          event_for buyer session state buyer_code participants (time_or n time)
            (some (env.random_id correlation)) keys.of_buyer amount i))
    show (
        create_demo_event env.is_date (
          event_for seller session state seller_code participants (time_or n time)
            (some (env.random_id correlation)) keys.of_seller amount j))
