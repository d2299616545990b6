-- ===== src/Controller/Liveness.antt =====
-- packages/demo-controller/src/orchestrator.ts: a negotiation that may start is started.
use midnight_private_negotia.Common.{
  ap, ◌∙◌, ℕ, suc, ◌⊎◌, inl, inr, arith, some, ◌≡◌, refl, Bool, true, false, not, ◌&&◌, ◌||◌, ◌∷◌,
  Text, text_eq_refl, ok,
}
use midnight_private_negotia.Agent.Types.{PartyRole, buyer, seller}
use midnight_private_negotia.Protocol.Types.{
  party, start_runtime, relay_channel_ready, is_identifier,
}
use midnight_private_negotia.Protocol.Checks.{is_command, is_message}
use midnight_private_negotia.Runtime.Action.{◌>>=◌, ◌>>◌, get, modify, ensure, done, throw}
use midnight_private_negotia.Relay.Server.{peer_of}
use midnight_private_negotia.Controller.Messages.{
  accept_message, message_arrives, ControllerEvent, take_event,
}
use midnight_private_negotia.Controller.Invariant.{starts}
use midnight_private_negotia.Controller.State.{
  Surroundings, ControllerState, has, at_party, put_party, is_session, draw, send_checked,
  command_for, send, send_both,
}
use midnight_private_negotia.Controller.Sessions.{can_start, try_start}

-- A command that is valid, to a process that is connected, is sent.
send-connected :
    (env : Surroundings) (role : PartyRole) (s : ControllerState)
    → is_identifier (env.random_id s.draws) ≡ true
    → s.connected (party role) ≡ true
    → send env (party role) start_runtime s ≡ (
      ok tt,
      record s {
        draws = suc s.draws;
        sent = command_for env (party role) start_runtime s.draws ∷ s.sent;
      },
    )
unfolding send send_checked is_command draw ensure done throw get modify ◌>>=◌ ◌>>◌
send-connected env role s identified connected = rw identified (rw connected refl)

blocked : (a b c d e f : Bool) → (a && b && c && d && e && false && f) ≡ false
blocked true true true true true f = refl
blocked false b c d e f = refl
blocked true false c d e f = refl
blocked true true false d e f = refl
blocked true true true false e f = refl
blocked true true true true false f = refl

-- The state after both starts were sent.
abbrev pub started_state : Surroundings → Text → ControllerState → ControllerState
started_state env session s = record s {
  negotiating_sessions = session ∷ s.negotiating_sessions;
  draws = suc (suc s.draws);
  sent =
      command_for env (party seller) start_runtime (suc s.draws)
      ∷ command_for env (party buyer) start_runtime s.draws
      ∷ s.sent;
}

try_start-started :
    (env : Surroundings) (session : Text) (s : ControllerState)
    → can_start env s session ≡ true
    → is_identifier (env.random_id s.draws) ≡ true
    → is_identifier (env.random_id (suc s.draws)) ≡ true
    → s.connected (party buyer) ≡ true
    → s.connected (party seller) ≡ true
    → try_start env session s ≡ (ok tt, started_state env session s)
unfolding try_start send_both done modify get ◌>>=◌ ◌>>◌
try_start-started env session s may first second buyer_on seller_on =
    let new : has session s.negotiating_sessions ≡ false = ground (arith, may) in
    rw (may, new)
      (rw
        (send-connected env buyer
          (record s { negotiating_sessions = session ∷ s.negotiating_sessions }) first buyer_on)
        (send-connected env seller
          (record s {
            negotiating_sessions = session ∷ s.negotiating_sessions;
            draws = suc s.draws;
            sent = command_for env (party buyer) start_runtime s.draws ∷ s.sent;
          })
          second seller_on))

-- All that a negotiation waits for but one party's channel, and processes that can be reached.
pub record IsAwaiting (env : Surroundings) (role : PartyRole) (session : Text) (s : ControllerState)
    : Type 0 where
  pub message : is_message env.is_date (relay_channel_ready role session) ≡ true
  pub peer_channel : at_party (peer_of role) s.relay_channel_sessions ≡ some session
  pub peers_ready : has session s.peer_ready_sessions ≡ true
  pub displayed : has session s.display_ready_sessions ≡ true
  pub chain_open : (env.chain_mode ≡ false) ⊎ (has session s.chain_open_sessions ≡ true)
  pub not_started : has session s.negotiating_sessions ≡ false
  pub not_finished : has session s.finished_sessions ≡ false
  pub identifiers : (n : ℕ) → is_identifier (env.random_id n) ≡ true
  pub connected : (r : PartyRole) → s.connected (party r) ≡ true

abbrev with_channel : PartyRole → Text → ControllerState → ControllerState
with_channel role session s = record s {
  relay_channel_sessions = put_party role (some session) s.relay_channel_sessions;
}

abbrev channel_arrives : PartyRole → Text → ControllerEvent
channel_arrives role session = message_arrives (party role) (relay_channel_ready role session)

opened_or_local :
    (chain_mode opened : Bool)
    → (chain_mode ≡ false) ⊎ (opened ≡ true)
    → (not chain_mode || opened) ≡ true
opened_or_local chain_mode opened (inl h) = ground arith
opened_or_local chain_mode opened (inr h) = ground arith

awaiting-can_start :
    (env : Surroundings) (role : PartyRole) (session : Text) (s : ControllerState)
    → IsAwaiting env role session s
    → can_start env (with_channel role session s) session ≡ true
awaiting-can_start env buyer session s v =
    rw
      (
        v.peers_ready,
        v.displayed,
        opened_or_local env.chain_mode (has session s.chain_open_sessions) v.chain_open,
        v.peer_channel,
        text_eq_refl session,
        v.not_started,
        v.not_finished,
      )
      refl
awaiting-can_start env seller session s v =
    rw
      (
        v.peers_ready,
        v.displayed,
        opened_or_local env.chain_mode (has session s.chain_open_sessions) v.chain_open,
        v.peer_channel,
        text_eq_refl session,
        v.not_started,
        v.not_finished,
      )
      refl

-- The message of a party's channel is handled by recording the channel and trying to start.
channel_arrives-eq :
    (env : Surroundings) (role : PartyRole) (session : Text) (s : ControllerState)
    → is_message env.is_date (relay_channel_ready role session) ≡ true
    → take_event env (channel_arrives role session) s
      ≡ try_start env session (with_channel role session s)
unfolding take_event accept_message ensure done modify ◌>>=◌ ◌>>◌
channel_arrives-eq env buyer session s h = rw h refl
channel_arrives-eq env seller session s h = rw h refl

try_start-stays :
    (env : Surroundings) (session : Text) (s : ControllerState)
    → can_start env s session ≡ false
    → (try_start env session s).1 ≡ s
unfolding try_start done get ◌>>=◌
try_start-stays env session s may_not = rw may_not refl

started-blocked :
    (env : Surroundings) (session : Text) (s : ControllerState)
    → has session s.negotiating_sessions ≡ true
    → can_start env s session ≡ false
started-blocked env session s h = rw h (
    blocked (has session s.peer_ready_sessions) (has session s.display_ready_sessions)
      (not env.chain_mode || has session s.chain_open_sessions)
      (is_session s.relay_channel_sessions.of_buyer session)
      (is_session s.relay_channel_sessions.of_seller session)
      (not (has session s.finished_sessions)))

-- Where a negotiation waits for nothing but the channel of one party, and both parties' processes are
-- connected and get well-formed identifiers, the message that this channel is ready starts it: each
-- party is sent one start more, and the session is negotiating. The same message once more sends
-- nothing.
pub channel_ready-starts :
    (env : Surroundings) (role : PartyRole) (session : Text) (s : ControllerState)
    → IsAwaiting env role session s
    → (let t =
          (take_event env (message_arrives (party role) (relay_channel_ready role session)) s).1 in
        (starts buyer t.sent ≡ suc (starts buyer s.sent))
        × (starts seller t.sent ≡ suc (starts seller s.sent))
        × (has session t.negotiating_sessions ≡ true)
        × ((take_event env
              (message_arrives (party role) (relay_channel_ready role session))
              t).1.sent
            ≡ t.sent))
channel_ready-starts env role session s v =
    let ready : ControllerState = with_channel role session s in
    let t : ControllerState = started_state env session ready in
    let first : (take_event env (channel_arrives role session) s).1 ≡ t =
      ap (λ r. r.1)
        (channel_arrives-eq env role session s v.message
          ∙ try_start-started env session ready (awaiting-can_start env role session s v)
              (v.identifiers s.draws) (v.identifiers (suc s.draws)) (v.connected buyer)
              (v.connected seller)) in
    let again : (take_event env (channel_arrives role session) t).1.sent ≡ t.sent =
      ap (λ r. r.1.sent) (channel_arrives-eq env role session t v.message)
      ∙ ap (λ r. r.sent)
          (try_start-stays env session (with_channel role session t) (
            started-blocked env session (with_channel role session t)
              (rw (text_eq_refl session) refl))) in
    rw first (refl, refl, rw (text_eq_refl session) refl, again)
