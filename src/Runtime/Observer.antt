-- ===== src/Runtime/Observer.antt =====
-- packages/observer-runtime/src/index.ts: the observer's process. An observation that polls the
-- indexer is a task, which an event resumes with the status that the indexer shows.
use midnight_private_negotia.Common.{
  ℕ, zero, suc, Bool, true, false, not, ◌&&◌, ◌||◌, Option, none, some, List, [], ◌∷◌, ◌==◌, leb,
  Text, codes, text_eq, if◌then◌else◌,
}
use midnight_private_negotia.Contract.Circuits.{
  DealStatus, waiting_seller, opened, authorized, settled, cancelled, status_eq,
}
use midnight_private_negotia.Protocol.Types.{
  observer, same_role, DemoState, waiting_peer, open_state, authorized_state, settled_state,
  cancelled_state, error_state, stopped, public, DemoEvent, RuntimeCommand, CommandBody, join_room,
  set_limit, configure_observer, start_runtime, peer_ready, chain_funded, observe_chain_state,
  publish_public_state, finalize_session, shutdown_runtime, RuntimeMessage, demo_event,
}
use midnight_private_negotia.Protocol.Events.{create_demo_event, is_room_joined}
use midnight_private_negotia.Protocol.Checks.{is_command}
use midnight_private_negotia.Runtime.Action.{
  invalid_command, not_configured, wrong_room, wrong_target, unexpected_state, observer_command,
  chain_failed, no_such_task, Action, ◌>>=◌, ◌>>◌, done, throw, lifted, modify, get, required,
  ensure, attempt,
}
use midnight_private_negotia.Runtime.Channel.{Environment, same_text, event_of}

pub record Observation : Type 0 where
  pub contract_address : Text
  pub expected_state : DealStatus

-- An active observation is one that still polls. What is sent to the controller is kept, newest first.
pub record ObserverState : Type 0 where
  pub session_id : Option Text
  pub product_code : Option Text
  pub active_observations : List Observation
  pub draws : ℕ
  pub outbox : List RuntimeMessage

unfoldable pub new_observer : ObserverState
new_observer = record {
  session_id = none;
  product_code = none;
  active_observations = [];
  draws = 0;
  outbox = [];
}

abbrev pub same_observation : Observation → Observation → Bool
same_observation a b =
    text_eq a.contract_address b.contract_address && status_eq a.expected_state b.expected_state

abbrev pub is_active : Observation → List Observation → Bool
is_active o [] = false
is_active o (a ∷ rest) = same_observation o a || is_active o rest

abbrev pub status_number : DealStatus → ℕ
status_number waiting_seller = 0
status_number opened = 1
status_number authorized = 2
status_number settled = 3
status_number cancelled = 4

-- `reached`
abbrev pub is_reached : DealStatus → ℕ → Bool
is_reached cancelled status = status == 4
is_reached expected status = leb (status_number expected) status && not (status == 4)

-- The state that an event shows, and its code.
abbrev pub shown_state : DealStatus → DemoState
shown_state waiting_seller = waiting_peer
shown_state opened = open_state
shown_state authorized = authorized_state
shown_state settled = settled_state
shown_state cancelled = cancelled_state

abbrev pub shown_code : DealStatus → Text
shown_code waiting_seller = codes "OBSERVER_WAITING_SELLER"
shown_code opened = codes "OBSERVER_OPEN"
shown_code authorized = codes "OBSERVER_AUTHORIZED"
shown_code settled = codes "OBSERVER_SETTLED"
shown_code cancelled = codes "OBSERVER_CANCELLED"

abbrev pub observation_at : ℕ → List Observation → Option Observation
observation_at n [] = none
observation_at zero (o ∷ rest) = some o
observation_at (suc n) (o ∷ rest) = observation_at n rest

abbrev pub without_observation : Observation → List Observation → List Observation
without_observation o [] = []
without_observation o (a ∷ rest) =
    if same_observation o a then without_observation o rest else a ∷ without_observation o rest

module _ (env : Environment) where
  abbrev pub observer_event : Text → Option Text → DemoState → Text → Option Text → ℕ → DemoEvent
  observer_event session product state code time n = record {
    event_id = env.event_id n;
    occurred_at = elim time [ none ↦ env.now n | some t ↦ t ];
    panel = observer;
    session_id = session;
    state = state;
    message_code = code;
    audience = public;
    product_code = if is_room_joined state then product else none;
    correlation_id = none;
    replace_key = none;
    agreed_amount = none;
  }

  -- `emit`
  unfoldable pub emit_public : DemoState → Text → Option Text → Action ObserverState (Unit {0})
  emit_public state code time = do
    s ← get
    session ← required s.session_id not_configured
    modify (λ t. record t { draws = suc t.draws })
    event ← lifted (
        event_of (
          create_demo_event env.is_date
            (observer_event session s.product_code state code time s.draws)))
    modify (λ t. record t { outbox = demo_event event ∷ t.outbox })

  abbrev pub report_public : Option Text → Text → Action ObserverState (Unit {0})
  report_public none code = done
  report_public (some session) code = emit_public error_state code none

  -- `if (sessionId !== undefined) emit("ERROR", code)` after a failure
  unfoldable pub observing :
      Text → Action ObserverState (Unit {0}) → Action ObserverState (Unit {0})
  observing code m = attempt m (do s ← get; report_public s.session_id code)

  abbrev pub begin_observation : Bool → Observation → Action ObserverState (Unit {0})
  begin_observation true o = done
  begin_observation false o =
      modify (λ s. record s { active_observations = o ∷ s.active_observations })

  -- `observeChainState` up to its first `await`
  unfoldable pub observe_chain : Text → Observation → Action ObserverState (Unit {0})
  observe_chain session o = do
    s ← get
    ensure (same_text s.session_id session) wrong_room
    begin_observation (is_active o s.active_observations) o

  abbrev pub end_observation : Observation → ObserverState → ObserverState
  end_observation o s = record s {
    active_observations = without_observation o s.active_observations;
  }

  abbrev pub show_reached : Bool → Observation → Action ObserverState (Unit {0})
  show_reached false o = done
  show_reached true o =
      attempt
        (do
          emit_public (shown_state o.expected_state) (shown_code o.expected_state) none
          modify (end_observation o))
        done

  -- One poll: a failure of the query and of `emit` is ignored, and the observation polls again.
  abbrev pub poll : Observation → Option ℕ → Action ObserverState (Unit {0})
  poll o none = done
  poll o (some status) = show_reached (is_reached o.expected_state status) o

  -- The deadline of an observation, with the handler of its failure
  abbrev pub expire : Observation → Action ObserverState (Unit {0})
  expire o =
      observing (codes "CHAIN_OPERATION_FAILED") (do modify (end_observation o); throw chain_failed)

  abbrev pub at_observation :
      Option Observation
      → (Observation → Action ObserverState (Unit {0}))
      → Action ObserverState (Unit {0})
  at_observation none next = throw no_such_task
  at_observation (some o) next = next o

  abbrev pub stop_public : Option Text → Action ObserverState (Unit {0})
  stop_public none = done
  stop_public (some session) = emit_public stopped (codes "RUNTIME_STOPPED") none

  -- The cases of the `message` handler; `SHUTDOWN_RUNTIME` ends the process, and its observations.
  unfoldable pub run_observer : CommandBody → Action ObserverState (Unit {0})
  run_observer (configure_observer session product) =
      modify (λ s. record s { session_id = some session; product_code = some product })
  run_observer (publish_public_state session status code time) = do
    ensure (not env.chain_mode) unexpected_state
    s ← get
    ensure (same_text s.session_id session) wrong_room
    emit_public (shown_state status) code (some time)
  run_observer (observe_chain_state session address status) = do
    ensure env.chain_mode unexpected_state
    observing (codes "CHAIN_OPERATION_FAILED")
        (observe_chain session (record { contract_address = address; expected_state = status }))
  run_observer start_runtime = do s ← get; session ← required s.session_id not_configured; done
  run_observer shutdown_runtime = do
    s ← get
    stop_public s.session_id
    modify (λ t. record t { session_id = none; product_code = none; active_observations = [] })
  run_observer (join_room session product) = throw observer_command
  run_observer (set_limit session limit_krw) = throw observer_command
  run_observer (peer_ready session) = throw observer_command
  run_observer chain_funded = throw observer_command
  run_observer (finalize_session session) = throw observer_command

  -- What happens to the process; an observation is named by its place among the active ones.
  unfoldable pub observer_command_arrives : RuntimeCommand → Action ObserverState (Unit {0})
  observer_command_arrives command = observing (codes "INVALID_RUNTIME_COMMAND") (do
    ensure (same_role command.target observer) wrong_target
    ensure (is_command env.is_date command) invalid_command
    run_observer command.body)

  unfoldable pub indexer_answers : ℕ → Option ℕ → Action ObserverState (Unit {0})
  indexer_answers place status = do
    s ← get
    at_observation (observation_at place s.active_observations) (λ o. poll o status)

  unfoldable pub deadline_passes : ℕ → Action ObserverState (Unit {0})
  deadline_passes place = do
    s ← get
    at_observation (observation_at place s.active_observations) expire

pub data ObserverEvent : Type 0 where
  command_comes : RuntimeCommand → ObserverEvent
  poll_answered : ℕ → Option ℕ → ObserverEvent
  deadline_passed : ℕ → ObserverEvent

module _ (env : Environment) where
  abbrev pub observer_takes : ObserverEvent → Action ObserverState (Unit {0})
  observer_takes (command_comes command) = observer_command_arrives env command
  observer_takes (poll_answered place status) = indexer_answers env place status
  observer_takes (deadline_passed place) = deadline_passes env place

  -- The state after each of the events in turn, the newest last.
  unfoldable pub run_observer_events : List ObserverEvent → ObserverState → ObserverState
  run_observer_events [] s = s
  run_observer_events (e ∷ es) s = run_observer_events es (observer_takes e s).1
