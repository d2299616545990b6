-- ===== src/Runtime/Privacy.antt =====
-- packages/observer-runtime/src/index.ts: what the observer's process shows.
pub mod Runs
use midnight_private_negotia.Common.{
  ℕ, zero, suc, ◌≡◌, refl, sym, subst, ap, Bool, true, false, not, ◌&&◌, ◌||◌, Option, none, some,
  List, [], ◌∷◌, arith, All, ◌≤◌, ◌≢◌, ◌⊎◌, inl, inr, Text, codes, Result, ok, err,
}
use midnight_private_negotia.Contract.Circuits.{
  DealStatus, waiting_seller, opened, authorized, settled, cancelled,
}
use midnight_private_negotia.Protocol.Types.{
  observer, public, DemoState, open_state, authorized_state, settled_state, cancelled_state,
  error_state, stopped, DemoEvent, RuntimeCommand, CommandBody, join_room, set_limit,
  configure_observer, start_runtime, peer_ready, chain_funded, observe_chain_state,
  publish_public_state, finalize_session, shutdown_runtime, RuntimeMessage, demo_event,
  runtime_ready, runtime_boot_failed, relay_channel_ready, chain_wallet_ready, chain_tx_confirmed,
  negotiation_outcome,
}
use midnight_private_negotia.Protocol.Events.{
  EventError, is_observer, is_public, is_given, create_demo_event, check_event,
  check_event-IsPrivate,
}
use midnight_private_negotia.Runtime.Action.{
  Action, RuntimeError, Keeps, bind-Keeps, then-Keeps, get-Keeps, required-Keeps, ensure-Keeps,
  ensured-Keeps, produced-Keeps, modify-Keeps, done-Keeps, throw-Keeps, attempt-Keeps,
}
use midnight_private_negotia.Runtime.Channel.{Environment, event_of}
use midnight_private_negotia.Runtime.Observer.{
  Observation, ObserverState, new_observer, is_reached, shown_state, shown_code, observer_event,
  emit_public, report_public, observing, begin_observation, observe_chain, end_observation,
  show_reached, poll, expire, at_observation, stop_public, run_observer, observer_command_arrives,
  indexer_answers, deadline_passes, ObserverEvent, command_comes, poll_answered, deadline_passed,
  observer_takes, run_observer_events,
}

-- The answers of the indexer, each with the observation that polled for it, the newest first.
abbrev pub Answers : Type 0
Answers = List (Observation × ℕ)

-- The status of a contract shows that a state was reached: the states from `opened` to `settled` are
-- passed in their order, and a cancelled deal, whose status is 4, has reached only its cancellation.
abbrev pub Reached : DealStatus → ℕ → Type 0
Reached waiting_seller status = status ≢ 4
Reached opened status = (1 ≤ status) × (status ≢ 4)
Reached authorized status = (2 ≤ status) × (status ≢ 4)
Reached settled status = (3 ≤ status) × (status ≢ 4)
Reached cancelled status = status ≡ 4

-- An observation that expects this state was answered a status that reached it.
abbrev pub AnsweredFor : DealStatus → Answers → Type 0
AnsweredFor expected [] = ⊥
AnsweredFor expected ((o, status) ∷ rest) =
    ((o.expected_state ≡ expected) × Reached expected status) ⊎ AnsweredFor expected rest

-- What a shown state says of the chain.
abbrev pub expected_of : DemoState → Option DealStatus
expected_of open_state = some opened
expected_of authorized_state = some authorized
expected_of settled_state = some settled
expected_of cancelled_state = some cancelled
expected_of _ = none

abbrev pub BackedFor : Option DealStatus → Answers → Type 0
BackedFor none answers = Unit
BackedFor (some expected) answers = AnsweredFor expected answers

abbrev pub BackedIn : Bool → Option DealStatus → Answers → Type 0
BackedIn false expected answers = Unit
BackedIn true expected answers = BackedFor expected answers

backed_later :
    (chain_mode : Bool) (expected : Option DealStatus) (answer : Observation × ℕ)
    (answers : Answers)
    → BackedIn chain_mode expected answers
    → BackedIn chain_mode expected (answer ∷ answers)
backed_later false expected answer answers b = tt
backed_later true none answer answers b = tt
backed_later true (some expected) answer answers b = inr b

pub is_reached-Reached :
    (expected : DealStatus) (status : ℕ)
    → is_reached expected status ≡ true
    → Reached expected status
is_reached-Reached waiting_seller status h = λ e. absurd (ground arith)
is_reached-Reached opened status h = (ground arith, λ e. absurd (ground arith))
is_reached-Reached authorized status h = (ground arith, λ e. absurd (ground arith))
is_reached-Reached settled status h = (ground arith, λ e. absurd (ground arith))
is_reached-Reached cancelled status h = ground arith

-- A message is a public event of the observer without an amount, and in chain mode its state was
-- reached on the chain.
abbrev pub IsBacked : Bool → Answers → RuntimeMessage → Type 0
IsBacked chain_mode answers (demo_event e) =
    (e.panel ≡ observer)
    × (e.audience ≡ public)
    × (e.agreed_amount ≡ none)
    × BackedIn chain_mode (expected_of e.state) answers
IsBacked chain_mode answers _ = ⊥

abbrev pub ShowsBacked : Bool → Answers → ObserverState → Type 0
ShowsBacked chain_mode answers s = All (IsBacked chain_mode answers) s.outbox

-- More answers leave a message backed.
IsBacked-later :
    (chain_mode : Bool) (answer : Observation × ℕ) (answers : Answers) (m : RuntimeMessage)
    → IsBacked chain_mode answers m
    → IsBacked chain_mode (answer ∷ answers) m
IsBacked-later chain_mode answer answers (demo_event e) (panel, audience, amount, backed) =
    (panel, audience, amount, backed_later chain_mode (expected_of e.state) answer answers backed)
IsBacked-later chain_mode answer answers (runtime_ready role pid) b = b
IsBacked-later chain_mode answer answers (runtime_boot_failed role reason) b = b
IsBacked-later chain_mode answer answers (relay_channel_ready role session) b = b
IsBacked-later chain_mode answer answers (chain_wallet_ready role address) b = b
IsBacked-later chain_mode answer answers (chain_tx_confirmed role session address state) b = b
IsBacked-later chain_mode answer answers (negotiation_outcome session result) b = b

pub All-later :
    (chain_mode : Bool) (answer : Observation × ℕ) (answers : Answers) (ms : List RuntimeMessage)
    → All (IsBacked chain_mode answers) ms
    → All (IsBacked chain_mode (answer ∷ answers)) ms
All-later chain_mode answer answers [] bs = tt
All-later chain_mode answer answers (m ∷ ms) (b, bs) =
    (IsBacked-later chain_mode answer answers m b, All-later chain_mode answer answers ms bs)

event_of-ok : (r : Result EventError DemoEvent) (e : DemoEvent) → event_of r ≡ ok e → r ≡ ok e
event_of-ok (ok a) e h = cc
event_of-ok (err a) e h = cc

module _ (env : Environment) (answers : Answers) where
  abbrev Kept : {A : Type 0} → Action ObserverState A → Type 0
  Kept m = Keeps (ShowsBacked env.chain_mode answers) m

  emit_public-Keeps :
      (state : DemoState) (code : Text) (time : Option Text)
      → BackedIn env.chain_mode (expected_of state) answers
      → Kept (emit_public env state code time)
  unfolding emit_public create_demo_event
  emit_public-Keeps state code time backed = get-Keeps (λ s _.
      bind-Keeps (required-Keeps _ _) (λ session. then-Keeps (modify-Keeps _ (λ t v. v)) (
        produced-Keeps _ (λ f h. modify-Keeps _ (λ t v. (
          subst (λ e. IsBacked env.chain_mode answers (demo_event e))
              (check_event-IsPrivate env.is_date
                (observer_event env session s.product_code state code time s.draws) f
                (event_of-ok _ f h)).0
              (refl, refl, refl, backed),
          v,
        ))))))

  unchained :
      (chain_mode : Bool) (expected : Option DealStatus)
      → not chain_mode ≡ true
      → BackedIn chain_mode expected answers
  unchained true expected h = cc
  unchained false expected h = tt

  -- A state that says nothing of the chain
  unclaimed : (chain_mode : Bool) → BackedIn chain_mode none answers
  unclaimed true = tt
  unclaimed false = tt

  report_public-Keeps :
      (session : Option Text) (code : Text) → Kept (report_public env session code)
  report_public-Keeps none code = done-Keeps
  report_public-Keeps (some session) code =
      emit_public-Keeps error_state code none (unclaimed env.chain_mode)

  pub observing-Keeps :
      (code : Text) (m : Action ObserverState (Unit {0})) → Kept m → Kept (observing env code m)
  unfolding observing
  observing-Keeps code m keeps =
      attempt-Keeps keeps (get-Keeps (λ s _. report_public-Keeps s.session_id code))

  begin_observation-Keeps : (b : Bool) (o : Observation) → Kept (begin_observation env b o)
  begin_observation-Keeps true o = done-Keeps
  begin_observation-Keeps false o = modify-Keeps _ (λ s v. v)

  observe_chain-Keeps : (session : Text) (o : Observation) → Kept (observe_chain env session o)
  unfolding observe_chain
  observe_chain-Keeps session o =
      get-Keeps (λ s _. then-Keeps (ensure-Keeps _ _) (begin_observation-Keeps _ o))

  answered-backed :
      (chain_mode : Bool) (expected : DealStatus)
      → AnsweredFor expected answers
      → BackedIn chain_mode (expected_of (shown_state expected)) answers
  answered-backed false expected reached = tt
  answered-backed true waiting_seller reached = tt
  answered-backed true opened reached = reached
  answered-backed true authorized reached = reached
  answered-backed true settled reached = reached
  answered-backed true cancelled reached = reached

  pub show_reached-Keeps :
      (b : Bool) (o : Observation)
      → (b ≡ true → AnsweredFor o.expected_state answers)
      → Kept (show_reached env b o)
  show_reached-Keeps false o reached = done-Keeps
  show_reached-Keeps true o reached =
      attempt-Keeps
        (then-Keeps
          (emit_public-Keeps _ _ none
            (answered-backed env.chain_mode o.expected_state (reached refl)))
          (modify-Keeps _ (λ s v. v)))
        done-Keeps

  stop_public-Keeps : (session : Option Text) → Kept (stop_public env session)
  stop_public-Keeps none = done-Keeps
  stop_public-Keeps (some session) = emit_public-Keeps stopped _ none (unclaimed env.chain_mode)

  pub at_observation-Keeps :
      (o : Option Observation) (next : Observation → Action ObserverState (Unit {0}))
      → ((a : Observation) → Kept (next a))
      → Kept (at_observation env o next)
  at_observation-Keeps none next keeps = throw-Keeps _
  at_observation-Keeps (some o) next keeps = keeps o

  pub expire-Keeps : (o : Observation) → Kept (expire env o)
  expire-Keeps o = observing-Keeps _ _ (then-Keeps (modify-Keeps _ (λ s v. v)) (throw-Keeps _))

  pub run_observer-Keeps : (body : CommandBody) → Kept (run_observer env body)
  unfolding run_observer
  run_observer-Keeps (configure_observer session product) = modify-Keeps _ (λ s v. v)
  run_observer-Keeps (publish_public_state session status code time) = ensured-Keeps _ _ (λ mock.
      get-Keeps (λ s _.
        then-Keeps (ensure-Keeps _ _)
          (emit_public-Keeps _ code (some time) (unchained env.chain_mode _ mock))))
  run_observer-Keeps (observe_chain_state session address status) =
      then-Keeps (ensure-Keeps _ _) (observing-Keeps _ _ (observe_chain-Keeps session _))
  run_observer-Keeps start_runtime =
      get-Keeps (λ s _. bind-Keeps (required-Keeps _ _) (λ session. done-Keeps))
  run_observer-Keeps shutdown_runtime =
      get-Keeps (λ s _. then-Keeps (stop_public-Keeps _) (modify-Keeps _ (λ t v. v)))
  run_observer-Keeps (join_room session product) = throw-Keeps _
  run_observer-Keeps (set_limit session limit_krw) = throw-Keeps _
  run_observer-Keeps (peer_ready session) = throw-Keeps _
  run_observer-Keeps chain_funded = throw-Keeps _
  run_observer-Keeps (finalize_session session) = throw-Keeps _
