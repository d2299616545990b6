-- ===== src/Controller/Safety.antt =====
-- packages/demo-controller/src/orchestrator.ts: in every run, the controller starts a negotiation
-- only when it may, and shows only private events.
use midnight_private_negotia.Common.{
  refl, Bool, true, false, Option, none, some, List, [], ◌∷◌, arith, Text, ok, ok-injective, subst,
}
use midnight_private_negotia.Agent.Types.{PartyRole}
use midnight_private_negotia.Protocol.Types.{
  Role, party, observer, DemoEvent, RuntimeMessage, runtime_ready, runtime_boot_failed, demo_event,
  relay_channel_ready, chain_wallet_ready, chain_tx_confirmed, negotiation_outcome,
}
use midnight_private_negotia.Protocol.Events.{IsPrivate, check_event-IsPrivate}
use midnight_private_negotia.Runtime.Action.{
  then-Keeps, get-Keeps, ensure-Keeps, modify-Keeps, throw-Keeps, produced-Keeps,
}
use midnight_private_negotia.Controller.State.{
  Timer, Surroundings, ControllerState, reset_state, show,
}
use midnight_private_negotia.Controller.Messages.{
  joined, committed, accept_joined, accept_party_event, accept_event, try_start_funder,
  accept_message, ControllerEvent, room_requested, limit_requested, observer_requested,
  start_requested, message_arrives, timer_fires, funding_completes, process_exits, fire_taken,
  take_event, run_events,
}
use midnight_private_negotia.Controller.Invariant.{
  IsSound, Kept, show-Keeps, create-Keeps, event_of-ok, send-Keeps, send_both-Keeps,
}
use midnight_private_negotia.Controller.Starting.{
  when-Keeps, drawn-Keeps, configure-Keeps, try_match_room-Keeps, try_start-Keeps, try_ready-Keeps,
}
use midnight_private_negotia.Controller.Reporting.{
  accept_outcome-Keeps, fire-Keeps, accept_chain_transaction-Keeps, accept_observer_event-Keeps,
}

module _ (env : Surroundings) where
  joined-Keeps :
      (role : PartyRole) (session product : Text) → Kept env (joined env role session product)
  joined-Keeps role session product = then-Keeps (modify-Keeps _ (λ s v. v)) (
      get-Keeps (λ s _.
        then-Keeps (when-Keeps env _ _ (drawn-Keeps env (λ n. create-Keeps env _)))
          (try_match_room-Keeps env session)))

  committed-Keeps : (role : PartyRole) (session : Text) → Kept env (committed env role session)
  committed-Keeps role session =
      then-Keeps (modify-Keeps _ (λ s v. v)) (try_ready-Keeps env session)

  accept_joined-Keeps :
      (role : PartyRole) (e : DemoEvent) (b : Bool) (product : Option Text)
      → Kept env (accept_joined env role e b product)
  accept_joined-Keeps role e true (some product) = joined-Keeps role e.session_id product
  accept_joined-Keeps role e true none = when-Keeps env _ _ (committed-Keeps role e.session_id)
  accept_joined-Keeps role e false product = when-Keeps env _ _ (committed-Keeps role e.session_id)

  shown-Keeps : (e : DemoEvent) → IsPrivate e → Kept env (show env (ok e))
  shown-Keeps e private = show-Keeps env (ok e) (λ f h. subst IsPrivate (ok-injective h) private)

  accept_event-Keeps :
      (role : Role) (e : DemoEvent) → IsPrivate e → Kept env (accept_event env role e)
  unfolding accept_party_event
  accept_event-Keeps observer e private =
      then-Keeps (shown-Keeps e private) (accept_observer_event-Keeps env e)
  accept_event-Keeps (party role) e private = get-Keeps (λ s _.
      then-Keeps (when-Keeps env _ _ (shown-Keeps e private)) (accept_joined-Keeps role e _ _))

  try_start_funder-Keeps : Kept env (try_start_funder env)
  unfolding try_start_funder
  try_start_funder-Keeps = get-Keeps (λ s _. when-Keeps env _ _ (modify-Keeps _ (λ t v. v)))

  accept_message-Keeps :
      (role : Role) (message : RuntimeMessage) → Kept env (accept_message env role message)
  unfolding accept_message
  accept_message-Keeps role (runtime_ready r pid) =
      get-Keeps (λ s _. then-Keeps (ensure-Keeps _ _) (modify-Keeps _ (λ t v. v)))
  accept_message-Keeps role (demo_event event) = produced-Keeps _ (λ checked h.
      then-Keeps (ensure-Keeps _ _) (
        accept_event-Keeps role checked
          (check_event-IsPrivate env.is_date event checked (event_of-ok env _ _ h)).1))
  accept_message-Keeps role (runtime_boot_failed r reason) = ensure-Keeps _ _
  accept_message-Keeps role (chain_wallet_ready r address) = get-Keeps (λ s _.
      then-Keeps (ensure-Keeps _ _) (then-Keeps (modify-Keeps _ (λ t v. v)) try_start_funder-Keeps))
  accept_message-Keeps role (chain_tx_confirmed r session address status) =
      then-Keeps (ensure-Keeps _ _) (accept_chain_transaction-Keeps env r session address status)
  accept_message-Keeps role (relay_channel_ready r session) =
      then-Keeps (ensure-Keeps _ _)
        (then-Keeps (modify-Keeps _ (λ s v. v)) (try_start-Keeps env session))
  accept_message-Keeps role (negotiation_outcome session result) =
      then-Keeps (ensure-Keeps _ _) (accept_outcome-Keeps env session result)

  fire_taken-Keeps : (taken : Option (Timer × List Timer)) → Kept env (fire_taken env taken)
  fire_taken-Keeps none = throw-Keeps _
  fire_taken-Keeps (some (timer, others)) =
      then-Keeps (modify-Keeps _ (λ s v. v)) (fire-Keeps env timer)

  take_event-Keeps : (e : ControllerEvent) → Kept env (take_event env e)
  unfolding take_event
  take_event-Keeps (room_requested role session product) = send-Keeps env _ _ refl
  take_event-Keeps (limit_requested role session limit) = send-Keeps env _ _ refl
  take_event-Keeps (observer_requested session product) = configure-Keeps env session product
  take_event-Keeps (start_requested session) = try_start-Keeps env session
  take_event-Keeps (message_arrives role message) =
      then-Keeps (ensure-Keeps _ _) (accept_message-Keeps role message)
  take_event-Keeps (timer_fires place) = get-Keeps (λ s _. fire_taken-Keeps _)
  take_event-Keeps funding_completes = send_both-Keeps env _ refl
  take_event-Keeps (process_exits role) = modify-Keeps _ (λ s v. v)

  run_from :
      (es : List ControllerEvent) (s : ControllerState)
      → IsSound env.chain_mode 0 0 s
      → IsSound env.chain_mode 0 0 (run_events env es s)
  unfolding run_events
  run_from [] s v = v
  run_from (e ∷ es) s v = run_from es _ ((take_event-Keeps e).kept s v)

  -- In every run of the controller from a reset state, with any messages, calls, timers and ends of
  -- processes in any order: each session in which it started a negotiation has both parties ready, its
  -- start displayed and, in chain mode, the chain's state open; the started sessions are distinct, and
  -- only they are finished; a party was sent at most as many starts as there are started sessions; and
  -- every event that was shown is private.
  pub run_events-IsSound :
      (es : List ControllerEvent) (connected : Role → Bool)
      → IsSound env.chain_mode 0 0 (run_events env es (reset_state connected))
  unfolding reset_state
  run_events-IsSound es connected =
      run_from es (reset_state connected) ((tt, tt), tt, omega arith, omega arith, tt)
