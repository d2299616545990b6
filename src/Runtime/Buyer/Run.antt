-- ===== src/Runtime/Buyer/Run.antt =====
-- packages/buyer-runtime/src/index.ts: the buyer's dispatch of commands, its tasks and its runs.
use midnight_private_negotia.Runtime.Alike.{is_given}
use midnight_private_negotia.Common.{
  ℕ, zero, suc, true, Option, none, some, List, [], ◌∷◌, Text, codes,
}
use midnight_private_negotia.Agent.Types.{PartyRole, buyer}
use midnight_private_negotia.Relay.Server.{RelayPacket}
use midnight_private_negotia.Protocol.Types.{
  party, same_role, RuntimeCommand, CommandBody, join_room, set_limit, configure_observer,
  start_runtime, peer_ready, chain_funded, observe_chain_state, publish_public_state,
  finalize_session, shutdown_runtime,
}
use midnight_private_negotia.Protocol.Checks.{is_command}
use midnight_private_negotia.Runtime.Action.{
  invalid_command, not_configured, no_limit, wrong_target, observer_command, chain_failed,
  no_such_task, Action, ◌>>=◌, ◌>>◌, done, throw, modify, get, required, ensure,
}
use midnight_private_negotia.Runtime.Channel.{Environment, same_text, report}
use midnight_private_negotia.Runtime.Buyer.{
  BuyerTask, begins, generates, deploys, authorizes, cancels, finalizes, Answer, BuyerState,
  on_channel,
}
use midnight_private_negotia.Runtime.Buyer.Chain.{
  deployed_on_chain, authorized_on_chain, cancelled_on_chain, finalize_on_chain, finalized_on_chain,
}
use midnight_private_negotia.Runtime.Buyer.Negotiation.{generate_and_execute, generated}
use midnight_private_negotia.Runtime.Buyer.Handlers.{
  reporting, accept_peer_key, accept_relay_packet, join, lock_limit, start, shut_down,
}

-- What happens to the process. A resumed task is named by its place among the waiting tasks.
pub data BuyerEvent : Type 0 where
  command_arrives : RuntimeCommand → BuyerEvent
  key_arrives : (session_id product_code : Text) → PartyRole → (key : Text) → BuyerEvent
  packet_arrives : RelayPacket → BuyerEvent
  relay_errs : BuyerEvent
  storage_prepared : BuyerEvent
  task_resumes : ℕ → Answer → BuyerEvent

abbrev pub kept_task :
    BuyerTask → Option (BuyerTask × List BuyerTask) → Option (BuyerTask × List BuyerTask)
kept_task task none = none
kept_task task (some (taken, left)) = some (taken, task ∷ left)

-- The task at a place, and the others.
abbrev pub take_task : ℕ → List BuyerTask → Option (BuyerTask × List BuyerTask)
take_task n [] = none
take_task zero (task ∷ tasks) = some (task, tasks)
take_task (suc n) (task ∷ tasks) = kept_task task (take_task n tasks)

module _ (env : Environment) where
  -- The `PEER_READY` case
  abbrev pub become_ready : Text → Action BuyerState (Unit {0})
  become_ready session = do
    s ← get
    ensure (same_text s.channel.session_id session) no_limit
    ensure (is_given s.buyer_max_price) no_limit
    modify (λ t. record t { peer_ready = true })

  -- The `FINALIZE_SESSION` case
  abbrev pub finalize : Text → Action BuyerState (Unit {0})
  finalize session = do
    s ← get
    ensure (same_text s.channel.session_id session) not_configured
    reporting env (codes "SESSION_FINALIZE_PENDING") (finalize_on_chain env)

  -- The cases of the `message` handler
  unfoldable pub run_body : CommandBody → Action BuyerState (Unit {0})
  run_body (join_room session product) = join env session product
  run_body (set_limit session limit_krw) = lock_limit env session limit_krw
  run_body (finalize_session session) = finalize session
  run_body chain_funded = done
  run_body (peer_ready session) = become_ready session
  run_body start_runtime = start env
  run_body shutdown_runtime = shut_down env
  run_body (configure_observer session product) = throw observer_command
  run_body (observe_chain_state session address status) = throw observer_command
  run_body (publish_public_state session status code time) = throw observer_command

  -- The `message` handler on a command whose values have their types: `parseRuntimeCommand` tests the target
  -- and the fields.
  unfoldable pub handle_command : RuntimeCommand → Action BuyerState (Unit {0})
  handle_command command = reporting env (codes "INVALID_RUNTIME_COMMAND") (do
    ensure (same_role command.target (party buyer)) wrong_target
    ensure (is_command env.is_date command) invalid_command
    run_body command.body)

  abbrev pub begin_for : Option Text → Action BuyerState (Unit {0})
  begin_for none = done
  begin_for (some product) =
      reporting env (codes "INVALID_RUNTIME_COMMAND") (generate_and_execute env 1 none)

  -- What a task does with the answer it waited for.
  unfoldable pub run_task : BuyerTask → Answer → Action BuyerState (Unit {0})
  run_task begins answer = do s ← get; begin_for s.channel.product_code
  run_task (generates context maximum price_offset) answer =
      reporting env (codes "INVALID_RUNTIME_COMMAND")
        (generated env context maximum price_offset answer.provider)
  run_task (deploys session) answer = reporting env (codes "CHAIN_OPERATION_FAILED") (do
    deployment ← required answer.deployed chain_failed
    deployed_on_chain env session deployment)
  run_task (authorizes amount) answer =
      reporting env (codes "CHAIN_OPERATION_FAILED")
        (authorized_on_chain env amount answer.confirmed)
  run_task cancels answer =
      reporting env (codes "CHAIN_OPERATION_FAILED") (cancelled_on_chain env answer.confirmed)
  run_task finalizes answer =
      reporting env (codes "SESSION_FINALIZE_PENDING")
        (do outcome ← required answer.outcome chain_failed; finalized_on_chain env outcome)

  abbrev pub resume : Option (BuyerTask × List BuyerTask) → Answer → Action BuyerState (Unit {0})
  resume none answer = throw no_such_task
  resume (some (task, others)) answer = do
    modify (λ s. record s { tasks = others })
    run_task task answer

  -- What an event does. A packet that is refused, as an error of the socket, goes to `onError`.
  unfoldable pub take_event : BuyerEvent → Action BuyerState (Unit {0})
  take_event (command_arrives command) = handle_command command
  take_event (key_arrives session product role key) =
      reporting env (codes "RELAY_CHANNEL_ERROR") (accept_peer_key env session product role key)
  take_event (packet_arrives p) =
      reporting env (codes "RELAY_CHANNEL_ERROR") (accept_relay_packet env p)
  take_event relay_errs = on_channel (report env buyer (codes "RELAY_CHANNEL_ERROR"))
  take_event storage_prepared = modify (λ s. record s { role_storage = true })
  take_event (task_resumes place answer) = do s ← get; resume (take_task place s.tasks) answer

  -- The state after each of the events in turn, the newest last.
  unfoldable pub run_events : List BuyerEvent → BuyerState → BuyerState
  run_events [] s = s
  run_events (e ∷ es) s = run_events es (take_event e s).1
