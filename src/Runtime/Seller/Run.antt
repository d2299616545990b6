-- ===== src/Runtime/Seller/Run.antt =====
-- packages/seller-runtime/src/index.ts: the seller's dispatch of commands, its tasks and its runs.
use midnight_private_negotia.Runtime.Alike.{is_given}
use midnight_private_negotia.Common.{
  ℕ, zero, suc, true, Option, none, some, List, [], ◌∷◌, Text, codes,
}
use midnight_private_negotia.Agent.Types.{PartyRole, seller}
use midnight_private_negotia.Contract.Circuits.{settled, cancelled}
use midnight_private_negotia.Relay.Server.{RelayPacket}
use midnight_private_negotia.Protocol.Types.{
  party, same_role, RuntimeCommand, CommandBody, join_room, set_limit, configure_observer,
  start_runtime, peer_ready, chain_funded, observe_chain_state, publish_public_state,
  finalize_session, shutdown_runtime,
}
use midnight_private_negotia.Protocol.Checks.{is_command}
use midnight_private_negotia.Runtime.Action.{
  invalid_command, not_configured, no_limit, wrong_target, observer_command, chain_failed,
  no_such_task, Action, ◌>>=◌, ◌>>◌, done, throw, modify, get, required, ensure, attempt,
}
use midnight_private_negotia.Runtime.Channel.{Environment, same_text, report}
use midnight_private_negotia.Runtime.Seller.{
  SellerTask, sends_key, responds, attaches, joins_deal, settles, cancels, cancels_after_failure,
  finalizes, Answer, SellerState, on_channel,
}
use midnight_private_negotia.Runtime.Seller.Chain.{
  flushed_seller_key, attached_on_chain, joined_on_chain, cancel_on_chain, confirmed_on_chain,
  finalize_on_chain, finalized_on_chain,
}
use midnight_private_negotia.Runtime.Seller.Negotiation.{responded}
use midnight_private_negotia.Runtime.Seller.Handlers.{
  reporting, accept_peer_key, accept_relay_packet, join, lock_limit, start, shut_down,
}

-- What happens to the process. A resumed task is named by its place among the waiting tasks.
pub data SellerEvent : Type 0 where
  command_arrives : RuntimeCommand → SellerEvent
  key_arrives : (session_id product_code : Text) → PartyRole → (key : Text) → SellerEvent
  packet_arrives : RelayPacket → SellerEvent
  relay_errs : SellerEvent
  storage_prepared : SellerEvent
  task_resumes : ℕ → Answer → SellerEvent

abbrev pub kept_task :
    SellerTask → Option (SellerTask × List SellerTask) → Option (SellerTask × List SellerTask)
kept_task task none = none
kept_task task (some (taken, left)) = some (taken, task ∷ left)

-- The task at a place, and the others.
abbrev pub take_task : ℕ → List SellerTask → Option (SellerTask × List SellerTask)
take_task n [] = none
take_task zero (task ∷ tasks) = some (task, tasks)
take_task (suc n) (task ∷ tasks) = kept_task task (take_task n tasks)

module _ (env : Environment) where
  -- The `PEER_READY` case
  abbrev pub become_ready : Text → Action SellerState (Unit {0})
  become_ready session = do
    s ← get
    ensure (same_text s.channel.session_id session) no_limit
    ensure (is_given s.seller_min_price) no_limit
    modify (λ t. record t { peer_ready = true })

  -- The `FINALIZE_SESSION` case
  abbrev pub finalize : Text → Action SellerState (Unit {0})
  finalize session = do
    s ← get
    ensure (same_text s.channel.session_id session) not_configured
    reporting env (codes "SESSION_FINALIZE_PENDING") (finalize_on_chain env)

  -- The cases of the `message` handler
  unfoldable pub run_body : CommandBody → Action SellerState (Unit {0})
  run_body (join_room session product) = join env session product
  run_body (set_limit session limit_krw) = lock_limit env session limit_krw
  run_body (finalize_session session) = finalize session
  run_body chain_funded = done
  run_body (peer_ready session) = become_ready session
  run_body start_runtime = start env
  run_body shutdown_runtime = shut_down env
  run_body (configure_observer session product) = throw observer_command
  run_body (observe_chain_state session address status) = throw observer_command
  run_body (publish_public_state session status code time) = throw observer_command

  -- The `message` handler on a command; `parseRuntimeCommand` tests the target.
  unfoldable pub handle_command : RuntimeCommand → Action SellerState (Unit {0})
  handle_command command = reporting env (codes "INVALID_RUNTIME_COMMAND") (do
    ensure (same_role command.target (party seller)) wrong_target
    ensure (is_command env.is_date command) invalid_command
    run_body command.body)

  -- The handler of a failed settlement, which cancels and ignores a failure of that.
  abbrev pub cancel_unsettled : Action SellerState (Unit {0})
  cancel_unsettled = do
    on_channel (report env seller (codes "CHAIN_OPERATION_FAILED"))
    attempt (cancel_on_chain env cancels_after_failure) done

  -- What a task does with the answer it waited for.
  unfoldable pub run_task : SellerTask → Answer → Action SellerState (Unit {0})
  run_task sends_key answer =
      reporting env (codes "CHAIN_OPERATION_FAILED") (flushed_seller_key env)
  run_task (responds context minimum price_offset) answer =
      reporting env (codes "INVALID_RUNTIME_COMMAND")
        (responded env context minimum price_offset answer.provider)
  run_task (attaches session address) answer =
      reporting env (codes "CHAIN_OPERATION_FAILED")
        (do r ← required answer.attached chain_failed; attached_on_chain env session address r)
  run_task (joins_deal session address r) answer =
      reporting env (codes "CHAIN_OPERATION_FAILED")
        (do ensure answer.confirmed chain_failed; joined_on_chain env session address r)
  run_task (settles price randomness) answer =
      attempt (confirmed_on_chain env settled answer.confirmed) cancel_unsettled
  run_task cancels answer =
      reporting env (codes "CHAIN_OPERATION_FAILED")
        (confirmed_on_chain env cancelled answer.confirmed)
  run_task cancels_after_failure answer =
      attempt (confirmed_on_chain env cancelled answer.confirmed) done
  run_task finalizes answer =
      reporting env (codes "SESSION_FINALIZE_PENDING")
        (do outcome ← required answer.outcome chain_failed; finalized_on_chain env outcome)

  abbrev pub resume : Option (SellerTask × List SellerTask) → Answer → Action SellerState (Unit {0})
  resume none answer = throw no_such_task
  resume (some (task, others)) answer = do
    modify (λ s. record s { tasks = others })
    run_task task answer

  -- What an event does. A packet that is refused, as an error of the socket, goes to `onError`.
  unfoldable pub take_event : SellerEvent → Action SellerState (Unit {0})
  take_event (command_arrives command) = handle_command command
  take_event (key_arrives session product role key) =
      reporting env (codes "RELAY_CHANNEL_ERROR") (accept_peer_key env session product role key)
  take_event (packet_arrives p) =
      reporting env (codes "RELAY_CHANNEL_ERROR") (accept_relay_packet env p)
  take_event relay_errs = on_channel (report env seller (codes "RELAY_CHANNEL_ERROR"))
  take_event storage_prepared = modify (λ s. record s { role_storage = true })
  take_event (task_resumes place answer) = do s ← get; resume (take_task place s.tasks) answer

  -- The state after each of the events in turn, the newest last.
  unfoldable pub run_events : List SellerEvent → SellerState → SellerState
  run_events [] s = s
  run_events (e ∷ es) s = run_events es (take_event e s).1
