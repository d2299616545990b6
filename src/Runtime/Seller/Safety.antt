-- ===== src/Runtime/Seller/Safety.antt =====
-- packages/seller-runtime/src/index.ts: whatever arrives, the seller agrees to no price under its
-- limits, and settles none.
use midnight_private_negotia.Common.{
  ℕ, zero, suc, ◌≤◌, Bool, true, false, Option, none, some, List, [], ◌∷◌, All, Text, value,
}
use midnight_private_negotia.Protocol.Types.{
  CommandBody, join_room, set_limit, configure_observer, start_runtime, peer_ready, chain_funded,
  observe_chain_state, publish_public_state, finalize_session, shutdown_runtime,
}
use midnight_private_negotia.Runtime.Action.{
  ◌>>=◌, ◌>>◌, get, modify, throw, bind-Keeps, then-Keeps, get-Keeps, ensure-Keeps, modify-Keeps,
  done-Keeps, throw-Keeps,
}
use midnight_private_negotia.Runtime.Channel.{Environment}
use midnight_private_negotia.Runtime.Seller.{SellerTask, Answer, SellerState, new_seller}
use midnight_private_negotia.Runtime.Seller.Handlers.{
  greet, join, join_in, lock_limit, start, say_stopped, shut_down,
}
use midnight_private_negotia.Runtime.Seller.Run.{
  SellerEvent, command_arrives, key_arrives, packet_arrives, relay_errs, storage_prepared,
  task_resumes, kept_task, take_task, run_body, handle_command, resume, take_event, run_events,
}
use midnight_private_negotia.Runtime.Seller.Limits.{
  AgreedFrom, TaskFrom, IsFrom, Kept, on_channel-Keeps, flush_seller_key-Keeps,
  try_join_on_chain-Keeps,
}
use midnight_private_negotia.Runtime.Seller.Replies.{
  reporting-Keeps, accept_peer_key-Keeps, accept_relay_packet-Keeps, finalize_on_chain-Keeps,
  run_task-Keeps,
}

-- A command sets no limit under a bound.
abbrev pub SetsFrom : ℕ → CommandBody → Type 0
SetsFrom limit (set_limit session limit_krw) = limit ≤ value limit_krw
SetsFrom limit _ = Unit

abbrev pub ArrivesFrom : ℕ → SellerEvent → Type 0
ArrivesFrom limit (command_arrives command) = SetsFrom limit command.body
ArrivesFrom limit _ = Unit

module _ (env : Environment) (limit : ℕ) where
  greet-Keeps : (session product : Text) (n : ℕ) → Kept limit (greet env session product n)
  unfolding greet
  greet-Keeps session product n = then-Keeps (on_channel-Keeps limit _) (on_channel-Keeps limit _)

  join-Keeps : (session product : Text) → Kept limit (join env session product)
  unfolding join
  join-Keeps session product = bind-Keeps (on_channel-Keeps limit _) (λ n.
      then-Keeps (modify-Keeps _ (λ s v. let (_, _, _, ts) = v in (tt, tt, tt, ts)))
        (greet-Keeps session product n))

  join_in-Keeps : (b : Bool) → Kept limit (join_in env b)
  join_in-Keeps false = done-Keeps
  join_in-Keeps true = reporting-Keeps env limit _ _ (try_join_on_chain-Keeps env limit)

  lock_limit-Keeps :
      (session limit_krw : Text)
      → limit ≤ value limit_krw
      → Kept limit (lock_limit env session limit_krw)
  unfolding lock_limit
  lock_limit-Keeps session limit_krw from = get-Keeps (λ s _. then-Keeps (ensure-Keeps _ _) (
      then-Keeps (ensure-Keeps _ _) (
        bind-Keeps (on_channel-Keeps limit _) (λ n. bind-Keeps (on_channel-Keeps limit _) (λ m.
          then-Keeps (modify-Keeps _ (λ t v. let (_, a, o, ts) = v in (from, a, o, ts))) (
            then-Keeps (reporting-Keeps env limit _ _ (flush_seller_key-Keeps env limit)) (
              then-Keeps (on_channel-Keeps limit _) (
                then-Keeps (on_channel-Keeps limit _) (
                  then-Keeps (on_channel-Keeps limit _)
                    (then-Keeps (on_channel-Keeps limit _) (join_in-Keeps _)))))))))))

  say_stopped-Keeps : (session : Option Text) → Kept limit (say_stopped env session)
  say_stopped-Keeps none = done-Keeps
  say_stopped-Keeps (some session) = on_channel-Keeps limit _

  shut_down-Keeps : Kept limit (shut_down env)
  unfolding shut_down
  shut_down-Keeps = get-Keeps (λ s _.
      then-Keeps (say_stopped-Keeps _)
        (modify-Keeps _ (λ t v. let (_, _, _, ts) = v in (tt, tt, tt, ts))))

  run_body-Keeps : (body : CommandBody) → SetsFrom limit body → Kept limit (run_body env body)
  unfolding run_body start
  run_body-Keeps (join_room session product) from = join-Keeps session product
  run_body-Keeps (set_limit session limit_krw) from = lock_limit-Keeps session limit_krw from
  run_body-Keeps (finalize_session session) from = get-Keeps (λ s _.
      then-Keeps (ensure-Keeps _ _)
        (reporting-Keeps env limit _ _ (finalize_on_chain-Keeps env limit)))
  run_body-Keeps chain_funded from = done-Keeps
  run_body-Keeps (peer_ready session) from = get-Keeps (λ s _.
      then-Keeps (ensure-Keeps _ _) (then-Keeps (ensure-Keeps _ _) (modify-Keeps _ (λ t v. v))))
  run_body-Keeps start_runtime from = get-Keeps (λ s _. ensure-Keeps _ _)
  run_body-Keeps shutdown_runtime from = shut_down-Keeps
  run_body-Keeps (configure_observer session product) from = throw-Keeps _
  run_body-Keeps (observe_chain_state session address status) from = throw-Keeps _
  run_body-Keeps (publish_public_state session status code time) from = throw-Keeps _

-- The task that is taken, and the others, are among those that waited.
abbrev TakenFrom : ℕ → Option (SellerTask × List SellerTask) → Type 0
TakenFrom limit none = Unit
TakenFrom limit (some (task, others)) = TaskFrom limit task × All (TaskFrom limit) others

kept_task-TakenFrom :
    (limit : ℕ) (task : SellerTask) (taken : Option (SellerTask × List SellerTask))
    → TaskFrom limit task
    → TakenFrom limit taken
    → TakenFrom limit (kept_task task taken)
kept_task-TakenFrom limit task none first rest = tt
kept_task-TakenFrom limit task (some (t, others)) first (of_taken, rest) = (of_taken, (first, rest))

take_task-TakenFrom :
    (limit place : ℕ) (tasks : List SellerTask)
    → All (TaskFrom limit) tasks
    → TakenFrom limit (take_task place tasks)
take_task-TakenFrom limit place [] from = tt
take_task-TakenFrom limit zero (t ∷ ts) from = from
take_task-TakenFrom limit (suc place) (t ∷ ts) (first, rest) =
    kept_task-TakenFrom limit t (take_task place ts) first (take_task-TakenFrom limit place ts rest)

module _ (env : Environment) (limit : ℕ) where
  resume-Moves :
      (taken : Option (SellerTask × List SellerTask)) (answer : Answer) (s : SellerState)
      → TakenFrom limit taken
      → IsFrom limit s
      → IsFrom limit (resume env taken answer s).1
  unfolding throw modify ◌>>=◌ ◌>>◌
  resume-Moves none answer s from v = v
  resume-Moves (some (task, others)) answer s (first, rest) (m, a, o, ts) =
      (run_task-Keeps env limit task answer first).kept _ (m, a, o, rest)

  take_event-Keeps : (e : SellerEvent) → ArrivesFrom limit e → Kept limit (take_event env e)
  unfolding take_event handle_command get ◌>>=◌
  take_event-Keeps (command_arrives command) from = reporting-Keeps env limit _ _ (
      then-Keeps (ensure-Keeps _ _)
        (then-Keeps (ensure-Keeps _ _) (run_body-Keeps env limit command.body from)))
  take_event-Keeps (key_arrives session product role key) from =
      reporting-Keeps env limit _ _ (accept_peer_key-Keeps env limit session product role key)
  take_event-Keeps (packet_arrives p) from =
      reporting-Keeps env limit _ _ (accept_relay_packet-Keeps env limit p)
  take_event-Keeps relay_errs from = on_channel-Keeps limit _
  take_event-Keeps storage_prepared from = modify-Keeps _ (λ s v. v)
  take_event-Keeps (task_resumes place answer) from = record {
    kept = λ s v.
        resume-Moves (take_task place s.tasks) answer s
          (take_task-TakenFrom limit place s.tasks v.3) v;
  }

  run_events-IsFrom :
      (es : List SellerEvent) (s : SellerState)
      → All (ArrivesFrom limit) es
      → IsFrom limit s
      → IsFrom limit (run_events env es s)
  unfolding run_events
  run_events-IsFrom [] s from v = v
  run_events-IsFrom (e ∷ es) s (first, rest) v =
      run_events-IsFrom es _ rest ((take_event-Keeps e first).kept s v)

  -- In every run of the seller's process whose commands set no limit under a bound, with any packets,
  -- keys, answers of the provider and of the chain, and interleaving of the tasks: a price that it
  -- agreed to is at least the bound, and so is the price of each settlement that it asks the chain for
  -- and the minimum of each answer that it still computes.
  pub run_events-AgreedFrom :
      (es : List SellerEvent)
      → All (ArrivesFrom limit) es
      → AgreedFrom limit (run_events env es new_seller).agreed_price
        × All (TaskFrom limit) (run_events env es new_seller).tasks
  unfolding new_seller
  run_events-AgreedFrom es from =
      let v = run_events-IsFrom es new_seller from (tt, tt, tt, tt) in (v.1, v.3)
