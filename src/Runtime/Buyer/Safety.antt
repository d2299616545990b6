-- ===== src/Runtime/Buyer/Safety.antt =====
-- packages/buyer-runtime/src/index.ts: whatever arrives, the buyer settles within its limits, and
-- tells a session's outcome once for each time it joins it.
use midnight_private_negotia.Common.{
  Text, ℕ, zero, suc, ◌+◌, ◌≤◌, Option, none, some, List, [], ◌∷◌, arith, All,
}
use midnight_private_negotia.Runtime.Action.{◌>>=◌, ◌>>◌, get, modify, throw, Moves, modify-Keeps}
use midnight_private_negotia.Runtime.Channel.{Environment}
use midnight_private_negotia.Runtime.Silence.{outcomes, tellings}
use midnight_private_negotia.Runtime.Buyer.{BuyerTask, Answer, BuyerState, new_buyer}
use midnight_private_negotia.Runtime.Buyer.Run.{
  BuyerEvent, command_arrives, key_arrives, packet_arrives, relay_errs, storage_prepared,
  task_resumes, kept_task, take_task, resume, take_event, run_events,
}
use midnight_private_negotia.Runtime.Buyer.Limits.{
  OutcomeWithin, TaskWithin, Joins, tellings_of, IsWithin, report-Keeps,
}
use midnight_private_negotia.Runtime.Buyer.Replies.{
  reporting-Keeps, accept_peer_key-Keeps, accept_relay_packet-Keeps, run_task-Keeps,
}
use midnight_private_negotia.Runtime.Buyer.Commands.{
  SetsWithin, limits, limits-SetsWithin, joined_by_event, joins, known_after, handle_command-Moves,
}

-- The task that is taken, and the others, are among those that waited.
abbrev TakenWithin : ℕ → Option (BuyerTask × List BuyerTask) → Type 0
TakenWithin limit none = Unit
TakenWithin limit (some (task, others)) = TaskWithin limit task × All (TaskWithin limit) others

kept_task-TakenWithin :
    (limit : ℕ) (task : BuyerTask) (taken : Option (BuyerTask × List BuyerTask))
    → TaskWithin limit task
    → TakenWithin limit taken
    → TakenWithin limit (kept_task task taken)
kept_task-TakenWithin limit task none first rest = tt
kept_task-TakenWithin limit task (some (t, others)) first (of_taken, rest) =
    (of_taken, (first, rest))

take_task-TakenWithin :
    (limit place : ℕ) (tasks : List BuyerTask)
    → All (TaskWithin limit) tasks
    → TakenWithin limit (take_task place tasks)
take_task-TakenWithin limit place [] within = tt
take_task-TakenWithin limit zero (t ∷ ts) within = within
take_task-TakenWithin limit (suc place) (t ∷ ts) (first, rest) =
    kept_task-TakenWithin limit t (take_task place ts) first
      (take_task-TakenWithin limit place ts rest)

abbrev pub known_after_event : BuyerEvent → ℕ → ℕ
known_after_event (command_arrives command) m = known_after command.body m
known_after_event _ m = m

-- A number of a packet that was accepted in the room, if the room stays, and otherwise zero.
abbrev pub known_after_events : List BuyerEvent → ℕ → ℕ
known_after_events [] m = m
known_after_events (e ∷ es) m = known_after_events es (known_after_event e m)

abbrev after_event : BuyerEvent → Joins → Joins
after_event e (x, n, m) = (x, joined_by_event x e n, known_after_event e m)

module _ (env : Environment) (limit : ℕ) where
  resume-Moves :
      (sessions : Joins) (taken : Option (BuyerTask × List BuyerTask)) (answer : Answer)
      → TakenWithin limit taken
      → Moves (IsWithin limit sessions) (IsWithin limit sessions) (resume env taken answer)
  unfolding throw modify ◌>>=◌ ◌>>◌
  resume-Moves sessions none answer within s v = v
  resume-Moves sessions (some (task, others)) answer (first, rest) s (n, os, m, o, ts) =
      (run_task-Keeps env limit sessions task answer first).kept _ (n, os, m, o, rest)

  take_event-Moves :
      (sessions : Joins) (e : BuyerEvent)
      → SetsWithin limit e
      → Moves (IsWithin limit sessions) (IsWithin limit (after_event e sessions)) (take_event env e)
  unfolding take_event get ◌>>=◌
  take_event-Moves sessions (command_arrives command) within =
      handle_command-Moves env limit sessions command within
  take_event-Moves sessions (key_arrives session product role key) within =
      (reporting-Keeps env limit sessions _ _
        (accept_peer_key-Keeps env limit sessions session product role key)).kept
  take_event-Moves sessions (packet_arrives p) within =
      (reporting-Keeps env limit sessions _ _ (accept_relay_packet-Keeps env limit sessions p)).kept
  take_event-Moves sessions relay_errs within = (report-Keeps env limit sessions _).kept
  take_event-Moves sessions storage_prepared within = (modify-Keeps _ (λ s v. v)).kept
  take_event-Moves sessions (task_resumes place answer) within = λ s v.
      resume-Moves sessions (take_task place s.tasks) answer
        (take_task-TakenWithin limit place s.tasks v.4) s v

  pub run_events-IsWithin :
      (es : List BuyerEvent) (sessions : Joins) (s : BuyerState)
      → All (SetsWithin limit) es
      → IsWithin limit sessions s
      → IsWithin limit
          (sessions.0, joins sessions.0 es sessions.1, known_after_events es sessions.2)
          (run_events env es s)
  unfolding run_events
  run_events-IsWithin [] sessions s within v = v
  run_events-IsWithin (e ∷ es) sessions s (first, rest) v =
      run_events-IsWithin es (after_event e sessions) _ rest (take_event-Moves sessions e first s v)

  -- In every run of the buyer's process whose commands set no limit over a bound, with any packets,
  -- keys, answers of the provider and of the chain, and interleaving of the tasks: each outcome that
  -- it tells the controller is a cancellation or a settlement at a price of at most the bound.
  pub run_events-OutcomeWithin :
      (es : List BuyerEvent)
      → All (SetsWithin limit) es
      → All (OutcomeWithin limit) (outcomes (run_events env es new_buyer).channel.outbox)
  unfolding new_buyer
  run_events-OutcomeWithin es within =
      (run_events-IsWithin es ([], 0, 0) new_buyer within
        ((omega arith, omega arith), tt, tt, tt, tt)).1

-- In every run of the buyer's process, with any events in any order, the outcomes of a session that
-- it tells the controller are at most as many as the commands to join that session: at most one for a
-- session that is joined once.
pub run_events-once :
    (env : Environment) (es : List BuyerEvent) (session : Text)
    → tellings_of session (tellings (run_events env es new_buyer).channel.outbox)
      ≤ joins session es 0
unfolding new_buyer
run_events-once env es session =
    let v =
      run_events-IsWithin env (0 + limits es) es (session, 0, 0) new_buyer (limits-SetsWithin es 0)
        ((omega arith, omega arith), tt, tt, tt, tt) in
    omega (arith, v.0.0)
