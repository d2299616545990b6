-- ===== src/Runtime/Privacy/Runs.antt =====
-- packages/observer-runtime/src/index.ts: the runs of the observer's process.
use midnight_private_negotia.Common.{ℕ, refl, none, some, List, [], ◌∷◌, All, Option, inl}
use midnight_private_negotia.Protocol.Types.{RuntimeCommand}
use midnight_private_negotia.Runtime.Action.{
  get, throw, ◌>>=◌, Keeps, then-Keeps, get-Keeps, ensure-Keeps, done-Keeps,
}
use midnight_private_negotia.Runtime.Channel.{Environment}
use midnight_private_negotia.Runtime.Observer.{
  observation_at, at_observation, observer_takes, Observation, ObserverState, new_observer, poll,
  observer_command_arrives, indexer_answers, deadline_passes, ObserverEvent, command_comes,
  poll_answered, deadline_passed, run_observer_events,
}
use midnight_private_negotia.Runtime.Privacy.{
  Answers, is_reached-Reached, IsBacked, ShowsBacked, All-later, observing-Keeps,
  show_reached-Keeps, at_observation-Keeps, expire-Keeps, run_observer-Keeps,
}

-- An answer for the observation at a place
abbrev pub with_answer : Option Observation → ℕ → Answers → Answers
with_answer none status answers = answers
with_answer (some o) status answers = (o, status) ∷ answers

abbrev pub answers_at : ObserverEvent → ObserverState → Answers → Answers
answers_at (poll_answered place (some status)) s answers =
    with_answer (observation_at place s.active_observations) status answers
answers_at (poll_answered place none) s answers = answers
answers_at (command_comes command) s answers = answers
answers_at (deadline_passed place) s answers = answers

-- The answers of a run from a state, after those before it
unfoldable pub answers_of : Environment → List ObserverEvent → ObserverState → Answers → Answers
unfolding observer_command_arrives indexer_answers deadline_passes
answers_of env [] s answers = answers
answers_of env (e ∷ es) s answers =
    answers_of env es (observer_takes env e s).1 (answers_at e s answers)

module _ (env : Environment) where
  abbrev Shows : Answers → ObserverState → Type 0
  Shows = ShowsBacked env.chain_mode

  poll-Keeps :
      (status : ℕ) (answers : Answers) (o : Observation)
      → Keeps (Shows ((o, status) ∷ answers)) (poll env o (some status))
  poll-Keeps status answers o =
      show_reached-Keeps env ((o, status) ∷ answers) _ o
        (λ reached. inl (refl, is_reached-Reached o.expected_state status reached))

  command-Keeps :
      (answers : Answers) (command : RuntimeCommand)
      → Keeps (Shows answers) (observer_command_arrives env command)
  unfolding observer_command_arrives
  command-Keeps answers command = observing-Keeps env answers _ _ (
      then-Keeps (ensure-Keeps _ _)
        (then-Keeps (ensure-Keeps _ _) (run_observer-Keeps env answers command.body)))

  answered_at :
      (o : Option Observation) (status : ℕ) (answers : Answers) (s : ObserverState)
      → Shows answers s
      → Shows
          (with_answer o status answers)
          (at_observation env o (λ a. poll env a (some status)) s).1
  unfolding throw
  answered_at none status answers s v = v
  answered_at (some o) status answers s v =
      (poll-Keeps status answers o).kept s (All-later env.chain_mode (o, status) answers s.outbox v)

  unanswered-Keeps :
      (place : ℕ) (answers : Answers) → Keeps (Shows answers) (indexer_answers env place none)
  unfolding indexer_answers
  unanswered-Keeps place answers =
      get-Keeps (λ s _. at_observation-Keeps env answers _ _ (λ o. done-Keeps))

  deadline-Keeps :
      (place : ℕ) (answers : Answers) → Keeps (Shows answers) (deadline_passes env place)
  unfolding deadline_passes
  deadline-Keeps place answers =
      get-Keeps (λ s _. at_observation-Keeps env answers _ _ (λ o. expire-Keeps env answers o))

  takes-Shows :
      (e : ObserverEvent) (answers : Answers) (s : ObserverState)
      → Shows answers s
      → Shows (answers_at e s answers) (observer_takes env e s).1
  unfolding indexer_answers get ◌>>=◌
  takes-Shows (command_comes command) answers s v = (command-Keeps answers command).kept s v
  takes-Shows (poll_answered place none) answers s v = (unanswered-Keeps place answers).kept s v
  takes-Shows (poll_answered place (some status)) answers s v =
      answered_at (observation_at place s.active_observations) status answers s v
  takes-Shows (deadline_passed place) answers s v = (deadline-Keeps place answers).kept s v

  run_from :
      (es : List ObserverEvent) (answers : Answers) (s : ObserverState)
      → Shows answers s
      → Shows (answers_of env es s answers) (run_observer_events env es s)
  unfolding run_observer_events answers_of
  run_from [] answers s v = v
  run_from (e ∷ es) answers s v =
      run_from es (answers_at e s answers) (observer_takes env e s).1 (takes-Shows e answers s v)

  -- In every run of the observer's process, each message that it sends is a public event of the
  -- observer without an amount. In chain mode, an event that shows a deal as open, authorized,
  -- settled or cancelled is sent only if, before it, the indexer answered an observation that
  -- expects this very state, of the contract that the observation names, with a status that reached
  -- the state: at least the state's own number and not cancelled, or the number of cancelled. The
  -- contract may be of an earlier room.
  pub run_observer_events-IsBacked :
      (es : List ObserverEvent)
      → All
          (IsBacked env.chain_mode (answers_of env es new_observer []))
          (run_observer_events env es new_observer).outbox
  unfolding new_observer
  run_observer_events-IsBacked es = run_from es [] new_observer tt
