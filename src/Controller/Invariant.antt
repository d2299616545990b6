-- ===== src/Controller/Invariant.antt =====
-- packages/demo-controller/src/orchestrator.ts: the invariant of the controller.
use midnight_private_negotia.Common.{
  ℕ, suc, ◌+◌, ◌≡◌, ◌≤◌, sym, subst, Bool, true, false, not, ◌&&◌, ◌||◌, List, [], ◌∷◌, arith,
  length, All, Text, Result, ok, err, Bool-cases, inl, inr,
}
use midnight_private_negotia.Agent.Types.{PartyRole, buyer, seller}
use midnight_private_negotia.Protocol.Types.{
  Role, party, same_role, DemoEvent, RuntimeCommand, CommandBody, start_runtime,
}
use midnight_private_negotia.Protocol.Events.{
  EventError, create_demo_event, IsPrivate, check_event-IsPrivate,
}
use midnight_private_negotia.Runtime.Action.{
  Action, modify, Keeps, bind-Keeps, then-Keeps, get-Keeps, read-Keeps, Moves, then-Moves,
  bind-Moves, seq-Moves, ensure-Keeps, modify-Keeps, produced-Keeps,
}
use midnight_private_negotia.Controller.State.{
  has, add_to, Surroundings, ControllerState, draw, schedule, Timer, show, send_checked,
  command_for, send, send_both, event_of,
}

abbrev pub is_start : CommandBody → Bool
is_start start_runtime = true
is_start _ = false

-- How many `START_RUNTIME` commands were sent to a party.
abbrev pub starts : PartyRole → List RuntimeCommand → ℕ
starts role [] = 0
starts role (c ∷ cs) = elim (is_start c.body && same_role c.target (party role)) [
  | true ↦ suc (starts role cs)
  | false ↦ starts role cs
]

-- A negotiation was started only in a session whose two parties are ready, whose start was displayed
-- and, in chain mode, which the chain has as open.
abbrev pub Started : Bool → ControllerState → Text → Type 0
Started chain_mode s session =
    (has session s.peer_ready_sessions ≡ true)
    × (has session s.display_ready_sessions ≡ true)
    × ((not chain_mode || has session s.chain_open_sessions) ≡ true)

-- No session stands in a list twice.
abbrev pub Distinct : List Text → Type 0
Distinct [] = Unit
Distinct (x ∷ xs) = (has x xs ≡ false) × Distinct xs

abbrev pub StartedOnce : Bool → ControllerState → Type 0
StartedOnce chain_mode s =
    All (Started chain_mode s) s.negotiating_sessions × Distinct s.negotiating_sessions

-- Besides, the started sessions are distinct, only they are finished, each party was sent at most as
-- many starts as there are started sessions, with some starts to spare, and every event that was shown
-- is private.
abbrev pub IsSound : Bool → ℕ → ℕ → ControllerState → Type 0
IsSound chain_mode spare_buyer spare_seller s =
    StartedOnce chain_mode s
    × All (λ session. has session s.negotiating_sessions ≡ true) s.finished_sessions
    × (starts buyer s.sent + spare_buyer ≤ length s.negotiating_sessions)
    × (starts seller s.sent + spare_seller ≤ length s.negotiating_sessions)
    × All IsPrivate s.shown

pub All-map :
    {A : Type 0} {P Q : A → Type 0} (xs : List A) → ((x : A) → P x → Q x) → All P xs → All Q xs
All-map [] f ps = tt
All-map (x ∷ xs) f (p, ps) = (f x p, All-map xs f ps)

pub add_to-has : (x y : Text) (xs : List Text) → has x xs ≡ true → has x (add_to y xs) ≡ true
add_to-has x y xs h = elim (Bool-cases (has y xs)) [
  | inl e ↦ rw e h
  | inr e ↦ rw e (ground (arith, h))
]

starts-other :
    (role : PartyRole) (c : RuntimeCommand) (cs : List RuntimeCommand)
    → is_start c.body ≡ false
    → starts role (c ∷ cs) ≡ starts role cs
starts-other role c cs other = ground arith

module _ (env : Surroundings) where
  abbrev pub Kept : {A : Type 0} → Action ControllerState A → Type 0
  Kept m = Keeps (IsSound env.chain_mode 0 0) m

  abbrev pub Sparing : ℕ → ℕ → ControllerState → Type 0
  Sparing = IsSound env.chain_mode

  pub draw-Keeps : (a b : ℕ) → Keeps (Sparing a b) draw
  unfolding draw
  draw-Keeps a b = record { kept = λ s v. v }

  pub schedule-Keeps : (timer : Timer) → Kept (schedule timer)
  unfolding schedule
  schedule-Keeps timer = modify-Keeps _ (λ s v. v)

  pub event_of-ok : (r : Result EventError DemoEvent) (e : DemoEvent) → event_of r ≡ ok e → r ≡ ok e
  event_of-ok (ok a) e h = cc
  event_of-ok (err a) e h = cc

  -- An event that was checked may be shown.
  pub show-Keeps :
      (checked : Result EventError DemoEvent)
      → ((e : DemoEvent) → checked ≡ ok e → IsPrivate e)
      → Kept (show env checked)
  unfolding show
  show-Keeps checked private = produced-Keeps _ (λ e h. modify-Keeps _ (λ s v.
      let (n, f, b, t, shown) = v in (n, f, b, t, (private e (event_of-ok checked e h), shown))))

  pub create-Keeps : (e : DemoEvent) → Kept (show env (create_demo_event env.is_date e))
  unfolding create_demo_event
  create-Keeps e = show-Keeps _ (λ f h. (check_event-IsPrivate env.is_date e f h).1)

  pub weaken : (a b : ℕ) (s : ControllerState) → Sparing a b s → Sparing 0 0 s
  weaken a b s (n, f, x, y, shown) = (n, f, omega (arith, x), omega (arith, y), shown)

  -- A command that starts no negotiation changes no count.
  send_checked-Keeps :
      (command : RuntimeCommand) → is_start command.body ≡ false → Kept (send_checked env command)
  unfolding send_checked
  send_checked-Keeps command other = then-Keeps (ensure-Keeps _ _) (
      get-Keeps (λ s _. then-Keeps (ensure-Keeps _ _) (
        modify-Keeps _ (λ t v.
          let (n, f, x, y, shown) = v in
          (
            n,
            f,
            subst (λ k. k + 0 ≤ length t.negotiating_sessions)
                (sym (starts-other buyer command t.sent other)) x,
            subst (λ k. k + 0 ≤ length t.negotiating_sessions)
                (sym (starts-other seller command t.sent other)) y,
            shown,
          )))))

  pub send-Keeps :
      (target : Role) (body : CommandBody) → is_start body ≡ false → Kept (send env target body)
  unfolding send
  send-Keeps target body other =
      bind-Keeps (draw-Keeps 0 0) (λ n. send_checked-Keeps (command_for env target body n) other)

  pub send_both-Keeps : (body : CommandBody) → is_start body ≡ false → Kept (send_both env body)
  unfolding send_both
  send_both-Keeps body other = then-Keeps (send-Keeps _ body other) (send-Keeps _ body other)

  -- A start that is sent to a party uses one of those to spare.
  start_checked-Moves :
      (role : PartyRole) (a b a' b' n : ℕ)
      → ((s : ControllerState) → Sparing a b s → Sparing a' b' s)
      → ((s : ControllerState)
          → Sparing a b s
          → Sparing a' b'
              (record s { sent = command_for env (party role) start_runtime n ∷ s.sent }))
      → Moves
          (Sparing a b)
          (Sparing a' b')
          (send_checked env (command_for env (party role) start_runtime n))
  unfolding send_checked modify
  start_checked-Moves role a b a' b' n less after =
      then-Moves (Sparing a b) (Sparing a' b') _ _ less (ensure-Keeps _ _) (
        bind-Moves (Sparing a b) (Sparing a' b') _ _ less read-Keeps
          (λ s. then-Moves (Sparing a b) (Sparing a' b') _ _ less (ensure-Keeps _ _) after))

  start_sent-Moves :
      (role : PartyRole) (a b a' b' : ℕ)
      → ((s : ControllerState) → Sparing a b s → Sparing a' b' s)
      → ((n : ℕ) (s : ControllerState)
          → Sparing a b s
          → Sparing a' b'
              (record s { sent = command_for env (party role) start_runtime n ∷ s.sent }))
      → Moves (Sparing a b) (Sparing a' b') (send env (party role) start_runtime)
  unfolding send
  start_sent-Moves role a b a' b' less after =
      bind-Moves (Sparing a b) (Sparing a' b') _ _ less (draw-Keeps a b)
        (λ n. start_checked-Moves role a b a' b' n less (after n))

  pub start_both-Moves : Moves (Sparing 1 1) (Sparing 0 0) (send_both env start_runtime)
  unfolding send_both
  start_both-Moves =
      seq-Moves (Sparing 1 1) (Sparing 0 1) (Sparing 0 0) _ _ (weaken 0 1)
        (start_sent-Moves buyer 1 1 0 1
          (λ s v. let (n, f, x, y, shown) = v in (n, f, omega (arith, x), y, shown))
          (λ k s v. let (n, f, x, y, shown) = v in (n, f, omega (arith, x), y, shown)))
        (start_sent-Moves seller 0 1 0 0 (weaken 0 1)
          (λ k s v. let (n, f, x, y, shown) = v in (n, f, x, omega (arith, y), shown)))
