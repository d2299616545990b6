-- ===== src/Runtime/Buyer/Commands.antt =====
-- packages/buyer-runtime/src/index.ts: the commands of the buyer's process keep it within the limits
-- that they set, and may end a session.
use midnight_private_negotia.Common.{
  if◌then◌else◌, text_eq, ℕ, ◌+◌, ◌≤◌, subst, Bool, true, false, Option, none, some, List, [], ◌∷◌,
  arith, All, Text, value,
}
use midnight_private_negotia.Agent.Types.{buyer}
use midnight_private_negotia.Protocol.Types.{
  RuntimeCommand, CommandBody, join_room, set_limit, configure_observer, start_runtime, peer_ready,
  chain_funded, observe_chain_state, publish_public_state, finalize_session, shutdown_runtime,
}
use midnight_private_negotia.Runtime.Action.{
  ◌>>=◌, ◌>>◌, get, modify, Moves, then-Moves, attempt-Moves, bind-Keeps, then-Keeps, get-Keeps,
  ensure-Keeps, modify-Keeps, done-Keeps, throw-Keeps,
}
use midnight_private_negotia.Runtime.Channel.{Environment, draw}
use midnight_private_negotia.Runtime.Silence.{draw-Sent, connect_relay-Sent}
use midnight_private_negotia.Runtime.Buyer.{BuyerState, on_channel}
use midnight_private_negotia.Runtime.Buyer.Handlers.{
  greet, join, lock_limit, deploy_in, start, say_stopped, shut_down,
}
use midnight_private_negotia.Runtime.Buyer.Run.{
  BuyerEvent, command_arrives, become_ready, finalize, run_body, handle_command,
}
use midnight_private_negotia.Runtime.Buyer.Limits.{
  Joins, untold, IsWithin, Kept, on_channel-Keeps, emit-Keeps, report-Keeps, await-Keeps,
  deploy_on_chain-Keeps,
}
use midnight_private_negotia.Runtime.Buyer.Replies.{reporting-Keeps, finalize_on_chain-Keeps}

-- The limit that a command sets, and zero for the others.
abbrev pub limit_of : CommandBody → ℕ
limit_of (set_limit session limit_krw) = value limit_krw
limit_of _ = 0

abbrev pub limit_in : BuyerEvent → ℕ
limit_in (command_arrives command) = limit_of command.body
limit_in _ = 0

-- No event sets a limit over a bound.
abbrev pub SetsWithin : ℕ → BuyerEvent → Type 0
SetsWithin limit e = limit_in e ≤ limit

abbrev pub limits : List BuyerEvent → ℕ
limits [] = 0
limits (e ∷ es) = limit_in e + limits es

pub limits-SetsWithin : (es : List BuyerEvent) (k : ℕ) → All (SetsWithin (k + limits es)) es
limits-SetsWithin [] k = tt
limits-SetsWithin (e ∷ es) k = (
  omega arith,
  subst (λ n. All (SetsWithin n) es) (omega arith) (limits-SetsWithin es (k + limit_in e)),
)

-- How often a session was joined, after a command
abbrev pub joined_by : Text → CommandBody → ℕ → ℕ
joined_by x (join_room session product) n = (if text_eq x session then 1 else 0) + n
joined_by x _ n = n

abbrev pub joined_by_event : Text → BuyerEvent → ℕ → ℕ
joined_by_event x (command_arrives command) n = joined_by x command.body n
joined_by_event x _ n = n

abbrev pub joins : Text → List BuyerEvent → ℕ → ℕ
joins x [] n = n
joins x (e ∷ es) n = joins x es (joined_by_event x e n)

joined_by-above : (x : Text) (body : CommandBody) (n : ℕ) → n ≤ joined_by x body n
joined_by-above x (join_room session product) n = omega arith
joined_by-above x shutdown_runtime n = omega arith
joined_by-above x (set_limit session limit_krw) n = omega arith
joined_by-above x (configure_observer session product) n = omega arith
joined_by-above x start_runtime n = omega arith
joined_by-above x (peer_ready session) n = omega arith
joined_by-above x chain_funded n = omega arith
joined_by-above x (observe_chain_state session address status) n = omega arith
joined_by-above x (publish_public_state session status code time) n = omega arith
joined_by-above x (finalize_session session) n = omega arith

-- What stays known, after a command, of the last accepted packet's number: a new room and the end of
-- the process reset it.
abbrev pub known_after : CommandBody → ℕ → ℕ
known_after (join_room session product) m = 0
known_after shutdown_runtime m = 0
known_after _ m = m

known_after-below : (body : CommandBody) (m : ℕ) → known_after body m ≤ m
known_after-below (join_room session product) m = omega arith
known_after-below shutdown_runtime m = omega arith
known_after-below (set_limit session limit_krw) m = omega arith
known_after-below (configure_observer session product) m = omega arith
known_after-below start_runtime m = omega arith
known_after-below (peer_ready session) m = omega arith
known_after-below chain_funded m = omega arith
known_after-below (observe_chain_state session address status) m = omega arith
known_after-below (publish_public_state session status code time) m = omega arith
known_after-below (finalize_session session) m = omega arith

-- What is known after a command
abbrev pub after_body : CommandBody → Joins → Joins
after_body body (x, n, m) = (x, joined_by x body n, known_after body m)

module _ (env : Environment) (limit : ℕ) (sessions : Joins) where
  more :
      (k m : ℕ)
      → sessions.1 ≤ k
      → m ≤ sessions.2
      → (s : BuyerState) → IsWithin limit sessions s
      → IsWithin limit (sessions.0, k, m) s
  more k m above below s ((n, r), os, u, o, ts) =
      ((omega (arith, n, above), omega (arith, r, below)), os, u, o, ts)

  greet-Keeps :
      (session product : Text) (n : ℕ) → Kept env limit sessions (greet env session product n)
  unfolding greet
  greet-Keeps session product n =
      then-Keeps (emit-Keeps env limit sessions _ _ _)
        (on_channel-Keeps limit sessions _ (λ os. connect_relay-Sent env buyer os _ _ _))

module _ (env : Environment) (limit : ℕ) (sessions : Joins) where
  joined-count :
      (session : Text) (sid : Option Text) (finished : Bool) (told : ℕ)
      → told + untold sessions.0 sid finished ≤ sessions.1
      → told + untold sessions.0 (some session) false
        ≤ (if text_eq sessions.0 session then 1 else 0) + sessions.1
  joined-count session sid finished told h = omega (arith, h)

  join-Moves :
      (session product : Text)
      → Moves
          (IsWithin limit sessions)
          (IsWithin limit (after_body (join_room session product) sessions))
          (join env session product)
  unfolding join on_channel draw modify ◌>>=◌ ◌>>◌
  join-Moves session product s (n, os, m, o, ts) =
      (greet-Keeps env limit (after_body (join_room session product) sessions) session product
          s.channel.draws).kept
        _
        (
          (joined-count session s.channel.session_id s.negotiation_finished _ n.0, omega arith),
          os,
          tt,
          tt,
          ts,
        )

  say_stopped-Keeps : (session : Option Text) → Kept env limit sessions (say_stopped env session)
  say_stopped-Keeps none = done-Keeps
  say_stopped-Keeps (some session) = emit-Keeps env limit sessions _ _ _

  shut_down-Moves :
      Moves
        (IsWithin limit sessions)
        (IsWithin limit (after_body shutdown_runtime sessions))
        (shut_down env)
  unfolding shut_down get modify ◌>>=◌
  shut_down-Moves s v =
      then-Moves _ _ _ _ (more env limit sessions sessions.1 0 (omega arith) (omega arith))
        (say_stopped-Keeps s.channel.session_id)
        (λ t w. let ((n, r), os, m, o, ts) = w in ((omega (arith, n), omega arith), os, tt, tt, ts))
        s v

  deploy_in-Keeps : (b : Bool) → Kept env limit sessions (deploy_in env b)
  deploy_in-Keeps false = done-Keeps
  deploy_in-Keeps true =
      reporting-Keeps env limit sessions _ _ (deploy_on_chain-Keeps env limit sessions)

  lock_limit-Keeps :
      (session limit_krw : Text)
      → value limit_krw ≤ limit
      → Kept env limit sessions (lock_limit env session limit_krw)
  unfolding lock_limit
  lock_limit-Keeps session limit_krw within = get-Keeps (λ s _. then-Keeps (ensure-Keeps _ _) (
      then-Keeps (ensure-Keeps _ _) (
        bind-Keeps drawn (λ n. bind-Keeps drawn (λ m. bind-Keeps drawn (λ k.
          then-Keeps (modify-Keeps _ (λ t v. let (c, os, _, o, ts) = v in (c, os, within, o, ts))) (
            then-Keeps (emit-Keeps env limit sessions _ _ _) (
              then-Keeps (emit-Keeps env limit sessions _ _ _) (
                then-Keeps (emit-Keeps env limit sessions _ _ _)
                  (then-Keeps (emit-Keeps env limit sessions _ _ _) (deploy_in-Keeps _)))))))))))
    where
      drawn : Kept env limit sessions (on_channel draw)
      drawn = on_channel-Keeps limit sessions draw draw-Sent

  start-Keeps : Kept env limit sessions (start env)
  unfolding start
  start-Keeps = get-Keeps (λ s _.
      then-Keeps (ensure-Keeps _ _)
        (then-Keeps (modify-Keeps _ (λ t v. v)) (await-Keeps env limit sessions _ tt)))

  become_ready-Keeps : (session : Text) → Kept env limit sessions (become_ready env session)
  become_ready-Keeps session = get-Keeps (λ s _.
      then-Keeps (ensure-Keeps _ _) (then-Keeps (ensure-Keeps _ _) (modify-Keeps _ (λ t v. v))))

  finalize-Keeps : (session : Text) → Kept env limit sessions (finalize env session)
  finalize-Keeps session = get-Keeps (λ s _.
      then-Keeps (ensure-Keeps _ _)
        (reporting-Keeps env limit sessions _ _ (finalize_on_chain-Keeps env limit sessions)))

  run_body-Moves :
      (body : CommandBody)
      → limit_of body ≤ limit
      → Moves
          (IsWithin limit sessions)
          (IsWithin limit (after_body body sessions))
          (run_body env body)
  unfolding run_body
  run_body-Moves (join_room session product) within = join-Moves session product
  run_body-Moves (set_limit session limit_krw) within =
      (lock_limit-Keeps session limit_krw within).kept
  run_body-Moves (finalize_session session) within = (finalize-Keeps session).kept
  run_body-Moves chain_funded within = done-Keeps.kept
  run_body-Moves (peer_ready session) within = (become_ready-Keeps session).kept
  run_body-Moves start_runtime within = start-Keeps.kept
  run_body-Moves shutdown_runtime within = shut_down-Moves
  run_body-Moves (configure_observer session product) within = (throw-Keeps _).kept
  run_body-Moves (observe_chain_state session address status) within = (throw-Keeps _).kept
  run_body-Moves (publish_public_state session status code time) within = (throw-Keeps _).kept

  pub handle_command-Moves :
      (command : RuntimeCommand)
      → limit_of command.body ≤ limit
      → Moves
          (IsWithin limit sessions)
          (IsWithin limit (after_body command.body sessions))
          (handle_command env command)
  unfolding handle_command
  handle_command-Moves command within =
      attempt-Moves _ _ _ _
        (then-Moves (IsWithin limit sessions) (IsWithin limit (after_body command.body sessions)) _
          _ weaken (ensure-Keeps _ _)
          (then-Moves (IsWithin limit sessions) (IsWithin limit (after_body command.body sessions))
            _ _ weaken (ensure-Keeps _ _) (run_body-Moves command.body within)))
        (report-Keeps env limit (after_body command.body sessions) _)
    where
      weaken :
          (s : BuyerState)
          → IsWithin limit sessions s
          → IsWithin limit (after_body command.body sessions) s
      weaken =
          more env limit sessions _ _ (joined_by-above sessions.0 command.body sessions.1)
            (known_after-below command.body sessions.2)
