-- ===== src/Controller/Starting.antt =====
-- packages/demo-controller/src/orchestrator.ts: the steps on rooms, commitments and starts keep the
-- invariant of the controller.
use midnight_private_negotia.Common.{
  ℕ, ◌≡◌, refl, Bool, true, false, Option, none, some, arith, Text,
}
use midnight_private_negotia.Agent.Types.{PartyRole}
use midnight_private_negotia.Contract.Circuits.{DealStatus}
use midnight_private_negotia.Protocol.Types.{DemoState, observer}
use midnight_private_negotia.Runtime.Action.{
  Action, ◌>>=◌, ◌>>◌, get, modify, done, bind-Keeps, then-Keeps, get-Keeps, modify-Keeps,
  done-Keeps,
}
use midnight_private_negotia.Controller.State.{
  has, ByParty, PartyRoom, Surroundings, ControllerState, draw, emit_participant_pair,
}
use midnight_private_negotia.Controller.Sessions.{
  Step, when, publish_public, configure, notify_peer, emit_notice, emit_notices, match_rooms,
  try_match_room, announce, can_start, start_session, try_start, ready_session, try_ready,
}
use midnight_private_negotia.Controller.Invariant.{
  IsSound, All-map, add_to-has, Kept, draw-Keeps, schedule-Keeps, create-Keeps, send-Keeps,
  send_both-Keeps, start_both-Moves,
}

module _ (env : Surroundings) where
  pub when-Keeps : (b : Bool) (m : Step env) → Kept env m → Kept env (when env b m)
  when-Keeps true m keeps = keeps
  when-Keeps false m keeps = done-Keeps

  pub drawn-Keeps :
      {A : Type 0} {next : ℕ → Action ControllerState A}
      → ((n : ℕ) → Kept env (next n))
      → Kept env (draw >>= next)
  drawn-Keeps rest = bind-Keeps (draw-Keeps env 0 0) rest

  pub pair-Keeps :
      (session : Text) (state : DemoState) (buyer_code seller_code : Text) (time : Option Text)
      (keys : ByParty (Option Text)) (amount : Option Text)
      → Kept env (emit_participant_pair env session state buyer_code seller_code time keys amount)
  unfolding emit_participant_pair
  pair-Keeps session state buyer_code seller_code time keys amount = drawn-Keeps (λ n.
      drawn-Keeps (λ c.
        drawn-Keeps (λ i. drawn-Keeps (λ j. then-Keeps (create-Keeps env _) (create-Keeps env _)))))

  pub publish_public-Keeps :
      (session : Text) (status : DealStatus) (code time : Text)
      → Kept env (publish_public env session status code time)
  unfolding publish_public
  publish_public-Keeps session status code time =
      get-Keeps (λ s _. when-Keeps _ _ (send-Keeps env observer _ refl))

  pub configure-Keeps : (session product : Text) → Kept env (configure env session product)
  unfolding configure
  configure-Keeps session product =
      then-Keeps (send-Keeps env observer _ refl) (modify-Keeps _ (λ s v. v))

  emit_notice-Keeps :
      (role : PartyRole) (session time correlation : Text)
      → Kept env (emit_notice env role session time correlation)
  unfolding emit_notice
  emit_notice-Keeps role session time correlation = get-Keeps (λ s _.
      when-Keeps _ (notify_peer env role session time correlation)
        (then-Keeps (modify-Keeps _ (λ t v. v)) (drawn-Keeps (λ n. create-Keeps env _))))

  pub emit_notices-Keeps :
      (session time correlation : Text) → Kept env (emit_notices env session time correlation)
  unfolding emit_notices
  emit_notices-Keeps session time correlation =
      then-Keeps (emit_notice-Keeps _ session time correlation)
        (emit_notice-Keeps _ session time correlation)

  match_rooms-Keeps :
      (b s : Option PartyRoom) (session : Text) → Kept env (match_rooms env b s session)
  match_rooms-Keeps none s session = done-Keeps
  match_rooms-Keeps (some b) none session = done-Keeps
  match_rooms-Keeps (some b) (some s) session = when-Keeps _ _ (
      then-Keeps (pair-Keeps _ _ _ _ _ _ _) (
        drawn-Keeps (λ n. drawn-Keeps (λ m. then-Keeps (emit_notice-Keeps _ _ _ _) (
          drawn-Keeps (λ i. drawn-Keeps (λ j.
            then-Keeps (emit_notice-Keeps _ _ _ _)
              (get-Keeps (λ t _. when-Keeps _ _ (configure-Keeps session b.product_code))))))))))

  pub try_match_room-Keeps : (session : Text) → Kept env (try_match_room env session)
  unfolding try_match_room
  try_match_room-Keeps session = get-Keeps (λ s _. match_rooms-Keeps _ _ session)

  pub announce-Keeps : (session : Text) → Kept env (announce env session)
  unfolding announce
  announce-Keeps session = get-Keeps (λ s _. when-Keeps _ _ (
      then-Keeps (modify-Keeps _ (λ t v. v))
        (then-Keeps (pair-Keeps _ _ _ _ _ _ _) (schedule-Keeps env _))))

  -- The tests of `#tryStartNegotiation` are what the invariant asks of a started session.
  start_when :
      (b : Bool) (session : Text) (s : ControllerState)
      → can_start env s session ≡ b
      → IsSound env.chain_mode 0 0 s
      → IsSound env.chain_mode 0 0 (when env b (start_session env session) s).1
  unfolding done ◌>>=◌ ◌>>◌ modify
  start_when false session s e v = v
  start_when true session s e ((n, distinct), f, x, y, shown) =
      let new : has session s.negotiating_sessions ≡ false = ground (arith, e) in
      start_both-Moves env _ (
        rw new (
          (((ground (arith, e), ground (arith, e), ground (arith, e)), n), (new, distinct)),
          All-map s.finished_sessions (λ x h. ground (arith, h)) f,
          omega (arith, x),
          omega (arith, y),
          shown,
        ))

  pub try_start-Keeps : (session : Text) → Kept env (try_start env session)
  unfolding try_start ◌>>=◌ get
  try_start-Keeps session = record { kept = λ s v. start_when _ session s refl v }

  ready_session-Keeps : (session : Text) → Kept env (ready_session env session)
  ready_session-Keeps session =
      then-Keeps
        (modify-Keeps _ (λ s v. (
          (
            All-map s.negotiating_sessions
                (λ x h. let (p, d, o) = h in (add_to-has x session s.peer_ready_sessions p, d, o))
                v.0.0,
            v.0.1,
          ),
          v.1,
          v.2,
          v.3,
          v.4,
        )))
        (then-Keeps (send_both-Keeps env _ refl) (
          drawn-Keeps (λ n. drawn-Keeps (λ m. then-Keeps (emit_notices-Keeps _ _ _) (
            then-Keeps (announce-Keeps session)
              (drawn-Keeps (λ i. when-Keeps _ _ (publish_public-Keeps _ _ _ _))))))))

  pub try_ready-Keeps : (session : Text) → Kept env (try_ready env session)
  unfolding try_ready
  try_ready-Keeps session = get-Keeps (λ s _. when-Keeps _ _ (ready_session-Keeps session))
