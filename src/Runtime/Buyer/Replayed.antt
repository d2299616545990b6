-- ===== src/Runtime/Buyer/Replayed.antt =====
-- packages/buyer-runtime/src/index.ts: once the buyer accepted a packet, it refuses every packet with
-- no higher number until it leaves the room.
use midnight_private_negotia.Common.{
  Result, All, and_iff, ◌∙◌, ℕ, ◌+◌, ◌≤◌, ◌≡◌, refl, ap, subst, Bool, true, false, not, ◌&&◌, List,
  [], ◌∷◌, arith, ltb, ok, err,
}
use midnight_private_negotia.Agent.Types.{buyer, role_eq}
use midnight_private_negotia.Relay.Server.{RelayPacket, peer_of}
use midnight_private_negotia.Protocol.Types.{
  CommandBody, join_room, set_limit, configure_observer, start_runtime, peer_ready, chain_funded,
  observe_chain_state, publish_public_state, finalize_session, shutdown_runtime,
}
use midnight_private_negotia.Runtime.Action.{
  Action, RuntimeError, Keeps, continue_with, ◌>>=◌, ◌>>◌, get, modify, required-Keeps,
  ensure-Keeps, replayed,
}
use midnight_private_negotia.Runtime.Payload.{NegotiationPayload}
use midnight_private_negotia.Runtime.Channel.{Environment, Channel, same_text}
use midnight_private_negotia.Runtime.Silence.{opened_packet-Sent}
use midnight_private_negotia.Runtime.Replay.{is_current, not_current-refused}
use midnight_private_negotia.Runtime.Buyer.{BuyerState, new_buyer}
use midnight_private_negotia.Runtime.Buyer.Handlers.{accept_relay_packet, accept_payload}
use midnight_private_negotia.Runtime.Buyer.Run.{
  BuyerEvent, command_arrives, key_arrives, packet_arrives, relay_errs, storage_prepared,
  task_resumes, run_events,
}
use midnight_private_negotia.Runtime.Buyer.Limits.{Joins, IsWithin, on_channel-Keeps}
use midnight_private_negotia.Runtime.Buyer.Replies.{accept_payload-Keeps}
use midnight_private_negotia.Runtime.Buyer.Commands.{
  limits, limits-SetsWithin, joins, known_after, SetsWithin,
}
use midnight_private_negotia.Runtime.Buyer.Safety.{run_events-IsWithin, known_after_events}

add_comm : (a b : ℕ) → a + b ≡ b + a
add_comm a b = omega arith

-- A step that leads from one invariant to another if it returns.
abbrev Ensures : {S A : Type 0} → (S → Type 0) → (S → Type 0) → Action S A → Type 0
Ensures {S} {A} P Q m = (s : S) (a : A) → P s → (m s).0 ≡ ok a → Q (m s).1

continue-Ensures :
    {S A B : Type 0} (P Q : S → Type 0) (next : A → Action S B) (x : Result RuntimeError A × S)
    → ((a : A) → Ensures P Q (next a))
    → P x.1
    → (b : B) → (continue_with next x).0 ≡ ok b
    → Q (continue_with next x).1
continue-Ensures P Q next (ok a, s) rest v b h = rest a s b v h
continue-Ensures P Q next (err e, s) rest v b h = cc

bind-Ensures :
    {S A B : Type 0} (P Q : S → Type 0) (m : Action S A) (next : A → Action S B)
    → Keeps P m
    → ((a : A) → Ensures P Q (next a))
    → Ensures P Q (m >>= next)
unfolding ◌>>=◌
bind-Ensures P Q m next first rest s b v h =
    continue-Ensures P Q next (m s) rest (first.kept s v) b h

then-Ensures :
    {S B : Type 0} (P Q : S → Type 0) (m : Action S (Unit {0})) (next : Action S B)
    → Keeps P m
    → Ensures P Q next
    → Ensures P Q (m >> next)
unfolding ◌>>◌
then-Ensures P Q m next first rest = bind-Ensures P Q m (λ _. next) first (λ _. rest)

get-Ensures :
    {S B : Type 0} (P Q : S → Type 0) (next : S → Action S B)
    → ((t : S) → Ensures P Q (next t))
    → Ensures P Q (get >>= next)
unfolding ◌>>=◌ get
get-Ensures P Q next rest s b v h = rest s s b v h

module _ (env : Environment) (limit : ℕ) (sessions : Joins) (p : RelayPacket) where
  abbrev Before : BuyerState → Type 0
  Before = IsWithin limit sessions

  abbrev After : BuyerState → Type 0
  After = IsWithin limit (sessions.0, sessions.1, p.sequence)

  stored-After :
      (payload : NegotiationPayload)
      → Ensures Before After (
          modify (λ (t : BuyerState). record t {
            channel = record (t.channel) { received_sequence = p.sequence };
          })
          >> accept_payload env payload)
  unfolding ◌>>◌ ◌>>=◌ modify
  stored-After payload s a ((n, r), os, m, o, ts) h =
      (accept_payload-Keeps env limit (sessions.0, sessions.1, p.sequence) payload).kept _
        ((n, omega arith), os, m, o, ts)

  -- The number of an accepted packet is stored.
  accepted-After : Ensures Before After (accept_relay_packet env p)
  unfolding accept_relay_packet
  accepted-After =
      bind-Ensures Before After _ _
        (on_channel-Keeps limit sessions _ (λ os. opened_packet-Sent env buyer os p))
        (λ v. bind-Ensures Before After _ _ (required-Keeps _ _) (λ payload.
          then-Ensures Before After _ _ (ensure-Keeps _ _) (
            get-Ensures Before After _
              (λ s. then-Ensures Before After _ _ (ensure-Keeps _ _) (stored-After payload)))))

-- No command enters a room or ends the process.
abbrev pub leaves_room : CommandBody → Bool
leaves_room (join_room session product) = true
leaves_room shutdown_runtime = true
leaves_room _ = false

abbrev pub stays_in_room : List BuyerEvent → Bool
stays_in_room [] = true
stays_in_room (command_arrives command ∷ es) = not (leaves_room command.body) && stays_in_room es
stays_in_room (e ∷ es) = stays_in_room es

known_after-stays :
    (body : CommandBody) (m : ℕ) → not (leaves_room body) ≡ true → known_after body m ≡ m
known_after-stays (join_room session product) m h = cc
known_after-stays shutdown_runtime m h = cc
known_after-stays (set_limit session limit_krw) m h = refl
known_after-stays (configure_observer session product) m h = refl
known_after-stays start_runtime m h = refl
known_after-stays (peer_ready session) m h = refl
known_after-stays chain_funded m h = refl
known_after-stays (observe_chain_state session address status) m h = refl
known_after-stays (publish_public_state session status code time) m h = refl
known_after-stays (finalize_session session) m h = refl

known_after_events-stays :
    (es : List BuyerEvent) (m : ℕ) → stays_in_room es ≡ true → known_after_events es m ≡ m
known_after_events-stays [] m h = refl
known_after_events-stays (command_arrives command ∷ es) m h =
    let (stays, rest) = (and_iff (not (leaves_room command.body)) (stays_in_room es)).0 h in
    ap (known_after_events es) (known_after-stays command.body m stays)
    ∙ known_after_events-stays es m rest
known_after_events-stays (key_arrives session product role key ∷ es) m h =
    known_after_events-stays es m h
known_after_events-stays (packet_arrives p ∷ es) m h = known_after_events-stays es m h
known_after_events-stays (relay_errs ∷ es) m h = known_after_events-stays es m h
known_after_events-stays (storage_prepared ∷ es) m h = known_after_events-stays es m h
known_after_events-stays (task_resumes place answer ∷ es) m h = known_after_events-stays es m h

-- A packet with no higher number is not current.
not_newer :
    (q : RelayPacket) (c : Channel)
    → q.sequence ≤ c.received_sequence
    → is_current buyer c q ≡ false
not_newer q c h =
    last (same_text c.session_id q.session_id) (same_text c.product_code q.product_code)
      (role_eq q.sender (peer_of buyer)) (role_eq q.target buyer)
      (ltb c.received_sequence q.sequence) (ground arith)
  where
    last : (a b d e f : Bool) → f ≡ false → (a && b && d && e && f) ≡ false
    last a b d e f h = ground arith

-- In every run of the buyer's process that accepts a packet, and then goes on with any events but a
-- command to join a room or to shut down, every packet with no higher number is refused, whatever its
-- contents are, and changes nothing of the state.
pub accept_relay_packet-replayed :
    (env : Environment) (es later : List BuyerEvent) (p q : RelayPacket)
    → (accept_relay_packet env p (run_events env es new_buyer)).0 ≡ ok tt
    → stays_in_room later ≡ true
    → q.sequence ≤ p.sequence
    → accept_relay_packet env q
        (run_events env later (accept_relay_packet env p (run_events env es new_buyer)).1)
      ≡ (
        err replayed,
        run_events env later (accept_relay_packet env p (run_events env es new_buyer)).1,
      )
unfolding new_buyer
accept_relay_packet-replayed env es later p q accepted stays older =
    let limit = limits es + limits later in
    let before =
      run_events-IsWithin env limit es ([], 0, 0) new_buyer first_within
        ((omega arith, omega arith), tt, tt, tt, tt) in
    let stored =
      accepted-After env limit ([], joins [] es 0, known_after_events es 0) p
        (run_events env es new_buyer) tt before accepted in
    let after =
      run_events-IsWithin env limit later ([], joins [] es 0, p.sequence)
        (accept_relay_packet env p (run_events env es new_buyer)).1
        (limits-SetsWithin later (limits es)) stored in
    let known = known_after_events-stays later p.sequence stays in
    let end : BuyerState =
      run_events env later (accept_relay_packet env p (run_events env es new_buyer)).1 in
    not_current-refused env q end
      (not_newer q (end.channel) (omega (arith, after.0.1, known, older)))
  where
    first_within : All (SetsWithin (limits es + limits later)) es
    first_within =
        subst (λ n. All (SetsWithin n) es) (add_comm (limits later) (limits es))
          (limits-SetsWithin es (limits later))
