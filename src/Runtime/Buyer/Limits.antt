-- ===== src/Runtime/Buyer/Limits.antt =====
-- packages/buyer-runtime/src/index.ts: the invariant of the buyer's process that bounds what it
-- offers and settles by a limit, and how often it settles, and the actions on the chain that keep it.
use midnight_private_negotia.Runtime.Alike.{SentOffer}
use midnight_private_negotia.Common.{
  [], ◌∷◌, if◌then◌else◌, text_eq, ℕ, ◌+◌, ◌≡◌, ◌≤◌, refl, sym, subst, Bool, true, false, Option,
  none, some, List, All, Text,
}
use midnight_private_negotia.Agent.Price.{parse_price}
use midnight_private_negotia.Agent.Types.{buyer}
use midnight_private_negotia.Runtime.Payload.{NegotiationPayload}
use midnight_private_negotia.Contract.Circuits.{DealStatus}
use midnight_private_negotia.Evidence.Store.{SessionRecord}
use midnight_private_negotia.Protocol.Types.{DemoState, Outcome, settled_at, cancelled_deal}
use midnight_private_negotia.Runtime.Action.{
  Action, Keeps, bind-Keeps, then-Keeps, get-Keeps, required-Keeps, ensure-Keeps, modify-Keeps,
  done-Keeps,
}
use midnight_private_negotia.Runtime.Channel.{Environment, Channel, post, emit, report, relay}
use midnight_private_negotia.Runtime.Silence.{
  Said, said_by, Sent, emit-Sent, report-Sent, relay-Sent,
}
use midnight_private_negotia.Runtime.Buyer.{BuyerTask, generates, BuyerState, on_channel, await}
use midnight_private_negotia.Runtime.Buyer.Chain.{
  send_chain_state, flush_to, flush_contract_ready, deploy_for_session, deploy_on_chain,
  deployed_when, deployed_on_chain, await_when, authorized_on_chain, cancelled_on_chain, follow_up,
}

-- A price in KRW that is at most a limit.
abbrev pub PriceWithin : ℕ → Text → Type 0
PriceWithin limit t = (price : ℕ) × (parse_price t ≡ some price) × (price ≤ limit)

abbrev pub OutcomeWithin : ℕ → Outcome → Type 0
OutcomeWithin limit (settled_at t) = PriceWithin limit t
OutcomeWithin limit cancelled_deal = Unit

abbrev pub MaximumWithin : ℕ → Option ℕ → Type 0
MaximumWithin limit none = Unit
MaximumWithin limit (some maximum) = maximum ≤ limit

-- The last sent offer is of one of the ten rounds.
abbrev pub OfferWithin : ℕ → Option SentOffer → Type 0
OfferWithin limit none = Unit
OfferWithin limit (some sent) = (sent.round ≤ 10) × PriceWithin limit sent.price

abbrev pub TaskWithin : ℕ → BuyerTask → Type 0
TaskWithin limit (generates context maximum price_offset) = maximum ≤ limit
TaskWithin limit _ = Unit

-- How many outcomes were told of a session
abbrev pub tellings_of : Text → List Text → ℕ
tellings_of x [] = 0
tellings_of x (y ∷ ys) = (if text_eq x y then 1 else 0) + tellings_of x ys

-- One where the session is the present one, and its outcome was not told.
abbrev pub untold : Text → Option Text → Bool → ℕ
untold x none finished = 0
untold x (some session) true = 0
untold x (some session) false = if text_eq x session then 1 else 0

-- A session, how often it was joined, and a number of a packet that was accepted in the present room
abbrev pub Joins : Type 0
Joins = Text × ℕ × ℕ

abbrev pub Counted : Joins → Said → Bool → Type 0
Counted sessions said finished =
    (tellings_of sessions.0 said.told_to + untold sessions.0 said.session finished ≤ sessions.1)
    × (sessions.2 ≤ said.received)

-- A session is told at most one outcome for each time it was joined, packets up to a number were
-- received; and all that the process offers,
-- settles or still computes with is within the limit.
abbrev pub Within : ℕ → Joins → Said → Bool → Option ℕ → Option SentOffer → List BuyerTask → Type 0
Within limit sessions said finished maximum sent tasks =
    Counted sessions said finished
    × All (OutcomeWithin limit) said.results
    × MaximumWithin limit maximum
    × OfferWithin limit sent
    × All (TaskWithin limit) tasks

abbrev pub IsWithin : ℕ → Joins → BuyerState → Type 0
IsWithin limit sessions s =
    Within limit sessions (said_by s.channel) s.negotiation_finished s.buyer_max_price
      s.last_sent_offer s.tasks

module _ (limit : ℕ) (sessions : Joins) where
  pub on_channel-Keeps :
      {A : Type 0} (m : Action Channel A)
      → ((os : Said) → Keeps (Sent os) m)
      → Keeps (IsWithin limit sessions) (on_channel m)
  unfolding on_channel
  on_channel-Keeps m silent = record {
    kept = λ s v.
        subst
          (λ os.
            Within limit sessions os s.negotiation_finished s.buyer_max_price s.last_sent_offer
              s.tasks)
          (sym ((silent (said_by s.channel)).kept s.channel refl)) v;
  }

module _ (env : Environment) (limit : ℕ) (sessions : Joins) where
  abbrev pub Kept : {A : Type 0} → Action BuyerState A → Type 0
  Kept m = Keeps (IsWithin limit sessions) m

  pub emit-Keeps :
      (state : DemoState) (code : Text) (key : Option Text)
      → Kept (on_channel (emit env buyer state code key))
  emit-Keeps state code key =
      on_channel-Keeps limit sessions _ (λ os. emit-Sent env buyer os state code key)

  pub report-Keeps : (code : Text) → Kept (on_channel (report env buyer code))
  report-Keeps code = on_channel-Keeps limit sessions _ (λ os. report-Sent env buyer os code)

  pub relay-Keeps : (payload : NegotiationPayload) → Kept (on_channel (relay env buyer payload))
  relay-Keeps payload = on_channel-Keeps limit sessions _ (λ os. relay-Sent env buyer os payload)

  pub await-Keeps : (task : BuyerTask) → TaskWithin limit task → Kept (await task)
  unfolding await
  await-Keeps task within =
      modify-Keeps _ (λ s v. let (n, os, m, o, ts) = v in (n, os, m, o, (within, ts)))

  pub send_chain_state-Keeps : (status : DealStatus) → Kept (send_chain_state env status)
  unfolding post
  send_chain_state-Keeps status = get-Keeps (λ s _. bind-Keeps (required-Keeps _ _) (λ session.
      bind-Keeps (required-Keeps _ _)
        (λ address. on_channel-Keeps limit sessions _ (λ os. modify-Keeps _ (λ c v. v)))))

  pub flush_to-Keeps :
      (pending : Bool) (address : Option Text) (shared : Option (List ℕ))
      → Kept (flush_to env pending address shared)
  flush_to-Keeps false address shared = done-Keeps
  flush_to-Keeps true none shared = done-Keeps
  flush_to-Keeps true (some address) none = done-Keeps
  flush_to-Keeps true (some address) (some shared) =
      then-Keeps (relay-Keeps _) (modify-Keeps _ (λ s v. v))

  pub flush_contract_ready-Keeps : Kept (flush_contract_ready env)
  unfolding flush_contract_ready
  flush_contract_ready-Keeps = get-Keeps (λ s _. flush_to-Keeps _ _ _)

  pub deploy_for_session-Keeps :
      (b : Bool) (session : Option Text) → Kept (deploy_for_session env b session)
  deploy_for_session-Keeps false session = done-Keeps
  deploy_for_session-Keeps true none = done-Keeps
  deploy_for_session-Keeps true (some session) =
      then-Keeps (modify-Keeps _ (λ s v. v)) (await-Keeps _ tt)

  pub deploy_on_chain-Keeps : Kept (deploy_on_chain env)
  unfolding deploy_on_chain
  deploy_on_chain-Keeps = get-Keeps (λ s _. deploy_for_session-Keeps _ _)

  pub deployed_when-Keeps :
      (b : Bool) (address : Text) (r : SessionRecord) → Kept (deployed_when env b address r)
  deployed_when-Keeps false address r = done-Keeps
  deployed_when-Keeps true address r = then-Keeps (modify-Keeps _ (λ s v. v)) (
      then-Keeps (send_chain_state-Keeps _)
        (then-Keeps (modify-Keeps _ (λ s v. v)) flush_contract_ready-Keeps))

  pub deployed_on_chain-Keeps :
      (session : Text) (deployment : Text × SessionRecord)
      → Kept (deployed_on_chain env session deployment)
  deployed_on_chain-Keeps session (address, r) = get-Keeps (λ s _. deployed_when-Keeps _ _ _)

  pub await_when-Keeps :
      (b : Bool) (task : BuyerTask) → TaskWithin limit task → Kept (await_when env b task)
  await_when-Keeps false task within = done-Keeps
  await_when-Keeps true task within = await-Keeps task within

  pub authorized_on_chain-Keeps :
      (amount : Text) (confirmed : Bool) → Kept (authorized_on_chain env amount confirmed)
  authorized_on_chain-Keeps amount confirmed = get-Keeps (λ s _.
      bind-Keeps (required-Keeps _ _) (λ address. bind-Keeps (required-Keeps _ _) (λ private.
        then-Keeps (modify-Keeps _ (λ t v. v))
          (then-Keeps (ensure-Keeps _ _) (then-Keeps (send_chain_state-Keeps _) (relay-Keeps _))))))

  pub cancelled_on_chain-Keeps : (confirmed : Bool) → Kept (cancelled_on_chain env confirmed)
  cancelled_on_chain-Keeps confirmed = then-Keeps (ensure-Keeps _ _) (send_chain_state-Keeps _)

  pub follow_up-Keeps : (result : Outcome) → Kept (follow_up env result)
  follow_up-Keeps (settled_at amount) = get-Keeps (λ s _. await_when-Keeps _ _ tt)
  follow_up-Keeps cancelled_deal = get-Keeps (λ s _. await_when-Keeps _ _ tt)
