-- ===== src/Runtime/Buyer/Negotiation.antt =====
-- packages/buyer-runtime/src/index.ts: the buyer's rounds, where `agent-core` chooses each move.
use midnight_private_negotia.Runtime.Alike.{candidate_of, offset_of}
use midnight_private_negotia.Common.{
  ℕ, ◌+◌, ℤ, pos, Bool, true, false, not, ◌&&◌, Option, none, some, ltb, Text,
}
use midnight_private_negotia.Agent.Types.{
  Action as Move, buyer, seller, PublicContext, offer, accept, Candidate, buyer_policy,
}
use midnight_private_negotia.Agent.Offset.{OffsetInput, derive_session_price_offset}
use midnight_private_negotia.Agent.Provider.{CandidateProvider}
use midnight_private_negotia.Agent.Generate.{
  generate_allowed_candidate, generate_local_fallback_candidate,
}
use midnight_private_negotia.Protocol.Types.{settled_at, cancelled_deal}
use midnight_private_negotia.Runtime.Action.{
  not_ready, Action, ◌>>=◌, ◌>>◌, lifted, modify, get, required, ensure,
}
use midnight_private_negotia.Runtime.Payload.{proposal, accepts, max_rounds}
use midnight_private_negotia.Runtime.Channel.{Environment, relay}
use midnight_private_negotia.Runtime.Buyer.{generates, BuyerState, on_channel, await}
use midnight_private_negotia.Runtime.Buyer.Chain.{publish_outcome}

abbrev pub next_round : PublicContext → ℕ
next_round context = elim context.current_offer [
  | none ↦ context.round
  | some current ↦ context.round + 1
]

module _ (env : Environment) where
  -- `executeCandidate` on an offer, with whether its round is over the last one
  abbrev pub offer_round : Bool → ℕ → Text → Action BuyerState (Unit {0})
  offer_round true round price = publish_outcome env cancelled_deal
  offer_round false round price = do
    modify (λ s. record s { last_sent_offer = some (record { round = round; price = price }) })
    on_channel (relay env buyer (proposal round price))

  abbrev pub execute_action : PublicContext → Move → Text → Action BuyerState (Unit {0})
  execute_action context accept price = do
    on_channel (relay env buyer (accepts context.round price))
    publish_outcome env (settled_at price)
  execute_action context offer price =
      offer_round (ltb max_rounds (next_round context)) (next_round context) price

  -- `executeCandidate`
  abbrev pub execute_candidate : PublicContext → Candidate → Action BuyerState (Unit {0})
  execute_candidate context candidate = execute_action context candidate.action candidate.price

  -- The context of a round, with the seller's offer where there is one.
  abbrev pub context_for : Text → ℕ → Option Text → PublicContext
  context_for product round seller_price = record {
    role = buyer;
    product_code = product;
    round = round;
    public_reference_price = some env.reference_price;
    current_offer = elim seller_price [
      | none ↦ none
      | some price ↦ some (record { maker = seller; price = price })
    ];
  }

  -- `generateAndExecute` up to its `await`, with the context of the room's product.
  unfoldable pub generate_and_execute : ℕ → Option Text → Action BuyerState (Unit {0})
  unfolding derive_session_price_offset
  generate_and_execute round seller_price = do
    s ← get
    session ← required s.channel.session_id not_ready
    product ← required s.channel.product_code not_ready
    maximum ← required s.buyer_max_price not_ready
    shared ← required s.channel.shared_key not_ready
    ensure (s.peer_ready && not s.negotiation_finished) not_ready
    let input : OffsetInput = record {
      shared_key = shared;
      session_id = session;
      product_code = product;
      public_reference_price = env.reference_price;
    }
    price_offset ← lifted (offset_of (derive_session_price_offset env.hkdf env.fuel input))
    await (generates (context_for product round seller_price) maximum price_offset)

  abbrev pub execute_or_cancel : PublicContext → Option Candidate → Action BuyerState (Unit {0})
  execute_or_cancel context none = publish_outcome env cancelled_deal
  execute_or_cancel context (some candidate) = execute_candidate context candidate

  abbrev pub or_fallback : PublicContext → ℕ → ℤ → Option Candidate → Action BuyerState (Unit {0})
  or_fallback context maximum price_offset none = do
    fallback ← lifted (
        candidate_of
          (generate_local_fallback_candidate context (buyer_policy (pos maximum)) price_offset))
    execute_or_cancel context fallback
  or_fallback context maximum price_offset (some candidate) = execute_candidate context candidate

  -- `generateAndExecute` with the provider's answers
  abbrev pub generated : PublicContext → ℕ → ℤ → CandidateProvider → Action BuyerState (Unit {0})
  generated context maximum price_offset provider = do
    candidate ← lifted (
        candidate_of (
          generate_allowed_candidate provider none context (buyer_policy (pos maximum))
            price_offset))
    or_fallback context maximum price_offset candidate
