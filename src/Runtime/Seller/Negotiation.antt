-- ===== src/Runtime/Seller/Negotiation.antt =====
-- packages/seller-runtime/src/index.ts: the seller's answers to proposals, where `agent-core` chooses
-- each move.
use midnight_private_negotia.Runtime.Alike.{candidate_of, offset_of}
use midnight_private_negotia.Common.{ℕ, ℤ, pos, Option, none, some, Text}
use midnight_private_negotia.Agent.Types.{
  Action as Move, buyer, seller, PublicContext, offer, accept, Candidate, seller_policy,
}
use midnight_private_negotia.Agent.Offset.{OffsetInput, derive_session_price_offset}
use midnight_private_negotia.Agent.Provider.{CandidateProvider}
use midnight_private_negotia.Agent.Generate.{
  generate_allowed_candidate, generate_local_fallback_candidate,
}
use midnight_private_negotia.Runtime.Action.{
  not_ready, Action, ◌>>=◌, ◌>>◌, lifted, modify, get, required, ensure,
}
use midnight_private_negotia.Runtime.Payload.{proposal, accepts, declines}
use midnight_private_negotia.Runtime.Channel.{Environment, relay}
use midnight_private_negotia.Runtime.Seller.{responds, SellerState, on_channel, await}

module _ (env : Environment) where
  abbrev pub execute_action : ℕ → Move → Text → Action SellerState (Unit {0})
  execute_action round accept price = do
    modify (λ s. record s { agreed_price = some price })
    on_channel (relay env seller (accepts round price))
  execute_action round offer price = do
    modify (λ s. record s { last_sent_offer = some (record { round = round; price = price }) })
    on_channel (relay env seller (proposal round price))

  -- `executeCandidate`
  abbrev pub execute_candidate : PublicContext → Candidate → Action SellerState (Unit {0})
  execute_candidate context candidate =
      execute_action context.round candidate.action candidate.price

  abbrev pub context_for : Text → ℕ → Text → PublicContext
  context_for product round price = record {
    role = seller;
    product_code = product;
    round = round;
    public_reference_price = some env.reference_price;
    current_offer = some (record { maker = buyer; price = price });
  }

  -- `respondToProposal` up to its `await`
  unfoldable pub respond_to_proposal : ℕ → Text → Action SellerState (Unit {0})
  respond_to_proposal round price = do
    s ← get
    session ← required s.channel.session_id not_ready
    product ← required s.channel.product_code not_ready
    minimum ← required s.seller_min_price not_ready
    shared ← required s.channel.shared_key not_ready
    ensure s.peer_ready not_ready
    let input : OffsetInput = record {
      shared_key = shared;
      session_id = session;
      product_code = product;
      public_reference_price = env.reference_price;
    }
    price_offset ← lifted (offset_of (derive_session_price_offset env.hkdf env.fuel input))
    await (responds (context_for product round price) minimum price_offset)

  abbrev pub execute_or_decline : PublicContext → Option Candidate → Action SellerState (Unit {0})
  execute_or_decline context none = on_channel (relay env seller (declines context.round))
  execute_or_decline context (some candidate) = execute_candidate context candidate

  abbrev pub or_fallback : PublicContext → ℕ → ℤ → Option Candidate → Action SellerState (Unit {0})
  or_fallback context minimum price_offset none = do
    fallback ← lifted (
        candidate_of
          (generate_local_fallback_candidate context (seller_policy (pos minimum)) price_offset))
    execute_or_decline context fallback
  or_fallback context minimum price_offset (some candidate) = execute_candidate context candidate

  -- `respondToProposal` with the provider's answers
  abbrev pub responded : PublicContext → ℕ → ℤ → CandidateProvider → Action SellerState (Unit {0})
  responded context minimum price_offset provider = do
    candidate ← lifted (
        candidate_of (
          generate_allowed_candidate provider none context (seller_policy (pos minimum))
            price_offset))
    or_fallback context minimum price_offset candidate
