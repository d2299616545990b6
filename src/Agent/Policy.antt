-- ===== src/Agent/Policy.antt =====
-- packages/agent-core/src/index.ts: validation of the public context, and the two local guards.
pub mod Laws
pub mod Guards
use Prim.Native.Nat.{min}
use midnight_private_negotia.Common.{
  ℕ, suc, ◌+◌, ℤ, pos, leb_ℤ, Bool, true, false, not, ◌&&◌, Option, none, some, ◌==◌, leb,
  if◌then◌else◌, Text, text_eq, is_product_code, Result, ok, err, guard, ◌>>=◌, ◌>>◌,
}
use midnight_private_negotia.Agent.Types.{
  PartyRole, buyer, seller, role_eq, PublicOffer, PublicContext, Action, offer, accept, Candidate,
  LocalPolicy, buyer_policy, seller_policy, policy_role, AgentError, invalid_context,
  invalid_reference_price, invalid_offer,
}
use midnight_private_negotia.Agent.Price.{parse_price, is_offer_price_increment_valid}
use midnight_private_negotia.Agent.Ladder.{is_round, max_negotiation_rounds, public_ladder_price}

abbrev pub is_price : Text → Bool
is_price text = elim (parse_price text) [ none ↦ false | some price ↦ true ]

abbrev pub is_price_if_given : Option Text → Bool
is_price_if_given none = true
is_price_if_given (some text) = is_price text

abbrev pub is_offer_if_given : PartyRole → Option PublicOffer → Bool
is_offer_if_given role none = true
is_offer_if_given role (some o) = not (role_eq o.maker role) && is_price o.price

-- `validatePublicContext`
unfoldable pub validate_public_context : PublicContext → Result AgentError PublicContext
validate_public_context value = do
  guard (is_product_code value.product_code && is_round value.round) invalid_context
  guard (is_price_if_given value.public_reference_price) invalid_reference_price
  guard (is_offer_if_given value.role value.current_offer) invalid_offer
  ok value

-- An acceptance repeats the current offer; an offer is a multiple of 250 KRW.
abbrev pub is_action_allowed : Action → Text → Option PublicOffer → Bool
is_action_allowed accept price none = false
is_action_allowed accept price (some o) = text_eq price o.price
is_action_allowed offer price current = is_offer_price_increment_valid price

abbrev pub within_limit : LocalPolicy → ℕ → Bool
within_limit (buyer_policy maximum_price) price = leb_ℤ (pos price) maximum_price
within_limit (seller_policy minimum_price) price = leb_ℤ minimum_price (pos price)

abbrev pub allows_price : LocalPolicy → PublicContext → Candidate → Option ℕ → Bool
allows_price policy context candidate none = false
allows_price policy context candidate (some price) =
    role_eq context.role (policy_role policy)
    && is_action_allowed candidate.action candidate.price context.current_offer
    && within_limit policy price

-- `policyAllows` on a context that is valid.
unfoldable pub policy_allows_valid : LocalPolicy → PublicContext → Candidate → Bool
policy_allows_valid policy context candidate =
    allows_price policy context candidate (parse_price candidate.price)

-- `policyAllows`
unfoldable pub policy_allows : LocalPolicy → PublicContext → Candidate → Result AgentError Bool
policy_allows policy raw_context candidate = do
  context ← validate_public_context raw_context
  ok (policy_allows_valid policy context candidate)

abbrev pub round_after : PartyRole → ℕ → Option PublicOffer → ℕ
round_after buyer round none = round
round_after buyer round (some o) = round + 1
round_after seller round current = round

-- `nextOfferRound`
unfoldable pub next_offer_round : PublicContext → ℕ
next_offer_round context = round_after context.role context.round context.current_offer

abbrev pub target_at : PartyRole → ℕ → Option Text → Option ℕ
target_at role round none = none
target_at role round (some reference_price) =
    public_ladder_price role reference_price (min round max_negotiation_rounds)

-- `publicStrategyTarget`
unfoldable pub public_strategy_target : PublicContext → Option ℕ
unfolding next_offer_round
public_strategy_target context =
    target_at context.role (next_offer_round context) context.public_reference_price

abbrev pub meets_target : LocalPolicy → Option ℕ → Option ℕ → Bool
meets_target (buyer_policy m) (some price) (some target) = leb price target
meets_target (seller_policy m) (some price) (some target) = leb target price
meets_target policy _ _ = false

-- `strategyAllows` on a context that is valid.
unfoldable pub strategy_allows_valid : LocalPolicy → PublicContext → Candidate → Bool
strategy_allows_valid policy context candidate =
    policy_allows_valid policy context candidate
    && meets_target policy (parse_price candidate.price) (public_strategy_target context)

-- `strategyAllows`. The context that `policyAllows` validates again is the validated one.
unfoldable pub strategy_allows : LocalPolicy → PublicContext → Candidate → Result AgentError Bool
strategy_allows policy raw_context candidate = do
  context ← validate_public_context raw_context
  allowed ← policy_allows policy context candidate
  ok (allowed && meets_target policy (parse_price candidate.price) (public_strategy_target context))
