-- ===== src/Agent/Provider.antt =====
-- packages/agent-core/src/index.ts: candidate providers. A provider is an asynchronous call to code
-- that may fail and may answer differently each time: a function of the number of the request and of
-- the public context. The deterministic mock provider is the repository's own.
use midnight_private_negotia.Common.{
  ℕ, ltb, Bool, true, false, not, ◌&&◌, ◌||◌, Option, none, some, leb, if◌then◌else◌, List, [], ◌∷◌,
  ◌++◌, length, all, Text, text_eq, print, Result, ok, err, guard, ◌>>=◌, ◌>>◌,
}
use midnight_private_negotia.Agent.Types.{
  PartyRole, seller, PublicOffer, PublicContext, Action, offer, accept, Candidate, AgentError,
  invalid_candidate_count, invalid_candidate, invalid_reference_price, no_opening_offer,
  no_public_candidate,
}
use midnight_private_negotia.Agent.Price.{parse_price, is_offer_price_increment_valid}
use midnight_private_negotia.Agent.Ladder.{max_negotiation_rounds, public_ladder_price}
use midnight_private_negotia.Agent.Policy.{is_price, next_offer_round, validate_public_context}

abbrev pub CandidateProvider : Type 0
CandidateProvider = ℕ → PublicContext → Result AgentError (List Candidate)

abbrev pub max_candidates : ℕ
max_candidates = 5

abbrev pub is_candidate_price : Action → Text → Bool
is_candidate_price accept price = is_price price
is_candidate_price offer price = is_price price && is_offer_price_increment_valid price

-- `validateCandidates`
unfoldable pub validate_candidates : List Candidate → Result AgentError (List Candidate)
validate_candidates candidates = do
  guard (leb 1 (length candidates) && leb (length candidates) max_candidates)
      invalid_candidate_count
  guard (all (λ c. is_candidate_price c.action c.price) candidates) invalid_candidate
  ok candidates

abbrev action_eq : Action → Action → Bool
action_eq offer offer = true
action_eq accept accept = true
action_eq _ _ = false

-- The keys `action:price` of two candidates are equal.
abbrev same_candidate : Candidate → Candidate → Bool
same_candidate a b = action_eq a.action b.action && text_eq a.price b.price

has_seen : List Candidate → Candidate → Bool
has_seen [] c = false
has_seen (s ∷ seen) c = same_candidate s c || has_seen seen c

unique_from : List Candidate → List Candidate → List Candidate
unique_from seen [] = []
unique_from seen (c ∷ cs) =
    let old = unique_from seen cs in
    let new = c ∷ unique_from (c ∷ seen) cs in if has_seen seen c then old else new

-- `uniqueCandidates`
unfoldable pub unique_candidates : List Candidate → List Candidate
unfolding unique_from has_seen
unique_candidates candidates = unique_from [] candidates

abbrev acceptance_of : Option PublicOffer → List Candidate
acceptance_of none = []
acceptance_of (some o) = record { action = accept; price = o.price } ∷ []

abbrev counter_of : Option ℕ → List Candidate
counter_of none = []
counter_of (some price) = record { action = offer; price = print price } ∷ []

abbrev is_opening_seller : PartyRole → Option PublicOffer → Bool
is_opening_seller seller none = true
is_opening_seller _ _ = false

abbrev reference_or : Option Text → ℕ → Result AgentError ℕ
reference_or none default_price = ok default_price
reference_or (some text) default_price = elim (parse_price text) [
  | none ↦ err invalid_reference_price
  | some price ↦ ok price
]

abbrev nonempty : List Candidate → Result AgentError (List Candidate)
nonempty [] = err no_public_candidate
nonempty (c ∷ cs) = ok (unique_candidates (c ∷ cs))

-- `generateCandidates` of `createDeterministicMockProvider`, from its parsed default price.
unfoldable pub mock_provider : ℕ → CandidateProvider
unfolding next_offer_round unique_candidates
mock_provider default_price request raw_context = do
  context ← validate_public_context raw_context
  reference_price ← reference_or context.public_reference_price default_price
  guard (not (is_opening_seller context.role context.current_offer)) no_opening_offer
  let offer_round = next_offer_round context
  let counter =
      if ltb max_negotiation_rounds offer_round
      then none
      else public_ladder_price context.role (print reference_price) offer_round
  nonempty (acceptance_of context.current_offer ++ counter_of counter)
