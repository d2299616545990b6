-- ===== src/Agent/Tests.antt =====
-- Runs of packages/agent-core/src/index.ts on concrete inputs, and the theorems at such inputs.
use midnight_private_negotia.Common.{
  ℕ, ℤ, pos, ◌≡◌, refl, none, some, codes, print, print_ℤ, value_from, ok, [], ◌∷◌, ◌+ℤ◌, ◌-ℤ◌, ◌+◌,
  ◌*◌, ◌/◌, ◌%◌, ◌^◌, ◌≤◌, ◌<◌, true, arith, ltb→lt, ◌↔◌,
}
use midnight_private_negotia.Agent.Types.{
  buyer, seller, PublicContext, offer, accept, Candidate, buyer_policy, seller_policy,
}
use midnight_private_negotia.Agent.Price.{
  parse_price_iff, parse_price, is_offer_price_increment_valid,
}
use midnight_private_negotia.Agent.Policy.Laws.{IsPublic, Permits, validate_public_context_iff}
use midnight_private_negotia.Agent.Policy.Guards.{Meets, policy_allows_iff, strategy_allows_iff}
use midnight_private_negotia.Agent.Ladder.Shape.{
  OnSide, ladder_point, Concedes, public_ladder_price_shape, public_ladder_price-Concedes,
}
use midnight_private_negotia.Agent.Ladder.Meeting.{public_ladders_meet, public_ladders_apart}
use midnight_private_negotia.Agent.Generate.Safety.{
  ShiftedConcession, generate_allowed_candidate-Permits, generate_allowed_candidate-conceding,
}
use midnight_private_negotia.Agent.Generate.Fallback.{
  next_rung, fallback-Permits, fallback-offer_price,
}
use midnight_private_negotia.Agent.Offset.Uniform.{
  offset_uniform, derive_session_price_offset-IsOffset,
}
use midnight_private_negotia.Agent.Ladder.{public_ladder_price}
use midnight_private_negotia.Agent.Policy.{
  validate_public_context, policy_allows_valid, policy_allows, public_strategy_target,
  strategy_allows,
}
use midnight_private_negotia.Agent.Offset.{
  offset_ceiling, offset_count, offset_of_sample, OffsetInput, Hkdf, derive_session_price_offset,
  is_offset, normalize_private_prices, restore_private_price,
}
use midnight_private_negotia.Agent.Provider.{mock_provider, validate_candidates}
use midnight_private_negotia.Agent.Generate.{
  request_candidate, generate_allowed_candidate, generate_normalized,
  generate_local_fallback_candidate,
}

-- Everything that a run computes through.
unfoldable pub agent : Unit {0}
unfolding parse_price is_offer_price_increment_valid public_ladder_price validate_public_context
    policy_allows_valid policy_allows public_strategy_target strategy_allows is_offset
    normalize_private_prices restore_private_price mock_provider validate_candidates
    request_candidate generate_allowed_candidate generate_normalized
    generate_local_fallback_candidate print print_ℤ value_from ◌+ℤ◌ ◌-ℤ◌
agent = tt

abbrev opening : PublicContext
opening = record {
  role = buyer;
  product_code = codes "4821";
  round = 1;
  public_reference_price = some (codes "100000");
  current_offer = none;
}

abbrev answering : PublicContext
answering = record {
  role = seller;
  product_code = codes "4821";
  round = 6;
  public_reference_price = some (codes "100000");
  current_offer = some (record { maker = buyer; price = codes "101000" });
}

ladder_runs :
    (public_ladder_price buyer (codes "100000") 1 ≡ some 90000)
    × (public_ladder_price seller (codes "100000") 1 ≡ some 110000)
unfolding agent
ladder_runs = (refl, refl)

fallback_runs :
    (generate_local_fallback_candidate opening (buyer_policy (pos 110000)) (pos 1000)
      ≡ ok (some (record { action = offer; price = codes "91000" })))
    × (generate_local_fallback_candidate answering (seller_policy (pos 95000)) (pos 1000)
        ≡ ok (some (record { action = accept; price = codes "101000" })))
unfolding agent
fallback_runs = (refl, refl)

mock_runs :
    generate_allowed_candidate
      (mock_provider 100000)
      none
      answering
      (seller_policy (pos 95000))
      (pos 1000)
    ≡ ok (some (record { action = accept; price = codes "101000" }))
unfolding agent
mock_runs = refl

abbrev accepting : Candidate
accepting = record { action = accept; price = codes "101000" }

-- The same session in the coordinates without its offset.
abbrev accepting_normalized : Candidate
accepting_normalized = record { action = accept; price = codes "100000" }

abbrev answering_normalized : PublicContext
answering_normalized = record {
  role = seller;
  product_code = codes "4821";
  round = 6;
  public_reference_price = some (codes "100000");
  current_offer = some (record { maker = buyer; price = codes "100000" });
}

reference_parsed : parse_price (codes "100000") ≡ some 100000
unfolding agent
reference_parsed = refl

parse_price_iff_example :
    (parse_price (codes "101000") ≡ some 101000)
    ↔ ((codes "101000" ≡ print 101000) × (1 ≤ 101000) × (101000 ≤ 18_446_744_073_709_551_615))
parse_price_iff_example = parse_price_iff (codes "101000") 101000

validate_public_context_iff_example :
    (validate_public_context answering ≡ ok answering)
    ↔ ((answering ≡ answering) × IsPublic answering)
validate_public_context_iff_example = validate_public_context_iff answering answering

policy_allows_iff_example :
    (policy_allows (seller_policy (pos 95000)) answering accepting ≡ ok true)
    ↔ (IsPublic answering × Permits (seller_policy (pos 95000)) answering accepting)
policy_allows_iff_example = policy_allows_iff (seller_policy (pos 95000)) answering accepting

strategy_allows_iff_example :
    (strategy_allows (seller_policy (pos 94000)) answering_normalized accepting_normalized
      ≡ ok true)
    ↔ (IsPublic answering_normalized
        × Permits (seller_policy (pos 94000)) answering_normalized accepting_normalized
        × Meets
            (seller_policy (pos 94000))
            (parse_price accepting_normalized.price)
            (public_strategy_target answering_normalized))
strategy_allows_iff_example =
    strategy_allows_iff (seller_policy (pos 94000)) answering_normalized accepting_normalized

public_ladders_meet_example :
    (public_ladder_price buyer (codes "100000") 6 ≡ some 100000)
    × (public_ladder_price seller (codes "100000") 6 ≡ some 100000)
public_ladders_meet_example = public_ladders_meet (codes "100000") 100000 reference_parsed refl

fifth_round :
    (public_ladder_price buyer (codes "100000") (4 + 1) ≡ some 98000)
    × (public_ladder_price seller (codes "100000") 4 ≡ some 104000)
unfolding agent
fifth_round = (refl, refl)

public_ladders_apart_example : 98000 < 104000
public_ladders_apart_example =
    public_ladders_apart (codes "100000") 100000 reference_parsed 4 98000 104000 refl (omega arith)
      fifth_round.0 fifth_round.1

fourth_round : public_ladder_price seller (codes "100000") 4 ≡ some 104000
fourth_round = fifth_round.1

public_ladder_price_shape_example :
    (reference : ℕ) × (parse_price (codes "100000") ≡ some reference)
    × (1 ≤ 4)
    × (4 ≤ 10)
    × (104000 % 250 ≡ 0)
    × (250 ≤ 104000)
    × OnSide seller (ladder_point seller reference 4) 104000
public_ladder_price_shape_example =
    public_ladder_price_shape seller (codes "100000") 4 104000 fourth_round

public_ladder_price-Concedes_example : Concedes seller 110000 104000
public_ladder_price-Concedes_example =
    public_ladder_price-Concedes seller (codes "100000") 1 4 110000 104000 (omega arith)
      ladder_runs.1 fourth_round

generate_allowed_candidate-Permits_example :
    IsPublic answering × Permits (seller_policy (pos 95000)) answering accepting
generate_allowed_candidate-Permits_example =
    generate_allowed_candidate-Permits (mock_provider 100000) none answering
      (seller_policy (pos 95000)) (pos 1000) accepting mock_runs

generate_allowed_candidate-conceding_example :
    (p : ℕ) × (t : ℕ) × (parse_price accepting.price ≡ some p)
    × (public_strategy_target answering ≡ some t)
    × ShiftedConcession (seller_policy (pos 95000)) (pos 1000) p t
generate_allowed_candidate-conceding_example =
    generate_allowed_candidate-conceding (mock_provider 100000) none answering
      (seller_policy (pos 95000)) (pos 1000) accepting mock_runs

fallback-Permits_example :
    IsPublic answering
    × Permits (seller_policy (pos 95000)) answering accepting
    × ((p : ℕ) × (t : ℕ) × (parse_price accepting.price ≡ some p)
        × (public_strategy_target answering ≡ some t)
        × ShiftedConcession (seller_policy (pos 95000)) (pos 1000) p t)
fallback-Permits_example =
    fallback-Permits answering (seller_policy (pos 95000)) (pos 1000) accepting fallback_runs.1

abbrev first_offer : Candidate
first_offer = record { action = offer; price = codes "91000" }

fallback-offer_price_example :
    (rung : ℕ) × (next_rung opening ≡ some rung)
    × (first_offer.price ≡ print_ℤ (pos rung +ℤ pos 1000))
fallback-offer_price_example =
    fallback-offer_price opening (buyer_policy (pos 110000)) (pos 1000) first_offer fallback_runs.0
      refl

residue_small : 0 < offset_count 100000
unfolding offset_count
residue_small = omega arith

small_sample : 8 < offset_ceiling (offset_count 100000)
unfolding offset_ceiling offset_count
small_sample = ltb→lt _ _ refl

offset_uniform_example :
    ((25 < offset_ceiling (offset_count 100000))
      × (offset_of_sample 100000 25 ≡ offset_of_sample 100000 0))
    ↔ ((q : ℕ) × (q < 2 ^ 256 / offset_count 100000) × (25 ≡ q * offset_count 100000 + 0))
offset_uniform_example = offset_uniform 100000 0 25 residue_small

abbrev session : OffsetInput
session = record {
  shared_key =
      1 ∷ 2 ∷ 3 ∷ 4 ∷ 5 ∷ 6 ∷ 7 ∷ 8 ∷ 9 ∷ 10 ∷ 11 ∷ 12 ∷ 13 ∷ 14 ∷ 15 ∷ 16 ∷ 17 ∷ 18 ∷ 19 ∷ 20 ∷ 21
      ∷ 22 ∷ 23 ∷ 24 ∷ 25 ∷ 26 ∷ 27 ∷ 28 ∷ 29 ∷ 30 ∷ 31 ∷ 32 ∷ [];
  session_id = codes "session-1";
  product_code = codes "4821";
  public_reference_price = codes "100000";
}

abbrev samples : Hkdf
samples input attempt = 8 + attempt

derive_session_price_offset-IsOffset_example :
    (o : ℤ) × (derive_session_price_offset samples 256 session ≡ ok (some o))
    × (is_offset 100000 o ≡ true)
derive_session_price_offset-IsOffset_example =
    derive_session_price_offset-IsOffset samples 256 0 100000 session reference_parsed refl refl
      refl small_sample (omega arith)
