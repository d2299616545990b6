-- ===== src/Agent/Offset.antt =====
-- packages/agent-core/src/index.ts: the private price offset of a session, and the shift of prices
-- and limits by it. HKDF-SHA-256 is a parameter: the 256-bit number of each attempt.
pub mod Uniform
pub mod Shift
use midnight_private_negotia.Common.{
  ℕ, zero, suc, ◌+◌, ◌-◌, ◌*◌, ◌/◌, ◌%◌, ◌^◌, ℤ, pos, negsuc, pos_part, neg_part, sub_ℕ, ◌+ℤ◌, ◌-ℤ◌,
  leb_ℤ, Bool, true, false, not, ◌&&◌, Option, none, some, ◌==◌, leb, ltb, if◌then◌else◌, List,
  length, Text, value, print_ℤ, is_product_code, is_identifier_up_to, Result, ok, err, guard, ◌>>=◌,
  ◌>>◌,
}
use midnight_private_negotia.Agent.Types.{
  PublicOffer, PublicContext, Candidate, LocalPolicy, buyer_policy, seller_policy, AgentError,
  invalid_session_context,
}
use midnight_private_negotia.Agent.Price.{parse_price, price_increment_krw}
use midnight_private_negotia.Agent.Policy.{is_price, validate_public_context, policy_allows}

-- `maxPrivateOffset`
unfoldable pub max_private_offset : ℕ → ℕ
max_private_offset reference = (reference * 300) / 10_000

unfoldable pub offset_steps : ℕ → ℕ
unfolding max_private_offset
offset_steps reference = max_private_offset reference / price_increment_krw

unfoldable pub offset_count : ℕ → ℕ
unfolding offset_steps
offset_count reference = offset_steps reference * 2 + 1

-- The samples below the ceiling are accepted; there is a whole number of rounds of `count` of them.
unfoldable pub offset_ceiling : ℕ → ℕ
offset_ceiling count = 2 ^ 256 - (2 ^ 256) % count

-- The offset that an accepted sample stands for.
unfoldable pub offset_of_sample : ℕ → ℕ → ℤ
unfolding offset_steps offset_count
offset_of_sample reference sample =
    sub_ℕ ((sample % offset_count reference) * price_increment_krw)
      (offset_steps reference * price_increment_krw)

-- The loop of `deriveSessionPriceOffset` from an attempt on: `none` when the fuel runs out.
unfoldable pub sample_offset : (ℕ → ℕ) → ℕ → ℕ → ℕ → Option ℤ
sample_offset hkdf reference zero attempt = none
sample_offset hkdf reference (suc fuel) attempt =
    elim (ltb (hkdf attempt) (offset_ceiling (offset_count reference))) [
      | true ↦ some (offset_of_sample reference (hkdf attempt))
      | false ↦ sample_offset hkdf reference fuel (suc attempt)
    ]

pub record OffsetInput : Type 0 where
  pub shared_key : List ℕ
  pub session_id : Text
  pub product_code : Text
  pub public_reference_price : Text

-- The derived number of an attempt, as a function of the key and of the context it is bound to.
abbrev pub Hkdf : Type 0
Hkdf = OffsetInput → ℕ → ℕ

abbrev derive_at : Hkdf → ℕ → OffsetInput → Option ℕ → Result AgentError (Option ℤ)
derive_at hkdf fuel input none = err invalid_session_context
derive_at hkdf fuel input (some reference) =
    if length input.shared_key == 32
      && is_identifier_up_to 128 input.session_id
      && is_product_code input.product_code
    then ok (sample_offset (hkdf input) reference fuel 0)
    else err invalid_session_context

-- `deriveSessionPriceOffset`, with fuel for its loop.
unfoldable pub derive_session_price_offset : Hkdf → ℕ → OffsetInput → Result AgentError (Option ℤ)
unfolding sample_offset
derive_session_price_offset hkdf fuel input =
    derive_at hkdf fuel input (parse_price input.public_reference_price)

-- `priceOffset % 250n !== 0n`, `priceOffset < -max` and `priceOffset > max`.
unfoldable pub is_offset : ℕ → ℤ → Bool
unfolding max_private_offset
is_offset reference price_offset =
    pos_part price_offset % price_increment_krw == 0
    && neg_part price_offset % price_increment_krw == 0
    && leb (neg_part price_offset) (max_private_offset reference)
    && leb (pos_part price_offset) (max_private_offset reference)

-- `BigInt` of a text that is a numeral.
abbrev pub big_int : Text → ℤ
big_int text = pos (value text)

abbrev pub shift_policy : LocalPolicy → ℤ → LocalPolicy
shift_policy (buyer_policy maximum_price) price_offset =
    buyer_policy (maximum_price -ℤ price_offset)
shift_policy (seller_policy minimum_price) price_offset =
    seller_policy (minimum_price -ℤ price_offset)

abbrev shift_offer : PublicContext → ℤ → Option PublicOffer → Option PublicContext
shift_offer context price_offset none = some context
shift_offer context price_offset (some o) =
    let normalized_offer = print_ℤ (big_int o.price -ℤ price_offset) in
    if is_price normalized_offer
    then some (record context { current_offer = some (record o { price = normalized_offer }) })
    else none

abbrev normalize_at :
    PublicContext → LocalPolicy → ℤ → Option ℕ → Option (PublicContext × LocalPolicy)
normalize_at context policy price_offset none = none
normalize_at context policy price_offset (some reference) =
    if is_offset reference price_offset
    then elim (shift_offer context price_offset context.current_offer) [
      | none ↦ none
      | some shifted ↦ some (shifted, shift_policy policy price_offset)
    ]
    else none

abbrev pub parse_if_given : Option Text → Option ℕ
parse_if_given none = none
parse_if_given (some text) = parse_price text

-- `normalizePrivatePrices`
unfoldable pub normalize_private_prices :
    PublicContext → LocalPolicy → ℤ → Result AgentError (Option (PublicContext × LocalPolicy))
normalize_private_prices context policy price_offset = do
  valid ← validate_public_context context
  ok (normalize_at context policy price_offset (parse_if_given context.public_reference_price))

abbrev pub shift_candidate : Candidate → ℤ → Candidate
shift_candidate candidate price_offset = record candidate {
  price = print_ℤ (big_int candidate.price +ℤ price_offset);
}

-- `restorePrivatePrice`
unfoldable pub restore_private_price :
    Option Candidate → PublicContext → LocalPolicy → ℤ → Result AgentError (Option Candidate)
restore_private_price none context policy price_offset = ok none
restore_private_price (some candidate) context policy price_offset = do
  allowed ← policy_allows policy context (shift_candidate candidate price_offset)
  ok (if allowed then some (shift_candidate candidate price_offset) else none)
