-- ===== src/Agent/Offset/Shift.antt =====
-- What the shift of prices and limits of packages/agent-core/src/index.ts keeps: everything public but
-- the price of the current offer.
use midnight_private_negotia.Common.{
  ℕ, ◌≡◌, refl, sym, ◌∙◌, inl, inr, ℤ, ◌-ℤ◌, true, Option, none, some, arith, Bool-cases,
  Option-cases, print_ℤ, ok, >>=-eq-ok, ok-injective,
}
use midnight_private_negotia.Agent.Types.{
  PartyRole, buyer, seller, PublicOffer, PublicContext, Candidate, LocalPolicy,
}
use midnight_private_negotia.Agent.Policy.{
  is_price, validate_public_context, round_after, next_offer_round, public_strategy_target,
  target_at, target_at, policy_allows,
}
use midnight_private_negotia.Agent.Policy.Laws.{
  IsPublic, IsPrice, IsOfferIfGiven, is_price_iff, validate_public_context_iff, Permits,
}
use midnight_private_negotia.Agent.Policy.Guards.{policy_allows_iff}
use midnight_private_negotia.Agent.Offset.{
  is_offset, big_int, shift_policy, shift_offer, normalize_at, parse_if_given,
  normalize_private_prices, shift_candidate, restore_private_price,
}

abbrev pub ShiftedOffer : ℤ → Option PublicOffer → Option PublicOffer → Type 0
ShiftedOffer off none none = Unit {0}
ShiftedOffer off (some o) (some o') =
    (o'.maker ≡ o.maker) × (o'.price ≡ print_ℤ (big_int o.price -ℤ off)) × IsPrice o'.price
ShiftedOffer off _ _ = ⊥

pub record Shifted (off : ℤ) (c d : PublicContext) : Type 0 where
  pub same_role : d.role ≡ c.role
  pub same_code : d.product_code ≡ c.product_code
  pub same_round : d.round ≡ c.round
  pub same_reference : d.public_reference_price ≡ c.public_reference_price
  pub offers : ShiftedOffer off c.current_offer d.current_offer

shift_offer-Shifted :
    (c d : PublicContext) (off : ℤ) (o : Option PublicOffer)
    → c.current_offer ≡ o
    → shift_offer c off o ≡ some d
    → Shifted off c d
shift_offer-Shifted c d off none e g =
    let same : d ≡ c = ground arith in
    rw same (record {
      same_role = refl;
      same_code = refl;
      same_round = refl;
      same_reference = refl;
      offers = rw e tt;
    })
shift_offer-Shifted c d off (some o) e g =
    let text = print_ℤ (big_int o.price -ℤ off) in
    elim (Bool-cases (is_price text)) [
      | inl priced ↦
          let same : d
              ≡ record c { current_offer = some (record { maker = o.maker; price = text }) } =
            ground arith in
          rw same (record {
            same_role = refl;
            same_code = refl;
            same_round = refl;
            same_reference = refl;
            offers = rw e (refl, refl, (is_price_iff text).0 priced);
          })
      | inr not_priced ↦ absurd (ground arith)
    ]

round_after-shifted :
    (role : PartyRole) (round : ℕ) (off : ℤ) (o o' : Option PublicOffer)
    → ShiftedOffer off o o'
    → round_after role round o' ≡ round_after role round o
round_after-shifted buyer round off none none v = refl
round_after-shifted buyer round off none (some o') v = absurd v
round_after-shifted buyer round off (some o) none v = absurd v
round_after-shifted buyer round off (some o) (some o') v = refl
round_after-shifted seller round off o o' v = refl

pub Shifted-next_offer_round :
    (c d : PublicContext) (off : ℤ) → Shifted off c d → next_offer_round d ≡ next_offer_round c
unfolding next_offer_round
Shifted-next_offer_round c d off v =
    (λ i. round_after (v.same_role i) (v.same_round i) d.current_offer)
    ∙ round_after-shifted c.role c.round off c.current_offer d.current_offer v.offers

-- The public target of the next offer stays.
pub Shifted-target :
    (c d : PublicContext) (off : ℤ)
    → Shifted off c d
    → public_strategy_target d ≡ public_strategy_target c
unfolding public_strategy_target
Shifted-target c d off v =
    let rounds = Shifted-next_offer_round c d off v in
    λ i. target_at (v.same_role i) (rounds i) (v.same_reference i)

offered-shifted :
    (role : PartyRole) (off : ℤ) (o o' : Option PublicOffer)
    → ShiftedOffer off o o'
    → IsOfferIfGiven role o
    → IsOfferIfGiven role o'
offered-shifted role off none none v p = tt
offered-shifted role off none (some o') v p = absurd v
offered-shifted role off (some o) none v p = absurd v
offered-shifted role off (some o) (some o') (maker, price, priced) (other, _) =
    (λ e. other (sym maker ∙ e), priced)

-- A shifted public context is public.
pub Shifted-IsPublic : (c d : PublicContext) (off : ℤ) → Shifted off c d → IsPublic c → IsPublic d
Shifted-IsPublic c d off v p = record {
  coded = rw v.same_code p.coded;
  first = rw v.same_round p.first;
  last = rw v.same_round p.last;
  referenced = rw v.same_reference p.referenced;
  offered =
      rw v.same_role
        (offered-shifted c.role off c.current_offer d.current_offer v.offers p.offered);
}

-- What the translation into normalized coordinates does when it succeeds.
pub record Normalized (c : PublicContext) (policy : LocalPolicy) (off : ℤ) (d : PublicContext)
    (shifted_policy : LocalPolicy) : Type 0 where
  pub public : IsPublic c
  pub reference : ℕ
  pub parsed : parse_if_given c.public_reference_price ≡ some reference
  pub bounded : is_offset reference off ≡ true
  pub shifted : Shifted off c d
  pub same_policy : shifted_policy ≡ shift_policy policy off

normalize_at-Normalized :
    (c d : PublicContext) (policy shifted_policy : LocalPolicy) (off : ℤ) (r : Option ℕ)
    → IsPublic c
    → parse_if_given c.public_reference_price ≡ r
    → normalize_at c policy off r ≡ some (d, shifted_policy)
    → Normalized c policy off d shifted_policy
normalize_at-Normalized c d policy shifted_policy off none v e h = absurd (ground arith)
normalize_at-Normalized c d policy shifted_policy off (some reference) v e h =
    elim (Bool-cases (is_offset reference off)) [
      | inr outside ↦ absurd (ground arith)
      | inl inside ↦ elim (Option-cases (shift_offer c off c.current_offer)) [
        | inl lost ↦ absurd (ground arith)
        | inr (d', moved) ↦
            let same : d ≡ d' = ground arith in
            record {
              public = v;
              reference = reference;
              parsed = e;
              bounded = inside;
              shifted = rw same (shift_offer-Shifted c d' off c.current_offer refl moved);
              same_policy = ground arith;
            }
      ]
    ]

pub normalize-Normalized :
    (c d : PublicContext) (policy shifted_policy : LocalPolicy) (off : ℤ)
    → normalize_private_prices c policy off ≡ ok (some (d, shifted_policy))
    → Normalized c policy off d shifted_policy
unfolding normalize_private_prices
normalize-Normalized c d policy shifted_policy off h =
    let (c', valid, t) = >>=-eq-ok (validate_public_context c) _ h in
    let (same, v) = (validate_public_context_iff c c').0 valid in
    normalize_at-Normalized c d policy shifted_policy off _ v refl (ok-injective t)

-- A restored candidate is permitted at the actual prices and the actual limit.
pub restore-Permits :
    (o : Option Candidate) (candidate : Candidate) (c : PublicContext) (policy : LocalPolicy)
    (off : ℤ)
    → restore_private_price o c policy off ≡ ok (some candidate)
    → (n : Candidate) × (o ≡ some n)
      × (candidate ≡ shift_candidate n off)
      × IsPublic c
      × Permits policy c candidate
unfolding restore_private_price
restore-Permits none candidate c policy off h = absurd (ground arith)
restore-Permits (some n) candidate c policy off h =
    let (allowed, e, t) = >>=-eq-ok (policy_allows policy c (shift_candidate n off)) _ h in
    elim (Bool-cases allowed) [
      | inl passes ↦
          let same : candidate ≡ shift_candidate n off = ground arith in
          let (v, p) = (policy_allows_iff policy c (shift_candidate n off)).0 (rw passes at e) in
          (n, refl, same, v, rw same p)
      | inr stops ↦ absurd (ground arith)
    ]
