-- ===== src/Agent/Policy/Guards.antt =====
-- `policyAllows` and `strategyAllows` of packages/agent-core/src/index.ts decide their specification.
use midnight_private_negotia.Common.{
  ℕ, ◌≤◌, ◌≡◌, refl, sym, ap, ◌∙◌, ◌↔◌, inl, inr, true, Option, none, some, arith, and_iff,
  Option-cases, ok, >>=-eq-ok, ok-injective,
}
use midnight_private_negotia.Agent.Types.{
  PublicContext, Candidate, LocalPolicy, buyer_policy, seller_policy,
}
use midnight_private_negotia.Agent.Price.{parse_price}
use midnight_private_negotia.Agent.Policy.{
  validate_public_context, allows_price, policy_allows_valid, policy_allows, meets_target,
  strategy_allows_valid, strategy_allows, public_strategy_target,
}
use midnight_private_negotia.Agent.Policy.Laws.{
  IsPublic, validate_public_context_iff, Permits, allows_price_iff,
}

pub policy_allows_valid_iff :
    (policy : LocalPolicy) (c : PublicContext) (candidate : Candidate)
    → (policy_allows_valid policy c candidate ≡ true) ↔ Permits policy c candidate
unfolding policy_allows_valid
policy_allows_valid_iff policy c candidate = elim (Option-cases (parse_price candidate.price)) [
  | inl e ↦ (λ h. absurd (ground arith), λ (price, p, _, _, _). absurd (ground arith))
  | inr (price, e) ↦
      let (to, from) = allows_price_iff policy c candidate price e in
      (
        λ h. let (r, a, w) = to (rw (e, allows_price) at h) in (price, e, r, a, w),
        λ (price', e', r, a, w).
            let same : price' ≡ price = cc in rw e (from (r, (rw same at a), (rw same at w))),
      )
]

-- The policy guard passes a candidate exactly when the context is public and the candidate meets the
-- role's private limit, its turn, and the form of an acceptance or an offer.
pub policy_allows_iff :
    (policy : LocalPolicy) (c : PublicContext) (candidate : Candidate)
    → (policy_allows policy c candidate ≡ ok true) ↔ (IsPublic c × Permits policy c candidate)
unfolding policy_allows
policy_allows_iff policy c candidate =
    let (to, from) = policy_allows_valid_iff policy c candidate in
    (
      λ h.
          let (d, valid, t) = >>=-eq-ok (validate_public_context c) _ h in
          let (same, v) = (validate_public_context_iff c d).0 valid in
          (v, to (rw same at (ok-injective t))),
      λ (v, p). let valid = (validate_public_context_iff c c).1 (refl, v) in rw (valid, from p),
    )

-- On which side of the public target a price must lie.
abbrev pub Concession : LocalPolicy → ℕ → ℕ → Type 0
Concession (buyer_policy m) price target = price ≤ target
Concession (seller_policy m) price target = target ≤ price

abbrev pub Meets : LocalPolicy → Option ℕ → Option ℕ → Type 0
Meets policy price target =
    (p : ℕ) × (t : ℕ) × (price ≡ some p) × (target ≡ some t) × Concession policy p t

meets_target_iff :
    (policy : LocalPolicy) (price target : Option ℕ)
    → (meets_target policy price target ≡ true) ↔ Meets policy price target
meets_target_iff (buyer_policy m) none target = (λ h. cc, λ (p, t, e, f, l). cc)
meets_target_iff (buyer_policy m) (some p) none = (λ h. cc, λ (p, t, e, f, l). cc)
meets_target_iff (buyer_policy m) (some p) (some t) =
    (λ h. (p, t, refl, refl, ground arith), λ (p', t', e, f, l). ground arith)
meets_target_iff (seller_policy m) none target = (λ h. cc, λ (p, t, e, f, l). cc)
meets_target_iff (seller_policy m) (some p) none = (λ h. cc, λ (p, t, e, f, l). cc)
meets_target_iff (seller_policy m) (some p) (some t) =
    (λ h. (p, t, refl, refl, ground arith), λ (p', t', e, f, l). ground arith)

pub strategy_allows-eq-valid :
    (policy : LocalPolicy) (c : PublicContext) (candidate : Candidate)
    → IsPublic c
    → strategy_allows policy c candidate ≡ ok (strategy_allows_valid policy c candidate)
unfolding strategy_allows strategy_allows_valid policy_allows
strategy_allows-eq-valid policy c candidate v =
    let e = (validate_public_context_iff c c).1 (refl, v) in rw (e, e)

pub strategy_allows_valid_iff :
    (policy : LocalPolicy) (c : PublicContext) (candidate : Candidate)
    → (strategy_allows_valid policy c candidate ≡ true) ↔ (
        Permits policy c candidate
        × Meets policy (parse_price candidate.price) (public_strategy_target c))
unfolding strategy_allows_valid
strategy_allows_valid_iff policy c candidate =
    let (p, p') = policy_allows_valid_iff policy c candidate in
    let (m, m') =
      meets_target_iff policy (parse_price candidate.price) (public_strategy_target c) in
    let (split, join) =
      and_iff (policy_allows_valid policy c candidate)
        (meets_target policy (parse_price candidate.price) (public_strategy_target c)) in
    (λ h. (p (split h).0, m (split h).1), λ (x, y). join (p' x, m' y))

-- The strategy guard passes a candidate exactly when the context is public, the policy guard's
-- conditions hold, and the price does not go beyond the public ladder price of the role's next offer.
pub strategy_allows_iff :
    (policy : LocalPolicy) (c : PublicContext) (candidate : Candidate)
    → (strategy_allows policy c candidate ≡ ok true) ↔ (
        IsPublic c
        × Permits policy c candidate
        × Meets policy (parse_price candidate.price) (public_strategy_target c))
unfolding strategy_allows
strategy_allows_iff policy c candidate =
    let (to, from) = strategy_allows_valid_iff policy c candidate in
    (
      λ h.
          let (d, valid, t) = >>=-eq-ok (validate_public_context c) _ h in
          let (same, v) = (validate_public_context_iff c d).0 valid in
          let (p, m) =
            to (ok-injective (sym (strategy_allows-eq-valid policy c candidate v) ∙ h)) in
          (v, p, m),
      λ (v, p, m). strategy_allows-eq-valid policy c candidate v ∙ ap ok (from (p, m)),
    )
