-- ===== src/Agent/Generate/Safety.antt =====
-- What every candidate that leaves packages/agent-core/src/index.ts satisfies, for any provider.
use midnight_private_negotia.Common.{
  ℕ, zero, suc, ◌≡◌, sym, ap, ◌∙◌, inl, inr, ℤ, pos, pos_part, neg_part, ◌≤ℤ◌, ◌+ℤ◌, int_laws, true,
  Option, none, some, arith, Bool-cases, Option-cases, List, [], ◌∷◌, value, Result, ok, err,
  or_else, >>=-eq-ok, subst,
}
use midnight_private_negotia.Agent.Types.{
  PublicContext, Candidate, LocalPolicy, buyer_policy, seller_policy, AgentError,
}
use midnight_private_negotia.Agent.Price.{parse_price, parse_price-value, parse_price-print_ℤ}
use midnight_private_negotia.Agent.Policy.{
  validate_public_context, strategy_allows, public_strategy_target,
}
use midnight_private_negotia.Agent.Policy.Laws.{IsPublic, validate_public_context_iff, Permits}
use midnight_private_negotia.Agent.Policy.Guards.{strategy_allows_iff, Concession}
use midnight_private_negotia.Agent.Offset.{shift_policy, shift_candidate, normalize_private_prices}
use midnight_private_negotia.Agent.Offset.Shift.{
  Normalized, normalize-Normalized, Shifted-target, restore-Permits,
}
use midnight_private_negotia.Agent.Provider.{CandidateProvider, validate_candidates}
use midnight_private_negotia.Agent.Generate.{
  find_allowed, request_candidate, request_loop, requests_or_default, generate_normalized,
  generate_allowed_candidate,
}

find_allowed_sound :
    (policy : LocalPolicy) (c : PublicContext) (cs : List Candidate) (candidate : Candidate)
    → find_allowed policy c cs ≡ ok (some candidate)
    → strategy_allows policy c candidate ≡ ok true
unfolding find_allowed
find_allowed_sound policy c [] candidate h = absurd (ground arith)
find_allowed_sound policy c (x ∷ cs) candidate h =
    let (allowed, e, t) = >>=-eq-ok (strategy_allows policy c x) _ h in
    elim (Bool-cases allowed) [
      | inl passes ↦ let same : candidate ≡ x = ground arith in rw same (rw passes at e)
      | inr stops ↦ find_allowed_sound policy c cs candidate (ground arith)
    ]

or_else-some :
    (r : Result AgentError (Option Candidate)) (candidate : Candidate)
    → or_else r none ≡ some candidate
    → r ≡ ok (some candidate)
or_else-some (ok o) candidate h = ap ok h
or_else-some (err e) candidate h = absurd (ground arith)

module _ (provider : CandidateProvider) (policy : LocalPolicy) (c : PublicContext) where
  request_candidate_sound :
      (request : ℕ) (candidate : Candidate)
      → request_candidate provider policy c request ≡ some candidate
      → strategy_allows policy c candidate ≡ ok true
  unfolding request_candidate
  request_candidate_sound request candidate h =
      let (answer, _, t) = >>=-eq-ok (provider request c) _ (or_else-some _ candidate h) in
      let (cs, _, found) = >>=-eq-ok (validate_candidates answer) _ t in
      find_allowed_sound policy c cs candidate found

  request_loop_sound :
      (request left : ℕ) (candidate : Candidate)
      → request_loop provider policy c request left ≡ some candidate
      → strategy_allows policy c candidate ≡ ok true
  unfolding request_loop
  request_loop_sound request zero candidate h = absurd (ground arith)
  request_loop_sound request (suc left) candidate h =
      elim (Option-cases (request_candidate provider policy c request)) [
        | inl failed ↦ request_loop_sound (suc request) left candidate (ground arith)
        | inr (x, found) ↦
            let same : x ≡ candidate = ground arith in
            request_candidate_sound request candidate (found ∙ ap some same)
      ]

  generate_normalized_sound :
      (limit : Option ℕ) (candidate : Candidate)
      → generate_normalized provider limit c policy ≡ ok (some candidate)
      → strategy_allows policy c candidate ≡ ok true
  unfolding generate_normalized
  generate_normalized_sound limit candidate h =
      let (d, valid, t) = >>=-eq-ok (validate_public_context c) _ h in
      let (same, v) = (validate_public_context_iff c d).0 valid in
      let u = rw same at t in
      request_loop_sound 0 (requests_or_default limit) candidate (ground arith)

-- The public ladder price of the next offer, in actual coordinates, bounds the actual price.
abbrev pub ShiftedConcession : LocalPolicy → ℤ → ℕ → ℕ → Type 0
ShiftedConcession (buyer_policy m) off price target = pos price ≤ℤ pos target +ℤ off
ShiftedConcession (seller_policy m) off price target = pos target +ℤ off ≤ℤ pos price

shift-Concession :
    (policy policy' : LocalPolicy) (off : ℤ) (n p t : ℕ)
    → policy' ≡ shift_policy policy off
    → pos n +ℤ off ≡ pos p
    → Concession policy' n t
    → ShiftedConcession policy off p t
shift-Concession policy policy' off n p t same e h =
    by_role policy (subst (λ q. Concession q n t) same h)
  where
    by_role : (q : LocalPolicy) → Concession (shift_policy q off) n t → ShiftedConcession q off p t
    by_role (buyer_policy m) k = omega (int_laws, ap pos_part e, ap neg_part e)
    by_role (seller_policy m) k = omega (int_laws, ap pos_part e, ap neg_part e)

-- The strategy guard in normalized coordinates, read in actual ones.
pub Normalized-conceding :
    (c d : PublicContext) (policy policy' : LocalPolicy) (off : ℤ) (n candidate : Candidate)
    → Normalized c policy off d policy'
    → strategy_allows policy' d n ≡ ok true
    → candidate ≡ shift_candidate n off
    → Permits policy c candidate
    → (p : ℕ) × (t : ℕ) × (parse_price candidate.price ≡ some p)
      × (public_strategy_target c ≡ some t)
      × ShiftedConcession policy off p t
Normalized-conceding c d policy policy' off n candidate v strategy same (p, parsed, _, _, _) =
    let (_, _, (m, t, parsed_n, target, side)) = (strategy_allows_iff policy' d n).0 strategy in
    let value_n = parse_price-value n.price m parsed_n in
    let shifted = parse_price-print_ℤ (pos (value n.price) +ℤ off) p (rw same at parsed) in
    (
      p,
      t,
      parsed,
      sym (Shifted-target c d off v.shifted) ∙ target,
      shift-Concession policy policy' off m p t v.same_policy (rw value_n at shifted) side,
    )

module _ (provider : CandidateProvider) (limit : Option ℕ) (c : PublicContext)
    (policy : LocalPolicy) (off : ℤ) (candidate : Candidate)
    (produced : generate_allowed_candidate provider limit c policy off ≡ ok (some candidate)) where
  generated :
      (d : PublicContext) × (policy' : LocalPolicy) × (n : Candidate) × Normalized c policy off d
        policy'
      × (strategy_allows policy' d n ≡ ok true)
      × (candidate ≡ shift_candidate n off)
      × IsPublic c
      × Permits policy c candidate
  unfolding generate_allowed_candidate
  generated =
      let (normalized, e, t) = >>=-eq-ok (normalize_private_prices c policy off) _ produced in
      elim (Option-cases normalized) [
        | inl nothing ↦ absurd (ground arith)
        | inr ((d, policy'), same) ↦
            let v = normalize-Normalized c d policy policy' off (e ∙ ap ok same) in
            let (o, chosen, restored) =
              >>=-eq-ok (generate_normalized provider limit d policy') _ (rw same at t) in
            let (n, found, shifted, public, permits) =
              restore-Permits o candidate c policy off restored in
            (
              d,
              policy',
              n,
              v,
              generate_normalized_sound provider policy' d limit n (chosen ∙ ap ok found),
              shifted,
              public,
              permits,
            )
      ]

  -- Whatever the provider answers, a candidate that is chosen respects the private limit of the role
  -- at the actual price, is made in a public context on the role's own turn, and is an acceptance of
  -- the current offer at its price or an offer in steps of 250 KRW.
  pub generate_allowed_candidate-Permits : IsPublic c × Permits policy c candidate
  generate_allowed_candidate-Permits = let (_, _, _, _, _, _, v, p) = generated in (v, p)

  -- A chosen candidate concedes at most the public ladder price of the role's next offer, moved by
  -- the private offset, whatever the provider answers: a buyer's price is at most that, a seller's
  -- at least.
  pub generate_allowed_candidate-conceding :
      (p : ℕ) × (t : ℕ) × (parse_price candidate.price ≡ some p)
      × (public_strategy_target c ≡ some t)
      × ShiftedConcession policy off p t
  generate_allowed_candidate-conceding =
      let (d, policy', n, v, strategy, same, _, p) = generated in
      Normalized-conceding c d policy policy' off n candidate v strategy same p
