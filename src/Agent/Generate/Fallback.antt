-- ===== src/Agent/Generate/Fallback.antt =====
-- The local fallback of packages/agent-core/src/index.ts: the same guards, and prices that come from
-- the public ladder and the offset alone.
use midnight_private_negotia.Common.{
  ℕ, ◌≡◌, refl, sym, ap, ◌∙◌, inl, inr, ℤ, pos, ◌+ℤ◌, true, Option, none, some, arith, Bool-cases,
  Option-cases, print, print_ℤ, value, value-print, ok, >>=-eq-ok,
}
use midnight_private_negotia.Agent.Types.{
  PartyRole, buyer, seller, role_eq, PublicOffer, PublicContext, offer, accept, Candidate,
  LocalPolicy, policy_role,
}
use midnight_private_negotia.Agent.Price.{parse_price}
use midnight_private_negotia.Agent.Policy.{
  validate_public_context, strategy_allows, next_offer_round, public_strategy_target,
}
use midnight_private_negotia.Agent.Policy.Laws.{IsPublic, validate_public_context_iff, Permits}
use midnight_private_negotia.Agent.Offset.{shift_candidate, normalize_private_prices}
use midnight_private_negotia.Agent.Offset.Shift.{
  Normalized, normalize-Normalized, Shifted-next_offer_round, restore-Permits, Shifted,
}
use midnight_private_negotia.Agent.Generate.{
  offer_at, ladder_at, fallback_offer, fallback_at, fallback_normalized,
  generate_local_fallback_candidate,
}
use midnight_private_negotia.Agent.Generate.Safety.{ShiftedConcession, Normalized-conceding}

-- The form of an offer on the ladder of a context.
abbrev FromLadder : PublicContext → Candidate → Option ℕ → Type 0
FromLadder c candidate rung = (price : ℕ) × (rung ≡ some price) × (candidate.price ≡ print price)

offer_at_sound :
    (c : PublicContext) (policy : LocalPolicy) (rung : Option ℕ) (candidate : Candidate)
    → offer_at c policy rung ≡ ok (some candidate)
    → (strategy_allows policy c candidate ≡ ok true)
      × (candidate.action ≡ offer)
      × FromLadder c candidate rung
offer_at_sound c policy none candidate h = absurd (ground arith)
offer_at_sound c policy (some price) candidate h =
    let (allowed, e, t) = >>=-eq-ok (strategy_allows policy c _) _ h in
    elim (Bool-cases allowed) [
      | inl passes ↦
          let same : candidate ≡ record { action = offer; price = print price } = ground arith in
          (
            rw same (rw passes at e),
            ap (λ (k : Candidate). k.action) same,
            (price, refl, ap (λ (k : Candidate). k.price) same),
          )
      | inr stops ↦ absurd (ground arith)
    ]

-- The rung that the fallback would offer.
abbrev pub next_rung : PublicContext → Option ℕ
next_rung c = ladder_at c.role (next_offer_round c) c.public_reference_price

abbrev FromFallback : PublicContext → LocalPolicy → Candidate → Type 0
FromFallback c policy candidate =
    (strategy_allows policy c candidate ≡ ok true)
    × (candidate.action ≡ offer → FromLadder c candidate (next_rung c))

fallback_offer_sound :
    (c : PublicContext) (policy : LocalPolicy) (candidate : Candidate)
    → fallback_offer c policy ≡ ok (some candidate)
    → FromFallback c policy candidate
unfolding fallback_offer
fallback_offer_sound c policy candidate h =
    let (s, _, l) = offer_at_sound c policy _ candidate h in (s, λ _. l)

fallback_at_sound :
    (c : PublicContext) (policy : LocalPolicy) (o : Option PublicOffer) (role : PartyRole)
    (candidate : Candidate)
    → fallback_at c policy o role ≡ ok (some candidate)
    → FromFallback c policy candidate
fallback_at_sound c policy none seller candidate h = absurd (ground arith)
fallback_at_sound c policy none buyer candidate h = fallback_offer_sound c policy candidate h
fallback_at_sound c policy (some o) role candidate h =
    let (allowed, e, t) = >>=-eq-ok (strategy_allows policy c _) _ h in
    elim (Bool-cases allowed) [
      | inl passes ↦
          let same : candidate ≡ record { action = accept; price = o.price } = ground arith in
          let kind = ap (λ (k : Candidate). k.action) same in
          (rw same (rw passes at e), λ k. absurd (ground arith))
      | inr stops ↦ fallback_offer_sound c policy candidate (ground arith)
    ]

fallback_normalized_sound :
    (c : PublicContext) (policy : LocalPolicy) (candidate : Candidate)
    → fallback_normalized c policy ≡ ok (some candidate)
    → FromFallback c policy candidate
unfolding fallback_normalized
fallback_normalized_sound c policy candidate h =
    let (d, valid, t) = >>=-eq-ok (validate_public_context c) _ h in
    let (same, v) = (validate_public_context_iff c d).0 valid in
    let u = rw same at t in
    elim (Bool-cases (role_eq c.role (policy_role policy))) [
      | inl own ↦
          fallback_at_sound c policy c.current_offer (policy_role policy) candidate (ground arith)
      | inr other ↦ absurd (ground arith)
    ]

next_rung-Shifted : (c d : PublicContext) (off : ℤ) → Shifted off c d → next_rung c ≡ next_rung d
next_rung-Shifted c d off v =
    let rounds = Shifted-next_offer_round c d off v in
    sym (λ i. ladder_at (v.same_role i) (rounds i) (v.same_reference i))

module _ (c : PublicContext) (policy : LocalPolicy) (off : ℤ) (candidate : Candidate)
    (produced : generate_local_fallback_candidate c policy off ≡ ok (some candidate)) where
  fallen_back :
      (d : PublicContext) × (policy' : LocalPolicy) × (n : Candidate) × Normalized c policy off d
        policy'
      × FromFallback d policy' n
      × (candidate ≡ shift_candidate n off)
      × IsPublic c
      × Permits policy c candidate
  unfolding generate_local_fallback_candidate
  fallen_back =
      let (normalized, e, t) = >>=-eq-ok (normalize_private_prices c policy off) _ produced in
      elim (Option-cases normalized) [
        | inl nothing ↦ absurd (ground arith)
        | inr ((d, policy'), same) ↦
            let v = normalize-Normalized c d policy policy' off (e ∙ ap ok same) in
            let (o, chosen, restored) =
              >>=-eq-ok (fallback_normalized d policy') _ (rw same at t) in
            let (n, found, shifted, public, permits) =
              restore-Permits o candidate c policy off restored in
            (
              d,
              policy',
              n,
              v,
              fallback_normalized_sound d policy' n (chosen ∙ ap ok found),
              shifted,
              public,
              permits,
            )
      ]

  -- A candidate of the fallback respects the private limit of the role at the actual price, is made on
  -- the role's own turn, accepts only the current offer at its price or offers in steps of 250 KRW,
  -- and concedes at most the public ladder price of the role's next offer, moved by the offset.
  pub fallback-Permits :
      IsPublic c
      × Permits policy c candidate
      × ((p : ℕ) × (t : ℕ) × (parse_price candidate.price ≡ some p)
          × (public_strategy_target c ≡ some t)
          × ShiftedConcession policy off p t)
  fallback-Permits =
      let (d, policy', n, v, (strategy, _), same, public, p) = fallen_back in
      (public, p, Normalized-conceding c d policy policy' off n candidate v strategy same p)

  -- An offer of the fallback is the public ladder price of the next round plus the private offset:
  -- the limit decides only whether it is sent, never its price.
  pub fallback-offer_price :
      candidate.action ≡ offer
      → (rung : ℕ) × (next_rung c ≡ some rung) × (candidate.price ≡ print_ℤ (pos rung +ℤ off))
  fallback-offer_price kind =
      let (d, policy', n, v, (_, ladder), same, _, _) = fallen_back in
      let action : n.action ≡ candidate.action = ap (λ (k : Candidate). k.action) (sym same) in
      let (rung, on_rung, text) = ladder (action ∙ kind) in
      (
        rung,
        (next_rung-Shifted c d off v.shifted ∙ on_rung),
        ap (λ (k : Candidate). k.price) same
            ∙ ap (λ s. print_ℤ (pos (value s) +ℤ off)) text
            ∙ ap (λ m. print_ℤ (pos m +ℤ off)) (value-print rung),
      )
