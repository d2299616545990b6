-- ===== src/Runtime/Seller/Limits.antt =====
-- packages/seller-runtime/src/index.ts: the invariant of the seller's process that bounds what it
-- offers, agrees to and settles by a limit, and the actions on the chain and the moves that keep it.
use midnight_private_negotia.Runtime.Alike.{SentOffer, same_offer, candidate_of-ok}
use midnight_private_negotia.Common.{
  ℕ, ◌≡◌, ◌≤◌, refl, subst, ap, ◌∙◌, ℤ, pos, Bool, true, false, Option, none, some, arith, All,
  Text, text_eq_iff, ok,
}
use midnight_private_negotia.Agent.Types.{
  Action as Move, offer, accept, PublicContext, Candidate, seller_policy,
}
use midnight_private_negotia.Agent.Provider.{CandidateProvider}
use midnight_private_negotia.Agent.Price.{parse_price}
use midnight_private_negotia.Agent.Policy.Laws.{Permits}
use midnight_private_negotia.Agent.Generate.Safety.{generate_allowed_candidate-Permits}
use midnight_private_negotia.Agent.Generate.Fallback.{fallback-Permits}
use midnight_private_negotia.Contract.Circuits.{DealStatus}
use midnight_private_negotia.Runtime.Action.{
  Action, Keeps, bind-Keeps, then-Keeps, get-Keeps, required-Keeps, ensure-Keeps, lifted-Keeps,
  modify-Keeps, done-Keeps, given-Keeps, produced-Keeps,
}
use midnight_private_negotia.Runtime.Channel.{Environment, Channel}
use midnight_private_negotia.Runtime.Seller.{
  SellerTask, responds, settles, SellerState, on_channel, await,
}
use midnight_private_negotia.Runtime.Seller.Chain.{
  send_chain_state, send_key_when, flush_seller_key, join_for, try_join_on_chain, await_when,
}
use midnight_private_negotia.Runtime.Seller.Negotiation.{
  execute_action, respond_to_proposal, execute_or_decline, or_fallback, responded,
}

-- A price in KRW that is at least a limit.
abbrev pub PriceFrom : ℕ → Text → Type 0
PriceFrom limit t = (price : ℕ) × (parse_price t ≡ some price) × (limit ≤ price)

abbrev pub MinimumFrom : ℕ → Option ℕ → Type 0
MinimumFrom limit none = Unit
MinimumFrom limit (some minimum) = limit ≤ minimum

abbrev pub AgreedFrom : ℕ → Option Text → Type 0
AgreedFrom limit none = Unit
AgreedFrom limit (some price) = PriceFrom limit price

abbrev pub OfferFrom : ℕ → Option SentOffer → Type 0
OfferFrom limit none = Unit
OfferFrom limit (some sent) = PriceFrom limit sent.price

abbrev pub TaskFrom : ℕ → SellerTask → Type 0
TaskFrom limit (responds context minimum price_offset) = limit ≤ minimum
TaskFrom limit (settles price price_randomness) = PriceFrom limit price
TaskFrom limit _ = Unit

-- All that the process agrees to, offers, settles or still computes with is from the limit on.
abbrev pub IsFrom : ℕ → SellerState → Type 0
IsFrom limit s =
    MinimumFrom limit s.seller_min_price
    × AgreedFrom limit s.agreed_price
    × OfferFrom limit s.last_sent_offer
    × All (TaskFrom limit) s.tasks

-- An accepted offer is the last sent one.
pub same_offer-PriceFrom :
    (limit : ℕ) (sent : Option SentOffer) (round : ℕ) (price : Text)
    → OfferFrom limit sent
    → same_offer sent round price ≡ true
    → PriceFrom limit price
same_offer-PriceFrom limit none round price from e = absurd (ground arith)
same_offer-PriceFrom limit (some sent) round price from e =
    subst (PriceFrom limit) ((text_eq_iff sent.price price).0 (ground arith)) from

-- What the seller's policy permits is from a limit on that is at most its minimum.
Permits-PriceFrom :
    (limit minimum : ℕ) (context : PublicContext) (candidate : Candidate)
    → limit ≤ minimum
    → Permits (seller_policy (pos minimum)) context candidate
    → PriceFrom limit candidate.price
Permits-PriceFrom limit minimum context candidate above (price, parses, _, _, within) =
    (price, parses, omega (arith, within, above))

abbrev pub Kept : ℕ → {A : Type 0} → Action SellerState A → Type 0
Kept limit m = Keeps (IsFrom limit) m

module _ (limit : ℕ) where
  -- No action of the channel changes what the invariant reads.
  pub on_channel-Keeps : {A : Type 0} (m : Action Channel A) → Kept limit (on_channel m)
  unfolding on_channel
  on_channel-Keeps m = record { kept = λ s v. v }

  pub await-Keeps : (task : SellerTask) → TaskFrom limit task → Kept limit (await task)
  unfolding await
  await-Keeps task from = modify-Keeps _ (λ s v. let (m, a, o, ts) = v in (m, a, o, (from, ts)))

module _ (env : Environment) (limit : ℕ) where
  pub send_chain_state-Keeps : (status : DealStatus) → Kept limit (send_chain_state env status)
  send_chain_state-Keeps status = get-Keeps (λ s _.
      bind-Keeps (required-Keeps _ _)
        (λ session. bind-Keeps (required-Keeps _ _) (λ address. on_channel-Keeps limit _)))

  send_key_when-Keeps : (b : Bool) → Kept limit (send_key_when env b)
  send_key_when-Keeps false = done-Keeps
  send_key_when-Keeps true = then-Keeps (modify-Keeps _ (λ s v. v)) (await-Keeps limit _ tt)

  pub flush_seller_key-Keeps : Kept limit (flush_seller_key env)
  unfolding flush_seller_key
  flush_seller_key-Keeps = get-Keeps (λ s _. send_key_when-Keeps _)

  join_for-Keeps :
      (b : Bool) (session address : Option Text) → Kept limit (join_for env b session address)
  join_for-Keeps false session address = done-Keeps
  join_for-Keeps true none address = done-Keeps
  join_for-Keeps true (some session) none = done-Keeps
  join_for-Keeps true (some session) (some address) =
      then-Keeps (modify-Keeps _ (λ s v. v)) (await-Keeps limit _ tt)

  pub try_join_on_chain-Keeps : Kept limit (try_join_on_chain env)
  unfolding try_join_on_chain
  try_join_on_chain-Keeps = get-Keeps (λ s _. join_for-Keeps _ _ _)

  pub await_when-Keeps :
      (b : Bool) (task : SellerTask) → TaskFrom limit task → Kept limit (await_when env b task)
  await_when-Keeps false task from = done-Keeps
  await_when-Keeps true task from = await-Keeps limit task from

  execute_action-Keeps :
      (round : ℕ) (move : Move) (price : Text)
      → PriceFrom limit price
      → Kept limit (execute_action env round move price)
  execute_action-Keeps round accept price from =
      then-Keeps (modify-Keeps _ (λ s v. let (m, a, o, ts) = v in (m, from, o, ts)))
        (on_channel-Keeps limit _)
  execute_action-Keeps round offer price from =
      then-Keeps (modify-Keeps _ (λ s v. let (m, a, o, ts) = v in (m, a, from, ts)))
        (on_channel-Keeps limit _)

  execute_or_decline-Keeps :
      (context : PublicContext) (o : Option Candidate)
      → ((c : Candidate) → o ≡ some c → PriceFrom limit c.price)
      → Kept limit (execute_or_decline env context o)
  execute_or_decline-Keeps context none from = on_channel-Keeps limit _
  execute_or_decline-Keeps context (some c) from =
      execute_action-Keeps context.round c.action c.price (from c refl)

  or_fallback-Keeps :
      (context : PublicContext) (minimum : ℕ) (price_offset : ℤ) (o : Option Candidate)
      → limit ≤ minimum
      → ((c : Candidate) → o ≡ some c → PriceFrom limit c.price)
      → Kept limit (or_fallback env context minimum price_offset o)
  or_fallback-Keeps context minimum price_offset none above from = produced-Keeps _ (λ fallback e.
      execute_or_decline-Keeps context fallback (λ c same.
        Permits-PriceFrom limit minimum context c above
          (fallback-Permits context (seller_policy (pos minimum)) price_offset c
            (candidate_of-ok _ _ e ∙ ap ok same)).1))
  or_fallback-Keeps context minimum price_offset (some c) above from =
      execute_action-Keeps context.round c.action c.price (from c refl)

  pub responded-Keeps :
      (context : PublicContext) (minimum : ℕ) (price_offset : ℤ) (provider : CandidateProvider)
      → limit ≤ minimum
      → Kept limit (responded env context minimum price_offset provider)
  responded-Keeps context minimum price_offset provider above = produced-Keeps _ (λ o e.
      or_fallback-Keeps context minimum price_offset o above (λ c same.
        Permits-PriceFrom limit minimum context c above
          (generate_allowed_candidate-Permits provider none context (seller_policy (pos minimum))
            price_offset c (candidate_of-ok _ _ e ∙ ap ok same)).1))

  pub respond_to_proposal-Keeps :
      (round : ℕ) (price : Text) → Kept limit (respond_to_proposal env round price)
  unfolding respond_to_proposal
  respond_to_proposal-Keeps round price = get-Keeps (λ s v.
      bind-Keeps (required-Keeps _ _) (λ session. bind-Keeps (required-Keeps _ _) (λ product.
        given-Keeps _ _ (λ minimum e. bind-Keeps (required-Keeps _ _) (λ shared.
          then-Keeps (ensure-Keeps _ _) (
            bind-Keeps (lifted-Keeps _)
              (λ price_offset. await-Keeps limit _ (subst (MinimumFrom limit) e v.0))))))))
