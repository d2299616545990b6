-- ===== src/Runtime/Buyer/Rounds.antt =====
-- packages/buyer-runtime/src/index.ts: the buyer's rounds and outcomes stay within the limit.
use midnight_private_negotia.Runtime.Alike.{candidate_of-ok}
use midnight_private_negotia.Common.{
  ◌+◌, if◌then◌else◌, text_eq, ℕ, ◌≡◌, ◌≤◌, refl, subst, ap, ◌∙◌, ℤ, pos, Bool, true, false, Option,
  none, some, arith, ltb, Text, ok,
}
use midnight_private_negotia.Agent.Types.{
  Action as Move, offer, accept, PublicContext, Candidate, buyer_policy,
}
use midnight_private_negotia.Agent.Provider.{CandidateProvider}
use midnight_private_negotia.Agent.Policy.Laws.{Permits}
use midnight_private_negotia.Agent.Generate.Safety.{generate_allowed_candidate-Permits}
use midnight_private_negotia.Agent.Generate.Fallback.{fallback-Permits}
use midnight_private_negotia.Protocol.Types.{Outcome, settled_at, cancelled_deal}
use midnight_private_negotia.Runtime.Action.{
  ◌>>=◌, ◌>>◌, done, get, modify, bind-Keeps, then-Keeps, get-Keeps, required-Keeps, ensure-Keeps,
  lifted-Keeps, modify-Keeps, given-Keeps, produced-Keeps,
}
use midnight_private_negotia.Runtime.Payload.{max_rounds}
use midnight_private_negotia.Runtime.Channel.{Environment}
use midnight_private_negotia.Runtime.Buyer.{BuyerState}
use midnight_private_negotia.Runtime.Buyer.Chain.{tell_outcome, outcome_once, publish_outcome}
use midnight_private_negotia.Runtime.Buyer.Negotiation.{
  offer_round, execute_action, execute_or_cancel, or_fallback, generated, generate_and_execute,
}
use midnight_private_negotia.Runtime.Buyer.Limits.{
  Joins, untold, PriceWithin, OutcomeWithin, MaximumWithin, IsWithin, Kept, relay-Keeps,
  await-Keeps, follow_up-Keeps,
}

-- What the buyer's policy permits is within a limit over its maximum.
Permits-PriceWithin :
    (limit maximum : ℕ) (context : PublicContext) (candidate : Candidate)
    → maximum ≤ limit
    → Permits (buyer_policy (pos maximum)) context candidate
    → PriceWithin limit candidate.price
Permits-PriceWithin limit maximum context candidate below (price, parses, _, _, within) =
    (price, parses, omega (arith, within, below))

module _ (env : Environment) (limit : ℕ) (sessions : Joins) where
  told_now :
      (x session : Text) (sid : Option Text) (finished : Bool) (n k : ℕ)
      → sid ≡ some session
      → finished ≡ false
      → n + untold x sid finished ≤ k
      → ((if text_eq x session then 1 else 0) + n) + untold x sid true ≤ k
  told_now x session none finished n k f e h = cc
  told_now x session (some s) true n k f e h = cc
  told_now x session (some s) false n k f e h = ground (arith, f)

  told_once :
      (finished : Bool) (session : Option Text) (result : Outcome) (s : BuyerState)
      → OutcomeWithin limit result
      → s.negotiation_finished ≡ finished
      → s.channel.session_id ≡ session
      → IsWithin limit sessions s
      → IsWithin limit sessions (outcome_once env finished session result s).1
  unfolding done ◌>>=◌ ◌>>◌ tell_outcome modify
  told_once true session result s within e f v = v
  told_once false none result s within e f v = v
  told_once false (some session) result s within e f (n, os, m, o, ts) =
      (follow_up-Keeps env limit sessions result).kept _ (
        (told_now sessions.0 session s.channel.session_id _ _ sessions.1 f e n.0, n.1),
        (within, os),
        m,
        o,
        ts,
      )

  pub publish_outcome-Keeps :
      (result : Outcome)
      → OutcomeWithin limit result
      → Kept env limit sessions (publish_outcome env result)
  unfolding publish_outcome ◌>>=◌ get
  publish_outcome-Keeps result within = record {
    kept = λ s v. told_once _ _ result s within refl refl v;
  }

  offer_round-Keeps :
      (over : Bool) (round : ℕ) (price : Text)
      → ltb max_rounds round ≡ over
      → PriceWithin limit price
      → Kept env limit sessions (offer_round env over round price)
  offer_round-Keeps true round price e within = publish_outcome-Keeps cancelled_deal tt
  offer_round-Keeps false round price e within =
      then-Keeps
        (modify-Keeps _
          (λ s v. let (n, os, m, o, ts) = v in (n, os, m, (ground arith, within), ts)))
        (relay-Keeps env limit sessions _)

  execute_action-Keeps :
      (context : PublicContext) (move : Move) (price : Text)
      → PriceWithin limit price
      → Kept env limit sessions (execute_action env context move price)
  execute_action-Keeps context accept price within =
      then-Keeps (relay-Keeps env limit sessions _)
        (publish_outcome-Keeps (settled_at price) within)
  execute_action-Keeps context offer price within = offer_round-Keeps _ _ price refl within

  execute_or_cancel-Keeps :
      (context : PublicContext) (o : Option Candidate)
      → ((c : Candidate) → o ≡ some c → PriceWithin limit c.price)
      → Kept env limit sessions (execute_or_cancel env context o)
  execute_or_cancel-Keeps context none within = publish_outcome-Keeps cancelled_deal tt
  execute_or_cancel-Keeps context (some c) within =
      execute_action-Keeps context c.action c.price (within c refl)

  or_fallback-Keeps :
      (context : PublicContext) (maximum : ℕ) (price_offset : ℤ) (o : Option Candidate)
      → maximum ≤ limit
      → ((c : Candidate) → o ≡ some c → PriceWithin limit c.price)
      → Kept env limit sessions (or_fallback env context maximum price_offset o)
  or_fallback-Keeps context maximum price_offset none below within = produced-Keeps _ (λ fallback e.
      execute_or_cancel-Keeps context fallback (λ c same.
        Permits-PriceWithin limit maximum context c below
          (fallback-Permits context (buyer_policy (pos maximum)) price_offset c
            (candidate_of-ok _ _ e ∙ ap ok same)).1))
  or_fallback-Keeps context maximum price_offset (some c) below within =
      execute_action-Keeps context c.action c.price (within c refl)

  pub generated-Keeps :
      (context : PublicContext) (maximum : ℕ) (price_offset : ℤ) (provider : CandidateProvider)
      → maximum ≤ limit
      → Kept env limit sessions (generated env context maximum price_offset provider)
  generated-Keeps context maximum price_offset provider below = produced-Keeps _ (λ o e.
      or_fallback-Keeps context maximum price_offset o below (λ c same.
        Permits-PriceWithin limit maximum context c below
          (generate_allowed_candidate-Permits provider none context (buyer_policy (pos maximum))
            price_offset c (candidate_of-ok _ _ e ∙ ap ok same)).1))

  pub generate_and_execute-Keeps :
      (round : ℕ) (seller_price : Option Text)
      → Kept env limit sessions (generate_and_execute env round seller_price)
  unfolding generate_and_execute
  generate_and_execute-Keeps round seller_price = get-Keeps (λ s v.
      bind-Keeps (required-Keeps _ _) (λ session. bind-Keeps (required-Keeps _ _) (λ product.
        given-Keeps _ _ (λ maximum e. bind-Keeps (required-Keeps _ _) (λ shared.
          then-Keeps (ensure-Keeps _ _) (
            bind-Keeps (lifted-Keeps _) (λ price_offset.
              await-Keeps env limit sessions _ (subst (MaximumWithin limit) e v.2))))))))
