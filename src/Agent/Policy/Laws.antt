-- ===== src/Agent/Policy/Laws.antt =====
-- What the validation and the two guards of packages/agent-core/src/index.ts let through.
use midnight_private_negotia.Common.{
  ℕ, ◌%◌, ◌≤◌, ◌≡◌, refl, ◌↔◌, ◌≢◌, pos, ◌≤ℤ◌, Bool, true, false, not, ◌&&◌, Option, none, some,
  arith, leb, leb_iff, and_iff, length, all, Text, text_eq_iff, is_digit, is_product_code, ok,
}
use midnight_private_negotia.Agent.Types.{
  PartyRole, buyer, seller, role_eq, PublicOffer, PublicContext, Action, offer, accept, Candidate,
  LocalPolicy, buyer_policy, seller_policy, policy_role,
}
use midnight_private_negotia.Agent.Price.{parse_price, is_offer_price_increment_valid}
use midnight_private_negotia.Agent.Policy.{
  is_price, is_price_if_given, is_offer_if_given, validate_public_context, is_action_allowed,
  within_limit, allows_price,
}

abbrev pub IsPrice : Text → Type 0
IsPrice text = (price : ℕ) × (parse_price text ≡ some price)

abbrev IsPriceIfGiven : Option Text → Type 0
IsPriceIfGiven none = Unit {0}
IsPriceIfGiven (some text) = IsPrice text

abbrev pub IsOfferIfGiven : PartyRole → Option PublicOffer → Type 0
IsOfferIfGiven role none = Unit {0}
IsOfferIfGiven role (some o) = (o.maker ≢ role) × IsPrice o.price

-- A public context with a four-digit product code, a round of 1 to 10, and prices that parse; an
-- offer in it comes from the other role.
pub record IsPublic (c : PublicContext) : Type 0 where
  pub coded : (all is_digit c.product_code ≡ true) × (length c.product_code ≡ 4)
  pub first : 1 ≤ c.round
  pub last : c.round ≤ 10
  pub referenced : IsPriceIfGiven c.public_reference_price
  pub offered : IsOfferIfGiven c.role c.current_offer

pub is_price_iff : (text : Text) → (is_price text ≡ true) ↔ IsPrice text
is_price_iff text = given (parse_price text)
  where
    given :
        (o : Option ℕ)
        → ((elim o as (λ x. Bool) [ none ↦ false | some price ↦ true ]) ≡ true)
          ↔ ((price : ℕ) × (o ≡ some price))
    given none = (λ e. cc, λ (p, e). cc)
    given (some price) = (λ e. (price, refl), λ e. refl)

IsPriceIfGiven-iff : (o : Option Text) → (is_price_if_given o ≡ true) ↔ IsPriceIfGiven o
IsPriceIfGiven-iff none = (λ e. tt, λ e. refl)
IsPriceIfGiven-iff (some text) = is_price_iff text

role_ne_iff : (a b : PartyRole) → (not (role_eq a b) ≡ true) ↔ (a ≢ b)
role_ne_iff buyer buyer = (λ e. cc, λ n. absurd (n refl))
role_ne_iff buyer seller = (λ e h. cc, λ n. refl)
role_ne_iff seller buyer = (λ e h. cc, λ n. refl)
role_ne_iff seller seller = (λ e. cc, λ n. absurd (n refl))

IsOfferIfGiven-iff :
    (role : PartyRole) (o : Option PublicOffer)
    → (is_offer_if_given role o ≡ true) ↔ IsOfferIfGiven role o
IsOfferIfGiven-iff role none = (λ e. tt, λ e. refl)
IsOfferIfGiven-iff role (some o) =
    let (to, from) = role_ne_iff o.maker role in
    let (to', from') = is_price_iff o.price in
    let (split, join) = and_iff (not (role_eq o.maker role)) (is_price o.price) in
    (λ e. (to (split e).0, to' (split e).1), λ (n, p). join (from n, from' p))

-- The three tests that the validation makes in turn.
abbrev Passes : PublicContext → Type 0
Passes c =
    ((is_product_code c.product_code && (leb 1 c.round && leb c.round 10)) ≡ true)
    × (is_price_if_given c.public_reference_price ≡ true)
    × (is_offer_if_given c.role c.current_offer ≡ true)

validate-Passes : (c d : PublicContext) → validate_public_context c ≡ ok d → (d ≡ c) × Passes c
unfolding validate_public_context
validate-Passes c d h = ground arith

Passes-validate : (c : PublicContext) → Passes c → validate_public_context c ≡ ok c
unfolding validate_public_context
Passes-validate c (a, b, o) = rw (a, b, o)

Passes-iff : (c : PublicContext) → Passes c ↔ IsPublic c
Passes-iff c =
    let (price, price') = IsPriceIfGiven-iff c.public_reference_price in
    let (offered, offered') = IsOfferIfGiven-iff c.role c.current_offer in
    (
      λ (a, b, o). record {
        coded = ground arith;
        first = ground arith;
        last = ground arith;
        referenced = price b;
        offered = offered o;
      },
      λ v. (ground (arith, v.coded, v.first, v.last), price' v.referenced, offered' v.offered),
    )

-- The validation of a public context accepts exactly the well-formed ones, and returns the context
-- itself.
pub validate_public_context_iff :
    (c d : PublicContext) → (validate_public_context c ≡ ok d) ↔ ((d ≡ c) × IsPublic c)
validate_public_context_iff c d = (
  λ h. let (same, passes) = validate-Passes c d h in (same, (Passes-iff c).0 passes),
  λ (same, v). rw same (Passes-validate c ((Passes-iff c).1 v)),
)

-- The limit, as an order of integers.
abbrev pub Within : LocalPolicy → ℕ → Type 0
Within (buyer_policy maximum) price = pos price ≤ℤ maximum
Within (seller_policy minimum) price = minimum ≤ℤ pos price

abbrev pub Answers : Action → Text → ℕ → Option PublicOffer → Type 0
Answers accept text price none = ⊥
Answers accept text price (some o) = text ≡ o.price
Answers offer text price current = price % 250 ≡ 0

-- What a candidate needs: a price, the role's own turn, an acceptance of the current offer at its
-- own price or an offer in steps of 250 KRW, and the private limit.
abbrev pub Permits : LocalPolicy → PublicContext → Candidate → Type 0
Permits policy c candidate =
    (price : ℕ) × (parse_price candidate.price ≡ some price)
    × (c.role ≡ policy_role policy)
    × Answers candidate.action candidate.price price c.current_offer
    × Within policy price

pub role_eq_iff : (a b : PartyRole) → (role_eq a b ≡ true) ↔ (a ≡ b)
role_eq_iff buyer buyer = (λ e. refl, λ e. refl)
role_eq_iff buyer seller = (λ e. cc, λ e. cc)
role_eq_iff seller buyer = (λ e. cc, λ e. cc)
role_eq_iff seller seller = (λ e. refl, λ e. refl)

within_limit_iff :
    (policy : LocalPolicy) (price : ℕ) → (within_limit policy price ≡ true) ↔ Within policy price
within_limit_iff (buyer_policy m) price = leb_iff _ _
within_limit_iff (seller_policy m) price = leb_iff _ _

action_iff :
    (action : Action) (text : Text) (price : ℕ) (current : Option PublicOffer)
    → parse_price text ≡ some price
    → (is_action_allowed action text current ≡ true) ↔ Answers action text price current
unfolding is_offer_price_increment_valid
action_iff accept text price none e = (λ h. cc, λ h. absurd h)
action_iff accept text price (some o) e = text_eq_iff text o.price
action_iff offer text price current e = ground arith

pub allows_price_iff :
    (policy : LocalPolicy) (c : PublicContext) (candidate : Candidate) (price : ℕ)
    → parse_price candidate.price ≡ some price
    → (allows_price policy c candidate (some price) ≡ true) ↔ (
        (c.role ≡ policy_role policy)
        × Answers candidate.action candidate.price price c.current_offer
        × Within policy price)
allows_price_iff policy c candidate price e =
    let (r, r') = role_eq_iff c.role (policy_role policy) in
    let (a, a') = action_iff candidate.action candidate.price price c.current_offer e in
    let (w, w') = within_limit_iff policy price in
    (
      λ h. (r (ground arith), a (ground arith), w (ground arith)),
      λ (x, y, z). rw (r' x, a' y, w' z),
    )
