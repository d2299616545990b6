-- ===== src/Contract/Lifecycle.antt =====
-- The life of a deal on packages/negotiation-contract/src/negotiation.compact: which circuit moves
-- which state, who may call it, and the run of two honest parties.
use midnight_private_negotia.Common.{
  ◌≡◌, refl, ◌≢◌, inl, inr, true, not, arith, leb, text_eq, text_eq_iff, text_eq_refl, Result, ok,
  err, ◌>>=◌, Bool-cases, if◌then◌else◌,
}
use midnight_private_negotia.Contract.Circuits.{
  Bytes, DealStatus, waiting_seller, opened, authorized, settled, cancelled, status_eq, Ledger,
  ContractError, price_exceeds_maximum, price_below_minimum, Witnesses, Crypto, pad32, buyer_domain,
  seller_domain, public_key, limit_commitment, price_commitment_for, deploy, join_deal,
  authorize_hidden_price, settle, cancel_as_buyer, cancel_as_seller, Circuit, joins, authorizes,
  settles, buyer_cancels, seller_cancels, call,
}
use midnight_private_negotia.Contract.Witnesses.{
  BuyerPrivateState, SellerPrivateState, SellerPriceOpening, buyer_state, seller_state, witnesses,
  with_seller_price_opening,
}

-- The states that a circuit leads from and to.
abbrev pub Moves : Circuit → DealStatus → DealStatus → Type 0
Moves joins s t = (s ≡ waiting_seller) × (t ≡ opened)
Moves authorizes s t = (s ≡ opened) × (t ≡ authorized)
Moves settles s t = (s ≡ authorized) × (t ≡ settled)
Moves buyer_cancels s t = (s ≢ settled) × (t ≡ cancelled)
Moves seller_cancels s t = (s ≢ settled) × (t ≡ cancelled)

-- The caller produced a secret whose public key the deal names for the role.
abbrev pub Knows : Crypto → Bytes → Result ContractError Bytes → Type 0
Knows crypto key witness =
    (secret : Bytes) × (witness ≡ ok secret) × (public_key crypto secret ≡ key)

abbrev pub Calls : Crypto → Circuit → Witnesses → Ledger → Type 0
Calls crypto joins w l = Knows crypto l.seller_key w.seller_secret_key
Calls crypto authorizes w l = Knows crypto l.buyer_key w.buyer_secret_key
Calls crypto settles w l = Knows crypto l.seller_key w.seller_secret_key
Calls crypto buyer_cancels w l = Knows crypto l.buyer_key w.buyer_cancel_secret_key
Calls crypto seller_cancels w l = Knows crypto l.seller_key w.seller_cancel_secret_key

-- The sealed fields stay.
pub record SameDeal (l m : Ledger) : Type 0 where
  pub same_deal_id : m.deal_id ≡ l.deal_id
  pub same_buyer_key : m.buyer_key ≡ l.buyer_key
  pub same_seller_key : m.seller_key ≡ l.seller_key
  pub same_buyer_commitment : m.buyer_commitment ≡ l.buyer_commitment

pub status_iff : (s t : DealStatus) → status_eq s t ≡ true → s ≡ t
status_iff waiting_seller t h = ground arith
status_iff opened t h = ground arith
status_iff authorized t h = ground arith
status_iff settled t h = ground arith
status_iff cancelled t h = ground arith

not_status : (s : DealStatus) → not (status_eq s settled) ≡ true → s ≢ settled
not_status s h e = absurd (ground arith)

call-Moves :
    (crypto : Crypto) (c : Circuit) (w : Witnesses) (l m : Ledger)
    → call crypto c w l ≡ ok m
    → Moves c l.status m.status × SameDeal l m
unfolding call join_deal authorize_hidden_price settle cancel_as_buyer cancel_as_seller
call-Moves crypto joins w l m h = ground (arith, status_iff l.status waiting_seller)
call-Moves crypto authorizes w l m h = ground (arith, status_iff l.status opened)
call-Moves crypto settles w l m h = ground (arith, status_iff l.status authorized)
call-Moves crypto buyer_cancels w l m h = ground (arith, not_status l.status)
call-Moves crypto seller_cancels w l m h = ground (arith, not_status l.status)

-- The test of the caller, behind the part of a circuit that came before it.
Knows-of :
    (crypto : Crypto) (key : Bytes) (witness : Result ContractError Bytes)
    → ((secret : Bytes) → witness ≡ ok secret → text_eq (public_key crypto secret) key ≡ true)
    → ((e : ContractError) → witness ≢ err e)
    → Knows crypto key witness
Knows-of crypto key (ok secret) checked produced =
    (secret, refl, (text_eq_iff _ _).0 (checked secret refl))
Knows-of crypto key (err e) checked produced = absurd (produced e refl)

call_knows :
    (crypto : Crypto) (c : Circuit) (w : Witnesses) (l m : Ledger)
    → call crypto c w l ≡ ok m
    → Calls crypto c w l
unfolding call join_deal authorize_hidden_price settle cancel_as_buyer cancel_as_seller
call_knows crypto joins w l m h = Knows-of crypto _ _ (λ s e. ground arith) (λ x e. ground arith)
call_knows crypto authorizes w l m h =
    Knows-of crypto _ _ (λ s e. ground arith) (λ x e. ground arith)
call_knows crypto settles w l m h = Knows-of crypto _ _ (λ s e. ground arith) (λ x e. ground arith)
call_knows crypto buyer_cancels w l m h =
    Knows-of crypto _ _ (λ s e. ground arith) (λ x e. ground arith)
call_knows crypto seller_cancels w l m h =
    Knows-of crypto _ _ (λ s e. ground arith) (λ x e. ground arith)

-- A call that succeeds is one of its role: the caller's secret has the public key that the deal names
-- for the role. It moves the deal along its one edge of the life cycle: waiting to open by joining,
-- open to authorized by authorizing, authorized to settled by settling, and any state but settled to
-- cancelled by cancelling. The deal's identity, both keys and the buyer's commitment stay.
pub call_lifecycle :
    (crypto : Crypto) (c : Circuit) (w : Witnesses) (l m : Ledger)
    → call crypto c w l ≡ ok m
    → Calls crypto c w l × Moves c l.status m.status × SameDeal l m
call_lifecycle crypto c w l m h =
    let (moves, same) = call-Moves crypto c w l m h in (call_knows crypto c w l m h, moves, same)

-- Two parties with private states, from the deployment to the settlement.
abbrev pub deploy_for : Crypto → Bytes → BuyerPrivateState → SellerPrivateState → Ledger
deploy_for crypto deal_id b s =
    let buyer_key = public_key crypto b.buyer_secret_key in
    deploy crypto deal_id buyer_key (public_key crypto s.seller_secret_key) (
      limit_commitment crypto deal_id (pad32 buyer_domain) buyer_key b.buyer_max_price
        b.buyer_limit_randomness)

abbrev pub opening_of : BuyerPrivateState → SellerPriceOpening
opening_of b = record { agreed_price = b.agreed_price; price_randomness = b.price_randomness }

unfoldable pub run_deal :
    Crypto → Bytes → BuyerPrivateState → SellerPrivateState → Result ContractError Ledger
run_deal crypto deal_id b s = do
  joined ← join_deal crypto (witnesses (seller_state s)) (deploy_for crypto deal_id b s)
  authorized_deal ← authorize_hidden_price crypto (witnesses (buyer_state b)) joined
  settle crypto (witnesses (seller_state (with_seller_price_opening s (opening_of b))))
      authorized_deal

-- The ledger of a settled deal.
abbrev pub settled_for : Crypto → Bytes → BuyerPrivateState → SellerPrivateState → Ledger
settled_for crypto deal_id b s =
    let start = deploy_for crypto deal_id b s in
    record start {
      seller_commitment =
          limit_commitment crypto deal_id (pad32 seller_domain) start.seller_key s.seller_min_price
            s.seller_limit_randomness;
      price_commitment = price_commitment_for crypto deal_id b.agreed_price b.price_randomness;
      status = settled;
    }

-- The deal of two honest parties settles exactly in the price range that both limits allow: a price
-- above the buyer's maximum is refused when the buyer authorizes it, one below the seller's minimum
-- when the seller settles, and any other price leaves the deal settled with the commitment to it.
pub run_deal_outcome :
    (crypto : Crypto) (deal_id : Bytes) (b : BuyerPrivateState) (s : SellerPrivateState)
    → run_deal crypto deal_id b s ≡ (
        if not (leb b.agreed_price b.buyer_max_price)
        then err price_exceeds_maximum
        else if not (leb s.seller_min_price b.agreed_price)
        then err price_below_minimum
        else ok (settled_for crypto deal_id b s))
unfolding run_deal join_deal authorize_hidden_price settle witnesses deploy
run_deal_outcome crypto deal_id b s = elim (Bool-cases (leb b.agreed_price b.buyer_max_price)) [
  | inr above ↦ simp (text_eq_refl, above)
  | inl within ↦ elim (Bool-cases (leb s.seller_min_price b.agreed_price)) [
    | inr below ↦ simp (text_eq_refl, within, below)
    | inl reached ↦ simp (text_eq_refl, within, reached)
  ]
]
