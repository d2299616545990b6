-- ===== src/Contract/Binding.antt =====
-- What a settled deal on packages/negotiation-contract/src/negotiation.compact proves about the
-- committed limits and the committed price, whoever the callers are.
use midnight_private_negotia.Common.{
  ℕ, ◌≤◌, ◌<◌, ◌^◌, ◌≡◌, refl, sym, ◌∙◌, List, arith, leb, leb→le, text_eq, text_eq_iff, ok,
  >>=-eq-ok, guard-eq-ok, ok-injective, subst,
}
use midnight_private_negotia.Contract.Circuits.{
  Bytes, DealStatus, waiting_seller, opened, authorized, settled, cancelled, status_eq, Ledger,
  not_open, not_authorized, caller_is_not_buyer, caller_is_not_seller, buyer_limit_mismatch,
  seller_limit_mismatch, price_mismatch, price_exceeds_maximum, price_below_minimum, Witnesses,
  Crypto, pad32, buyer_domain, seller_domain, public_key, limit_commitment, price_commitment_for,
  deploy, authorize_hidden_price, settle, Circuit, joins, authorizes, settles, buyer_cancels,
  seller_cancels, call,
}
use midnight_private_negotia.Contract.Lifecycle.{call_lifecycle, status_iff}

-- The hash has no collisions among vectors, and the bytes of a 64-bit number determine it.
pub record IsBinding (crypto : Crypto) : Type 0 where
  pub hash_injective :
      (xs ys : List Bytes) → crypto.persistent_hash xs ≡ crypto.persistent_hash ys → xs ≡ ys
  pub field_injective :
      (a b : ℕ) → a < 2 ^ 64 → b < 2 ^ 64 → crypto.field_bytes a ≡ crypto.field_bytes b → a ≡ b

-- The price witnesses are of type Uint<64>.
pub record IsTyped (w : Witnesses) : Type 0 where
  pub max_price_uint64 : (n : ℕ) → w.buyer_max_price ≡ ok n → n < 2 ^ 64
  pub price_uint64 : (n : ℕ) → w.agreed_price ≡ ok n → n < 2 ^ 64
  pub min_price_uint64 : (n : ℕ) → w.seller_min_price ≡ ok n → n < 2 ^ 64

-- The ledgers that calls lead to, by anyone and with any witnesses.
pub data Reach (crypto : Crypto) (start : Ledger) : Ledger → Type 0 where
  here : Reach crypto start start
  next :
      {l m : Ledger} (c : Circuit) (w : Witnesses)
      → Reach crypto start l
      → IsTyped w
      → call crypto c w l ≡ ok m
      → Reach crypto start m

-- A number and randomness that open a commitment.
pub record Opens (commit : ℕ → Bytes → Bytes) (commitment : Bytes) (n : ℕ) : Type 0 where
  pub randomness : Bytes
  pub uint64 : n < 2 ^ 64
  pub opening : commit n randomness ≡ commitment

abbrev pub buyer_commit : Crypto → Ledger → ℕ → Bytes → Bytes
buyer_commit crypto l = limit_commitment crypto l.deal_id (pad32 buyer_domain) l.buyer_key

abbrev pub seller_commit : Crypto → Ledger → ℕ → Bytes → Bytes
seller_commit crypto l = limit_commitment crypto l.deal_id (pad32 seller_domain) l.seller_key

abbrev pub price_commit : Crypto → Ledger → ℕ → Bytes → Bytes
price_commit crypto l = price_commitment_for crypto l.deal_id

module _ (crypto : Crypto) (binding : IsBinding crypto) where
  limit_binds :
      (deal_id role key : Bytes) (n m : ℕ) (commitment : Bytes)
      → Opens (limit_commitment crypto deal_id role key) commitment n
      → Opens (limit_commitment crypto deal_id role key) commitment m
      → n ≡ m
  unfolding limit_commitment
  limit_binds deal_id role key n m commitment a b =
      let e = binding.hash_injective _ _ (a.opening ∙ sym b.opening) in
      binding.field_injective n m a.uint64 b.uint64 cc

  price_binds :
      (deal_id : Bytes) (n m : ℕ) (commitment : Bytes)
      → Opens (price_commitment_for crypto deal_id) commitment n
      → Opens (price_commitment_for crypto deal_id) commitment m
      → n ≡ m
  unfolding price_commitment_for
  price_binds deal_id n m commitment a b =
      let e = binding.hash_injective _ _ (a.opening ∙ sym b.opening) in
      binding.field_injective n m a.uint64 b.uint64 cc

-- What the state of a deal has shown.
abbrev pub PriceBelowMaximum : Crypto → Ledger → Type 0
PriceBelowMaximum crypto l =
    (price : ℕ) × (maximum : ℕ) × Opens (price_commit crypto l) l.price_commitment price
    × Opens (buyer_commit crypto l) l.buyer_commitment maximum
    × (price ≤ maximum)

abbrev pub PriceAboveMinimum : Crypto → Ledger → Type 0
PriceAboveMinimum crypto l =
    (price : ℕ) × (minimum : ℕ) × Opens (price_commit crypto l) l.price_commitment price
    × Opens (seller_commit crypto l) l.seller_commitment minimum
    × (minimum ≤ price)

abbrev pub Shown : Crypto → DealStatus → Ledger → Type 0
Shown crypto waiting_seller l = Unit {0}
Shown crypto opened l = Unit {0}
Shown crypto authorized l = PriceBelowMaximum crypto l
Shown crypto settled l = PriceBelowMaximum crypto l × PriceAboveMinimum crypto l
Shown crypto cancelled l = Unit {0}

authorize-shown :
    (crypto : Crypto) (w : Witnesses) (l m : Ledger)
    → IsTyped w
    → authorize_hidden_price crypto w l ≡ ok m
    → (m.status ≡ authorized) × PriceBelowMaximum crypto m
unfolding authorize_hidden_price
authorize-shown crypto w l m typed h =
    let (_, h1) = guard-eq-ok (status_eq l.status opened) not_open _ h in
    let (secret, _, h2) = >>=-eq-ok w.buyer_secret_key _ h1 in
    let (_, h3) =
      guard-eq-ok (text_eq (public_key crypto secret) l.buyer_key) caller_is_not_buyer _ h2 in
    let (maximum, em, h4) = >>=-eq-ok w.buyer_max_price _ h3 in
    let (r, _, h5) = >>=-eq-ok w.buyer_limit_randomness _ h4 in
    let (price, ep, h6) = >>=-eq-ok w.agreed_price _ h5 in
    let (pr, _, h7) = >>=-eq-ok w.price_randomness _ h6 in
    let (limit, h8) =
      guard-eq-ok (text_eq (buyer_commit crypto l maximum r) l.buyer_commitment)
        buyer_limit_mismatch _ h7 in
    let (below, h9) = guard-eq-ok (leb price maximum) price_exceeds_maximum _ h8 in
    let same = sym (ok-injective h9) in
    rw same (
      refl,
      (
        price,
        maximum,
        record { randomness = pr; uint64 = typed.price_uint64 price ep; opening = refl },
        record {
          randomness = r;
          uint64 = typed.max_price_uint64 maximum em;
          opening = (text_eq_iff _ _).0 limit;
        },
        leb→le price maximum below,
      ),
    )

settle-shown :
    (crypto : Crypto) (w : Witnesses) (l m : Ledger)
    → IsTyped w
    → settle crypto w l ≡ ok m
    → (m ≡ record l { status = settled }) × (l.status ≡ authorized) × PriceAboveMinimum crypto l
unfolding settle
settle-shown crypto w l m typed h =
    let (state, h1) = guard-eq-ok (status_eq l.status authorized) not_authorized _ h in
    let (secret, _, h2) = >>=-eq-ok w.seller_secret_key _ h1 in
    let (_, h3) =
      guard-eq-ok (text_eq (public_key crypto secret) l.seller_key) caller_is_not_seller _ h2 in
    let (minimum, em, h4) = >>=-eq-ok w.seller_min_price _ h3 in
    let (r, _, h5) = >>=-eq-ok w.seller_limit_randomness _ h4 in
    let (price, ep, h6) = >>=-eq-ok w.agreed_price _ h5 in
    let (pr, _, h7) = >>=-eq-ok w.price_randomness _ h6 in
    let (limit, h8) =
      guard-eq-ok (text_eq (seller_commit crypto l minimum r) l.seller_commitment)
        seller_limit_mismatch _ h7 in
    let (same_price, h9) =
      guard-eq-ok (text_eq (price_commit crypto l price pr) l.price_commitment) price_mismatch _
        h8 in
    let (above, h10) = guard-eq-ok (leb minimum price) price_below_minimum _ h9 in
    (
      sym (ok-injective h10),
      status_iff l.status authorized state,
      (
        price,
        minimum,
        record {
          randomness = pr;
          uint64 = typed.price_uint64 price ep;
          opening = (text_eq_iff _ _).0 same_price;
        },
        record {
          randomness = r;
          uint64 = typed.min_price_uint64 minimum em;
          opening = (text_eq_iff _ _).0 limit;
        },
        leb→le minimum price above,
      ),
    )

call-Shown :
    (crypto : Crypto) (c : Circuit) (w : Witnesses) (l m : Ledger)
    → IsTyped w
    → Shown crypto l.status l
    → call crypto c w l ≡ ok m
    → Shown crypto m.status m
unfolding call
call-Shown crypto joins w l m typed v h =
    let (_, (_, to), _) = call_lifecycle crypto joins w l m h in rw to tt
call-Shown crypto authorizes w l m typed v h =
    let (to, shown) = authorize-shown crypto w l m typed h in
    subst (λ s. Shown crypto s m) (sym to) shown
call-Shown crypto settles w l m typed v h =
    let (same, from, shown) = settle-shown crypto w l m typed h in
    rw same (subst (λ s. Shown crypto s l) from v, shown)
call-Shown crypto buyer_cancels w l m typed v h =
    let (_, (_, to), _) = call_lifecycle crypto buyer_cancels w l m h in rw to tt
call-Shown crypto seller_cancels w l m typed v h =
    let (_, (_, to), _) = call_lifecycle crypto seller_cancels w l m h in rw to tt

Reach-Shown :
    (crypto : Crypto) (start : Ledger) {l : Ledger}
    → start.status ≡ waiting_seller
    → Reach crypto start l
    → Shown crypto l.status l
Reach-Shown crypto start e here = rw e tt
Reach-Shown crypto start e (next {l} {m} c w r typed h) =
    call-Shown crypto c w l m typed (Reach-Shown crypto start e r) h

-- A deal that any calls lead from its deployment to settled proves the price: the number that opens
-- its public price commitment is at most the number that opens the buyer's limit commitment and at
-- least the one that opens the seller's, if the hash has no collisions and the witnesses are 64-bit.
pub settled_within_limits :
    (crypto : Crypto) (deal_id buyer_key seller_key buyer_commitment : Bytes) (l : Ledger)
    (price maximum minimum : ℕ)
    → IsBinding crypto
    → Reach crypto (deploy crypto deal_id buyer_key seller_key buyer_commitment) l
    → l.status ≡ settled
    → Opens (price_commit crypto l) l.price_commitment price
    → Opens (buyer_commit crypto l) l.buyer_commitment maximum
    → Opens (seller_commit crypto l) l.seller_commitment minimum
    → (minimum ≤ price) × (price ≤ maximum)
unfolding deploy
settled_within_limits crypto deal_id buyer_key seller_key buyer_commitment l price maximum minimum
      binding reach state open_price open_maximum open_minimum =
    let shown =
      Reach-Shown crypto (deploy crypto deal_id buyer_key seller_key buyer_commitment) refl reach in
    let ((p, mx, op, omx, below), (p', mn, op', omn, above)) =
      subst (λ s. Shown crypto s l) state shown in
    let e1 = price_binds crypto binding l.deal_id p price l.price_commitment op open_price in
    let e2 = price_binds crypto binding l.deal_id p' price l.price_commitment op' open_price in
    let e3 =
      limit_binds crypto binding l.deal_id _ l.buyer_key mx maximum l.buyer_commitment omx
        open_maximum in
    let e4 =
      limit_binds crypto binding l.deal_id _ l.seller_key mn minimum l.seller_commitment omn
        open_minimum in
    (omega arith, omega arith)
