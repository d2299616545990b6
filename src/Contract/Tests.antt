-- ===== src/Contract/Tests.antt =====
-- Runs of packages/negotiation-contract/src with a concrete injective hash, and the theorems there.
use midnight_private_negotia.Common.{
  ℕ, suc, ◌≤◌, ◌<◌, ◌≡◌, refl, none, List, [], ◌∷◌, arith, length, Result, ok, err, ltb→lt, leb→le,
  subst, Bool, true, ltb, ◌^◌, ok-injective,
}
use midnight_private_negotia.Contract.Circuits.{
  Bytes, Crypto, Ledger, settled, authorized, opened, joins, authorizes, settles, call, deploy,
  join_deal, authorize_hidden_price, settle, public_key, limit_commitment, price_commitment_for,
  pad32, buyer_domain, seller_domain, Witnesses, ContractError,
}
use midnight_private_negotia.Contract.Commitments.{
  limit_commitment_of, price_commitment_of, public_key_for_secret, commitments_agree,
}
use midnight_private_negotia.Contract.Witnesses.{
  BuyerPrivateState, SellerPrivateState, buyer_state, seller_state, witnesses,
  with_seller_price_opening,
}
use midnight_private_negotia.Contract.Lifecycle.{
  Calls, Moves, SameDeal, deploy_for, opening_of, run_deal, settled_for, call_lifecycle,
  run_deal_outcome,
}
use midnight_private_negotia.Contract.Binding.{
  IsBinding, IsTyped, Reach, here, next, Opens, buyer_commit, seller_commit, price_commit,
  settled_within_limits,
}

-- A vector is told from its encoding: each element stands behind its length.
abbrev framed : Bytes → Bytes → Bytes
framed [] rest = 0 ∷ rest
framed (b ∷ bytes) rest = suc b ∷ framed bytes rest

abbrev encoding : List Bytes → Bytes
encoding [] = []
encoding (bytes ∷ vector) = framed bytes (encoding vector)

framed-injective : (a b r s : Bytes) → framed a r ≡ framed b s → (a ≡ b) × (r ≡ s)
framed-injective [] [] r s h = (refl, cc)
framed-injective [] (b ∷ bs) r s h = ground arith
framed-injective (a ∷ more) [] r s h = ground arith
framed-injective (a ∷ more) (b ∷ bs) r s h = ground (arith, framed-injective more bs r s)

encoding-injective : (xs ys : List Bytes) → encoding xs ≡ encoding ys → xs ≡ ys
encoding-injective [] [] h = refl
encoding-injective [] ([] ∷ ys) h = ground arith
encoding-injective [] ((b ∷ bs) ∷ ys) h = ground arith
encoding-injective ([] ∷ xs) [] h = ground arith
encoding-injective ((b ∷ bs) ∷ xs) [] h = ground arith
encoding-injective (x ∷ xs) (y ∷ ys) h =
    let (same, rest) = framed-injective x y (encoding xs) (encoding ys) h in
    λ i. same i ∷ encoding-injective xs ys rest i

abbrev plain : Crypto
plain = record { persistent_hash = encoding; field_bytes = λ n. n ∷ [] }

plain-IsBinding : IsBinding plain
plain-IsBinding = record {
  hash_injective = encoding-injective;
  field_injective = λ a b small small' h. cc;
}

abbrev deal : Bytes
deal = pad32 (1 ∷ [])

abbrev secret : Bytes
secret = pad32 (2 ∷ [])

abbrev blinding : Bytes
blinding = pad32 (3 ∷ [])

abbrev the_buyer : BuyerPrivateState
the_buyer = record {
  buyer_secret_key = 5 ∷ [];
  buyer_max_price = 110000;
  buyer_limit_randomness = 7 ∷ [];
  agreed_price = 101000;
  price_randomness = 9 ∷ [];
}

abbrev the_seller : SellerPrivateState
the_seller = record {
  seller_secret_key = 6 ∷ [];
  seller_min_price = 95000;
  seller_limit_randomness = 8 ∷ [];
  price_opening = none;
}

run_deal_outcome_example :
    run_deal plain (1 ∷ []) the_buyer the_seller
    ≡ ok (settled_for plain (1 ∷ []) the_buyer the_seller)
run_deal_outcome_example = run_deal_outcome plain (1 ∷ []) the_buyer the_seller

thirty_two : (length deal ≡ 32) × (length secret ≡ 32) × (length blinding ≡ 32)
unfolding pad32
thirty_two = (refl, refl, refl)

commitments_agree_example :
    (limit_commitment_of plain deal buyer_domain secret 110000 blinding
      ≡ ok (limit_commitment plain deal (pad32 buyer_domain) secret 110000 blinding))
    × (limit_commitment_of plain deal seller_domain secret 110000 blinding
        ≡ ok (limit_commitment plain deal (pad32 seller_domain) secret 110000 blinding))
    × (price_commitment_of plain deal 110000 blinding
        ≡ ok (price_commitment_for plain deal 110000 blinding))
    × (public_key_for_secret plain secret ≡ ok (public_key plain secret))
commitments_agree_example =
    commitments_agree plain deal secret 110000 blinding thirty_two.0 thirty_two.1 thirty_two.2
      (leb→le 110000 18_446_744_073_709_551_615 refl)

abbrev start : Ledger
start = deploy_for plain (1 ∷ []) the_buyer the_seller

abbrev joined : Ledger
joined = record start {
  seller_commitment =
      limit_commitment plain (1 ∷ []) (pad32 seller_domain) start.seller_key 95000 (8 ∷ []);
  status = opened;
}

abbrev authorized_deal : Ledger
authorized_deal = record joined {
  price_commitment = price_commitment_for plain (1 ∷ []) 101000 (9 ∷ []);
  status = authorized;
}

abbrev settled_deal : Ledger
settled_deal = record authorized_deal { status = settled }

abbrev seller_joins : Witnesses
seller_joins = witnesses (seller_state the_seller)

abbrev buyer_authorizes : Witnesses
buyer_authorizes = witnesses (buyer_state the_buyer)

abbrev seller_settles : Witnesses
seller_settles =
    witnesses (seller_state (with_seller_price_opening the_seller (opening_of the_buyer)))

calls_run :
    (call plain joins seller_joins start ≡ ok joined)
    × (call plain authorizes buyer_authorizes joined ≡ ok authorized_deal)
    × (call plain settles seller_settles authorized_deal ≡ ok settled_deal)
unfolding call join_deal authorize_hidden_price settle public_key limit_commitment
    price_commitment_for deploy pad32 witnesses
calls_run = (refl, refl, refl)

call_lifecycle_example :
    Calls plain settles seller_settles authorized_deal
    × Moves settles authorized settled
    × SameDeal authorized_deal settled_deal
call_lifecycle_example =
    call_lifecycle plain settles seller_settles authorized_deal settled_deal calls_run.2

-- A price witness that is a 64-bit number or is not produced.
abbrev typed : Result ContractError ℕ → Bool
typed (ok n) = ltb n (2 ^ 64)
typed (err e) = true

typed_small : (r : Result ContractError ℕ) (n : ℕ) → typed r ≡ true → r ≡ ok n → n < 2 ^ 64
typed_small (ok m) n small h = subst (λ k. k < 2 ^ 64) (ok-injective h) (ltb→lt m (2 ^ 64) small)
typed_small (err e) n small h = cc

witnesses-IsTyped :
    (w : Witnesses)
    → typed w.buyer_max_price ≡ true
    → typed w.agreed_price ≡ true
    → typed w.seller_min_price ≡ true
    → IsTyped w
witnesses-IsTyped w a b c = record {
  max_price_uint64 = λ n. typed_small w.buyer_max_price n a;
  price_uint64 = λ n. typed_small w.agreed_price n b;
  min_price_uint64 = λ n. typed_small w.seller_min_price n c;
}

settled-Reach :
    Reach plain
      (deploy plain (1 ∷ []) start.buyer_key start.seller_key start.buyer_commitment)
      settled_deal
unfolding deploy witnesses
settled-Reach =
    next settles seller_settles
      (next authorizes buyer_authorizes
        (next joins seller_joins here (witnesses-IsTyped seller_joins refl refl refl) calls_run.0)
        (witnesses-IsTyped buyer_authorizes refl refl refl) calls_run.1)
      (witnesses-IsTyped seller_settles refl refl refl) calls_run.2

small_64 : (110000 < 2 ^ 64) × (101000 < 2 ^ 64) × (95000 < 2 ^ 64)
small_64 = (ltb→lt _ _ refl, ltb→lt _ _ refl, ltb→lt _ _ refl)

price-Opens : Opens (price_commit plain settled_deal) settled_deal.price_commitment 101000
unfolding deploy
price-Opens = record { randomness = 9 ∷ []; uint64 = small_64.1; opening = refl }

buyer-Opens : Opens (buyer_commit plain settled_deal) settled_deal.buyer_commitment 110000
unfolding deploy
buyer-Opens = record { randomness = 7 ∷ []; uint64 = small_64.0; opening = refl }

seller-Opens : Opens (seller_commit plain settled_deal) settled_deal.seller_commitment 95000
unfolding deploy
seller-Opens = record { randomness = 8 ∷ []; uint64 = small_64.2; opening = refl }

settled_within_limits_example : (95000 ≤ 101000) × (101000 ≤ 110000)
settled_within_limits_example =
    settled_within_limits plain (1 ∷ []) start.buyer_key start.seller_key start.buyer_commitment
      settled_deal 101000 110000 95000 plain-IsBinding settled-Reach refl price-Opens buyer-Opens
      seller-Opens
