-- ===== src/Contract/Witnesses.antt =====
-- packages/negotiation-contract/src/witnesses.ts: the witnesses that a role's private state gives.
use midnight_private_negotia.Common.{ℕ, Option, none, some, ok, err, ◌>>=◌}
use midnight_private_negotia.Contract.Circuits.{
  Bytes, wrong_private_state, no_price_opening, Witness, Witnesses,
}

pub record BuyerPrivateState : Type 0 where
  pub buyer_secret_key : Bytes
  pub buyer_max_price : ℕ
  pub buyer_limit_randomness : Bytes
  pub agreed_price : ℕ
  pub price_randomness : Bytes

pub record SellerPriceOpening : Type 0 where
  pub agreed_price : ℕ
  pub price_randomness : Bytes

pub record SellerPrivateState : Type 0 where
  pub seller_secret_key : Bytes
  pub seller_min_price : ℕ
  pub seller_limit_randomness : Bytes
  pub price_opening : Option SellerPriceOpening

pub data PrivateState : Type 0 where
  buyer_state : BuyerPrivateState → PrivateState
  seller_state : SellerPrivateState → PrivateState

-- `requireBuyer`
abbrev pub require_buyer : PrivateState → Witness BuyerPrivateState
require_buyer (buyer_state s) = ok s
require_buyer (seller_state s) = err wrong_private_state

-- `requireSeller`
abbrev pub require_seller : PrivateState → Witness SellerPrivateState
require_seller (buyer_state s) = err wrong_private_state
require_seller (seller_state s) = ok s

-- `requirePriceOpening`
abbrev pub require_price_opening : SellerPrivateState → Witness SellerPriceOpening
require_price_opening s = elim s.price_opening [
  | none ↦ err no_price_opening
  | some opening ↦ ok opening
]

-- `withSellerPriceOpening`
abbrev pub with_seller_price_opening : SellerPrivateState → SellerPriceOpening → SellerPrivateState
with_seller_price_opening state opening = record state { price_opening = some opening }

abbrev agreed_price_of : PrivateState → Witness ℕ
agreed_price_of (buyer_state s) = ok s.agreed_price
agreed_price_of (seller_state s) = do opening ← require_price_opening s; ok opening.agreed_price

abbrev price_randomness_of : PrivateState → Witness Bytes
price_randomness_of (buyer_state s) = ok s.price_randomness
price_randomness_of (seller_state s) = do
  opening ← require_price_opening s
  ok opening.price_randomness

-- `witnesses`
unfoldable pub witnesses : PrivateState → Witnesses
witnesses state = record {
  buyer_secret_key = require_buyer state >>= λ s. ok s.buyer_secret_key;
  seller_secret_key = require_seller state >>= λ s. ok s.seller_secret_key;
  buyer_cancel_secret_key = require_buyer state >>= λ s. ok s.buyer_secret_key;
  seller_cancel_secret_key = require_seller state >>= λ s. ok s.seller_secret_key;
  buyer_max_price = require_buyer state >>= λ s. ok s.buyer_max_price;
  buyer_limit_randomness = require_buyer state >>= λ s. ok s.buyer_limit_randomness;
  agreed_price = agreed_price_of state;
  price_randomness = price_randomness_of state;
  seller_min_price = require_seller state >>= λ s. ok s.seller_min_price;
  seller_limit_randomness = require_seller state >>= λ s. ok s.seller_limit_randomness;
}
