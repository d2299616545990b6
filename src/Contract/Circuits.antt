-- ===== src/Contract/Circuits.antt =====
-- packages/negotiation-contract/src/negotiation.compact: the public ledger and its circuits.
use midnight_private_negotia.Common.{
  ℕ, zero, suc, ◌-◌, Bool, true, false, not, List, [], ◌∷◌, ◌++◌, leb, length, Text, codes, text_eq,
  Result, ok, guard, ◌>>=◌, ◌>>◌,
}

abbrev pub Bytes : Type 0
Bytes = List ℕ

pub data DealStatus : Type 0 where
  waiting_seller opened authorized settled cancelled : DealStatus

abbrev pub status_eq : DealStatus → DealStatus → Bool
status_eq waiting_seller waiting_seller = true
status_eq opened opened = true
status_eq authorized authorized = true
status_eq settled settled = true
status_eq cancelled cancelled = true
status_eq _ _ = false

-- `export sealed ledger` and `export ledger`.
pub record Ledger : Type 0 where
  pub deal_id : Bytes
  pub buyer_key : Bytes
  pub seller_key : Bytes
  pub buyer_commitment : Bytes
  pub seller_commitment : Bytes
  pub price_commitment : Bytes
  pub status : DealStatus

pub data ContractError : Type 0 where
  not_waiting_for_seller not_open not_authorized settled_deal : ContractError
  caller_is_not_buyer caller_is_not_seller : ContractError
  buyer_limit_mismatch seller_limit_mismatch price_mismatch : ContractError
  price_exceeds_maximum price_below_minimum : ContractError
  wrong_private_state no_price_opening : ContractError
  not_32_bytes not_uint64 separator_too_long not_hex : ContractError

-- The witnesses of a call: values from the caller's machine, each of which may fail to be produced.
abbrev pub Witness : Type 0 → Type 0
Witness A = Result ContractError A

pub record Witnesses : Type 0 where
  pub buyer_secret_key : Witness Bytes
  pub seller_secret_key : Witness Bytes
  pub buyer_cancel_secret_key : Witness Bytes
  pub seller_cancel_secret_key : Witness Bytes
  pub buyer_max_price : Witness ℕ
  pub buyer_limit_randomness : Witness Bytes
  pub agreed_price : Witness ℕ
  pub price_randomness : Witness Bytes
  pub seller_min_price : Witness ℕ
  pub seller_limit_randomness : Witness Bytes

abbrev zeros : ℕ → Bytes
zeros n = elim n [ zero ↦ [] | suc (k → rest) ↦ 0 ∷ rest ]

-- `pad(32, text)`
unfoldable pub pad32 : Text → Bytes
pad32 text = text ++ zeros (32 - length text)

-- `persistentHash` on vectors of 32-byte values, and `price as Bytes<32>`.
pub record Crypto : Type 0 where
  pub persistent_hash : List Bytes → Bytes
  pub field_bytes : ℕ → Bytes

abbrev pub buyer_domain : Text
buyer_domain = codes "negotiation:buyer:"

abbrev pub seller_domain : Text
seller_domain = codes "negotiation:seller:"

module _ (crypto : Crypto) where
  open crypto use {persistent_hash, field_bytes}

  unfoldable pub public_key : Bytes → Bytes
  public_key secret_key =
      persistent_hash (pad32 (codes "negotiation:public-key:") ∷ secret_key ∷ [])

  unfoldable pub limit_commitment : Bytes → Bytes → Bytes → ℕ → Bytes → Bytes
  limit_commitment deal_id role key limit randomness =
      persistent_hash (deal_id ∷ role ∷ key ∷ field_bytes limit ∷ randomness ∷ [])

  unfoldable pub price_commitment_for : Bytes → ℕ → Bytes → Bytes
  price_commitment_for deal_id price randomness =
      persistent_hash
        (deal_id ∷ pad32 (codes "negotiation:price:") ∷ field_bytes price ∷ randomness ∷ [])

  -- `constructor`
  unfoldable pub deploy : Bytes → Bytes → Bytes → Bytes → Ledger
  deploy deal_id buyer_key seller_key buyer_commitment = record {
    deal_id = deal_id;
    buyer_key = buyer_key;
    seller_key = seller_key;
    buyer_commitment = buyer_commitment;
    seller_commitment = pad32 [];
    price_commitment = pad32 [];
    status = waiting_seller;
  }

  -- `joinDeal`
  unfoldable pub join_deal : Witnesses → Ledger → Result ContractError Ledger
  join_deal w l = do
    guard (status_eq l.status waiting_seller) not_waiting_for_seller
    secret_key ← w.seller_secret_key
    guard (text_eq (public_key secret_key) l.seller_key) caller_is_not_seller
    min_price ← w.seller_min_price
    randomness ← w.seller_limit_randomness
    ok (record l {
      seller_commitment =
          limit_commitment l.deal_id (pad32 seller_domain) l.seller_key min_price randomness;
      status = opened;
    })

  -- `authorizeHiddenPrice`
  unfoldable pub authorize_hidden_price : Witnesses → Ledger → Result ContractError Ledger
  authorize_hidden_price w l = do
    guard (status_eq l.status opened) not_open
    secret_key ← w.buyer_secret_key
    guard (text_eq (public_key secret_key) l.buyer_key) caller_is_not_buyer
    max_price ← w.buyer_max_price
    limit_randomness ← w.buyer_limit_randomness
    price ← w.agreed_price
    price_randomness ← w.price_randomness
    guard
        (text_eq
          (limit_commitment l.deal_id (pad32 buyer_domain) l.buyer_key max_price limit_randomness)
          l.buyer_commitment)
        buyer_limit_mismatch
    guard (leb price max_price) price_exceeds_maximum
    ok (record l {
      price_commitment = price_commitment_for l.deal_id price price_randomness;
      status = authorized;
    })

  -- `settle`
  unfoldable pub settle : Witnesses → Ledger → Result ContractError Ledger
  settle w l = do
    guard (status_eq l.status authorized) not_authorized
    secret_key ← w.seller_secret_key
    guard (text_eq (public_key secret_key) l.seller_key) caller_is_not_seller
    min_price ← w.seller_min_price
    limit_randomness ← w.seller_limit_randomness
    price ← w.agreed_price
    price_randomness ← w.price_randomness
    guard
        (text_eq
          (limit_commitment l.deal_id (pad32 seller_domain) l.seller_key min_price limit_randomness)
          l.seller_commitment)
        seller_limit_mismatch
    guard (text_eq (price_commitment_for l.deal_id price price_randomness) l.price_commitment)
        price_mismatch
    guard (leb min_price price) price_below_minimum
    ok (record l { status = settled })

  -- `cancelAsBuyer`
  unfoldable pub cancel_as_buyer : Witnesses → Ledger → Result ContractError Ledger
  cancel_as_buyer w l = do
    secret_key ← w.buyer_cancel_secret_key
    guard (text_eq (public_key secret_key) l.buyer_key) caller_is_not_buyer
    guard (not (status_eq l.status settled)) settled_deal
    ok (record l { status = cancelled })

  -- `cancelAsSeller`
  unfoldable pub cancel_as_seller : Witnesses → Ledger → Result ContractError Ledger
  cancel_as_seller w l = do
    secret_key ← w.seller_cancel_secret_key
    guard (text_eq (public_key secret_key) l.seller_key) caller_is_not_seller
    guard (not (status_eq l.status settled)) settled_deal
    ok (record l { status = cancelled })

pub data Circuit : Type 0 where
  joins authorizes settles buyer_cancels seller_cancels : Circuit

-- A transaction calls one circuit; one that fails leaves the ledger as it was.
unfoldable pub call : Crypto → Circuit → Witnesses → Ledger → Result ContractError Ledger
call crypto joins = join_deal crypto
call crypto authorizes = authorize_hidden_price crypto
call crypto settles = settle crypto
call crypto buyer_cancels = cancel_as_buyer crypto
call crypto seller_cancels = cancel_as_seller crypto
