-- ===== src/Runtime/Seller.antt =====
-- packages/seller-runtime/src/index.ts: the seller's process and its state. What runs after an
-- `await` is a task, which an event resumes with the answer it waited for.
pub mod Chain
pub mod Negotiation
pub mod Handlers
pub mod Run
pub mod Limits
pub mod Replies
pub mod Safety
use midnight_private_negotia.Runtime.Alike.{SentOffer}
use midnight_private_negotia.Runtime.Alike.{SentOffer}
use midnight_private_negotia.Common.{
  ℕ, ℤ, Bool, true, false, ◌&&◌, Option, none, some, List, [], ◌∷◌, ◌==◌, Text, text_eq, Result, ok,
  err,
}
use midnight_private_negotia.Agent.Types.{PublicContext}
use midnight_private_negotia.Agent.Provider.{CandidateProvider}
use midnight_private_negotia.Contract.Witnesses.{SellerPrivateState}
use midnight_private_negotia.Evidence.Store.{SessionRecord}
use midnight_private_negotia.Evidence.Finalize.{FinalizeOutcome}
use midnight_private_negotia.Runtime.Action.{RuntimeError, Action, modify}
use midnight_private_negotia.Runtime.Channel.{Channel, new_channel}

-- What waits for an answer of the provider, of the chain or of the disk.
pub data SellerTask : Type 0 where
  sends_key : SellerTask
  responds : PublicContext → (minimum : ℕ) → (price_offset : ℤ) → SellerTask
  attaches : (session_id contract_address : Text) → SellerTask
  joins_deal : (session_id contract_address : Text) → SessionRecord → SellerTask
  settles : (price price_randomness : Text) → SellerTask
  cancels : SellerTask
  cancels_after_failure : SellerTask
  finalizes : SellerTask

-- The answers; a task reads the one it waits for. `none` and `false` stand for an exception.
pub record Answer : Type 0 where
  pub provider : CandidateProvider
  pub attached : Option SessionRecord
  pub confirmed : Bool
  pub outcome : Option FinalizeOutcome

-- `chain_contract_address` stands for `chainContract` and `chainProviders` too, which are set with it.
pub record SellerState : Type 0 where
  pub channel : Channel
  pub seller_min_price : Option ℕ
  pub chain_state : Option SellerPrivateState
  pub chain_contract_address : Option Text
  pub pending_contract_address : Option Text
  pub chain_join_started : Bool
  pub seller_key_sent : Bool
  pub agreed_price : Option Text
  pub role_storage : Bool
  pub session_record : Option SessionRecord
  pub peer_ready : Bool
  pub last_sent_offer : Option SentOffer
  pub tasks : List SellerTask

unfoldable pub new_seller : SellerState
unfolding new_channel
new_seller = record {
  channel = new_channel;
  seller_min_price = none;
  chain_state = none;
  chain_contract_address = none;
  pending_contract_address = none;
  chain_join_started = false;
  seller_key_sent = false;
  agreed_price = none;
  role_storage = false;
  session_record = none;
  peer_ready = false;
  last_sent_offer = none;
  tasks = [];
}

abbrev pub with_channel : SellerState → Channel → SellerState
with_channel s c = record s { channel = c }

abbrev pub onto :
    {A : Type 0}
    → SellerState
    → Result RuntimeError A × Channel
    → Result RuntimeError A × SellerState
onto s (r, c) = (r, with_channel s c)

unfoldable pub on_channel : {A : Type 0} → Action Channel A → Action SellerState A
on_channel m s = onto s (m s.channel)

unfoldable pub await : SellerTask → Action SellerState (Unit {0})
await task = modify (λ s. record s { tasks = task ∷ s.tasks })
