-- ===== src/Runtime/Seller/Replies.antt =====
-- packages/seller-runtime/src/index.ts: the seller's handlers of keys, packets and answers keep what
-- it agrees to from its limit on.
use midnight_private_negotia.Common.{
  ℕ, ◌≡◌, refl, subst, Bool, true, false, Option, none, some, Text, text_eq_iff, sym, arith,
}
use midnight_private_negotia.Agent.Types.{PartyRole}
use midnight_private_negotia.Contract.Circuits.{DealStatus}
use midnight_private_negotia.Evidence.Store.{SessionRecord}
use midnight_private_negotia.Evidence.Finalize.{
  FinalizeOutcome, settled_evidence_saved, cancelled_cleaned, already_cleaned, kept,
}
use midnight_private_negotia.Relay.Server.{RelayPacket}
use midnight_private_negotia.Runtime.Action.{
  Action, bind-Keeps, then-Keeps, get-Keeps, required-Keeps, ensure-Keeps, modify-Keeps, done-Keeps,
  throw-Keeps, attempt-Keeps, ensured-Keeps,
}
use midnight_private_negotia.Runtime.Payload.{
  NegotiationPayload, proposal, accepts, declines, contract_ready, price_opening, seller_key,
}
use midnight_private_negotia.Runtime.Channel.{Environment}
use midnight_private_negotia.Runtime.Seller.{
  SellerTask, sends_key, responds, attaches, joins_deal, settles, cancels, cancels_after_failure,
  finalizes, Answer, SellerState,
}
use midnight_private_negotia.Runtime.Seller.Chain.{
  joined_when, cancel_on_chain, confirmed_on_chain, forget_session_secrets, finalize_on_chain,
  finalized_on_chain,
}
use midnight_private_negotia.Runtime.Seller.Handlers.{
  same_price, reporting, accept_peer_key, open_price, accept_payload, accept_relay_packet,
}
use midnight_private_negotia.Runtime.Seller.Run.{cancel_unsettled, run_task}
use midnight_private_negotia.Runtime.Seller.Limits.{
  PriceFrom, AgreedFrom, TaskFrom, same_offer-PriceFrom, Kept, on_channel-Keeps, await-Keeps,
  send_chain_state-Keeps, flush_seller_key-Keeps, try_join_on_chain-Keeps, await_when-Keeps,
  responded-Keeps, respond_to_proposal-Keeps,
}

-- A price that equals the agreed one.
same_price-PriceFrom :
    (limit : ℕ) (agreed : Option Text) (price : Text) (b : Bool)
    → AgreedFrom limit agreed
    → same_price agreed price ≡ b
    → b ≡ true
    → PriceFrom limit price
same_price-PriceFrom limit none price b from e t = absurd (ground arith)
same_price-PriceFrom limit (some agreed) price b from e t =
    subst (PriceFrom limit) (sym ((text_eq_iff price agreed).0 (ground arith))) from

module _ (env : Environment) (limit : ℕ) where
  pub reporting-Keeps :
      (code : Text) (m : Action SellerState (Unit {0}))
      → Kept limit m
      → Kept limit (reporting env code m)
  reporting-Keeps code m keeps = attempt-Keeps keeps (on_channel-Keeps limit _)

  pub accept_peer_key-Keeps :
      (session product : Text) (role : PartyRole) (key : Text)
      → Kept limit (accept_peer_key env session product role key)
  unfolding accept_peer_key
  accept_peer_key-Keeps session product role key = then-Keeps (on_channel-Keeps limit _) (
      then-Keeps (modify-Keeps _ (λ s v. v))
        (reporting-Keeps _ _ (flush_seller_key-Keeps env limit)))

  cancel_on_chain-Keeps :
      (task : SellerTask) → TaskFrom limit task → Kept limit (cancel_on_chain env task)
  cancel_on_chain-Keeps task from = get-Keeps (λ s _. await_when-Keeps env limit _ task from)

  open_price-Keeps :
      (same : Bool) (price randomness : Text)
      → (same ≡ true → PriceFrom limit price)
      → Kept limit (open_price env same price randomness)
  open_price-Keeps false price randomness from =
      then-Keeps (on_channel-Keeps limit _) (reporting-Keeps _ _ (cancel_on_chain-Keeps cancels tt))
  open_price-Keeps true price randomness from =
      reporting-Keeps _ _ (get-Keeps (λ s _. await_when-Keeps env limit _ _ (from refl)))

  accept_payload-Keeps : (payload : NegotiationPayload) → Kept limit (accept_payload env payload)
  unfolding accept_payload
  accept_payload-Keeps (contract_ready address) =
      then-Keeps (modify-Keeps _ (λ s v. v))
        (reporting-Keeps _ _ (try_join_on_chain-Keeps env limit))
  accept_payload-Keeps (price_opening price randomness) = get-Keeps (λ s v.
      open_price-Keeps _ price randomness
        (same_price-PriceFrom limit s.agreed_price price _ v.1 refl))
  accept_payload-Keeps (accepts round price) = get-Keeps (λ s v. then-Keeps (ensure-Keeps _ _) (
      then-Keeps (ensure-Keeps _ _) (
        ensured-Keeps _ _ (λ e. modify-Keeps _ (λ t w.
          let (m, _, o, ts) = w in
          (m, same_offer-PriceFrom limit s.last_sent_offer round price v.2 e, o, ts))))))
  accept_payload-Keeps (declines round) = throw-Keeps _
  accept_payload-Keeps (proposal round price) = get-Keeps (λ s _. then-Keeps (ensure-Keeps _ _) (
      then-Keeps (ensure-Keeps _ _)
        (reporting-Keeps _ _ (respond_to_proposal-Keeps env limit _ _))))
  accept_payload-Keeps (seller_key key) = throw-Keeps _

  pub accept_relay_packet-Keeps : (p : RelayPacket) → Kept limit (accept_relay_packet env p)
  unfolding accept_relay_packet
  accept_relay_packet-Keeps p = bind-Keeps (on_channel-Keeps limit _) (λ v.
      bind-Keeps (required-Keeps _ _)
        (λ payload. then-Keeps (modify-Keeps _ (λ t w. w)) (accept_payload-Keeps payload)))

  joined_when-Keeps :
      (b : Bool) (address : Text) (r : SessionRecord) → Kept limit (joined_when env b address r)
  joined_when-Keeps false address r = done-Keeps
  joined_when-Keeps true address r =
      then-Keeps (modify-Keeps _ (λ s v. v)) (send_chain_state-Keeps env limit _)

  forget_session_secrets-Keeps : Kept limit forget_session_secrets
  unfolding forget_session_secrets
  forget_session_secrets-Keeps = modify-Keeps _ (λ s v. let (m, a, o, ts) = v in (tt, tt, tt, ts))

  finalized_on_chain-Keeps :
      (outcome : FinalizeOutcome) → Kept limit (finalized_on_chain env outcome)
  unfolding finalized_on_chain
  finalized_on_chain-Keeps (settled_evidence_saved path) = then-Keeps (on_channel-Keeps limit _) (
      then-Keeps (on_channel-Keeps limit _)
        (then-Keeps (on_channel-Keeps limit _) forget_session_secrets-Keeps))
  finalized_on_chain-Keeps cancelled_cleaned =
      then-Keeps (on_channel-Keeps limit _) forget_session_secrets-Keeps
  finalized_on_chain-Keeps already_cleaned = done-Keeps
  finalized_on_chain-Keeps (kept reason) = on_channel-Keeps limit _

  pub finalize_on_chain-Keeps : Kept limit (finalize_on_chain env)
  unfolding finalize_on_chain
  finalize_on_chain-Keeps =
      get-Keeps (λ s _. then-Keeps (ensure-Keeps _ _) (await-Keeps limit _ tt))

  confirmed_on_chain-Keeps :
      (status : DealStatus) (b : Bool) → Kept limit (confirmed_on_chain env status b)
  confirmed_on_chain-Keeps status b =
      then-Keeps (ensure-Keeps _ _) (send_chain_state-Keeps env limit _)

  cancel_unsettled-Keeps : Kept limit (cancel_unsettled env)
  cancel_unsettled-Keeps =
      then-Keeps (on_channel-Keeps limit _)
        (attempt-Keeps (cancel_on_chain-Keeps cancels_after_failure tt) done-Keeps)

  pub run_task-Keeps :
      (task : SellerTask) (answer : Answer)
      → TaskFrom limit task
      → Kept limit (run_task env task answer)
  unfolding run_task
  run_task-Keeps sends_key answer from =
      reporting-Keeps _ _
        (get-Keeps (λ s _. bind-Keeps (required-Keeps _ _) (λ private. on_channel-Keeps limit _)))
  run_task-Keeps (responds context minimum price_offset) answer from =
      reporting-Keeps _ _ (responded-Keeps env limit _ _ _ _ from)
  run_task-Keeps (attaches session address) answer from =
      reporting-Keeps _ _ (
        bind-Keeps (required-Keeps _ _) (λ r. get-Keeps (λ s _. await_when-Keeps env limit _ _ tt)))
  run_task-Keeps (joins_deal session address r) answer from =
      reporting-Keeps _ _
        (then-Keeps (ensure-Keeps _ _) (get-Keeps (λ s _. joined_when-Keeps _ _ _)))
  run_task-Keeps (settles price randomness) answer from =
      attempt-Keeps (confirmed_on_chain-Keeps _ _) cancel_unsettled-Keeps
  run_task-Keeps cancels answer from = reporting-Keeps _ _ (confirmed_on_chain-Keeps _ _)
  run_task-Keeps cancels_after_failure answer from =
      attempt-Keeps (confirmed_on_chain-Keeps _ _) done-Keeps
  run_task-Keeps finalizes answer from =
      reporting-Keeps _ _
        (bind-Keeps (required-Keeps _ _) (λ outcome. finalized_on_chain-Keeps outcome))
