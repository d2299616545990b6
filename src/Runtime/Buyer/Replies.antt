-- ===== src/Runtime/Buyer/Replies.antt =====
-- packages/buyer-runtime/src/index.ts: the buyer's handlers of keys, packets and answers stay within
-- the limit.
use midnight_private_negotia.Runtime.Alike.{SentOffer, same_offer}
use midnight_private_negotia.Common.{
  ◌≤◌, sym, Bool-cases, inl, inr, ltb→lt, ℕ, ◌≡◌, subst, Bool, true, false, Option, none, some,
  arith, Text, text_eq_iff,
}
use midnight_private_negotia.Agent.Types.{PartyRole, buyer}
use midnight_private_negotia.Evidence.Finalize.{
  FinalizeOutcome, settled_evidence_saved, cancelled_cleaned, already_cleaned, kept,
}
use midnight_private_negotia.Relay.Server.{RelayPacket}
use midnight_private_negotia.Protocol.Types.{settled_at, cancelled_deal}
use midnight_private_negotia.Runtime.Action.{
  Action, bind-Keeps, then-Keeps, get-Keeps, required-Keeps, ensure-Keeps, modify-Keeps, done-Keeps,
  throw-Keeps, attempt-Keeps, ensured-Keeps,
}
use midnight_private_negotia.Runtime.Payload.{
  NegotiationPayload, proposal, accepts, declines, contract_ready, price_opening, seller_key,
}
use midnight_private_negotia.Runtime.Channel.{Environment}
use midnight_private_negotia.Runtime.Silence.{agree_key-Sent, opened_packet-Sent}
use midnight_private_negotia.Runtime.Buyer.{
  BuyerTask, begins, generates, deploys, authorizes, cancels, finalizes, Answer, BuyerState,
}
use midnight_private_negotia.Runtime.Buyer.Chain.{
  forget_session_secrets, finalize_on_chain, finalized_on_chain,
}
use midnight_private_negotia.Runtime.Buyer.Handlers.{
  reporting, accept_peer_key, key_for_deploy, next_or_cancel, accept_payload, accept_relay_packet,
}
use midnight_private_negotia.Runtime.Replay.{is_current, not_current-refused}
use midnight_private_negotia.Runtime.Buyer.Run.{begin_for, run_task}
use midnight_private_negotia.Runtime.Buyer.Limits.{
  IsWithin, Joins, PriceWithin, OfferWithin, TaskWithin, Kept, on_channel-Keeps, emit-Keeps,
  report-Keeps, await-Keeps, flush_contract_ready-Keeps, deploy_on_chain-Keeps,
  deployed_on_chain-Keeps, authorized_on_chain-Keeps, cancelled_on_chain-Keeps,
}
use midnight_private_negotia.Runtime.Buyer.Rounds.{
  publish_outcome-Keeps, generated-Keeps, generate_and_execute-Keeps,
}

-- An accepted offer is the last sent one.
same_offer-PriceWithin :
    (limit : ℕ) (sent : Option SentOffer) (round : ℕ) (price : Text)
    → OfferWithin limit sent
    → same_offer sent round price ≡ true
    → PriceWithin limit price
same_offer-PriceWithin limit none round price within e = absurd (ground arith)
same_offer-PriceWithin limit (some sent) round price (_, within) e =
    subst (PriceWithin limit) ((text_eq_iff sent.price price).0 (ground arith)) within

module _ (env : Environment) (limit : ℕ) (sessions : Joins) where
  pub reporting-Keeps :
      (code : Text) (m : Action BuyerState (Unit {0}))
      → Kept env limit sessions m
      → Kept env limit sessions (reporting env code m)
  reporting-Keeps code m keeps = attempt-Keeps keeps (report-Keeps env limit sessions code)

  pub accept_peer_key-Keeps :
      (session product : Text) (role : PartyRole) (key : Text)
      → Kept env limit sessions (accept_peer_key env session product role key)
  unfolding accept_peer_key
  accept_peer_key-Keeps session product role key =
      then-Keeps
        (on_channel-Keeps limit sessions _
          (λ os. agree_key-Sent env buyer os session product role key))
        (flush_contract_ready-Keeps env limit sessions)

  key_for_deploy-Keeps :
      (known : Option Text) (key : Text) → Kept env limit sessions (key_for_deploy env known key)
  key_for_deploy-Keeps (some known) key = done-Keeps
  key_for_deploy-Keeps none key =
      then-Keeps (modify-Keeps _ (λ s v. v))
        (reporting-Keeps _ _ (deploy_on_chain-Keeps env limit sessions))

  next_or_cancel-Keeps :
      (over : Bool) (round : ℕ) → Kept env limit sessions (next_or_cancel env over round)
  next_or_cancel-Keeps true round = publish_outcome-Keeps env limit sessions cancelled_deal tt
  next_or_cancel-Keeps false round =
      reporting-Keeps _ _ (generate_and_execute-Keeps env limit sessions _ _)

  pub accept_payload-Keeps :
      (payload : NegotiationPayload) → Kept env limit sessions (accept_payload env payload)
  unfolding accept_payload
  accept_payload-Keeps (seller_key key) = get-Keeps (λ s _. key_for_deploy-Keeps _ _)
  accept_payload-Keeps (accepts round price) = get-Keeps (λ s v. ensured-Keeps _ _ (λ e.
      publish_outcome-Keeps env limit sessions (settled_at price)
        (same_offer-PriceWithin limit s.last_sent_offer round price v.3 e)))
  accept_payload-Keeps (declines round) =
      get-Keeps (λ s _. then-Keeps (ensure-Keeps _ _) (next_or_cancel-Keeps _ _))
  accept_payload-Keeps (proposal round price) =
      reporting-Keeps _ _ (generate_and_execute-Keeps env limit sessions _ _)
  accept_payload-Keeps (contract_ready address) = throw-Keeps _
  accept_payload-Keeps (price_opening price randomness) = throw-Keeps _

  -- After the guard of the packet's number
  accept_newer-Keeps :
      (p : RelayPacket)
      → sessions.2 ≤ p.sequence
      → Kept env limit sessions (accept_relay_packet env p)
  unfolding accept_relay_packet
  accept_newer-Keeps p newer =
      bind-Keeps (on_channel-Keeps limit sessions _ (λ os. opened_packet-Sent env buyer os p)) (λ v.
        bind-Keeps (required-Keeps _ _) (λ payload. then-Keeps (ensure-Keeps _ _) (
          get-Keeps (λ s _. then-Keeps (ensure-Keeps _ _) (
            then-Keeps
              (modify-Keeps
                (λ t. record t { channel = record (t.channel) { received_sequence = p.sequence } })
                (λ t w. let ((n, r), os, m, o, ts) = w in ((n, newer), os, m, o, ts)))
              (accept_payload-Keeps payload))))))

  pub accept_relay_packet-Keeps :
      (p : RelayPacket) → Kept env limit sessions (accept_relay_packet env p)
  accept_relay_packet-Keeps p = record {
    kept = λ s v. elim (Bool-cases (is_current buyer s.channel p)) [
      | inl current ↦ (accept_newer-Keeps p (current_newer s v.0.1 current)).kept s v
      | inr old ↦ subst (λ r. IsWithin limit sessions r.1) (sym (not_current-refused env p s old)) v
    ];
  }
    where
      current_newer :
          (s : BuyerState)
          → sessions.2 ≤ s.channel.received_sequence
          → is_current buyer s.channel p ≡ true
          → sessions.2 ≤ p.sequence
      current_newer s r current =
          let later = ltb→lt s.channel.received_sequence p.sequence (ground arith) in
          omega (arith, r, later)

  forget_session_secrets-Keeps : Kept env limit sessions forget_session_secrets
  unfolding forget_session_secrets
  forget_session_secrets-Keeps =
      modify-Keeps _ (λ s v. let (n, os, m, o, ts) = v in (n, os, tt, tt, ts))

  finalized_on_chain-Keeps :
      (outcome : FinalizeOutcome) → Kept env limit sessions (finalized_on_chain env outcome)
  unfolding finalized_on_chain
  finalized_on_chain-Keeps (settled_evidence_saved path) =
      then-Keeps (emit-Keeps env limit sessions _ _ _) (
        then-Keeps (emit-Keeps env limit sessions _ _ _)
          (then-Keeps (emit-Keeps env limit sessions _ _ _) forget_session_secrets-Keeps))
  finalized_on_chain-Keeps cancelled_cleaned =
      then-Keeps (emit-Keeps env limit sessions _ _ _) forget_session_secrets-Keeps
  finalized_on_chain-Keeps already_cleaned = done-Keeps
  finalized_on_chain-Keeps (kept reason) = emit-Keeps env limit sessions _ _ _

  pub finalize_on_chain-Keeps : Kept env limit sessions (finalize_on_chain env)
  unfolding finalize_on_chain
  finalize_on_chain-Keeps =
      get-Keeps (λ s _. then-Keeps (ensure-Keeps _ _) (await-Keeps env limit sessions _ tt))

  begin_for-Keeps : (product : Option Text) → Kept env limit sessions (begin_for env product)
  begin_for-Keeps none = done-Keeps
  begin_for-Keeps (some product) =
      reporting-Keeps _ _ (generate_and_execute-Keeps env limit sessions _ _)

  pub run_task-Keeps :
      (task : BuyerTask) (answer : Answer)
      → TaskWithin limit task
      → Kept env limit sessions (run_task env task answer)
  unfolding run_task
  run_task-Keeps begins answer within = get-Keeps (λ s _. begin_for-Keeps _)
  run_task-Keeps (generates context maximum price_offset) answer within =
      reporting-Keeps _ _ (generated-Keeps env limit sessions _ _ _ _ within)
  run_task-Keeps (deploys session) answer within =
      reporting-Keeps _ _ (
        bind-Keeps (required-Keeps _ _) (λ d. deployed_on_chain-Keeps env limit sessions session d))
  run_task-Keeps (authorizes amount) answer within =
      reporting-Keeps _ _ (authorized_on_chain-Keeps env limit sessions _ _)
  run_task-Keeps cancels answer within =
      reporting-Keeps _ _ (cancelled_on_chain-Keeps env limit sessions _)
  run_task-Keeps finalizes answer within =
      reporting-Keeps _ _
        (bind-Keeps (required-Keeps _ _) (λ outcome. finalized_on_chain-Keeps outcome))
