-- ===== src/Runtime/Tests.antt =====
-- Runs of packages/buyer-runtime/src/index.ts and packages/seller-runtime/src/index.ts at a concrete
-- room, and the theorems there.
use midnight_private_negotia.Common.{
  ◌↔◌, ok, ℕ, ◌==◌, ◌≡◌, ◌≤◌, refl, true, false, some, none, List, [], ◌∷◌, arith, length, All,
  codes, print, print_ℤ, value_from, ◌+ℤ◌, ◌-ℤ◌, err, if◌then◌else◌,
}
use midnight_private_negotia.Agent.Types.{buyer, seller, provider_failed}
use midnight_private_negotia.Agent.Price.{parse_price, is_offer_price_increment_valid}
use midnight_private_negotia.Agent.Ladder.{public_ladder_price}
use midnight_private_negotia.Agent.Policy.{
  validate_public_context, policy_allows_valid, policy_allows, public_strategy_target,
  strategy_allows,
}
use midnight_private_negotia.Agent.Offset.{
  derive_session_price_offset, offset_ceiling, offset_count, offset_of_sample, is_offset,
  normalize_private_prices, restore_private_price,
}
use midnight_private_negotia.Agent.Provider.{validate_candidates}
use midnight_private_negotia.Agent.Generate.{
  request_candidate, generate_allowed_candidate, generate_normalized,
  generate_local_fallback_candidate,
}
use midnight_private_negotia.Contract.Circuits.{settled}
use midnight_private_negotia.Relay.Server.{RelayPacket}
use midnight_private_negotia.Relay.Messages.{is_base64_rest}
use midnight_private_negotia.Relay.Payload.{Cipher, encrypt_relay_payload, decrypt_relay_payload}
use midnight_private_negotia.Relay.Client.{register_client, send_packet}
use midnight_private_negotia.Protocol.Types.{
  observer, configure_observer, observe_chain_state, party, RuntimeCommand, CommandBody, join_room,
  set_limit, peer_ready, settled_at,
}
use midnight_private_negotia.Protocol.Events.{create_demo_event}
use midnight_private_negotia.Protocol.Checks.{is_command}
use midnight_private_negotia.Runtime.Action.{
  ◌>>=◌, ◌>>◌, done, throw, lifted, modify, get, required, ensure, attempt, replayed,
}
use midnight_private_negotia.Runtime.Payload.{
  proposal, IsSendable, buyer_payload, seller_payload, payload_value, buyer_payload_roundtrip,
}
use midnight_private_negotia.Runtime.Channel.{
  Environment, new_channel, post, draw, emit, report, relay, agree_key, opened_packet,
  connect_relay,
}
use midnight_private_negotia.Runtime.Silence.{outcomes, tellings}
use midnight_private_negotia.Runtime.Buyer as BuyerModel
use midnight_private_negotia.Runtime.Buyer.Chain as BuyerChain
use midnight_private_negotia.Runtime.Buyer.Negotiation as BuyerRounds
use midnight_private_negotia.Runtime.Buyer.Handlers as BuyerHandlers
use midnight_private_negotia.Runtime.Buyer.Run as Buyer
use midnight_private_negotia.Runtime.Buyer.Limits.{OutcomeWithin, tellings_of}
use midnight_private_negotia.Runtime.Buyer.Commands.{SetsWithin}
use midnight_private_negotia.Runtime.Buyer.Safety.{run_events-OutcomeWithin, run_events-once}
use midnight_private_negotia.Runtime.Seller as SellerModel
use midnight_private_negotia.Runtime.Seller.Chain as SellerChain
use midnight_private_negotia.Runtime.Seller.Negotiation as SellerRounds
use midnight_private_negotia.Runtime.Seller.Handlers as SellerHandlers
use midnight_private_negotia.Runtime.Seller.Run as Seller
use midnight_private_negotia.Runtime.Seller.Limits.{AgreedFrom, TaskFrom}
use midnight_private_negotia.Runtime.Seller.Safety.{ArrivesFrom, run_events-AgreedFrom}
use midnight_private_negotia.Runtime.Buyer.Replayed.{accept_relay_packet-replayed}
use midnight_private_negotia.Runtime.Observer.{
  ObserverEvent, command_comes, poll_answered, new_observer, run_observer_events, emit_public,
  observing, observe_chain, run_observer, observer_command_arrives, indexer_answers,
}
use midnight_private_negotia.Runtime.Privacy.{IsBacked}
use midnight_private_negotia.Runtime.Privacy.Runs.{answers_of, run_observer_events-IsBacked}

abbrev cipher : Cipher
cipher = record {
  seal = λ key nonce associated plaintext. (plaintext, codes "dGFndGFndGFndGFndGFnMQ==");
  unseal = λ key nonce associated tag ciphertext. some ciphertext;
  print_json = λ v. codes "AAAA";
  parse_json = λ s. some (payload_value (proposal 10 (codes "100000")));
  decoded = λ s. if length s == 16 then 12 else 16;
}

abbrev shared_key : List ℕ
shared_key =
    1 ∷ 2 ∷ 3 ∷ 4 ∷ 5 ∷ 6 ∷ 7 ∷ 8 ∷ 9 ∷ 10 ∷ 11 ∷ 12 ∷ 13 ∷ 14 ∷ 15 ∷ 16 ∷ 17 ∷ 18 ∷ 19 ∷ 20 ∷ 21
    ∷ 22 ∷ 23 ∷ 24 ∷ 25 ∷ 26 ∷ 27 ∷ 28 ∷ 29 ∷ 30 ∷ 31 ∷ 32 ∷ []

abbrev environment : Environment
environment = record {
  chain_mode = false;
  reference_price = codes "100000";
  relay_token = some (codes "0123456789abcdef0123456789abcdef0123456789abcdef0123456789abcdef");
  cipher = cipher;
  is_date = λ t. true;
  event_id = λ n. codes "event";
  now = λ n. codes "2025-01-01";
  nonce = λ n. codes "bm9uY2Vub25jZTE=";
  random_bytes = λ n. [];
  key_pair = λ n. (codes "AAAA", codes "AAAA");
  deal_hash = λ n product. [];
  public_key_hex = λ key. [];
  derive_key = λ private peer info. some shared_key;
  hkdf = λ input attempt. 0;
  fuel = 5;
}

abbrev to_buyer : CommandBody → RuntimeCommand
to_buyer body = record { request_id = codes "r"; target = party buyer; body = body }

abbrev to_seller : CommandBody → RuntimeCommand
to_seller body = record { request_id = codes "r"; target = party seller; body = body }

-- A proposal at 100,000 KRW in the last round.
abbrev packet_to_buyer : RelayPacket
packet_to_buyer = record {
  session_id = codes "s1";
  product_code = codes "4821";
  sender = seller;
  target = buyer;
  sequence = 1;
  nonce = codes "bm9uY2Vub25jZTE=";
  ciphertext = codes "AAAA";
  auth_tag = codes "dGFndGFndGFndGFndGFnMQ==";
}

abbrev packet_to_seller : RelayPacket
packet_to_seller = record packet_to_buyer { sender = buyer; target = seller }

abbrev buyer_answer : BuyerModel.Answer
buyer_answer = record {
  provider = λ request context. err provider_failed;
  deployed = none;
  confirmed = false;
  outcome = none;
}

abbrev buyer_events : List Buyer.BuyerEvent
buyer_events =
    Buyer.command_arrives (to_buyer (join_room (codes "s1") (codes "4821")))
    ∷ Buyer.command_arrives (to_buyer (set_limit (codes "s1") (codes "120000")))
    ∷ Buyer.key_arrives (codes "s1") (codes "4821") seller (codes "AAAA")
    ∷ Buyer.command_arrives (to_buyer (peer_ready (codes "s1")))
    ∷ Buyer.packet_arrives packet_to_buyer
    ∷ Buyer.task_resumes 0 buyer_answer
    ∷ []

unfoldable agent_code : Unit {0}
unfolding is_command parse_price is_offer_price_increment_valid public_ladder_price
    validate_public_context policy_allows_valid policy_allows public_strategy_target strategy_allows
    is_offset normalize_private_prices restore_private_price validate_candidates request_candidate
    generate_allowed_candidate generate_normalized generate_local_fallback_candidate print print_ℤ
    value_from ◌+ℤ◌ ◌-ℤ◌ derive_session_price_offset offset_ceiling offset_count offset_of_sample
agent_code = tt

unfoldable channel_code : Unit {0}
unfolding register_client send_packet is_base64_rest encrypt_relay_payload decrypt_relay_payload
    create_demo_event ◌>>=◌ ◌>>◌ done throw lifted modify get required ensure attempt buyer_payload
    seller_payload payload_value new_channel post draw emit report relay agree_key opened_packet
    connect_relay
channel_code = tt

buyer_settles :
    outcomes (Buyer.run_events environment buyer_events BuyerModel.new_buyer).channel.outbox
    ≡ settled_at (codes "100000") ∷ []
unfolding agent_code channel_code BuyerModel.new_buyer BuyerModel.on_channel BuyerModel.await
    BuyerChain.flush_contract_ready BuyerChain.deploy_on_chain BuyerChain.tell_outcome
    BuyerChain.publish_outcome BuyerRounds.generate_and_execute BuyerHandlers.accept_peer_key
    BuyerHandlers.accept_payload BuyerHandlers.accept_relay_packet BuyerHandlers.greet
    BuyerHandlers.join BuyerHandlers.lock_limit BuyerHandlers.start Buyer.run_body
    Buyer.handle_command Buyer.run_task Buyer.take_event Buyer.run_events
buyer_settles = refl

buyer_limits : All (SetsWithin 120000) buyer_events
unfolding value_from
buyer_limits =
    (omega arith, (omega arith, (omega arith, (omega arith, (omega arith, (omega arith, tt))))))

run_events-OutcomeWithin_example :
    All
      (OutcomeWithin 120000)
      (outcomes (Buyer.run_events environment buyer_events BuyerModel.new_buyer).channel.outbox)
run_events-OutcomeWithin_example =
    run_events-OutcomeWithin environment 120000 buyer_events buyer_limits

run_events-once_example :
    tellings_of
      (codes "s1")
      (tellings (Buyer.run_events environment buyer_events BuyerModel.new_buyer).channel.outbox)
    ≤ 1
run_events-once_example = run_events-once environment buyer_events (codes "s1")

abbrev seller_answer : SellerModel.Answer
seller_answer = record {
  provider = λ request context. err provider_failed;
  attached = none;
  confirmed = false;
  outcome = none;
}

abbrev seller_events : List Seller.SellerEvent
seller_events =
    Seller.command_arrives (to_seller (join_room (codes "s1") (codes "4821")))
    ∷ Seller.command_arrives (to_seller (set_limit (codes "s1") (codes "80000")))
    ∷ Seller.key_arrives (codes "s1") (codes "4821") buyer (codes "AAAA")
    ∷ Seller.command_arrives (to_seller (peer_ready (codes "s1")))
    ∷ Seller.packet_arrives packet_to_seller
    ∷ Seller.task_resumes 0 seller_answer
    ∷ []

seller_agrees :
    (Seller.run_events environment seller_events SellerModel.new_seller).agreed_price
    ≡ some (codes "100000")
unfolding agent_code channel_code SellerModel.new_seller SellerModel.on_channel SellerModel.await
    SellerChain.flush_seller_key SellerChain.try_join_on_chain SellerRounds.respond_to_proposal
    SellerHandlers.accept_peer_key SellerHandlers.accept_payload SellerHandlers.accept_relay_packet
    SellerHandlers.greet SellerHandlers.join SellerHandlers.lock_limit Seller.run_body
    Seller.handle_command Seller.run_task Seller.take_event Seller.run_events
seller_agrees = refl

seller_limits : All (ArrivesFrom 80000) seller_events
unfolding value_from
seller_limits = (tt, (omega arith, (tt, (tt, (tt, (tt, tt))))))

run_events-AgreedFrom_example :
    AgreedFrom 80000
      (Seller.run_events environment seller_events SellerModel.new_seller).agreed_price
    × All
        (TaskFrom 80000)
        (Seller.run_events environment seller_events SellerModel.new_seller).tasks
run_events-AgreedFrom_example = run_events-AgreedFrom environment 80000 seller_events seller_limits

buyer_payload_roundtrip_example :
    (buyer_payload (payload_value (proposal 10 (codes "100000")))
      ≡ some (proposal 10 (codes "100000")))
    ↔ IsSendable (proposal 10 (codes "100000"))
buyer_payload_roundtrip_example = buyer_payload_roundtrip (proposal 10 (codes "100000"))

-- The run up to a packet, and what follows it
abbrev before_packet : List Buyer.BuyerEvent
before_packet =
    Buyer.command_arrives (to_buyer (join_room (codes "s1") (codes "4821")))
    ∷ Buyer.command_arrives (to_buyer (set_limit (codes "s1") (codes "120000")))
    ∷ Buyer.key_arrives (codes "s1") (codes "4821") seller (codes "AAAA")
    ∷ Buyer.command_arrives (to_buyer (peer_ready (codes "s1")))
    ∷ []

abbrev after_packet : List Buyer.BuyerEvent
after_packet = Buyer.task_resumes 0 buyer_answer ∷ Buyer.relay_errs ∷ []

packet_accepted :
    (BuyerHandlers.accept_relay_packet environment packet_to_buyer
      (Buyer.run_events environment before_packet BuyerModel.new_buyer)).0
    ≡ ok tt
unfolding agent_code channel_code BuyerModel.new_buyer BuyerModel.on_channel BuyerModel.await
    BuyerChain.flush_contract_ready BuyerChain.deploy_on_chain BuyerChain.tell_outcome
    BuyerChain.publish_outcome BuyerRounds.generate_and_execute BuyerHandlers.accept_peer_key
    BuyerHandlers.accept_payload BuyerHandlers.accept_relay_packet BuyerHandlers.greet
    BuyerHandlers.join BuyerHandlers.lock_limit BuyerHandlers.start Buyer.run_body
    Buyer.handle_command Buyer.run_task Buyer.take_event Buyer.run_events
packet_accepted = refl

-- The buyer after it accepted the packet and settled
abbrev settled_buyer : BuyerModel.BuyerState
settled_buyer =
    Buyer.run_events environment after_packet
      (BuyerHandlers.accept_relay_packet environment packet_to_buyer
        (Buyer.run_events environment before_packet BuyerModel.new_buyer)).1

accept_relay_packet-replayed_example :
    BuyerHandlers.accept_relay_packet environment packet_to_buyer settled_buyer
    ≡ (err replayed, settled_buyer)
accept_relay_packet-replayed_example =
    accept_relay_packet-replayed environment before_packet after_packet packet_to_buyer
      packet_to_buyer packet_accepted refl (omega arith)

abbrev chain_environment : Environment
chain_environment = record environment { chain_mode = true }

abbrev to_observer : CommandBody → RuntimeCommand
to_observer body = record { request_id = codes "r"; target = observer; body = body }

-- The indexer shows an authorized deal, and then a settled one.
abbrev observer_events : List ObserverEvent
observer_events =
    command_comes (to_observer (configure_observer (codes "s1") (codes "4821")))
    ∷ command_comes
        (to_observer (observe_chain_state (codes "s1") (codes "0123456789abcdef") settled))
    ∷ poll_answered 0 (some 2)
    ∷ poll_answered 0 (some 3)
    ∷ []

observer_shows :
    length (run_observer_events chain_environment observer_events new_observer).outbox ≡ 1
unfolding is_command channel_code new_observer run_observer_events emit_public observing
    observe_chain run_observer observer_command_arrives indexer_answers
observer_shows = refl

run_observer_events-IsBacked_example :
    All
      (IsBacked true (answers_of chain_environment observer_events new_observer []))
      (run_observer_events chain_environment observer_events new_observer).outbox
run_observer_events-IsBacked_example =
    run_observer_events-IsBacked chain_environment observer_events
