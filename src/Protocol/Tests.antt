-- ===== src/Protocol/Tests.antt =====
-- The theorems on packages/protocol/src/index.ts at concrete values.
use midnight_private_negotia.Common.{◌≡◌, refl, true, some, none, codes, value_from, ok}
use midnight_private_negotia.Agent.Types.{buyer}
use midnight_private_negotia.Protocol.Types.{party, agreed_state, participants, DemoEvent}
use midnight_private_negotia.Protocol.Events.{check_event, IsPrivate, check_event-IsPrivate}

abbrev agreement : DemoEvent
agreement = record {
  event_id = codes "event";
  occurred_at = codes "2025-01-01";
  panel = party buyer;
  session_id = codes "s1";
  state = agreed_state;
  message_code = codes "NEGOTIATION_SETTLED";
  audience = participants;
  product_code = none;
  correlation_id = some (codes "c1");
  replace_key = some (codes "buyer-settlement");
  agreed_amount = some (codes "100000");
}

agreement_accepted : check_event (λ t. true) agreement ≡ ok agreement
unfolding value_from
agreement_accepted = refl

check_event-IsPrivate_example : (agreement ≡ agreement) × IsPrivate agreement
check_event-IsPrivate_example =
    check_event-IsPrivate (λ t. true) agreement agreement agreement_accepted
