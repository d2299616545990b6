-- ===== src/Runtime/Silence.antt =====
-- packages/buyer-runtime/src/index.ts and packages/seller-runtime/src/index.ts: the outcomes among
-- the messages to the controller, and the actions of the channel, which send none.
use midnight_private_negotia.Common.{
  ℕ, ◌≡◌, Option, none, some, List, [], ◌∷◌, Text, Result, ok, err,
}
use midnight_private_negotia.Agent.Types.{PartyRole}
use midnight_private_negotia.Relay.Server.{RelayPacket}
use midnight_private_negotia.Relay.Client.{RoomRelayClient, ClientError}
use midnight_private_negotia.Protocol.Types.{
  DemoState, RuntimeMessage, runtime_ready, runtime_boot_failed, demo_event, relay_channel_ready,
  chain_wallet_ready, chain_tx_confirmed, negotiation_outcome, Outcome,
}
use midnight_private_negotia.Runtime.Action.{
  Keeps, bind-Keeps, then-Keeps, get-Keeps, required-Keeps, ensure-Keeps, lifted-Keeps,
  modify-Keeps, done-Keeps,
}
use midnight_private_negotia.Runtime.Payload.{NegotiationPayload}
use midnight_private_negotia.Runtime.Channel.{
  Environment, Channel, draw, emit, report, report_in, registration_told, relay, agree_key, post,
  opened_packet, connect_relay,
}

-- The outcomes among the messages, newest first.
abbrev pub outcomes : List RuntimeMessage → List Outcome
outcomes [] = []
outcomes (negotiation_outcome session result ∷ ms) = result ∷ outcomes ms
outcomes (runtime_ready role pid ∷ ms) = outcomes ms
outcomes (runtime_boot_failed role reason ∷ ms) = outcomes ms
outcomes (demo_event event ∷ ms) = outcomes ms
outcomes (relay_channel_ready role session ∷ ms) = outcomes ms
outcomes (chain_wallet_ready role address ∷ ms) = outcomes ms
outcomes (chain_tx_confirmed role session address status ∷ ms) = outcomes ms

-- The sessions of the outcomes, newest first.
abbrev pub tellings : List RuntimeMessage → List Text
tellings [] = []
tellings (negotiation_outcome session result ∷ ms) = session ∷ tellings ms
tellings (runtime_ready role pid ∷ ms) = tellings ms
tellings (runtime_boot_failed role reason ∷ ms) = tellings ms
tellings (demo_event event ∷ ms) = tellings ms
tellings (relay_channel_ready role session ∷ ms) = tellings ms
tellings (chain_wallet_ready role address ∷ ms) = tellings ms
tellings (chain_tx_confirmed role session address status ∷ ms) = tellings ms

-- What the channel's actions leave as it is: the outcomes, their sessions, the present session and the
-- number of the last accepted packet.
pub record Said : Type 0 where
  pub results : List Outcome
  pub told_to : List Text
  pub session : Option Text
  pub received : ℕ

abbrev pub said_by : Channel → Said
said_by c = record {
  results = outcomes c.outbox;
  told_to = tellings c.outbox;
  session = c.session_id;
  received = c.received_sequence;
}

abbrev pub Sent : Said → Channel → Type 0
Sent os c = said_by c ≡ os

module _ (os : Said) where
  pub draw-Sent : Keeps (Sent os) draw
  unfolding draw
  draw-Sent = record { kept = λ c v. v }

module _ (env : Environment) (role : PartyRole) (os : Said) where
  pub emit-Sent :
      (state : DemoState) (code : Text) (key : Option Text)
      → Keeps (Sent os) (emit env role state code key)
  unfolding emit post
  emit-Sent state code key = get-Keeps (λ c _. bind-Keeps (required-Keeps _ _) (λ session.
      bind-Keeps (draw-Sent os)
        (λ n. bind-Keeps (lifted-Keeps _) (λ event. modify-Keeps _ (λ d v. v)))))

  report_in-Sent :
      (session : Option Text) (code : Text) → Keeps (Sent os) (report_in env role session code)
  report_in-Sent none code = done-Keeps
  report_in-Sent (some session) code = emit-Sent _ _ _

  pub report-Sent : (code : Text) → Keeps (Sent os) (report env role code)
  unfolding report
  report-Sent code = get-Keeps (λ c _. report_in-Sent c.session_id code)

  pub relay-Sent : (payload : NegotiationPayload) → Keeps (Sent os) (relay env role payload)
  unfolding relay
  relay-Sent payload = get-Keeps (λ c _. bind-Keeps (required-Keeps _ _) (λ session.
      bind-Keeps (required-Keeps _ _) (λ product. bind-Keeps (required-Keeps _ _) (λ shared.
        bind-Keeps (required-Keeps _ _) (λ client. then-Keeps (modify-Keeps _ (λ d v. v)) (
          bind-Keeps (draw-Sent os) (λ n.
            bind-Keeps (lifted-Keeps _)
              (λ packet. then-Keeps (lifted-Keeps _) (modify-Keeps _ (λ d v. v))))))))))

  pub agree_key-Sent :
      (session product : Text) (from_role : PartyRole) (key : Text)
      → Keeps (Sent os) (agree_key env role session product from_role key)
  unfolding agree_key post
  agree_key-Sent session product from_role key = get-Keeps (λ c _. then-Keeps (ensure-Keeps _ _) (
      bind-Keeps (required-Keeps _ _) (λ private.
        bind-Keeps (required-Keeps _ _)
          (λ shared. then-Keeps (modify-Keeps _ (λ d v. v)) (modify-Keeps _ (λ d v. v))))))

  pub opened_packet-Sent : (p : RelayPacket) → Keeps (Sent os) (opened_packet env role p)
  unfolding opened_packet
  opened_packet-Sent p = get-Keeps (λ c _.
      bind-Keeps (required-Keeps _ _) (λ shared. then-Keeps (ensure-Keeps _ _) (lifted-Keeps _)))

  registration_told-Sent :
      (registered : Result ClientError RoomRelayClient)
      → Keeps (Sent os) (registration_told env role registered)
  registration_told-Sent (ok registered) = done-Keeps
  registration_told-Sent (err e) = report-Sent _

  pub connect_relay-Sent :
      (session product : Text) (n : ℕ) → Keeps (Sent os) (connect_relay env role session product n)
  unfolding connect_relay
  connect_relay-Sent session product n =
      bind-Keeps (required-Keeps _ _)
        (λ token. then-Keeps (modify-Keeps _ (λ d v. v)) (registration_told-Sent _))
