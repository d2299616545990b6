-- ===== src/Lib.antt =====
-- The negotiation of two parties over a price that both keep private (Midnight Private Negotiation):
-- their agents choose offers from a public ladder, a relay carries the encrypted messages, a contract
-- settles the deal, and each party keeps evidence of it and erases its private state.
--
-- Parts and files:
-- - packages/agent-core/src/index.ts is Agent: Agent/Types (the data), Agent/Price (parsePrice,
--   rounding), Agent/Ladder (publicLadderPrice), Agent/Policy (validatePublicContext, policyAllows,
--   strategyAllows), Agent/Offset (deriveSessionPriceOffset, normalizePrivatePrices,
--   restorePrivatePrice), Agent/Provider (validateCandidates, the deterministic mock provider),
--   Agent/Generate (generateAllowedCandidate, generateLocalFallbackCandidate). A provider is any
--   function from the number of a request and its context to candidates, or to a failure.
-- - packages/negotiation-contract/src is Contract: Contract/Circuits (the ledger and the circuits of
--   negotiation.compact), Contract/Witnesses (witnesses.ts), Contract/Commitments (commitments.ts).
--   A circuit is a function from witnesses and the ledger to a ledger or an error; a call that fails
--   leaves the ledger. Contract/Binding runs any sequence of calls with any witnesses.
-- - packages/room-relay/src is Relay: Relay/Messages (the parsers of index.ts for what clients send),
--   Relay/Payload (its encryption of payloads), Relay/Client (its RoomRelayClient and the parser of
--   what the relay sends), Relay/Server (register, routePacket and the close handler of server.ts),
--   Relay/Frames (its data handler), Relay/Replay (runs of the server over the events of all its
--   sockets). The handlers are functions on the server's state; what they send is a list in it.
-- - packages/evidence/src is Evidence: Evidence/Envelope (parsing and encryption of evidence.ts),
--   Evidence/Store (files, the private state stores and the steps of async functions, saveEvidence,
--   loadEvidence), Evidence/Verify and Evidence/Finalize (finalize.ts). An async function is a
--   state-passing function that may throw; what it did before stays done.
-- - packages/protocol/src/index.ts is Protocol: Protocol/Types (commands, messages, events),
--   Protocol/Events (parseDemoEvent, createDemoEvent), Protocol/Checks (the field tests of
--   parseRuntimeCommand and parseRuntimeMessage).
-- - packages/buyer-runtime/src/index.ts and packages/seller-runtime/src/index.ts are Runtime:
--   Runtime/Action (handlers on a state that may throw), Runtime/Payload (the negotiation payloads),
--   Runtime/Channel (what both processes do alike: emit, relay, acceptPeerKey, the tests on a packet,
--   JOIN_ROOM), Runtime/Alike (the tests and results both treat alike), Runtime/Buyer and Runtime/Seller (their variables), in each Chain (the calls of the
--   chain, publishOutcome, finalizeOnChain), Negotiation (generateAndExecute, respondToProposal,
--   executeCandidate), Handlers (acceptRelayPacket and the commands' cases) and Run (the message
--   handler, the tasks and the runs). Whatever follows an await or a timer is a task in a list; an
--   event resumes the task at a place of the list with any answer, so the runs cover every
--   interleaving of commands, packets and answers.
-- - packages/demo-controller/src/orchestrator.ts is Controller: Controller/State (the controller's maps
--   and sets, emit, send), Controller/Sessions (tryMatchRoom, tryReadySession, tryStartNegotiation),
--   Controller/Outcomes (acceptOutcome, the timers, acceptChainTransaction, acceptObserverEvent),
--   Controller/Messages (the message handler and the runs). Controller/Naming is session-id.ts and
--   display-policy.ts beside it.
-- - packages/observer-runtime/src/index.ts is Runtime/Observer: an observation that polls the indexer
--   is a task, and an event gives it the status that the indexer shows.
-- - Common holds what they share: tests on numbers, integers, text, decimal numerals, results, JSON.
--
-- The contract's commitments recompute in Evidence; the agent's roles and prices are those of the
-- contract's private states; the relay is independent of what it carries. The runtimes call the agent
-- for their moves, the relay's client for their packets and evidence for the end of a session, and
-- exchange the protocol's commands and messages with the controller.
--
-- Bounds and fuel: prices are natural numbers up to 2^64 - 1 as parsePrice bounds them, differences are
-- integers. deriveSessionPriceOffset samples until a sample is accepted, so it runs on fuel, and any
-- fuel beyond an accepted attempt is enough. All other loops are structural.
--
-- Parameters, since they are not code of the repository: HKDF, the persistent hash and the field bytes
-- of the Compact runtime, AES-GCM, JSON.parse and JSON.stringify, the length of decoded base64, dates,
-- randomness, the Diffie-Hellman key agreement, the chain's answers, which may differ from call to
-- call, and whether a call of the disk fails. The contents of files change only by the modelled writes:
-- a file that another process replaces between a check and a deletion is outside the model.
--
-- Not modelled: the parsers' tests for the keys and types of a command's or message's object, the
-- HTTP server and the web demo, the Midnight SDK adapter, the OpenAI provider
-- with its prompts, key stores, the start and end of processes, sockets and wallets, and the removal of
-- temporary evidence files.
pub mod Common
pub mod Agent
pub mod Contract
pub mod Relay
pub mod Evidence
pub mod Protocol
pub mod Runtime
pub mod Controller
