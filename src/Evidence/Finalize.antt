-- ===== src/Evidence/Finalize.antt =====
-- packages/evidence/src/finalize.ts: finalizing sessions and recovering the open ones.
use midnight_private_negotia.Common.{
  Bool, true, false, not, ◌&&◌, Option, none, some, List, [], ◌∷◌, Text, text_eq, print, ok,
  if◌then◌else◌,
}
use midnight_private_negotia.Agent.Types.{PartyRole, role_eq}
use midnight_private_negotia.Contract.Circuits.{Bytes, settled, cancelled, status_eq}
use midnight_private_negotia.Evidence.Envelope.{
  SettlementEvidence, Platform, PublicDealState, KeyStoreMode, contract_version,
}
use midnight_private_negotia.Evidence.Store.{
  SettlementOpening, SessionPhase, evidence_saved, cleaned, SessionRecord, Io, ◌>>=◌, ◌>>◌, pure,
  lift, attempt, tick, outside, set_text, evidence_path, load_evidence, save_evidence,
}
use midnight_private_negotia.Evidence.Verify.{
  to_hex, EvidenceCheck, commitment_hex, read_state, is_accepted, verify_evidence,
  write_session_record,
}

pub data KeepReason : Type 0 where
  no_contract chain_unavailable not_final no_opening identity_mismatch : KeepReason
  evidence_rejected : KeepReason

pub data FinalizeOutcome : Type 0 where
  settled_evidence_saved : Text → FinalizeOutcome
  cancelled_cleaned already_cleaned : FinalizeOutcome
  kept : KeepReason → FinalizeOutcome

abbrev pub option_eq : Option Text → Text → Bool
option_eq none t = false
option_eq (some s) t = text_eq s t

-- `evidenceBelongsTo`
abbrev pub evidence_belongs_to : SettlementEvidence → SessionRecord → Text → Bool
evidence_belongs_to e r network =
    role_eq e.role r.role
    && text_eq e.network network
    && option_eq r.contract_address e.contract_address
    && option_eq r.deal_id e.deal_id

-- `store.erase()`: a failed erasure may have removed a part, so it counts as one.
abbrev pub mark_erased : Text → Io (Unit {0})
mark_erased store w = (
  ok tt,
  record w { erased = set_text w.erased store true; openings = set_text w.openings store none },
)

abbrev pub erase : Platform → Text → Io (Unit {0})
erase platform store = do mark_erased store; outside platform

-- `store.readOpening()`
abbrev pub opening_in : Text → Io (Option SettlementOpening)
opening_in store w = (ok (w.openings store), w)

abbrev pub read_opening : Platform → Text → Io (Option SettlementOpening)
read_opening platform store = do outside platform; opening_in store

-- The parameters of `finalizeSession` beside the record; `store_of` names the store that `openStore`
-- opens for a record.
pub record Finalizer : Type 0 where
  pub platform : Platform
  pub network : Text
  pub store_of : SessionRecord → Text
  pub evidence_key : Bytes
  pub key_store : KeyStoreMode

module _ (f : Finalizer) where
  open f use {platform, network, store_of, evidence_key, key_store}

  abbrev pub write_phase : SessionRecord → SessionPhase → Io (Unit {0})
  write_phase r phase = do
    t ← tick
    write_session_record platform (record r { phase = phase; updated_at = platform.now t })

  -- `markCleaned`
  abbrev pub mark_cleaned : SessionRecord → Io (Unit {0})
  mark_cleaned r = do erase platform (store_of r); write_phase r cleaned

  -- Whether evidence is this session's and matches the chain.
  abbrev pub is_proof : SessionRecord → SettlementEvidence → Io Bool
  is_proof r e =
      if evidence_belongs_to e r network
      then (do check ← verify_evidence platform network e; pure (is_accepted check))
      else pure false

  -- The saved evidence, if it can stand in for this session.
  abbrev pub existing_proof : SessionRecord → Text → Io Bool
  existing_proof r path =
      attempt (do existing ← load_evidence platform path evidence_key; is_proof r existing)
        (pure false)

  abbrev pub evidence_for :
      SessionRecord → Text → Text → SettlementOpening → Text → Text → SettlementEvidence
  evidence_for r address deal_id opening commitment now = record {
    role = r.role;
    network = network;
    contract_version_of = contract_version;
    contract_address = address;
    deal_id = deal_id;
    agreed_price = print opening.price;
    price_randomness = to_hex opening.price_randomness;
    price_commitment = commitment;
    settled_at = now;
  }

  abbrev pub finish : SessionRecord → Text → Io FinalizeOutcome
  finish r path = do
    write_phase r evidence_saved
    mark_cleaned r
    pure (settled_evidence_saved path)

  abbrev pub save_checked : SessionRecord → SettlementEvidence → EvidenceCheck → Io FinalizeOutcome
  save_checked r e (some reason) = pure (kept evidence_rejected)
  save_checked r e none = do
    saved_path ← save_evidence platform e evidence_key key_store
    reread ← load_evidence platform saved_path evidence_key
    proof ← is_proof r reread
    if proof then finish r saved_path else pure (kept evidence_rejected)

  abbrev pub rebuild_from :
      SessionRecord → Text → Text → Option SettlementOpening → Io FinalizeOutcome
  rebuild_from r address deal_id none = pure (kept no_opening)
  rebuild_from r address deal_id (some opening) = do
    commitment ← lift (commitment_hex platform deal_id opening.price opening.price_randomness)
    t ← tick
    let e = evidence_for r address deal_id opening commitment (platform.now t)
    check ← verify_evidence platform network e
    save_checked r e check

  abbrev pub rebuild : SessionRecord → Text → Text → Io FinalizeOutcome
  rebuild r address deal_id = do
    opening ← read_opening platform (store_of r)
    rebuild_from r address deal_id opening

  abbrev pub finalize_settled : SessionRecord → Text → Text → Io FinalizeOutcome
  finalize_settled r address deal_id = do
    let path = evidence_path r.role address
    proof ← existing_proof r path
    if proof then finish r path else rebuild r address deal_id

  abbrev pub finalize_state :
      SessionRecord → Text → Text → Option PublicDealState → Io FinalizeOutcome
  finalize_state r address deal_id none = pure (kept chain_unavailable)
  finalize_state r address deal_id (some state) =
      if not (text_eq (to_hex state.deal_id) deal_id)
      then pure (kept identity_mismatch)
      else if status_eq state.status cancelled
      then (do mark_cleaned r; pure cancelled_cleaned)
      else if not (status_eq state.status settled)
      then pure (kept not_final)
      else finalize_settled r address deal_id

  abbrev pub finalize_deal : SessionRecord → Text → Option Text → Io FinalizeOutcome
  finalize_deal r address none = pure (kept identity_mismatch)
  finalize_deal r address (some deal_id) =
      if not (text_eq r.network network)
      then pure (kept identity_mismatch)
      else do state ← read_state platform address; finalize_state r address deal_id state

  abbrev pub finalize_contract : SessionRecord → Option Text → Io FinalizeOutcome
  finalize_contract r none = pure (kept no_contract)
  finalize_contract r (some address) = finalize_deal r address r.deal_id

  abbrev pub finalize_phase : SessionRecord → SessionPhase → Io FinalizeOutcome
  finalize_phase r cleaned = pure already_cleaned
  finalize_phase r _ = finalize_contract r r.contract_address

  -- `finalizeSession`
  unfoldable pub finalize_session : SessionRecord → Io FinalizeOutcome
  unfolding write_session_record verify_evidence load_evidence save_evidence to_hex
  finalize_session r = finalize_phase r r.phase

  abbrev is_skipped : Option Text → SessionRecord → Bool
  is_skipped skip r = elim r.phase [ cleaned ↦ true | _ ↦ option_eq skip r.session_id ]

  -- The records of a role, in the order of their files: `readSessionRecords`.
  abbrev pub read_session_records : PartyRole → List (Text × SessionRecord) → List SessionRecord
  read_session_records role [] = []
  read_session_records role ((name, r) ∷ files) =
      if role_eq r.role role
      then r ∷ read_session_records role files
      else read_session_records role files

  unfoldable pub recover_each :
      Option Text → List SessionRecord → Io (List (Text × FinalizeOutcome))
  recover_each skip [] = pure []
  recover_each skip (r ∷ records) =
      let later = recover_each skip records in
      if is_skipped skip r then later else do
        outcome ← finalize_session r
        results ← later
        pure ((r.session_id, outcome) ∷ results)

  -- `recoverSessions`, after it has removed the temporary files.
  unfoldable pub recover_sessions : PartyRole → Option Text → Io (List (Text × FinalizeOutcome))
  unfolding recover_each
  recover_sessions role skip w = recover_each skip (read_session_records role w.session_files) w
