-- ===== src/Evidence/Verify.antt =====
-- packages/evidence/src/finalize.ts: verifying evidence and writing session records.
use midnight_private_negotia.Common.{
  ℕ, ◌+◌, ◌/◌, ◌%◌, Bool, true, false, not, ◌&&◌, ◌||◌, Option, none, some, List, [], ◌∷◌, ◌++◌,
  Text, codes, text_eq, value, Result, ok, err, if◌then◌else◌, ltb, ◌==◌, is_identifier_up_to,
}
use midnight_private_negotia.Contract.Circuits.{Bytes, settled, status_eq}
use midnight_private_negotia.Contract.Commitments.{hex_to_bytes, price_commitment_of}
use midnight_private_negotia.Evidence.Envelope.{
  SettlementEvidence, EvidenceError, bad_commitment, invalid_session_id, Platform, PublicDealState,
  role_text, contract_version,
}
use midnight_private_negotia.Evidence.Store.{
  SessionRecord, Io, ◌>>=◌, ◌>>◌, pure, lift, tick, outside,
}

abbrev hex_digit : ℕ → ℕ
hex_digit n = if ltb n 10 then b'0' + n else 87 + n

-- `toHex`
unfoldable pub to_hex : Bytes → Text
to_hex [] = []
to_hex (b ∷ rest) = hex_digit (b / 16) ∷ hex_digit (b % 16) ∷ to_hex rest

pub data Rejection : Type 0 where
  wrong_network wrong_contract_version evidence_inconsistent not_indexed : Rejection
  deal_mismatch not_settled commitment_mismatch : Rejection

abbrev pub EvidenceCheck : Type 0
EvidenceCheck = Option Rejection

-- The commitment that evidence recomputes to; the library's functions throw on malformed bytes.
abbrev pub commitment_hex : Platform → Text → ℕ → Bytes → Result EvidenceError Text
commitment_hex platform deal_id price randomness = elim (hex_to_bytes deal_id) [
  | err e ↦ err bad_commitment
  | ok bytes ↦ elim (price_commitment_of platform.crypto bytes price randomness) [
    | err e ↦ err bad_commitment
    | ok commitment ↦ ok (to_hex commitment)
  ]
]

abbrev pub recomputed_commitment : Platform → SettlementEvidence → Result EvidenceError Text
recomputed_commitment platform e = elim (hex_to_bytes e.price_randomness) [
  | err x ↦ err bad_commitment
  | ok randomness ↦ commitment_hex platform e.deal_id (value e.agreed_price) randomness
]

-- A call of `readDealState`.
abbrev pub read_state : Platform → Text → Io (Option PublicDealState)
read_state platform address = do t ← tick; pure (platform.read_deal_state t address)

-- `.ok`
abbrev pub is_accepted : EvidenceCheck → Bool
is_accepted none = true
is_accepted (some reason) = false

abbrev pub check_state : SettlementEvidence → Option PublicDealState → EvidenceCheck
check_state e none = some not_indexed
check_state e (some state) =
    if not (text_eq (to_hex state.deal_id) e.deal_id)
    then some deal_mismatch
    else if not (status_eq state.status settled)
    then some not_settled
    else if not (text_eq (to_hex state.price_commitment) e.price_commitment)
    then some commitment_mismatch
    else none

abbrev pub compare_commitment : Platform → SettlementEvidence → Bool → Io EvidenceCheck
compare_commitment platform e false = pure (some evidence_inconsistent)
compare_commitment platform e true = do
  state ← read_state platform e.contract_address
  pure (check_state e state)

abbrev pub verify_commitment : Platform → SettlementEvidence → Io EvidenceCheck
verify_commitment platform e = do
  recomputed ← lift (recomputed_commitment platform e)
  compare_commitment platform e (text_eq recomputed e.price_commitment)

-- `verifyEvidence`: `none` for `{ ok: true }`.
unfoldable pub verify_evidence : Platform → Text → SettlementEvidence → Io EvidenceCheck
unfolding hex_to_bytes price_commitment_of to_hex
verify_evidence platform network e =
    if not (text_eq e.network network)
    then pure (some wrong_network)
    else if not (text_eq e.contract_version_of contract_version)
    then pure (some wrong_contract_version)
    else verify_commitment platform e

abbrev text_before : Text → Text → Bool
text_before s [] = false
text_before [] (b ∷ t) = true
text_before (a ∷ s) (b ∷ t) = ltb a b || (a == b && text_before s t)

-- A file set among those sorted by name.
unfoldable pub put_session :
    Text → SessionRecord → List (Text × SessionRecord) → List (Text × SessionRecord)
put_session name r [] = (name, r) ∷ []
put_session name r ((n, q) ∷ files) =
    let rest = put_session name r files in
    if text_eq name n
    then (name, r) ∷ files
    else if text_before name n
    then (name, r) ∷ (n, q) ∷ files
    else (n, q) ∷ rest

abbrev pub put_session_file : Text → SessionRecord → Io (Unit {0})
put_session_file name r w = (ok tt, record w { session_files = put_session name r w.session_files })

-- `writeSessionRecord`
unfoldable pub write_session_record : Platform → SessionRecord → Io (Unit {0})
unfolding put_session
write_session_record platform r = do
  lift (if is_identifier_up_to 64 r.session_id then ok tt else err invalid_session_id)
  outside platform
  put_session_file (role_text r.role ++ codes "-" ++ r.session_id ++ codes ".json") r
  outside platform
