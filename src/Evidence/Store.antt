-- ===== src/Evidence/Store.antt =====
-- packages/evidence/src: the files and the private state store that finalization works on, and
-- loading and saving evidence as evidence.ts does.
use midnight_private_negotia.Common.{
  ℕ, suc, Bool, ◌&&◌, Option, none, some, List, ◌++◌, Text, codes, text_eq, Result, ok, err,
  if◌then◌else◌, Value,
}
use midnight_private_negotia.Agent.Types.{PartyRole, role_eq}
use midnight_private_negotia.Contract.Circuits.{Bytes}
use midnight_private_negotia.Evidence.Envelope.{
  SettlementEvidence, EvidenceError, not_json, not_read_back, io_failed, Platform, KeyStoreMode,
  role_text, encrypt_evidence, decrypt_evidence,
}

-- `SettlementOpening`
pub record SettlementOpening : Type 0 where
  pub price : ℕ
  pub price_randomness : Bytes

pub data SessionPhase : Type 0 where
  active evidence_saved cleaned : SessionPhase

pub record SessionRecord : Type 0 where
  pub role : PartyRole
  pub session_id : Text
  pub network : Text
  pub private_state_db : Text
  pub store_name : Text
  pub account_id : Text
  pub contract_address : Option Text
  pub deal_id : Option Text
  pub phase : SessionPhase
  pub updated_at : Text

-- The number of the next outside call, the evidence files by name in their directory, the session
-- records in the order of their files' names, and the private state stores by name: the opening each
-- holds and whether any of it has been erased.
pub record World : Type 0 where
  pub calls : ℕ
  pub evidence_files : Text → Option Text
  pub session_files : List (Text × SessionRecord)
  pub openings : Text → Option SettlementOpening
  pub erased : Text → Bool

-- A step of an async function: it may throw, and what it did before stays done.
abbrev pub Io : Type 0 → Type 0
Io A = World → Result EvidenceError A × World

abbrev pub after :
    {A B : Type 0} → (A → Io B) → Result EvidenceError A × World → Result EvidenceError B × World
after f (ok a, w) = f a w
after f (err e, w) = (err e, w)

infixl 5 ◌>>=◌ ◌>>◌
abbrev pub ◌>>=◌ : {A B : Type 0} → Io A → (A → Io B) → Io B
(m >>= f) w = after f (m w)

abbrev pub ◌>>◌ : {B : Type 0} → Io (Unit {0}) → Io B → Io B
m >> k = m >>= λ _. k

abbrev pub pure : {A : Type 0} → A → Io A
pure a w = (ok a, w)

abbrev pub lift : {A : Type 0} → Result EvidenceError A → Io A
lift r w = (r, w)

abbrev pub recover_with :
    {A : Type 0} → Io A → Result EvidenceError A × World → Result EvidenceError A × World
recover_with h (ok a, w) = (ok a, w)
recover_with h (err e, w) = h w

-- `try { … } catch { … }`
abbrev pub attempt : {A : Type 0} → Io A → Io A → Io A
attempt m h w = recover_with h (m w)

-- The number of an outside call.
abbrev pub tick : Io ℕ
tick w = (ok w.calls, record w { calls = suc w.calls })

-- A call that may fail.
abbrev pub outside : Platform → Io (Unit {0})
outside platform = do t ← tick; lift (if platform.fails t then err io_failed else ok tt)

abbrev pub set_text {ℓ} : {A : Type ℓ} → (Text → A) → Text → A → Text → A
set_text m key value k = if text_eq k key then value else m k

-- `evidencePath`, in the evidence directory.
abbrev pub evidence_path : PartyRole → Text → Text
evidence_path role address = role_text role ++ codes "-" ++ address ++ codes ".json"

abbrev pub put_evidence : Text → Text → Io (Unit {0})
put_evidence path content w =
    (ok tt, record w { evidence_files = set_text w.evidence_files path (some content) })

-- `writeFileAtomic`: the file is written before its rename, and its directory synced after it.
abbrev pub write_evidence_file : Platform → Text → Text → Io (Unit {0})
write_evidence_file platform path content = do
  outside platform
  put_evidence path content
  outside platform

abbrev parsed_file : Platform → Option Text → Result EvidenceError Value
parsed_file platform none = err io_failed
parsed_file platform (some content) = elim (platform.parse_json content) [
  | none ↦ err not_json
  | some v ↦ ok v
]

abbrev decrypted :
    Platform → Bytes → Result EvidenceError Value → Result EvidenceError SettlementEvidence
decrypted platform key (ok v) = decrypt_evidence platform v key
decrypted platform key (err e) = err e

-- The evidence that a file decrypts to.
abbrev pub evidence_in : Platform → Bytes → Option Text → Result EvidenceError SettlementEvidence
evidence_in platform key content = decrypted platform key (parsed_file platform content)

abbrev read_evidence_file : Text → Io (Option Text)
read_evidence_file path w = (ok (w.evidence_files path), w)

-- `loadEvidence`
unfoldable pub load_evidence : Platform → Text → Bytes → Io SettlementEvidence
load_evidence platform path key = do
  outside platform
  content ← read_evidence_file path
  lift (evidence_in platform key content)

-- `sameEvidence`
abbrev pub same_evidence : SettlementEvidence → SettlementEvidence → Bool
same_evidence a b =
    role_eq a.role b.role
    && text_eq a.network b.network
    && text_eq a.contract_version_of b.contract_version_of
    && text_eq a.contract_address b.contract_address
    && text_eq a.deal_id b.deal_id
    && text_eq a.agreed_price b.agreed_price
    && text_eq a.price_randomness b.price_randomness
    && text_eq a.price_commitment b.price_commitment
    && text_eq a.settled_at b.settled_at

-- `saveEvidence`
unfoldable pub save_evidence : Platform → SettlementEvidence → Bytes → KeyStoreMode → Io Text
unfolding load_evidence encrypt_evidence
save_evidence platform evidence key mode = do
  let path = evidence_path evidence.role evidence.contract_address
  t ← tick
  envelope ← lift (encrypt_evidence platform t evidence key mode)
  write_evidence_file platform path (platform.print_json envelope)
  reread ← load_evidence platform path key
  lift (if same_evidence reread evidence then ok path else err not_read_back)
