-- ===== src/Evidence/Tests.antt =====
-- A settled deal that packages/evidence/src/finalize.ts finalizes, and the theorem there.
use midnight_private_negotia.Common.{
  ◌≡◌, refl, true, false, Option, none, some, [], ◌∷◌, Text, codes, ok, Value, string, integer,
  field, no_fields, object, value_from,
}
use midnight_private_negotia.Agent.Types.{buyer}
use midnight_private_negotia.Contract.Circuits.{Bytes, settled}
use midnight_private_negotia.Evidence.Envelope.{
  SettlementEvidence, Platform, PublicDealState, file, evidence_value, contract_version,
  decrypt_evidence,
}
use midnight_private_negotia.Evidence.Store.{SessionRecord, active, World, evidence_path}
use midnight_private_negotia.Evidence.Finalize.{Finalizer, finalize_session, settled_evidence_saved}
use midnight_private_negotia.Evidence.Safety.{Justified, erased_with_proof}

abbrev zeros_hex : Text
zeros_hex = codes "0000000000000000000000000000000000000000000000000000000000000000"

abbrev zero_bytes : Bytes
zero_bytes =
    0 ∷ 0 ∷ 0 ∷ 0 ∷ 0 ∷ 0 ∷ 0 ∷ 0 ∷ 0 ∷ 0 ∷ 0 ∷ 0 ∷ 0 ∷ 0 ∷ 0 ∷ 0 ∷ 0 ∷ 0 ∷ 0 ∷ 0 ∷ 0 ∷ 0 ∷ 0 ∷ 0
    ∷ 0 ∷ 0 ∷ 0 ∷ 0 ∷ 0 ∷ 0 ∷ 0 ∷ 0 ∷ []

abbrev address : Text
address = codes "0123456789abcdef"

abbrev saved_evidence : SettlementEvidence
saved_evidence = record {
  role = buyer;
  network = codes "preview";
  contract_version_of = contract_version;
  contract_address = address;
  deal_id = zeros_hex;
  agreed_price = codes "101000";
  price_randomness = zeros_hex;
  price_commitment = zeros_hex;
  settled_at = codes "2026";
}

abbrev saved_envelope : Value
saved_envelope = object (
    field (codes "format") (string (codes "midnight-negotiation-settlement-evidence")) (
      field (codes "formatVersion") (integer 1) (
        field (codes "role") (string (codes "buyer")) (
          field (codes "network") (string (codes "preview")) (
            field (codes "contractAddress") (string address) (
              field (codes "keyStore") (string (codes "file")) (
                field (codes "algorithm") (string (codes "aes-256-gcm")) (
                  field (codes "nonce") (string (codes "n")) (
                    field (codes "tag") (string (codes "t"))
                      (field (codes "ciphertext") (string (codes "c")) no_fields))))))))))

abbrev parse : Text → Option Value
parse [] = some saved_envelope
parse (c ∷ s) = some (evidence_value saved_evidence)

abbrev chain_state : PublicDealState
chain_state = record { deal_id = zero_bytes; price_commitment = zero_bytes; status = settled }

abbrev platform : Platform
platform = record {
  crypto = record { persistent_hash = λ v. zero_bytes; field_bytes = λ n. n ∷ [] };
  read_deal_state = λ t a. some chain_state;
  fails = λ t. false;
  now = λ t. codes "2026";
  nonce = λ t. codes "n";
  parse_json = parse;
  print_json = λ v. [];
  is_date = λ s. true;
  seal = λ k n a p. (codes "c", codes "t");
  unseal = λ k n a t c. some (codes "e");
}

abbrev session : SessionRecord
session = record {
  role = buyer;
  session_id = codes "s1";
  network = codes "preview";
  private_state_db = codes "db";
  store_name = codes "store";
  account_id = codes "account";
  contract_address = some address;
  deal_id = some zeros_hex;
  phase = active;
  updated_at = codes "2026";
}

abbrev finalizer : Finalizer
finalizer = record {
  platform = platform;
  network = codes "preview";
  store_of = λ r. r.store_name;
  evidence_key = zero_bytes;
  key_store = file;
}

abbrev world : World
world = record {
  calls = 0;
  evidence_files = λ path. some [];
  session_files = [];
  openings = λ store. none;
  erased = λ store. false;
}

settled_run :
    ((finalize_session finalizer session world).1.erased (codes "store") ≡ true)
    × ((finalize_session finalizer session world).0
        ≡ ok (settled_evidence_saved (evidence_path buyer address)))
unfolding finalize_session evidence_value decrypt_evidence value_from
settled_run = (refl, refl)

erased_with_proof_example :
    Justified finalizer session (finalize_session finalizer session world).1.evidence_files
erased_with_proof_example = erased_with_proof finalizer session world refl settled_run.0
