-- ===== src/Evidence/Unlocking.antt =====
-- When an evidence file of packages/evidence/src unlocks the cleanup of its session.
use midnight_private_negotia.Common.{
  suc, ◌≡◌, refl, sym, ap, ◌∙◌, Bool, true, false, Option, arith, Text, Result, ok, err,
  if◌then◌else◌, Bool-cases, inl, inr, ok-injective, subst,
}
use midnight_private_negotia.Contract.Circuits.{Bytes}
use midnight_private_negotia.Evidence.Envelope.{
  SettlementEvidence, EvidenceError, Platform, KeyStoreMode, encrypt_evidence, not_read_back,
}
use midnight_private_negotia.Evidence.Store.{
  SessionRecord, World, Io, after, recover_with, pure, lift, outside, evidence_path, evidence_in,
  load_evidence, save_evidence, same_evidence, write_evidence_file, ◌>>=◌, ◌>>◌,
}
use midnight_private_negotia.Evidence.Finalize.{Finalizer, is_proof, existing_proof}
use midnight_private_negotia.Evidence.Steps.{after-ok, is_proof-Leaves}
use midnight_private_negotia.Evidence.Proofs.{Proves, is_proof-Proves}

-- A file that decrypts to evidence of this session.
pub record Unlocked (f : Finalizer) (r : SessionRecord) (path : Text) (files : Text → Option Text)
    : Type 0 where
  pub evidence : SettlementEvidence
  pub saved : evidence_in f.platform f.evidence_key (files path) ≡ ok evidence
  pub proves : Proves f r evidence

load-evidence_in :
    (platform : Platform) (path : Text) (key : Bytes) (w : World) (e : SettlementEvidence)
    → (load_evidence platform path key w).0 ≡ ok e
    → evidence_in platform key ((load_evidence platform path key w).1.evidence_files path) ≡ ok e
unfolding load_evidence
load-evidence_in platform path key w e h =
    let (u, went, rest) = after-ok _ (outside platform w) e h in
    subst (λ x. evidence_in platform key (x.1.evidence_files path) ≡ ok e) (sym rest)
      (sym (ap (λ x. x.0) rest) ∙ h)

pub reread-Unlocked :
    (f : Finalizer) (r : SessionRecord) (path : Text) (e : SettlementEvidence) (w : World)
    → (load_evidence f.platform path f.evidence_key w).0 ≡ ok e
    → (is_proof f r e (load_evidence f.platform path f.evidence_key w).1).0 ≡ ok true
    → Unlocked f r path
        (is_proof f r e (load_evidence f.platform path f.evidence_key w).1).1.evidence_files
reread-Unlocked f r path e w loaded proved =
    let w₁ = (load_evidence f.platform path f.evidence_key w).1 in
    record {
      evidence = e;
      saved =
          ap (λ m. evidence_in f.platform f.evidence_key (m path))
            (is_proof-Leaves (λ u. u.evidence_files) (λ u n. refl) f r e w₁)
          ∙ load-evidence_in f.platform path f.evidence_key w e loaded;
      proves = is_proof-Proves f r e w₁ proved;
    }

recovered_true :
    (x : Result EvidenceError Bool × World)
    → (recover_with (pure false) x).0 ≡ ok true
    → (x.0 ≡ ok true) × (recover_with (pure false) x ≡ x)
recovered_true (ok b, w) h = (h, refl)
recovered_true (err e, w) h = absurd (clash (ok-injective h))
  where
    clash : false ≡ true → ⊥
    clash h = ground arith

-- The evidence that a finalization finds and accepts.
pub existing-Unlocked :
    (f : Finalizer) (r : SessionRecord) (path : Text) (w : World)
    → (existing_proof f r path w).0 ≡ ok true
    → Unlocked f r path (existing_proof f r path w).1.evidence_files
existing-Unlocked f r path w h =
    let loading = load_evidence f.platform path f.evidence_key w in
    let (h₁, same) = recovered_true (after (is_proof f r) loading) h in
    let (e, loaded, rest) = after-ok (is_proof f r) loading true h₁ in
    subst (λ x. Unlocked f r path x.1.evidence_files) (sym (same ∙ rest))
      (reread-Unlocked f r path e w loaded (sym (ap (λ x. x.0) rest) ∙ h₁))

returned :
    {A B : Type 0} (p : B) (f : A → Io B) (x : Result EvidenceError A × World)
    → ((a : A) (w : World) (b : B) → (f a w).0 ≡ ok b → b ≡ p)
    → (b : B) → (after f x).0 ≡ ok b
    → b ≡ p
returned p f (ok a, w) k b h = k a w b h
returned p f (err e, w) k b h = cc

-- `saveEvidence` returns the path of the evidence's own role and contract.
pub save-path :
    (platform : Platform) (e : SettlementEvidence) (key : Bytes) (mode : KeyStoreMode) (w : World)
    (path : Text)
    → (save_evidence platform e key mode w).0 ≡ ok path
    → path ≡ evidence_path e.role e.contract_address
unfolding save_evidence
save-path platform e key mode w path h =
    let p = evidence_path e.role e.contract_address in
    returned p
      (λ envelope.
        write_evidence_file platform p (platform.print_json envelope)
        >> (load_evidence platform p key >>= checked))
      (encrypt_evidence platform w.calls e key mode, record w { calls = suc w.calls })
      (λ envelope w₁.
        returned p (λ _. load_evidence platform p key >>= checked)
          (write_evidence_file platform p (platform.print_json envelope) w₁)
          (λ _ w₂.
            returned p checked (load_evidence platform p key w₂)
              (λ reread w₃ b. compared reread b)))
      path h
  where
    checked : SettlementEvidence → Io Text
    checked reread = lift (
        if same_evidence reread e
        then ok (evidence_path e.role e.contract_address)
        else err not_read_back)

    compared :
        (reread : SettlementEvidence) (b : Text)
        → (if same_evidence reread e
            then ok (evidence_path e.role e.contract_address)
            else err not_read_back)
          ≡ ok b
        → b ≡ evidence_path e.role e.contract_address
    compared reread b h = elim (Bool-cases (same_evidence reread e)) [
      | inl same ↦ sym (
          ok-injective (
            subst
              (λ t.
                (if t then ok (evidence_path e.role e.contract_address) else err not_read_back)
                ≡ ok b)
              same h))
      | inr other ↦ absurd (
          clash b (
            subst
              (λ t.
                (if t then ok (evidence_path e.role e.contract_address) else err not_read_back)
                ≡ ok b)
              other h))
    ]
      where
        clash : (b : Text) → ¬ (◌≡◌ {A = Result EvidenceError Text} (err not_read_back) (ok b))
        clash b h = cc
