-- ===== src/Evidence/Steps.antt =====
-- What the steps of packages/evidence/src leave as it was, and what their success shows.
use midnight_private_negotia.Common.{
  ℕ, suc, ◌≡◌, refl, ◌∙◌, Bool, true, false, not, Option, List, Text, text_eq, Result, ok, err,
  if◌then◌else◌, is_identifier_up_to,
}
use midnight_private_negotia.Contract.Circuits.{Bytes}
use midnight_private_negotia.Evidence.Envelope.{
  SettlementEvidence, EvidenceError, Platform, contract_version, invalid_session_id,
}
use midnight_private_negotia.Evidence.Store.{
  SessionRecord, SessionPhase, cleaned, evidence_saved, World, Io, after, recover_with, pure, lift,
  outside, load_evidence, SettlementOpening,
}
use midnight_private_negotia.Evidence.Verify.{
  recomputed_commitment, verify_evidence, read_state, write_session_record, compare_commitment,
  put_session_file,
}
use midnight_private_negotia.Evidence.Finalize.{
  evidence_belongs_to, Finalizer, write_phase, mark_cleaned, is_proof, existing_proof, finish,
  mark_erased, erase,
}

pub after-ok :
    {A B : Type 0} (f : A → Io B) (x : Result EvidenceError A × World) (b : B)
    → (after f x).0 ≡ ok b
    → (a : A) × (x.0 ≡ ok a) × (after f x ≡ f a x.1)
after-ok f (ok a, w) b h = (a, refl, refl)
after-ok f (err e, w) b h = cc

module _ {C : Type 0} (part : World → C)
    (on_calls : (w : World) (n : ℕ) → part (record w { calls = n }) ≡ part w) where
  -- A step does not change this part of the world.
  abbrev pub Leaves : {A : Type 0} → Io A → Type 0
  Leaves m = (w : World) → part (m w).1 ≡ part w

  pub after-Leaves :
      {A B : Type 0} (f : A → Io B) (x : Result EvidenceError A × World)
      → ((a : A) → Leaves (f a))
      → part (after f x).1 ≡ part x.1
  after-Leaves f (ok a, w) kept = kept a w
  after-Leaves f (err e, w) kept = refl

  pub bind-Leaves :
      {A B : Type 0} (m : Io A) (f : A → Io B)
      → Leaves m
      → ((a : A) → Leaves (f a))
      → (w : World) → part (after f (m w)).1 ≡ part w
  bind-Leaves m f first rest w = after-Leaves f (m w) rest ∙ first w

  pub outside-Leaves : (platform : Platform) → Leaves (outside platform)
  outside-Leaves platform w = on_calls w (suc w.calls)

  pub read_state-Leaves :
      (platform : Platform) (address : Text) → Leaves (read_state platform address)
  read_state-Leaves platform address w = on_calls w (suc w.calls)

  pub load-Leaves :
      (platform : Platform) (path : Text) (key : Bytes) → Leaves (load_evidence platform path key)
  unfolding load_evidence
  load-Leaves platform path key =
      bind-Leaves (outside platform) _ (outside-Leaves platform) (λ _ w. refl)

  if-Leaves :
      {A : Type 0} (b : Bool) (m n : Io A) → Leaves m → Leaves n → Leaves (if b then m else n)
  if-Leaves true m n first other = first
  if-Leaves false m n first other = other

  compare-Leaves :
      (platform : Platform) (e : SettlementEvidence) (b : Bool)
      → Leaves (compare_commitment platform e b)
  compare-Leaves platform e false = λ w. refl
  compare-Leaves platform e true = λ w. on_calls w (suc w.calls)

  pub verify-Leaves :
      (platform : Platform) (network : Text) (e : SettlementEvidence)
      → Leaves (verify_evidence platform network e)
  unfolding verify_evidence
  verify-Leaves platform network e =
      if-Leaves (not (text_eq e.network network)) _ _ (λ w. refl)
        (if-Leaves (not (text_eq e.contract_version_of contract_version)) _ _ (λ w. refl)
          (bind-Leaves (lift (recomputed_commitment platform e)) _ (λ w. refl)
            (λ t. compare-Leaves platform e (text_eq t e.price_commitment))))

  pub is_proof-Leaves :
      (f : Finalizer) (r : SessionRecord) (e : SettlementEvidence) → Leaves (is_proof f r e)
  is_proof-Leaves f r e =
      if-Leaves (evidence_belongs_to e r f.network) _ _
        (bind-Leaves (verify_evidence f.platform f.network e) _
          (verify-Leaves f.platform f.network e) (λ _ w. refl))
        (λ w. refl)

  recover-Leaves :
      {A : Type 0} (h : Io A) (x : Result EvidenceError A × World)
      → Leaves h
      → part (recover_with h x).1 ≡ part x.1
  recover-Leaves h (ok a, w) kept = refl
  recover-Leaves h (err e, w) kept = kept w

  pub existing-Leaves :
      (f : Finalizer) (r : SessionRecord) (path : Text) → Leaves (existing_proof f r path)
  existing-Leaves f r path w =
      recover-Leaves (pure false) _ (λ u. refl)
      ∙ bind-Leaves (load_evidence f.platform path f.evidence_key) (is_proof f r)
          (load-Leaves f.platform path f.evidence_key) (λ e. is_proof-Leaves f r e) w

  module _
      (on_sessions : (w : World) (files : List (Text × SessionRecord))
        → part (record w { session_files = files }) ≡ part w) where
    pub write-Leaves :
        (platform : Platform) (r : SessionRecord) → Leaves (write_session_record platform r)
    unfolding write_session_record
    write-Leaves platform r =
        bind-Leaves
          (lift (if is_identifier_up_to 64 r.session_id then ok tt else err invalid_session_id)) _
          (λ w. refl)
          (λ _. bind-Leaves (outside platform) _ (outside-Leaves platform) (λ _.
            bind-Leaves (put_session_file _ r) (λ _. outside platform) (λ w. on_sessions w _)
              (λ _. outside-Leaves platform)))

    pub write_phase-Leaves :
        (f : Finalizer) (r : SessionRecord) (phase : SessionPhase) → Leaves (write_phase f r phase)
    write_phase-Leaves f r phase w =
        write-Leaves f.platform _ (record w { calls = suc w.calls }) ∙ on_calls w (suc w.calls)

    module _
        (on_erasure : (w : World) (erased : Text → Bool)
            (openings : Text → Option SettlementOpening)
          → part (record w { erased = erased; openings = openings }) ≡ part w) where
      pub clean-Leaves : (f : Finalizer) (r : SessionRecord) → Leaves (mark_cleaned f r)
      clean-Leaves f r =
          bind-Leaves (erase f.platform (f.store_of r)) _
            (bind-Leaves (mark_erased (f.store_of r)) (λ _. outside f.platform)
              (λ w. on_erasure w _ _) (λ _. outside-Leaves f.platform))
            (λ _. write_phase-Leaves f r cleaned)

      pub finish-Leaves :
          (f : Finalizer) (r : SessionRecord) (path : Text) → Leaves (finish f r path)
      finish-Leaves f r path =
          bind-Leaves (write_phase f r evidence_saved) _ (write_phase-Leaves f r evidence_saved)
            (λ _. bind-Leaves (mark_cleaned f r) _ (clean-Leaves f r) (λ _ w. refl))
