-- ===== src/Evidence/Safety.antt =====
-- When packages/evidence/src/finalize.ts erases a party's private state.
use midnight_private_negotia.Common.{
  ℕ, suc, ◌≡◌, refl, sym, ap, ◌∙◌, Bool, true, false, not, ◌⊎◌, Option, none, some, arith, Text,
  text_eq, text_eq_iff, Result, ok, err, if◌then◌else◌, inl, inr, subst,
}
use midnight_private_negotia.Contract.Circuits.{Bytes, DealStatus, settled, cancelled, status_eq}
use midnight_private_negotia.Evidence.Envelope.{
  SettlementEvidence, EvidenceError, Platform, PublicDealState, KeyStoreMode, encrypt_evidence,
  not_read_back,
}
use midnight_private_negotia.Evidence.Store.{
  SettlementOpening, SessionRecord, SessionPhase, active, cleaned, evidence_saved, World, Io, after,
  pure, lift, outside, evidence_path, load_evidence, save_evidence, write_evidence_file,
  put_evidence, same_evidence, ◌>>=◌, ◌>>◌,
}
use midnight_private_negotia.Evidence.Verify.{
  to_hex, EvidenceCheck, verify_evidence, commitment_hex,
}
use midnight_private_negotia.Evidence.Finalize.{
  Finalizer, is_proof, existing_proof, finish, mark_cleaned, save_checked, rebuild_from, rebuild,
  finalize_settled, finalize_state, finalize_deal, finalize_contract, finalize_phase,
  finalize_session, FinalizeOutcome, kept, evidence_rejected, no_opening, evidence_for,
  read_opening, chain_unavailable, identity_mismatch, not_final, no_contract, already_cleaned,
  cancelled_cleaned, opening_in,
}
use midnight_private_negotia.Evidence.Steps.{
  after-Leaves, bind-Leaves, load-Leaves, verify-Leaves, is_proof-Leaves, existing-Leaves,
  finish-Leaves,
}
use midnight_private_negotia.Evidence.Unlocking.{
  Unlocked, reread-Unlocked, existing-Unlocked, save-path,
}

-- A reason to erase the private state of a session: the chain has its deal as cancelled, or as settled
-- and the evidence file of its role and contract then holds evidence that proves the session's own
-- settlement.
pub record Justified (f : Finalizer) (r : SessionRecord) (files : Text → Option Text) : Type 0 where
  pub address : Text
  pub deal_id : Text
  pub call : ℕ
  pub state : PublicDealState
  pub at_contract : r.contract_address ≡ some address
  pub of_deal : r.deal_id ≡ some deal_id
  pub was_read : f.platform.read_deal_state call address ≡ some state
  pub same_deal : to_hex state.deal_id ≡ deal_id
  pub final :
      (state.status ≡ cancelled)
      ⊎ ((state.status ≡ settled) × Unlocked f r (evidence_path r.role address) files)

save-erased :
    (platform : Platform) (e : SettlementEvidence) (key : Bytes) (mode : KeyStoreMode) (w : World)
    → (save_evidence platform e key mode w).1.erased ≡ w.erased
unfolding save_evidence
save-erased platform e key mode w =
    let p = evidence_path e.role e.contract_address in
    after-Leaves (λ u. u.erased) (λ u n. refl)
      (λ envelope.
        write_evidence_file platform p (platform.print_json envelope)
        >> (load_evidence platform p key >>= checked))
      (encrypt_evidence platform w.calls e key mode, record w { calls = suc w.calls })
      (λ envelope.
        bind-Leaves (λ u. u.erased) (λ u n. refl)
          (write_evidence_file platform p (platform.print_json envelope)) _
          (written p (platform.print_json envelope))
          (λ _.
            bind-Leaves (λ u. u.erased) (λ u n. refl) (load_evidence platform p key) checked
              (load-Leaves (λ u. u.erased) (λ u n. refl) platform p key) (λ _ u. refl)))
  where
    checked : SettlementEvidence → Io Text
    checked reread = lift (
        if same_evidence reread e
        then ok (evidence_path e.role e.contract_address)
        else err not_read_back)

    written :
        (p content : Text) (u : World)
        → (write_evidence_file platform p content u).1.erased ≡ u.erased
    written p content =
        bind-Leaves (λ u. u.erased) (λ u n. refl) (outside platform)
          (λ _. put_evidence p content >> outside platform) (λ u. refl)
          (λ _.
            bind-Leaves (λ u. u.erased) (λ u n. refl) (put_evidence p content)
              (λ _. outside platform) (λ u. refl) (λ _ u. refl))

module _ (f : Finalizer) (r : SessionRecord) where
  abbrev store : Text
  store = f.store_of r

  -- If a step erases the private state, it had a reason.
  abbrev Guarded : {A : Type 0} → Result EvidenceError A × World → Type 0
  Guarded x = x.1.erased store ≡ true → Justified f r x.1.evidence_files

  quiet : {A : Type 0} (x : Result EvidenceError A × World) → x.1.erased store ≡ false → Guarded x
  quiet x unerased now = absurd (clash (sym unerased ∙ now))
    where
      clash : false ≡ true → ⊥
      clash h = ground arith

  after-Guarded :
      {A B : Type 0} (g : A → Io B) (x : Result EvidenceError A × World)
      → x.1.erased store ≡ false
      → ((a : A) → x.0 ≡ ok a → Guarded (g a x.1))
      → Guarded (after g x)
  after-Guarded g (ok a, w) unerased k = k a refl
  after-Guarded {A} {B} g (err e, w) unerased k = quiet {A = B} (err e, w) unerased

  module _ (address deal_id : Text) (call : ℕ) (state : PublicDealState)
      (at_contract : r.contract_address ≡ some address) (of_deal : r.deal_id ≡ some deal_id)
      (was_read : f.platform.read_deal_state call address ≡ some state)
      (same_deal : to_hex state.deal_id ≡ deal_id) where
    justified :
        (files : Text → Option Text)
        → (state.status ≡ cancelled)
          ⊎ ((state.status ≡ settled) × Unlocked f r (evidence_path r.role address) files)
        → Justified f r files
    justified files final = record {
      address = address;
      deal_id = deal_id;
      call = call;
      state = state;
      at_contract = at_contract;
      of_deal = of_deal;
      was_read = was_read;
      same_deal = same_deal;
      final = final;
    }

    module _ (is_settled : state.status ≡ settled) where
      finish-Guarded :
          (path : Text) (w : World)
          → path ≡ evidence_path r.role address
          → Unlocked f r path w.evidence_files
          → Guarded (finish f r path w)
      finish-Guarded path w same v now =
          let files =
            finish-Leaves (λ u. u.evidence_files) (λ u n. refl) (λ u s. refl) (λ u a b. refl) f r
              path w in
          subst (λ m. Justified f r m) (sym files)
            (justified w.evidence_files
              (inr (is_settled, subst (λ p. Unlocked f r p w.evidence_files) same v)))

      choose-Guarded :
          (path : Text) (b : Bool) (other : Io FinalizeOutcome) (w : World)
          → path ≡ evidence_path r.role address
          → w.erased store ≡ false
          → (b ≡ true → Unlocked f r path w.evidence_files)
          → Guarded (other w)
          → Guarded ((if b then finish f r path else other) w)
      choose-Guarded path true other w same unerased v h = finish-Guarded path w same (v refl)
      choose-Guarded path false other w same unerased v h = h

      save-Guarded :
          (e : SettlementEvidence) (check : EvidenceCheck) (w : World)
          → evidence_path e.role e.contract_address ≡ evidence_path r.role address
          → w.erased store ≡ false
          → Guarded (save_checked f r e check w)
      save-Guarded e (some reason) w same unerased = quiet (ok (kept evidence_rejected), w) unerased
      save-Guarded e none w same unerased =
          let saved = save_evidence f.platform e f.evidence_key f.key_store w in
          let kept₁ =
            ap (λ m. m store) (save-erased f.platform e f.evidence_key f.key_store w) ∙ unerased in
          after-Guarded _ saved kept₁ (λ path has_path.
            let loaded = load_evidence f.platform path f.evidence_key saved.1 in
            let kept₂ =
              ap (λ m. m store)
                (load-Leaves (λ u. u.erased) (λ u n. refl) f.platform path f.evidence_key saved.1)
              ∙ kept₁ in
            after-Guarded _ loaded kept₂ (λ reread has_reread.
              let proved = is_proof f r reread loaded.1 in
              let kept₃ =
                ap (λ m. m store)
                  (is_proof-Leaves (λ u. u.erased) (λ u n. refl) f r reread loaded.1)
                ∙ kept₂ in
              after-Guarded _ proved kept₃ (λ b has_b.
                choose-Guarded path b (pure (kept evidence_rejected)) proved.1
                  (save-path f.platform e f.evidence_key f.key_store w path has_path ∙ same) kept₃
                  (λ yes. reread-Unlocked f r path reread saved.1 has_reread (has_b ∙ ap ok yes))
                  (quiet (ok (kept evidence_rejected), proved.1) kept₃))))

      rebuild_from-Guarded :
          (opening : Option SettlementOpening) (w : World)
          → w.erased store ≡ false
          → Guarded (rebuild_from f r address deal_id opening w)
      rebuild_from-Guarded none w unerased = quiet (ok (kept no_opening), w) unerased
      rebuild_from-Guarded (some opening) w unerased =
          after-Guarded _
            (lift (commitment_hex f.platform deal_id opening.price opening.price_randomness) w)
            unerased
            (λ commitment _.
              let w₁ : World = record w { calls = suc w.calls } in
              let e =
                evidence_for f r address deal_id opening commitment (f.platform.now w.calls) in
              let checked = verify_evidence f.platform f.network e w₁ in
              let kept₁ =
                ap (λ m. m store)
                  (verify-Leaves (λ u. u.erased) (λ u n. refl) f.platform f.network e w₁)
                ∙ unerased in
              after-Guarded (save_checked f r e) checked kept₁
                (λ check _. save-Guarded e check checked.1 refl kept₁))

      settled-Guarded :
          (w : World) → w.erased store ≡ false → Guarded (finalize_settled f r address deal_id w)
      settled-Guarded w unerased =
          let path = evidence_path r.role address in
          let found = existing_proof f r path w in
          let kept₁ =
            ap (λ m. m store) (existing-Leaves (λ u. u.erased) (λ u n. refl) f r path w)
            ∙ unerased in
          after-Guarded _ found kept₁ (λ b has_b.
            choose-Guarded path b (rebuild f r address deal_id) found.1 refl kept₁
              (λ yes. existing-Unlocked f r path w (has_b ∙ ap ok yes))
              (after-Guarded (rebuild_from f r address deal_id)
                (read_opening f.platform store found.1)
                (ap (λ m. m store) (reading found.1) ∙ kept₁)
                (λ opening _.
                  rebuild_from-Guarded opening _ (ap (λ m. m store) (reading found.1) ∙ kept₁))))
        where
          reading : (u : World) → (read_opening f.platform store u).1.erased ≡ u.erased
          reading u =
              bind-Leaves (λ v. v.erased) (λ v n. refl) (outside f.platform) (λ _. opening_in store)
                (λ v. refl) (λ _ v. refl) u

    cancelled-Guarded :
        (w : World)
        → state.status ≡ cancelled
        → Guarded ((mark_cleaned f r >> pure cancelled_cleaned) w)
    cancelled-Guarded w over now = justified _ (inl over)

  status_cancelled : (s : DealStatus) → status_eq s cancelled ≡ true → s ≡ cancelled
  status_cancelled s h = ground arith

  status_settled : (s : DealStatus) → status_eq s settled ≡ true → s ≡ settled
  status_settled s h = ground arith

  if-Guarded :
      (b : Bool) (m n : Io FinalizeOutcome) (w : World)
      → (b ≡ true → Guarded (m w))
      → (b ≡ false → Guarded (n w))
      → Guarded ((if b then m else n) w)
  if-Guarded true m n w first second = first refl
  if-Guarded false m n w first second = second refl

  not-false : (b : Bool) → not b ≡ false → b ≡ true
  not-false b h = ground arith

  state-Guarded :
      (address deal_id : Text) (call : ℕ) (o : Option PublicDealState) (w : World)
      → r.contract_address ≡ some address
      → r.deal_id ≡ some deal_id
      → f.platform.read_deal_state call address ≡ o
      → w.erased store ≡ false
      → Guarded (finalize_state f r address deal_id o w)
  state-Guarded address deal_id call none w at_contract of_deal was_read unerased =
      quiet (ok (kept chain_unavailable), w) unerased
  state-Guarded address deal_id call (some state) w at_contract of_deal was_read unerased =
      if-Guarded (not (text_eq (to_hex state.deal_id) deal_id)) _ _ w
        (λ _. quiet (ok (kept identity_mismatch), w) unerased)
        (λ same.
          let deal = (text_eq_iff _ _).0 (not-false _ same) in
          if-Guarded (status_eq state.status cancelled) _ _ w
            (λ over.
              cancelled-Guarded address deal_id call state at_contract of_deal was_read deal w
                (status_cancelled state.status over))
            (λ _.
              if-Guarded (not (status_eq state.status settled)) _ _ w
                (λ _. quiet (ok (kept not_final), w) unerased)
                (λ final.
                  settled-Guarded address deal_id call state at_contract of_deal was_read deal
                    (status_settled state.status (not-false _ final)) w unerased)))

  deal-Guarded :
      (address : Text) (deal : Option Text) (w : World)
      → r.contract_address ≡ some address
      → r.deal_id ≡ deal
      → w.erased store ≡ false
      → Guarded (finalize_deal f r address deal w)
  deal-Guarded address none w at_contract of_deal unerased =
      quiet (ok (kept identity_mismatch), w) unerased
  deal-Guarded address (some deal_id) w at_contract of_deal unerased =
      if-Guarded (not (text_eq r.network f.network)) _ _ w
        (λ _. quiet (ok (kept identity_mismatch), w) unerased)
        (λ _.
          state-Guarded address deal_id w.calls _ (record w { calls = suc w.calls }) at_contract
            of_deal refl unerased)

  contract-Guarded :
      (o : Option Text) (w : World)
      → r.contract_address ≡ o
      → w.erased store ≡ false
      → Guarded (finalize_contract f r o w)
  contract-Guarded none w at_contract unerased = quiet (ok (kept no_contract), w) unerased
  contract-Guarded (some address) w at_contract unerased =
      deal-Guarded address r.deal_id w at_contract refl unerased

  phase-Guarded :
      (phase : SessionPhase) (w : World)
      → w.erased store ≡ false
      → Guarded (finalize_phase f r phase w)
  phase-Guarded cleaned w unerased = quiet (ok already_cleaned, w) unerased
  phase-Guarded active w unerased = contract-Guarded r.contract_address w refl unerased
  phase-Guarded evidence_saved w unerased = contract-Guarded r.contract_address w refl unerased

-- With any answers of the chain, any failing calls, and files that change only by the finalizer's own
-- writes, and whether it returns or throws: if
-- finalizing a session erases its private state, the chain has the session's deal as cancelled, or as
-- settled and the evidence file then decrypts to evidence of this very session that recomputes to the
-- commitment that the chain has.
pub erased_with_proof :
    (f : Finalizer) (r : SessionRecord) (w : World)
    → w.erased (f.store_of r) ≡ false
    → (finalize_session f r w).1.erased (f.store_of r) ≡ true
    → Justified f r (finalize_session f r w).1.evidence_files
unfolding finalize_session
erased_with_proof f r w unerased now = phase-Guarded f r r.phase w unerased now
