-- ===== src/Evidence/Proofs.antt =====
-- What packages/evidence/src has established when it accepts evidence for a session.
use midnight_private_negotia.Common.{
  ℕ, ◌≡◌, refl, sym, ap, ◌∙◌, Bool, true, false, not, ◌&&◌, Option, none, some, arith, Text,
  text_eq, text_eq_iff, ok, if◌then◌else◌, ok-injective,
}
use midnight_private_negotia.Agent.Types.{PartyRole, role_eq}
use midnight_private_negotia.Contract.Circuits.{DealStatus, settled, status_eq}
use midnight_private_negotia.Evidence.Envelope.{
  SettlementEvidence, Platform, PublicDealState, contract_version,
}
use midnight_private_negotia.Evidence.Store.{SessionRecord, World, Io, pure, lift}
use midnight_private_negotia.Evidence.Verify.{
  to_hex, Rejection, EvidenceCheck, check_state, recomputed_commitment, verify_evidence,
  compare_commitment, wrong_network, wrong_contract_version, is_accepted,
}
use midnight_private_negotia.Evidence.Finalize.{evidence_belongs_to, Finalizer, is_proof, option_eq}
use midnight_private_negotia.Evidence.Steps.{after-ok}

-- Evidence that the chain confirms: it recomputes to its own commitment, and its contract is settled
-- with that commitment for its deal.
pub record Confirmed (platform : Platform) (e : SettlementEvidence) : Type 0 where
  pub call : ℕ
  pub state : PublicDealState
  pub recomputes : recomputed_commitment platform e ≡ ok e.price_commitment
  pub was_read : platform.read_deal_state call e.contract_address ≡ some state
  pub deal : to_hex state.deal_id ≡ e.deal_id
  pub is_settled : state.status ≡ settled
  pub commitment : to_hex state.price_commitment ≡ e.price_commitment

-- Evidence of this very session.
pub record Proves (f : Finalizer) (r : SessionRecord) (e : SettlementEvidence) : Type 0 where
  pub role : e.role ≡ r.role
  pub network : e.network ≡ f.network
  pub address : r.contract_address ≡ some e.contract_address
  pub deal_id : r.deal_id ≡ some e.deal_id
  pub version : e.contract_version_of ≡ contract_version
  pub confirmed : Confirmed f.platform e

status_eq-settled : (s : DealStatus) → status_eq s settled ≡ true → s ≡ settled
status_eq-settled s h = ground arith

none_then :
    {A : Type 0} (a : A) (b : Bool) (o : Option A)
    → (if b then some a else o) ≡ none
    → (b ≡ false) × (o ≡ none)
none_then a true o h = cc
none_then a false o h = (refl, h)

some≢none : {A : Type 0} (a : A) → ¬ (◌≡◌ {A = Option A} (some a) none)
some≢none a h = cc

state-Confirmed :
    (platform : Platform) (e : SettlementEvidence) (call : ℕ) (o : Option PublicDealState)
    → recomputed_commitment platform e ≡ ok e.price_commitment
    → platform.read_deal_state call e.contract_address ≡ o
    → check_state e o ≡ none
    → Confirmed platform e
state-Confirmed platform e call none same was_read h = absurd (some≢none _ h)
state-Confirmed platform e call (some state) same was_read h =
    let (deal, h₁) = none_then _ (not (text_eq (to_hex state.deal_id) e.deal_id)) _ h in
    let (final, h₂) = none_then _ (not (status_eq state.status settled)) _ h₁ in
    let (commitment, _) =
      none_then _ (not (text_eq (to_hex state.price_commitment) e.price_commitment)) _ h₂ in
    record {
      call = call;
      state = state;
      recomputes = same;
      was_read = was_read;
      deal = (text_eq_iff _ _).0 (not-false _ deal);
      is_settled = status_eq-settled state.status (not-false _ final);
      commitment = (text_eq_iff _ _).0 (not-false _ commitment);
    }
  where
    not-false : (b : Bool) → not b ≡ false → b ≡ true
    not-false b h = ground arith

compare-Confirmed :
    (platform : Platform) (e : SettlementEvidence) (t : Text) (b : Bool) (w : World)
    → recomputed_commitment platform e ≡ ok t
    → text_eq t e.price_commitment ≡ b
    → (compare_commitment platform e b w).0 ≡ ok none
    → Confirmed platform e
compare-Confirmed platform e t false w same eq h = absurd (some≢none _ (ok-injective h))
compare-Confirmed platform e t true w same eq h =
    state-Confirmed platform e w.calls _ (same ∙ ap ok ((text_eq_iff t e.price_commitment).0 eq))
      refl (ok-injective h)

accepted_then :
    (b : Bool) (reason : Rejection) (m : Io EvidenceCheck) (w : World)
    → ((if b then pure (some reason) else m) w).0 ≡ ok none
    → (b ≡ false) × ((m w).0 ≡ ok none)
accepted_then true reason m w h = absurd (some≢none reason (ok-injective h))
accepted_then false reason m w h = (refl, h)

not-false : (b : Bool) → not b ≡ false → b ≡ true
not-false b h = ground arith

-- Evidence that `verifyEvidence` accepts names the network and version and is confirmed by the chain.
pub verify-Confirmed :
    (platform : Platform) (network : Text) (e : SettlementEvidence) (w : World)
    → (verify_evidence platform network e w).0 ≡ ok none
    → (e.network ≡ network) × (e.contract_version_of ≡ contract_version) × Confirmed platform e
unfolding verify_evidence
verify-Confirmed platform network e w h =
    let (same, h₁) = accepted_then (not (text_eq e.network network)) wrong_network _ w h in
    let (version, h₂) =
      accepted_then (not (text_eq e.contract_version_of contract_version)) wrong_contract_version _
        w h₁ in
    let (t, recomputes, rest) =
      after-ok (λ t. compare_commitment platform e (text_eq t e.price_commitment))
        (lift (recomputed_commitment platform e) w) none h₂ in
    (
      (text_eq_iff _ _).0 (not-false _ same),
      (text_eq_iff _ _).0 (not-false _ version),
      compare-Confirmed platform e t (text_eq t e.price_commitment) w recomputes refl
          (sym (ap (λ x. x.0) rest) ∙ h₂),
    )

option_eq-some : (o : Option Text) (t : Text) → option_eq o t ≡ true → o ≡ some t
option_eq-some none t h = cc
option_eq-some (some s) t h = ap some ((text_eq_iff s t).0 h)

role_eq-eq : (a b : PartyRole) → role_eq a b ≡ true → a ≡ b
role_eq-eq a b h = ground arith

true_then :
    (b : Bool) (m : Io Bool) (w : World)
    → ((if b then m else pure false) w).0 ≡ ok true
    → (b ≡ true) × ((m w).0 ≡ ok true)
true_then true m w h = (refl, h)
true_then false m w h = absurd (false≢ok (ok-injective h))
  where
    false≢ok : false ≡ true → ⊥
    false≢ok h = ground arith

accepted-none : (c : EvidenceCheck) → is_accepted c ≡ true → c ≡ none
accepted-none none h = refl
accepted-none (some reason) h = ground arith

and_left : (a b : Bool) → a && b ≡ true → a ≡ true
and_left a b h = ground arith

and_right : (a b : Bool) → a && b ≡ true → b ≡ true
and_right a b h = ground arith

-- A true answer of the check that unlocks the cleanup.
pub is_proof-Proves :
    (f : Finalizer) (r : SessionRecord) (e : SettlementEvidence) (w : World)
    → (is_proof f r e w).0 ≡ ok true
    → Proves f r e
is_proof-Proves f r e w h =
    let (own, h₁) = true_then (evidence_belongs_to e r f.network) _ w h in
    let (check, checked, rest) =
      after-ok (λ c. pure (is_accepted c)) (verify_evidence f.platform f.network e w) true h₁ in
    let accepted = ok-injective (sym (ap (λ x. x.0) rest) ∙ h₁) in
    let (network, version, confirmed) =
      verify-Confirmed f.platform f.network e w (checked ∙ ap ok (accepted-none check accepted)) in
    record {
      role = role_eq-eq e.role r.role (and_left _ _ (and_left _ _ (and_left _ _ own)));
      network = network;
      address = option_eq-some r.contract_address _ (and_right _ _ (and_left _ _ own));
      deal_id = option_eq-some r.deal_id _ (and_right _ _ own);
      version = version;
      confirmed = confirmed;
    }
