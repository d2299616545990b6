-- ===== src/Runtime/Alike.antt =====
-- packages/buyer-runtime/src/index.ts and packages/seller-runtime/src/index.ts: the tests and the
-- results that both processes treat alike.
use midnight_private_negotia.Common.{
  ℕ, ℤ, ◌≡◌, Bool, true, false, ◌&&◌, Option, none, some, ◌==◌, Text, codes, text_eq, Result, ok,
  err,
}
use midnight_private_negotia.Agent.Types.{Candidate, AgentError}
use midnight_private_negotia.Evidence.Finalize.{KeepReason, evidence_rejected}
use midnight_private_negotia.Runtime.Action.{RuntimeError, not_ready}

-- `lastSentOffer`
pub record SentOffer : Type 0 where
  pub round : ℕ
  pub price : Text

abbrev pub same_offer : Option SentOffer → ℕ → Text → Bool
same_offer none round price = false
same_offer (some sent) round price = sent.round == round && text_eq sent.price price

abbrev pub is_given {ℓ} : {A : Type ℓ} → Option A → Bool
is_given none = false
is_given (some a) = true

-- What the agent's functions throw ends a handler.
abbrev pub candidate_of :
    Result AgentError (Option Candidate) → Result RuntimeError (Option Candidate)
candidate_of (ok o) = ok o
candidate_of (err e) = err not_ready

abbrev pub offset_of : Result AgentError (Option ℤ) → Result RuntimeError ℤ
offset_of (ok (some o)) = ok o
offset_of _ = err not_ready

pub candidate_of-ok :
    (r : Result AgentError (Option Candidate)) (o : Option Candidate)
    → candidate_of r ≡ ok o
    → r ≡ ok o
candidate_of-ok (ok a) o e = cc
candidate_of-ok (err e) o h = cc

-- The code of the event for a session whose data are kept
abbrev pub kept_code : KeepReason → Text
kept_code evidence_rejected = codes "SETTLEMENT_VERIFICATION_FAILED"
kept_code _ = codes "SESSION_FINALIZE_PENDING"
