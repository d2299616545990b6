-- ===== src/Runtime/Action.antt =====
-- The handlers of packages/buyer-runtime/src/index.ts and packages/seller-runtime/src/index.ts as
-- functions on a runtime's state that may throw; what was written before a throw stays written.
use midnight_private_negotia.Common.{
  ◌≡◌, refl, Bool, true, false, Option, none, some, Result, ok, err,
}

pub data RuntimeError : Type 0 where
  not_configured no_channel wrong_room replayed invalid_payload forbidden_payload : RuntimeError
  conflicting_key unknown_offer not_ready limit_locked_already no_limit cannot_start : RuntimeError
  wrong_target observer_command not_finalizable chain_failed already_agreed : RuntimeError
  relay_failed no_such_task invalid_event : RuntimeError
  not_connected invalid_command invalid_message wrong_process : RuntimeError
  unexpected_state no_negotiated_amount : RuntimeError

abbrev pub Action : Type 0 → Type 0 → Type 0
Action S A = S → Result RuntimeError A × S

abbrev pub continue_with :
    {S A B : Type 0} → (A → Action S B) → Result RuntimeError A × S → Result RuntimeError B × S
continue_with next (ok a, s) = next a s
continue_with next (err e, s) = (err e, s)

infixl 5 ◌>>=◌ ◌>>◌
unfoldable pub ◌>>=◌ : {S A B : Type 0} → Action S A → (A → Action S B) → Action S B
(m >>= next) s = continue_with next (m s)

unfoldable pub ◌>>◌ : {S B : Type 0} → Action S (Unit {0}) → Action S B → Action S B
m >> rest = m >>= λ _. rest

unfoldable pub done : {S : Type 0} → Action S (Unit {0})
done s = (ok tt, s)

unfoldable pub throw : {S A : Type 0} → RuntimeError → Action S A
throw e s = (err e, s)

unfoldable pub lifted : {S A : Type 0} → Result RuntimeError A → Action S A
lifted r s = (r, s)

unfoldable pub modify : {S : Type 0} → (S → S) → Action S (Unit {0})
modify f s = (ok tt, f s)

unfoldable pub get : {S : Type 0} → Action S S
get s = (ok s, s)

unfoldable pub required : {S A : Type 0} → Option A → RuntimeError → Action S A
required none e = throw e
required (some a) e = λ s. (ok a, s)

-- `if (!test) throw …`
unfoldable pub ensure : {S : Type 0} → Bool → RuntimeError → Action S (Unit {0})
ensure true e = done
ensure false e = throw e

abbrev pub caught :
    {S : Type 0}
    → Action S (Unit {0})
    → Result RuntimeError (Unit {0}) × S
    → Result RuntimeError (Unit {0}) × S
caught handler (ok a, s) = (ok a, s)
caught handler (err e, s) = handler s

-- `try { … } catch { … }` and `.catch(() => …)`
unfoldable pub attempt :
    {S : Type 0} → Action S (Unit {0}) → Action S (Unit {0}) → Action S (Unit {0})
attempt m handler s = caught handler (m s)

-- A step keeps an invariant of the state, whether it returns or throws.
pub record Keeps {S A : Type 0} (Inv : S → Type 0) (m : Action S A) : Type 0 where
  pub kept : (s : S) → Inv s → Inv (m s).1

module _ {S : Type 0} (Inv : S → Type 0) where
  continue-Keeps :
      {A B : Type 0} (next : A → Action S B) (x : Result RuntimeError A × S)
      → ((a : A) → Keeps Inv (next a))
      → Inv x.1
      → Inv (continue_with next x).1
  continue-Keeps next (ok a, s) keeps v = (keeps a).kept s v
  continue-Keeps next (err e, s) keeps v = v

  caught-Keeps :
      (handler : Action S (Unit {0})) (x : Result RuntimeError (Unit {0}) × S)
      → Keeps Inv handler
      → Inv x.1
      → Inv (caught handler x).1
  caught-Keeps handler (ok a, s) keeps v = v
  caught-Keeps handler (err e, s) keeps v = keeps.kept s v

module _ {S : Type 0} {Inv : S → Type 0} where
  pub bind-Keeps :
      {A B : Type 0} {m : Action S A} {next : A → Action S B}
      → Keeps Inv m
      → ((a : A) → Keeps Inv (next a))
      → Keeps Inv (m >>= next)
  unfolding ◌>>=◌
  bind-Keeps {next} first rest = record {
    kept = λ s v. continue-Keeps Inv next _ rest (first.kept s v);
  }

  pub then-Keeps :
      {B : Type 0} {m : Action S (Unit {0})} {next : Action S B}
      → Keeps Inv m
      → Keeps Inv next
      → Keeps Inv (m >> next)
  unfolding ◌>>◌
  then-Keeps first rest = bind-Keeps first (λ _. rest)

  -- What is read of the state satisfies the invariant.
  pub get-Keeps :
      {A : Type 0} {next : S → Action S A}
      → ((t : S) → Inv t → Keeps Inv (next t))
      → Keeps Inv (get >>= next)
  unfolding ◌>>=◌ get
  get-Keeps keeps = record { kept = λ s v. (keeps s v).kept s v }

  pub attempt-Keeps :
      {m handler : Action S (Unit {0})}
      → Keeps Inv m
      → Keeps Inv handler
      → Keeps Inv (attempt m handler)
  unfolding attempt
  attempt-Keeps {m} {handler} first second = record {
    kept = λ s v. caught-Keeps Inv handler (m s) second (first.kept s v);
  }

  pub ensure-Keeps : (b : Bool) (e : RuntimeError) → Keeps Inv (ensure b e)
  unfolding ensure done throw
  ensure-Keeps true e = record { kept = λ s v. v }
  ensure-Keeps false e = record { kept = λ s v. v }

  pub required-Keeps : {A : Type 0} (o : Option A) (e : RuntimeError) → Keeps Inv (required o e)
  unfolding required throw
  required-Keeps none e = record { kept = λ s v. v }
  required-Keeps (some a) e = record { kept = λ s v. v }

  pub lifted-Keeps : {A : Type 0} (r : Result RuntimeError A) → Keeps Inv (lifted r)
  unfolding lifted
  lifted-Keeps r = record { kept = λ s v. v }

  pub done-Keeps : Keeps Inv done
  unfolding done
  done-Keeps = record { kept = λ s v. v }

  pub throw-Keeps : {A : Type 0} (e : RuntimeError) → Keeps Inv (throw {A = A} e)
  unfolding throw
  throw-Keeps e = record { kept = λ s v. v }

  pub modify-Keeps : (f : S → S) → ((s : S) → Inv s → Inv (f s)) → Keeps Inv (modify f)
  unfolding modify
  modify-Keeps f keeps = record { kept = keeps }

  -- What a test or a required value lets through may be used after it.
  pub ensured-Keeps :
      {A : Type 0} (b : Bool) (e : RuntimeError) {next : Action S A}
      → (b ≡ true → Keeps Inv next)
      → Keeps Inv (ensure b e >> next)
  unfolding ensure done throw ◌>>=◌ ◌>>◌
  ensured-Keeps true e keeps = record { kept = (keeps refl).kept }
  ensured-Keeps false e keeps = record { kept = λ s v. v }

  pub given-Keeps :
      {A B : Type 0} (o : Option A) (e : RuntimeError) {next : A → Action S B}
      → ((a : A) → o ≡ some a → Keeps Inv (next a))
      → Keeps Inv (required o e >>= next)
  unfolding required throw ◌>>=◌
  given-Keeps none e keeps = record { kept = λ s v. v }
  given-Keeps (some a) e keeps = record { kept = (keeps a refl).kept }

  pub produced-Keeps :
      {A B : Type 0} (r : Result RuntimeError A) {next : A → Action S B}
      → ((a : A) → r ≡ ok a → Keeps Inv (next a))
      → Keeps Inv (lifted r >>= next)
  unfolding lifted ◌>>=◌
  produced-Keeps (ok a) keeps = record { kept = (keeps a refl).kept }
  produced-Keeps (err e) keeps = record { kept = λ s v. v }

-- A step leads from one invariant to another, whether it returns or throws.
abbrev pub Moves : {S A : Type 0} → (S → Type 0) → (S → Type 0) → Action S A → Type 0
Moves {S} P Q m = (s : S) → P s → Q (m s).1

module _ {S : Type 0} (P Q : S → Type 0) where
  continue-Moves :
      {A B : Type 0} (next : A → Action S B) (x : Result RuntimeError A × S)
      → ((s : S) → P s → Q s)
      → ((a : A) → Moves P Q (next a))
      → P x.1
      → Q (continue_with next x).1
  continue-Moves next (ok a, t) weaken rest w = rest a t w
  continue-Moves next (err e, t) weaken rest w = weaken t w

  -- A step that keeps the first invariant, and one that leads to the second, which the first implies.
  pub bind-Moves :
      {A B : Type 0} (m : Action S A) (next : A → Action S B)
      → ((s : S) → P s → Q s)
      → Keeps P m
      → ((a : A) → Moves P Q (next a))
      → Moves P Q (m >>= next)
  unfolding ◌>>=◌
  bind-Moves m next weaken first rest s v = continue-Moves next (m s) weaken rest (first.kept s v)

  pub then-Moves :
      {A : Type 0} (m : Action S (Unit {0})) (next : Action S A)
      → ((s : S) → P s → Q s)
      → Keeps P m
      → Moves P Q next
      → Moves P Q (m >> next)
  unfolding ◌>>◌
  then-Moves m next weaken first rest = bind-Moves m (λ _. next) weaken first (λ _. rest)

  pub attempt-Moves :
      (m handler : Action S (Unit {0}))
      → Moves P Q m
      → Keeps Q handler
      → Moves P Q (attempt m handler)
  unfolding attempt
  attempt-Moves m handler first second s v = caught-Keeps Q handler (m s) second (first s v)

-- Two steps that lead from one invariant to the next; the second one implies the third.
pub seq-Moves :
    {S : Type 0} (P Q R : S → Type 0) (m next : Action S (Unit {0}))
    → ((s : S) → Q s → R s)
    → Moves P Q m
    → Moves Q R next
    → Moves P R (m >> next)
unfolding ◌>>=◌ ◌>>◌
seq-Moves P Q R m next weaken first rest s v =
    continue-Moves Q R (λ _. next) (m s) weaken (λ _. rest) (first s v)

pub read-Keeps : {S : Type 0} {Inv : S → Type 0} → Keeps Inv get
unfolding get
read-Keeps = record { kept = λ s v. v }
