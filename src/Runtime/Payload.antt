-- ===== src/Runtime/Payload.antt =====
-- packages/buyer-runtime/src/index.ts and packages/seller-runtime/src/index.ts: the payloads that
-- the two runtimes send each other, and the test of a received one.
use midnight_private_negotia.Common.{
  ℕ, ◌≡◌, refl, Bool, ◌&&◌, ◌||◌, Option, none, some, leb, ◌==◌, length, all, Text, codes, text_eq,
  is_digit, is_numeral, Value, string, integer, object, Fields, no_fields, field, lookup, keys,
  as_text, as_integer, if◌then◌else◌, zero, suc, ◌+◌, ◌^◌, ◌≤◌, ◌<◌, ◌↔◌, inl, inr, true, false, [],
  ◌∷◌, All, arith, and_iff, le→leb, print, value, numeral_pos, print-value, print-is_numeral, sym,
  subst, Bool-cases,
}
use native.Mathlib.Nat.{pow-suc}

pub data NegotiationPayload : Type 0 where
  proposal accepts : (round : ℕ) → (price : Text) → NegotiationPayload
  declines : (round : ℕ) → NegotiationPayload
  contract_ready : (contract_address : Text) → NegotiationPayload
  price_opening : (price price_randomness : Text) → NegotiationPayload
  seller_key : (key : Text) → NegotiationPayload

-- `MAX_ROUNDS`
abbrev pub max_rounds : ℕ
max_rounds = 10

abbrev is_lower_hex : ℕ → Bool
is_lower_hex c = is_digit c || (leb b'a' c && leb c b'f')

abbrev pub is_hex_32 : Text → Bool
is_hex_32 s = all is_lower_hex s && length s == 64

abbrev is_address_char : ℕ → Bool
is_address_char c = is_digit c || (leb b'a' c && leb c b'z') || c == b'_'

abbrev pub is_contract_address : Text → Bool
is_contract_address s = all is_address_char s && leb 16 (length s) && leb (length s) 256

abbrev pub is_round : ℕ → Bool
is_round round = leb 1 round && leb round max_rounds

-- The conditions on the fields of a payload.
abbrev pub is_payload : NegotiationPayload → Bool
is_payload (proposal round price) = is_round round && is_numeral 19 price
is_payload (accepts round price) = is_round round && is_numeral 19 price
is_payload (declines round) = is_round round
is_payload (contract_ready address) = is_contract_address address
is_payload (price_opening price randomness) = is_numeral 19 price && is_hex_32 randomness
is_payload (seller_key key) = is_hex_32 key

abbrev seller_key_of : Option Text → Option NegotiationPayload
seller_key_of none = none
seller_key_of (some key) = some (seller_key key)

abbrev contract_ready_of : Option Text → Option NegotiationPayload
contract_ready_of none = none
contract_ready_of (some address) = some (contract_ready address)

abbrev price_opening_of : Option Text → Option Text → Option NegotiationPayload
price_opening_of (some price) (some randomness) = some (price_opening price randomness)
price_opening_of _ _ = none

abbrev priced_of :
    (ℕ → Text → NegotiationPayload) → Option ℕ → Option Text → Option NegotiationPayload
priced_of made (some round) (some price) = some (made round price)
priced_of made _ _ = none

abbrev declines_of : Option ℕ → Option NegotiationPayload
declines_of none = none
declines_of (some round) = some (declines round)

abbrev valid_payload : Option NegotiationPayload → Option NegotiationPayload
valid_payload none = none
valid_payload (some p) = if is_payload p then some p else none

abbrev keyed : ℕ → Fields → Option NegotiationPayload → Option NegotiationPayload
keyed n v p = if length (keys v) == n then valid_payload p else none

abbrev payload_of_kind : Fields → Option Text → Option NegotiationPayload
payload_of_kind v none = none
payload_of_kind v (some kind) =
    if text_eq kind (codes "seller_key")
    then keyed 2 v (seller_key_of (as_text (lookup v (codes "sellerKey"))))
    else if text_eq kind (codes "contract_ready")
    then keyed 2 v (contract_ready_of (as_text (lookup v (codes "contractAddress"))))
    else if text_eq kind (codes "price_opening")
    then keyed 3 v (
        price_opening_of (as_text (lookup v (codes "price")))
          (as_text (lookup v (codes "priceRandomness"))))
    else if text_eq kind (codes "decline")
    then keyed 2 v (declines_of (as_integer (lookup v (codes "round"))))
    else if text_eq kind (codes "proposal")
    then keyed 3 v (
        priced_of proposal (as_integer (lookup v (codes "round")))
          (as_text (lookup v (codes "price"))))
    else if text_eq kind (codes "accept")
    then keyed 3 v (
        priced_of accepts (as_integer (lookup v (codes "round")))
          (as_text (lookup v (codes "price"))))
    else none

-- `isNegotiationPayload` of the buyer
unfoldable pub buyer_payload : Value → Option NegotiationPayload
unfolding lookup keys
buyer_payload (object v) = payload_of_kind v (as_text (lookup v (codes "kind")))
buyer_payload _ = none

abbrev without_seller_key : Option NegotiationPayload → Option NegotiationPayload
without_seller_key (some (seller_key key)) = none
without_seller_key p = p

-- `isNegotiationPayload` of the seller, which knows all but `seller_key`
unfoldable pub seller_payload : Value → Option NegotiationPayload
unfolding buyer_payload
seller_payload v = without_seller_key (buyer_payload v)

-- The object that a payload is.
unfoldable pub payload_value : NegotiationPayload → Value
payload_value (proposal round price) = object (
    field (codes "kind") (string (codes "proposal"))
      (field (codes "round") (integer round) (field (codes "price") (string price) no_fields)))
payload_value (accepts round price) = object (
    field (codes "kind") (string (codes "accept"))
      (field (codes "round") (integer round) (field (codes "price") (string price) no_fields)))
payload_value (declines round) = object (
    field (codes "kind") (string (codes "decline"))
      (field (codes "round") (integer round) no_fields))
payload_value (contract_ready address) = object (
    field (codes "kind") (string (codes "contract_ready"))
      (field (codes "contractAddress") (string address) no_fields))
payload_value (price_opening price randomness) = object (
    field (codes "kind") (string (codes "price_opening")) (
      field (codes "price") (string price)
        (field (codes "priceRandomness") (string randomness) no_fields)))
payload_value (seller_key key) = object (
    field (codes "kind") (string (codes "seller_key"))
      (field (codes "sellerKey") (string key) no_fields))

-- The payloads that may be sent: a round from 1 to 10, a price of 1 to 20 digits that starts with no
-- zero, a contract's address of 16 to 256 characters, a key or randomness of 64 hexadecimal digits.
abbrev pub IsRound : ℕ → Type 0
IsRound round = (1 ≤ round) × (round ≤ 10)

abbrev pub IsHex32 : Text → Type 0
IsHex32 s = All (λ c. is_lower_hex c ≡ true) s × (length s ≡ 64)

abbrev pub IsAddress : Text → Type 0
IsAddress s = All (λ c. is_address_char c ≡ true) s × (16 ≤ length s) × (length s ≤ 256)

-- A price is the decimal numeral of a positive number, and has at most 20 digits.
abbrev pub IsPrice : Text → Type 0
IsPrice s = (price : ℕ) × (1 ≤ price) × (s ≡ print price) × (length s ≤ 20)

abbrev pub IsSendable : NegotiationPayload → Type 0
IsSendable (proposal round price) = IsRound round × IsPrice price
IsSendable (accepts round price) = IsRound round × IsPrice price
IsSendable (declines round) = IsRound round
IsSendable (contract_ready address) = IsAddress address
IsSendable (price_opening price randomness) = IsPrice price × IsHex32 randomness
IsSendable (seller_key key) = IsHex32 key

all_iff : (test : ℕ → Bool) (s : Text) → (all test s ≡ true) ↔ All (λ c. test c ≡ true) s
all_iff test [] = (λ h. tt, λ h. refl)
all_iff test (c ∷ s) =
    let (to, from) = all_iff test s in
    let (split, join) = and_iff (test c) (all test s) in
    (λ h. ((split h).0, to (split h).1), λ (first, rest). join (first, from rest))

is_hex_32_iff : (s : Text) → (is_hex_32 s ≡ true) ↔ IsHex32 s
is_hex_32_iff s =
    let (to, from) = all_iff is_lower_hex s in
    (λ h. (to (ground arith), ground arith), λ (hex, long). rw (from hex, long) refl)

is_contract_address_iff : (s : Text) → (is_contract_address s ≡ true) ↔ IsAddress s
is_contract_address_iff s =
    let (to, from) = all_iff is_address_char s in
    (
      λ h. (to (ground arith), ground arith, ground arith),
      λ (form, long, short). rw (from form, le→leb 16 _ long, le→leb _ 256 short) refl,
    )

below_power : (n : ℕ) → n < 10 ^ suc n
below_power zero = omega arith
below_power (suc n) = omega (arith, below_power n, pow-suc 10 (suc n))

numeral_length : (k : ℕ) (s : Text) → is_numeral k s ≡ true → length s ≤ k + 1
numeral_length k [] h = omega arith
numeral_length k (c ∷ s) h = ground arith

shorter_numeral :
    (j k : ℕ) (s : Text) → is_numeral j s ≡ true → length s ≤ k + 1 → is_numeral k s ≡ true
shorter_numeral j k [] h l = h
shorter_numeral j k (c ∷ s) h l = ground arith

is_numeral_iff : (s : Text) → (is_numeral 19 s ≡ true) ↔ IsPrice s
is_numeral_iff s = (
  λ h. (value s, numeral_pos 19 s h, sym (print-value 19 s h), numeral_length 19 s h),
  λ (price, positive, same, short).
      shorter_numeral price 19 s
        (subst (λ t. is_numeral price t ≡ true) (sym same)
          (print-is_numeral price price positive (below_power price)))
        short,
)

priced_iff :
    (round : ℕ) (price : Text)
    → ((is_round round && is_numeral 19 price) ≡ true) ↔ (IsRound round × IsPrice price)
priced_iff round price =
    let (to, from) = is_numeral_iff price in
    let (split, join) = and_iff (is_round round) (is_numeral 19 price) in
    (
      λ h. (is_round-IsRound round (split h).0, to (split h).1),
      λ (r, numeral). join (IsRound-is_round round r, from numeral),
    )
  where
    is_round-IsRound : (n : ℕ) → is_round n ≡ true → IsRound n
    is_round-IsRound n h = (ground arith, ground arith)

    IsRound-is_round : (n : ℕ) → IsRound n → is_round n ≡ true
    IsRound-is_round n (low, high) = rw (le→leb 1 n low, le→leb n 10 high) refl

is_payload_iff : (p : NegotiationPayload) → (is_payload p ≡ true) ↔ IsSendable p
is_payload_iff (proposal round price) = priced_iff round price
is_payload_iff (accepts round price) = priced_iff round price
is_payload_iff (declines round) = (
  λ h. (ground arith, ground arith),
  λ (low, high). rw (le→leb 1 round low, le→leb round 10 high) refl,
)
is_payload_iff (contract_ready address) = is_contract_address_iff address
is_payload_iff (price_opening price randomness) =
    let (to, from) = is_numeral_iff price in
    let (hex, unhex) = is_hex_32_iff randomness in
    let (split, join) = and_iff (is_numeral 19 price) (is_hex_32 randomness) in
    (λ h. (to (split h).0, hex (split h).1), λ (numeral, h). join (from numeral, unhex h))
is_payload_iff (seller_key key) = is_hex_32_iff key

read_payload :
    (p : NegotiationPayload)
    → buyer_payload (payload_value p) ≡ (if is_payload p then some p else none)
unfolding buyer_payload payload_value
read_payload (proposal round price) = refl
read_payload (accepts round price) = refl
read_payload (declines round) = refl
read_payload (contract_ready address) = refl
read_payload (price_opening price randomness) = refl
read_payload (seller_key key) = refl

-- The buyer reads a payload back from its object exactly when its fields are sendable: a round is
-- from 1 to 10, a price is a positive decimal numeral of at most 20 digits, an address has 16 to 256
-- characters of its class, and a key or randomness is of 64 lower-case hexadecimal digits.
pub buyer_payload_roundtrip :
    (p : NegotiationPayload) → (buyer_payload (payload_value p) ≡ some p) ↔ IsSendable p
buyer_payload_roundtrip p = elim (Bool-cases (is_payload p)) [
  | inl valid ↦ (λ h. (is_payload_iff p).0 valid, λ v. rw (read_payload p, valid) refl)
  | inr invalid ↦ (
    λ h. absurd (missing (rw (read_payload p, invalid) at h)),
    λ v. absurd (not_both ((is_payload_iff p).1 v) invalid),
  )
]
  where
    missing : {q : NegotiationPayload} → ◌≡◌ {A = Option NegotiationPayload} none (some q) → ⊥
    missing h = cc

    not_both : {b : Bool} → b ≡ true → b ≡ false → ⊥
    not_both h k = cc
