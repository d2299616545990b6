-- ===== src/Agent/Price.antt =====
-- packages/agent-core/src/index.ts: prices as decimal text, and rounding to 250 KRW.
use midnight_private_negotia.Common.{
  ℕ, ◌+◌, ◌-◌, ◌*◌, ◌/◌, ◌%◌, ◌≤◌, ◌≡◌, sym, ◌∙◌, ap, ◌↔◌, inl, inr, Bool, false, ◌&&◌, Option,
  none, some, arith, leb, ◌==◌, if◌then◌else◌, Bool-cases, Text, is_numeral, value, print,
  value-print, print-value, print-is_numeral, numeral_pos, le→leb, ℤ, pos, negsuc, print_ℤ,
}

abbrev pub max_krw : ℕ
max_krw = 18_446_744_073_709_551_615

abbrev pub price_increment_krw : ℕ
price_increment_krw = 250

-- `parsePrice`
unfoldable pub parse_price : Text → Option ℕ
parse_price text =
    if is_numeral 19 text
    then if leb (value text) max_krw then some (value text) else none
    else none

-- `isOfferPriceIncrementValid`
abbrev pub is_multiple : Option ℕ → Bool
is_multiple none = false
is_multiple (some price) = price % price_increment_krw == 0

unfoldable pub is_offer_price_increment_valid : Text → Bool
is_offer_price_increment_valid text = is_multiple (parse_price text)

-- The bounds that both roundings test at their end.
abbrev in_range : ℕ → Option ℕ
in_range rounded =
    if leb price_increment_krw rounded && leb rounded max_krw then some rounded else none

-- `roundDownToPriceIncrement`
unfoldable pub round_down : ℕ → Option ℕ
round_down price = in_range ((price / price_increment_krw) * price_increment_krw)

-- `roundUpToPriceIncrement`
unfoldable pub round_up : ℕ → Option ℕ
round_up price = in_range (
    if price % price_increment_krw == 0
    then price
    else price + price_increment_krw - price % price_increment_krw)

pub parse_price-eq-some :
    (s : Text) (n : ℕ) → parse_price s ≡ some n → (s ≡ print n) × (1 ≤ n) × (n ≤ max_krw)
unfolding parse_price
parse_price-eq-some s n h = elim (Bool-cases (is_numeral 19 s)) [
  | inl ok ↦
      let e : value s ≡ n = ground arith in
      (sym (print-value 19 s ok) ∙ ap print e, ground (arith, numeral_pos 19 s ok), ground arith)
  | inr bad ↦ absurd (ground arith)
]

pub parse_price-print : (n : ℕ) → 1 ≤ n → n ≤ max_krw → parse_price (print n) ≡ some n
unfolding parse_price
parse_price-print n h k =
    rw (print-is_numeral 19 n h (omega arith), value-print n, le→leb n max_krw k)

-- A text is accepted as the price n exactly when it is the decimal numeral of n and n is between 1
-- and 2 ^ 64 - 1.
pub parse_price_iff :
    (s : Text) (n : ℕ)
    → (parse_price s ≡ some n) ↔ ((s ≡ print n) × (1 ≤ n) × (n ≤ 18_446_744_073_709_551_615))
parse_price_iff s n = (parse_price-eq-some s n, λ (e, lo, hi). rw e (parse_price-print n lo hi))

pub parse_price-value : (s : Text) (n : ℕ) → parse_price s ≡ some n → value s ≡ n
unfolding parse_price
parse_price-value s n h = ground arith

-- A negative number does not print to a price.
pub parse_price-print_ℤ : (z : ℤ) (n : ℕ) → parse_price (print_ℤ z) ≡ some n → z ≡ pos n
unfolding print_ℤ
parse_price-print_ℤ (pos m) n h = ap pos (sym (value-print m) ∙ parse_price-value (print m) n h)
parse_price-print_ℤ (negsuc m) n h = absurd (unfold parse_price in (ground arith))
