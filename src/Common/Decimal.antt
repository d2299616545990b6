-- ===== src/Common/Decimal.antt =====
-- Decimal numerals: `BigInt(text)` on a text of digits and `BigInt.prototype.toString`.
use Prim.Native.Nat.{ℕ, zero, suc, ◌+◌, ◌-◌, ◌*◌, ◌/◌, ◌%◌, ◌^◌, ◌≤◌, ◌<◌}
use mathlib.Core.Path.{◌≡◌, refl, ◌∙◌, ap₂}
use mathlib.Core.Logic.{inl, inr}
use mathlib.Core.Bool.{Bool, true, false, ◌&&◌}
use mathlib.Core.List.{[], ◌∷◌, ◌++◌, append-nil}
use native.Mathlib.Omega.{arith}
use native.Mathlib.Nat.{pow-suc}
use midnight_private_negotia.Common.Tests.{leb, ltb, if◌then◌else◌, Bool-cases}
use midnight_private_negotia.Common.Lists.{length, all}
use midnight_private_negotia.Common.Texts.{Text, is_digit}
use midnight_private_negotia.Common.Int.{ℤ, pos, negsuc}

-- The number that digits stand for, read after a prefix worth `n`.
unfoldable pub value_from : ℕ → Text → ℕ
value_from n [] = n
value_from n (c ∷ s) = value_from (10 * n + (c - b'0')) s

abbrev pub value : Text → ℕ
value s = value_from 0 s

-- The digits of `n` in front of `rest`. Each round divides by ten, so `n + 1` rounds are enough.
digits : ℕ → ℕ → Text → Text
digits zero n rest = rest
digits (suc fuel) n rest =
    let more = digits fuel (n / 10) ((b'0' + n % 10) ∷ rest) in
    if ltb n 10 then (b'0' + n) ∷ rest else more

unfoldable pub print_before : ℕ → Text → Text
unfolding digits
print_before n rest = digits (suc n) n rest

unfoldable pub print : ℕ → Text
unfolding print_before
print n = print_before n []

-- A `bigint` as text.
unfoldable pub print_ℤ : ℤ → Text
unfolding print
print_ℤ (pos n) = print n
print_ℤ (negsuc n) = b'-' ∷ print (suc n)

-- Rounds beyond the digits change nothing.
digits_enough : (f g n : ℕ) (rest : Text) → n < f → n < g → digits f n rest ≡ digits g n rest
unfolding digits
digits_enough zero g n rest h k = absurd (omega arith)
digits_enough (suc f) zero n rest h k = absurd (omega arith)
digits_enough (suc f) (suc g) n rest h k =
    ground (arith, digits_enough f g (n / 10) ((b'0' + n % 10) ∷ rest))

print_before_small : (n : ℕ) (rest : Text) → n < 10 → print_before n rest ≡ (b'0' + n) ∷ rest
unfolding print_before
print_before_small n rest h = ground arith

print_before_step :
    (n : ℕ) (rest : Text)
    → 10 ≤ n
    → print_before n rest ≡ print_before (n / 10) ((b'0' + n % 10) ∷ rest)
unfolding print_before
print_before_step n rest h =
    ground (arith, digits_enough n (suc (n / 10)) (n / 10) ((b'0' + n % 10) ∷ rest))

-- `^[1-9]\d{0,n}$`
abbrev pub is_numeral : ℕ → Text → Bool
is_numeral n [] = false
is_numeral n (c ∷ s) = (leb b'1' c && leb c b'9') && all is_digit s && leb (length s) n

value-digits : (f n : ℕ) (rest : Text) → n < f → value_from 0 (digits f n rest) ≡ value_from n rest
unfolding digits value_from
value-digits zero n rest h = absurd (omega arith)
value-digits (suc f) n rest h =
    let last = value-digits f (n / 10) ((b'0' + n % 10) ∷ rest) in
    elim (Bool-cases (ltb n 10)) [
      | inl small ↦ rw small (ground arith)
      | inr big ↦ rw big (last (ground arith) ∙ ground arith)
    ]

-- Printing and reading back gives the number.
pub value-print : (n : ℕ) → value (print n) ≡ n
unfolding print print_before value_from
value-print n = value-digits (suc n) n [] (omega arith)

-- A number below 10 ^ (k + 1) prints to a nonzero digit and at most k more.
digits-is_numeral :
    (k m f n : ℕ) (rest : Text)
    → n < f
    → 0 < n
    → n < 10 ^ suc k
    → all is_digit rest ≡ true
    → k + length rest ≤ m
    → is_numeral m (digits f n rest) ≡ true
unfolding digits
digits-is_numeral k m zero n rest h nonzero small d l = absurd (omega arith)
digits-is_numeral zero m (suc f) n rest h nonzero small d l =
    let tiny : n < 10 = small in ground arith
digits-is_numeral (suc k) m (suc f) n rest h nonzero small d l =
    let tens : 10 ^ suc (suc k) ≡ 10 ^ suc k * 10 = pow-suc 10 (suc k) in
    let shorter : n / 10 < 10 ^ suc k = omega arith in
    elim (Bool-cases (ltb n 10)) [
      | inl one ↦ rw one (ground arith)
      | inr many ↦ rw many (
          digits-is_numeral k m f (n / 10) ((b'0' + n % 10) ∷ rest) (ground arith) (ground arith)
            shorter (ground arith) (omega arith))
    ]

-- A numeral of digits prints as itself behind the value of the digits read before it.
print_before-value :
    (n : ℕ) (s rest : Text)
    → 0 < n
    → all is_digit s ≡ true
    → print_before (value_from n s) rest ≡ print_before n (s ++ rest)
unfolding value_from
print_before-value n [] rest h d = refl
print_before-value n (c ∷ s) rest h d =
    print_before-value (10 * n + (c - b'0')) s rest (omega arith) (ground arith)
    ∙ print_before_step (10 * n + (c - b'0')) (s ++ rest) (omega arith)
    ∙ ap₂ (λ m e. print_before m (e ∷ s ++ rest)) (ground arith) (ground arith)

-- Reading a numeral and printing the number gives the numeral.
pub print-value : (m : ℕ) (s : Text) → is_numeral m s ≡ true → print (value s) ≡ s
unfolding print value_from
print-value m [] h = cc
print-value m (c ∷ s) h =
    print_before-value (10 * 0 + (c - b'0')) s [] (ground arith) (ground arith)
    ∙ print_before_small (10 * 0 + (c - b'0')) (s ++ []) (ground arith)
    ∙ ap₂ ◌∷◌ (ground arith) (append-nil s)

-- A numeral is worth at least one.
value_from-le : (n : ℕ) (s : Text) → n ≤ value_from n s
unfolding value_from
value_from-le n [] = omega arith
value_from-le n (c ∷ s) = omega (arith, value_from-le (10 * n + (c - b'0')) s)

pub numeral_pos : (m : ℕ) (s : Text) → is_numeral m s ≡ true → 0 < value s
unfolding value_from
numeral_pos m [] h = cc
numeral_pos m (c ∷ s) h = ground (arith, value_from-le (10 * 0 + (c - b'0')) s)

-- The numbers that have a numeral of at most `k + 1` digits.
pub print-is_numeral : (k n : ℕ) → 0 < n → n < 10 ^ suc k → is_numeral k (print n) ≡ true
unfolding print print_before
print-is_numeral k n h small =
    digits-is_numeral k k (suc n) n [] (omega arith) h small refl (omega arith)
