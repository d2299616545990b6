-- ===== src/Agent/Offset/Uniform.antt =====
-- The distribution and the range of the derived offsets of packages/agent-core/src/index.ts.
use native.Mathlib.Nat.{
  mod-lt, mod-eq_of_lt, div-add-mod', div-lt_iff_lt-mul, mul-le-mul_right, suc-mul,
}
use midnight_private_negotia.Common.{
  ℕ, zero, suc, ◌+◌, ◌-◌, ◌*◌, ◌/◌, ◌%◌, ◌^◌, ◌≤◌, ◌<◌, ◌≡◌, sym, ap, ◌∙◌, ◌↔◌, inl, inr, ℤ, sub_ℕ,
  pos_part, neg_part, true, some, arith, ltb, lt→ltb, Bool-cases, length, is_identifier_up_to,
  is_product_code, ok,
}
use midnight_private_negotia.Agent.Price.{parse_price}
use midnight_private_negotia.Agent.Offset.{
  max_private_offset, offset_steps, offset_count, offset_ceiling, offset_of_sample, sample_offset,
  Hkdf, OffsetInput, derive_at, derive_session_price_offset, is_offset,
}

-- A remainder is read back behind a multiple.
mul-add-mod : (c q r : ℕ) → r < c → (q * c + r) % c ≡ r
mul-add-mod c q r h = grind arith

whole : (space c : ℕ) → space - space % c ≡ space / c * c
whole space c = let e = div-add-mod' space c in omega arith

whole_rounds : (space c s : ℕ) → 0 < c → s < space - space % c → s / c < space / c
whole_rounds space c s h k = (div-lt_iff_lt-mul h).1 (rw (sym (whole space c)) k)

below_rounds : (space c q r : ℕ) → r < c → q < space / c → q * c + r < space - space % c
below_rounds space c q r h k =
    let m : suc q * c ≤ space / c * c = mul-le-mul_right c k in
    let e = whole space c in let f : suc q * c ≡ q * c + c = suc-mul q c in omega arith

count_pos : (reference : ℕ) → 0 < offset_count reference
unfolding offset_count
count_pos reference = omega arith

sub_ℕ-cancel : (a a' b : ℕ) → sub_ℕ a b ≡ sub_ℕ a' b → a ≡ a'
sub_ℕ-cancel a a' b h = ground arith

offset_of_sample-injective :
    (reference s r : ℕ)
    → offset_of_sample reference s ≡ offset_of_sample reference r
    → s % offset_count reference ≡ r % offset_count reference
unfolding offset_of_sample
offset_of_sample-injective reference s r h = let e = sub_ℕ-cancel _ _ _ h in omega arith

offset_of_sample-mod :
    (reference s r : ℕ)
    → s % offset_count reference ≡ r % offset_count reference
    → offset_of_sample reference s ≡ offset_of_sample reference r
unfolding offset_of_sample
offset_of_sample-mod reference s r h = ap (λ m. sub_ℕ (m * 250) (offset_steps reference * 250)) h

-- No modulo bias: the accepted samples that give the offset of a residue are those in that residue
-- class, one for each of the same number 2 ^ 256 / count of rounds. So every one of the
-- 2 * steps + 1 offsets has as many accepted samples as any other.
pub offset_uniform :
    (reference r s : ℕ)
    → r < offset_count reference
    → ((s < offset_ceiling (offset_count reference))
        × (offset_of_sample reference s ≡ offset_of_sample reference r))
      ↔ ((q : ℕ) × (q < 2 ^ 256 / offset_count reference) × (s ≡ q * offset_count reference + r))
unfolding offset_ceiling
offset_uniform reference r s h =
    let c = offset_count reference in
    let small = mod-eq_of_lt h in
    (
      λ (k, e).
          let residue = offset_of_sample-injective reference s r e in
          (
            s / c,
            whole_rounds (2 ^ 256) c s (count_pos reference) k,
            sym (div-add-mod' s c) ∙ ap (λ m. s / c * c + m) (residue ∙ small),
          ),
      λ (q, k, e). (
        rw e (below_rounds (2 ^ 256) c q r h k),
        offset_of_sample-mod reference s r (rw e (mul-add-mod c q r h ∙ sym small)),
      ),
    )

shift_in_range :
    (top m : ℕ)
    → m < top / 250 * 2 + 1
    → let z = sub_ℕ (m * 250) (top / 250 * 250) in
      (pos_part z % 250 ≡ 0) × (neg_part z % 250 ≡ 0) × (neg_part z ≤ top) × (pos_part z ≤ top)
shift_in_range top m h = ground arith

-- The offset of a sample is a multiple of 250 KRW, at most three percent of the reference.
offset_of_sample-IsOffset :
    (reference s : ℕ) → is_offset reference (offset_of_sample reference s) ≡ true
unfolding is_offset offset_of_sample offset_steps offset_count
offset_of_sample-IsOffset reference s =
    let (p, n, lo, hi) =
      shift_in_range (max_private_offset reference) (s % offset_count reference)
        (mod-lt s (count_pos reference)) in
    ground arith

sample_offset-some :
    (hkdf : ℕ → ℕ) (reference k fuel attempt : ℕ)
    → hkdf (attempt + k) < offset_ceiling (offset_count reference)
    → k < fuel
    → (o : ℤ) × (sample_offset hkdf reference fuel attempt ≡ some o)
      × (is_offset reference o ≡ true)
unfolding sample_offset
sample_offset-some hkdf reference k zero attempt h l = absurd (omega arith)
sample_offset-some hkdf reference zero (suc fuel) attempt h l =
    let here : attempt + 0 ≡ attempt = omega arith in
    let hit = lt→ltb (hkdf attempt) (offset_ceiling (offset_count reference)) (rw here at h) in
    (
      offset_of_sample reference (hkdf attempt),
      rw (hit, sample_offset),
      offset_of_sample-IsOffset reference (hkdf attempt),
    )
sample_offset-some hkdf reference (suc k) (suc fuel) attempt h l =
    let next : attempt + suc k ≡ suc attempt + k = omega arith in
    let (o, e, f) =
      sample_offset-some hkdf reference k fuel (suc attempt) (rw next at h) (omega arith) in
    elim (Bool-cases (ltb (hkdf attempt) (offset_ceiling (offset_count reference)))) [
      | inl hit ↦ (
        offset_of_sample reference (hkdf attempt),
        rw (hit, sample_offset),
        offset_of_sample-IsOffset reference (hkdf attempt),
      )
      | inr miss ↦ (o, rw (miss, sample_offset) e, f)
    ]

-- The derivation ends: with a 32-byte key, a valid session and product code and a reference price
-- that parses, fuel beyond any attempt whose sample is accepted gives an offset. The offset is a
-- multiple of 250 KRW, at most three percent of the reference price either way, which is what the
-- translation of prices requires.
pub derive_session_price_offset-IsOffset :
    (hkdf : Hkdf) (fuel k reference : ℕ) (input : OffsetInput)
    → parse_price input.public_reference_price ≡ some reference
    → length input.shared_key ≡ 32
    → is_identifier_up_to 128 input.session_id ≡ true
    → is_product_code input.product_code ≡ true
    → hkdf input k < offset_ceiling (offset_count reference)
    → k < fuel
    → (o : ℤ) × (derive_session_price_offset hkdf fuel input ≡ ok (some o))
      × (is_offset reference o ≡ true)
unfolding derive_session_price_offset
derive_session_price_offset-IsOffset hkdf fuel k reference input parsed key session code h l =
    let first : 0 + k ≡ k = omega arith in
    let (o, e, f) = sample_offset-some (hkdf input) reference k fuel 0 (rw first h) l in
    (o, rw (parsed, derive_at, key, session, code, e), f)
