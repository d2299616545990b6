-- ===== src/Agent/Ladder/Meeting.antt =====
-- Where the buyer's and the seller's ladder of packages/agent-core/src/index.ts meet.
use midnight_private_negotia.Common.{ℕ, ◌+◌, ◌-◌, ◌*◌, ◌%◌, ◌≤◌, ◌<◌, ◌≡◌, some, arith, Text}
use midnight_private_negotia.Agent.Types.{PartyRole, buyer, seller}
use midnight_private_negotia.Agent.Price.{parse_price, parse_price-eq-some, round_down, round_up}
use midnight_private_negotia.Agent.Ladder.{ladder_rung, rung_of, public_ladder_price}
use midnight_private_negotia.Agent.Ladder.Shape.{scale_mono, public_ladder_price-FromRung}

buyer_early :
    (reference round p : ℕ) → round ≤ 6 → ladder_rung buyer reference round ≡ some p → p ≤ reference
unfolding ladder_rung round_down
buyer_early reference round p h e =
    ground (arith, scale_mono reference (9_000 + (round - 1) * 200) 10_000 (omega arith))

seller_early :
    (reference round q : ℕ)
    → round ≤ 6
    → ladder_rung seller reference round ≡ some q
    → reference ≤ q
unfolding ladder_rung round_up
seller_early reference round q h e =
    ground (arith, scale_mono reference 10_000 (11_000 - (round - 1) * 200) (omega arith))

buyer_late :
    (reference round p : ℕ)
    → reference % 250 ≡ 0
    → 6 ≤ round
    → ladder_rung buyer reference round ≡ some p
    → reference ≤ p
unfolding ladder_rung round_down
buyer_late reference round p m h e =
    ground (arith, scale_mono reference 10_000 (9_000 + (round - 1) * 200) (omega arith))

seller_late :
    (reference round q : ℕ)
    → reference % 250 ≡ 0
    → 6 ≤ round
    → ladder_rung seller reference round ≡ some q
    → q ≤ reference
unfolding ladder_rung round_up
seller_late reference round q m h e =
    ground (arith, scale_mono reference (11_000 - (round - 1) * 200) 10_000 (omega arith))

module _ (raw : Text) (reference : ℕ) (parsed : parse_price raw ≡ some reference) where
  rung_at :
      (role : PartyRole) (round p : ℕ)
      → public_ladder_price role raw round ≡ some p
      → ladder_rung role reference round ≡ some p
  rung_at role round p e =
      let (reference', parsed', _, _, rung) = public_ladder_price-FromRung role raw round p e in
      let same : reference' ≡ reference = cc in rw same at rung

  -- Up to round 6 the buyer's ladder price is at most the reference price and the seller's at least
  -- that; if the reference price is a multiple of 250 KRW, it is the other way round from round 6 on.
  pub public_ladders_cross :
      (round p q : ℕ)
      → public_ladder_price buyer raw round ≡ some p
      → public_ladder_price seller raw round ≡ some q
      → (round ≤ 6 → (p ≤ reference) × (reference ≤ q))
        × (reference % 250 ≡ 0 → 6 ≤ round → (q ≤ reference) × (reference ≤ p))
  public_ladders_cross round p q e f =
      let rung_p = rung_at buyer round p e in
      let rung_q = rung_at seller round q f in
      (
        λ h. (buyer_early reference round p h rung_p, seller_early reference round q h rung_q),
        λ m h. (seller_late reference round q m h rung_q, buyer_late reference round p m h rung_p),
      )

  -- Both ladders stand on the reference price in round 6 if it parses and is a multiple of 250
  -- KRW.
  pub public_ladders_meet :
      reference % 250 ≡ 0
      → (public_ladder_price buyer raw 6 ≡ some reference)
        × (public_ladder_price seller raw 6 ≡ some reference)
  unfolding public_ladder_price ladder_rung round_down round_up
  public_ladders_meet m =
      let bounds = parse_price-eq-some raw reference parsed in
      (rw (parsed, rung_of) (ground arith), rw (parsed, rung_of) (ground arith))

  -- Before round 6 the ladders do not meet: if the reference price is a multiple of 250 KRW, then
  -- up to round 5 the buyer's ladder price of the next round is below the seller's of this round.
  pub public_ladders_apart :
      (round p q : ℕ)
      → reference % 250 ≡ 0
      → round ≤ 5
      → public_ladder_price buyer raw (round + 1) ≡ some p
      → public_ladder_price seller raw round ≡ some q
      → p < q
  unfolding ladder_rung round_up
  public_ladders_apart round p q m h e f =
      let bounds = parse_price-eq-some raw reference parsed in
      let low = buyer_early reference (round + 1) p (omega arith) (rung_at buyer (round + 1) p e) in
      let rung_q = rung_at seller round q f in
      let high = scale_mono reference 10_200 (11_000 - (round - 1) * 200) (omega arith) in
      ground arith
