-- ===== src/Agent/Ladder/Shape.antt =====
-- The shape of the public ladder of packages/agent-core/src/index.ts: how its rungs are rounded, how
-- they move with the round, and where the two ladders meet.
use midnight_private_negotia.Common.{
  ℕ, ◌+◌, ◌-◌, ◌*◌, ◌/◌, ◌%◌, ◌≤◌, ◌<◌, ◌≡◌, refl, Option, none, some, arith, Text,
}
use midnight_private_negotia.Agent.Types.{PartyRole, buyer, seller}
use midnight_private_negotia.Agent.Price.{parse_price, round_down, round_up}
use midnight_private_negotia.Agent.Ladder.{ladder_rung, rung_of, public_ladder_price}

-- The exact point on the ladder before it is rounded.
abbrev pub ladder_point : PartyRole → ℕ → ℕ → ℕ
ladder_point buyer reference round = reference * (9_000 + (round - 1) * 200) / 10_000
ladder_point seller reference round = reference * (11_000 - (round - 1) * 200) / 10_000

-- A rung of a role lies on its side of the exact point, less than one increment away.
abbrev pub OnSide : PartyRole → ℕ → ℕ → Type 0
OnSide buyer point price = (price ≤ point) × (point < price + 250)
OnSide seller point price = (point ≤ price) × (price < point + 250)

pub round_down_bounds :
    (x p : ℕ) → round_down x ≡ some p → (p % 250 ≡ 0) × (250 ≤ p) × (p ≤ x) × (x < p + 250)
unfolding round_down
round_down_bounds x p h = ground arith

pub round_up_bounds :
    (x p : ℕ)
    → round_up x ≡ some p
    → (p % 250 ≡ 0) × (250 ≤ p) × (x ≤ p) × (p < x + 250) × (p ≤ 18_446_744_073_709_551_615)
unfolding round_up
round_up_bounds x p h = ground arith

rung_shape :
    (role : PartyRole) (reference round price : ℕ)
    → ladder_rung role reference round ≡ some price
    → (price % 250 ≡ 0) × (250 ≤ price) × OnSide role (ladder_point role reference round) price
unfolding ladder_rung
rung_shape buyer reference round price h =
    let (m, l, a, b) = round_down_bounds _ price h in (m, l, (a, b))
rung_shape seller reference round price h =
    let (m, l, a, b, c) = round_up_bounds _ price h in (m, l, (a, b))

abbrev FromRung : PartyRole → ℕ → ℕ → Option ℕ → Type 0
FromRung role round price parsed =
    (reference : ℕ) × (parsed ≡ some reference)
    × (1 ≤ round)
    × (round ≤ 10)
    × (ladder_rung role reference round ≡ some price)

pub public_ladder_price-FromRung :
    (role : PartyRole) (raw : Text) (round price : ℕ)
    → public_ladder_price role raw round ≡ some price
    → FromRung role round price (parse_price raw)
unfolding public_ladder_price
public_ladder_price-FromRung role raw round price h = from (parse_price raw) h
  where
    from :
        (parsed : Option ℕ)
        → rung_of role round parsed ≡ some price
        → FromRung role round price parsed
    from none e = cc
    from (some reference) e = (reference, refl, ground arith, ground arith, ground arith)

-- A price on the ladder is a positive multiple of 250 KRW. It is the exact rung of the parsed
-- reference price, rounded down for the buyer and up for the seller by less than 250 KRW, and the
-- round is one of 1 to 10.
pub public_ladder_price_shape :
    (role : PartyRole) (raw : Text) (round price : ℕ)
    → public_ladder_price role raw round ≡ some price
    → (reference : ℕ) × (parse_price raw ≡ some reference)
      × (1 ≤ round)
      × (round ≤ 10)
      × (price % 250 ≡ 0)
      × (250 ≤ price)
      × OnSide role (ladder_point role reference round) price
public_ladder_price_shape role raw round price h =
    let (reference, parsed, first, last, rung) =
      public_ladder_price-FromRung role raw round price h in
    let (m, l, side) = rung_shape role reference round price rung in
    (reference, parsed, first, last, m, l, side)

pub scale_mono : (a x y : ℕ) → x ≤ y → a * x / 10_000 ≤ a * y / 10_000
scale_mono a x y h = let p : a * x ≤ a * y = grind arith in omega arith

-- How two rungs of a role stand to one another: the buyer's rise and the seller's fall.
abbrev pub Concedes : PartyRole → ℕ → ℕ → Type 0
Concedes buyer earlier later = earlier ≤ later
Concedes seller earlier later = later ≤ earlier

rung-Concedes :
    (role : PartyRole) (reference r s p q : ℕ)
    → r ≤ s
    → ladder_rung role reference r ≡ some p
    → ladder_rung role reference s ≡ some q
    → Concedes role p q
unfolding ladder_rung round_down round_up
rung-Concedes buyer reference r s p q h e f =
    ground
      (arith, scale_mono reference (9_000 + (r - 1) * 200) (9_000 + (s - 1) * 200) (omega arith))
rung-Concedes seller reference r s p q h e f =
    ground
      (arith, scale_mono reference (11_000 - (s - 1) * 200) (11_000 - (r - 1) * 200) (omega arith))

-- From round to round the buyer's ladder price never falls and the seller's never rises.
pub public_ladder_price-Concedes :
    (role : PartyRole) (raw : Text) (r s p q : ℕ)
    → r ≤ s
    → public_ladder_price role raw r ≡ some p
    → public_ladder_price role raw s ≡ some q
    → Concedes role p q
public_ladder_price-Concedes role raw r s p q h e f =
    let (reference, parsed, _, _, rung) = public_ladder_price-FromRung role raw r p e in
    let (reference', parsed', _, _, rung') = public_ladder_price-FromRung role raw s q f in
    let same : reference' ≡ reference = cc in
    rung-Concedes role reference r s p q h rung (rw same at rung')
