-- ===== src/Agent/Ladder.antt =====
-- packages/agent-core/src/index.ts: the public concession ladder, `publicLadderPrice`.
pub mod Shape
pub mod Meeting
use midnight_private_negotia.Common.{
  ℕ, ◌+◌, ◌-◌, ◌*◌, ◌/◌, ◌≤◌, ◌≡◌, Bool, ◌&&◌, Option, none, some, leb, if◌then◌else◌, Text,
}
use midnight_private_negotia.Agent.Types.{PartyRole, buyer, seller}
use midnight_private_negotia.Agent.Price.{parse_price, round_down, round_up}

abbrev pub max_negotiation_rounds : ℕ
max_negotiation_rounds = 10

abbrev pub ladder_step_basis_points : ℕ
ladder_step_basis_points = 200

abbrev pub buyer_ladder_start_basis_points : ℕ
buyer_ladder_start_basis_points = 9_000

abbrev pub seller_ladder_start_basis_points : ℕ
seller_ladder_start_basis_points = 11_000

-- The rung of a round at a parsed reference price. In rounds 1 to 10 no difference is negative.
unfoldable pub ladder_rung : PartyRole → ℕ → ℕ → Option ℕ
unfolding round_down round_up
ladder_rung buyer reference_price round =
    let step = (round - 1) * ladder_step_basis_points in
    round_down ((reference_price * (buyer_ladder_start_basis_points + step)) / 10_000)
ladder_rung seller reference_price round =
    let step = (round - 1) * ladder_step_basis_points in
    round_up ((reference_price * (seller_ladder_start_basis_points - step)) / 10_000)

abbrev pub is_round : ℕ → Bool
is_round round = leb 1 round && leb round max_negotiation_rounds

abbrev rung_of : PartyRole → ℕ → Option ℕ → Option ℕ
rung_of role round none = none
rung_of role round (some reference_price) =
    if is_round round then ladder_rung role reference_price round else none

-- `publicLadderPrice`
unfoldable pub public_ladder_price : PartyRole → Text → ℕ → Option ℕ
unfolding ladder_rung
public_ladder_price role raw_reference_price round =
    rung_of role round (parse_price raw_reference_price)
