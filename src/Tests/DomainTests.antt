-- ===== src/Tests/DomainTests.antt =====
-- The domain's properties at concrete inputs.
use byos_service.Prelude.{◌+◌, ◌-◌, ◌*◌, ◌/◌, ◌≤◌, ◌<◌, ◌≡◌, ◌↔◌, refl, true, some, ok, and_then}
use byos_service.Prelude.Ints.{u256_limit, checked_mul, checked_sub, checked_div, div_ceil}
use byos_service.Domain.Proposal.{U256}
use byos_service.Domain.Scoring.{ether, scaled_to_fill, surplus, score_proposal}
use byos_service.Domain.Scoring.Limit.{score_proposal-eq-some}
use byos_service.Domain.GasCut.{GasCut, size}
use byos_service.Domain.GasCut.Cover.{Fulfills, size-Fulfills, size_cover}
use byos_service.Domain.Order.{check_envelope}
use byos_service.Domain.Order.Envelope.{
  FillOrQuote, candidate_of, check_envelope_iff, check_envelope-surplus,
}
use byos_service.Tests.Data.{fresh, candidate, order_record}

abbrev cut : GasCut
cut = record { amount = 80_000; executed_amount = 920_000 }

score_proposal-eq-some_example : (score_proposal candidate ether ≡ some 920_000) ↔ (
    (1_000_000 ≤ 2_000_000)
    × ((2_000_000 - 1_000_000) * ether < u256_limit)
    × (920_000 + 80_000 ≡ (2_000_000 - 1_000_000) * ether / ether))
score_proposal-eq-some_example = score_proposal-eq-some candidate ether 920_000

size-Fulfills_example : Fulfills true candidate cut
unfolding size checked_mul checked_sub div_ceil checked_div
size-Fulfills_example = size-Fulfills candidate ether cut refl

size_cover_example :
    (80_000 * ether ≤ cut.amount * ether) × (cut.amount * ether < 80_000 * ether + ether)
unfolding size checked_mul checked_sub div_ceil checked_div
size_cover_example = size_cover candidate ether {cut = cut} refl

check_envelope_iff_example :
    (check_envelope order_record fresh ≡ ok tt)
    ↔ ((true ≡ true) × FillOrQuote true order_record.order fresh)
check_envelope_iff_example = check_envelope_iff order_record fresh

check_envelope-surplus_example :
    (s : U256) × (and_then
        (scaled_to_fill (candidate_of order_record.order fresh 80_000) true)
        surplus
      ≡ some s)
unfolding check_envelope checked_mul
check_envelope-surplus_example = check_envelope-surplus order_record fresh 80_000 refl refl
