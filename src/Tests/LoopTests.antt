-- ===== src/Tests/LoopTests.antt =====
-- The background loops' properties at concrete inputs.
use byos_service.Domain.Proposal.{same_status}
use byos_service.Prelude.{ℕ, ◌≡◌, refl, false, [], ◌∷◌, All, arith}
use byos_service.Domain.Proposal.{OrderUid, B256}
use byos_service.Infra.Storage.Rows.{encode, decode-encode}
use byos_service.Infra.Storage.Db.{healthy}
use byos_service.Infra.Storage.Queries.{snapshot_by_statuses}
use byos_service.Infra.Storage.Lifecycle.{Reach}
use byos_service.Infra.Penalty.{Loop, run_tick}
use byos_service.Infra.Penalty.Attempts.{IsCapped, penalty_tick-IsCapped}
use byos_service.Infra.Penalty.Debits.{penalty_tick-Reach}
use byos_service.Infra.Validation.{expire_all, run_tick as validation_tick}
use byos_service.Infra.Validation.Expiry.{validation_tick-Reach}
use byos_service.Infra.Validation.Late.{is_late, expire_all-none_late}
use byos_service.Tests.Data.{simulated, active_book, operator, judge}

abbrev keccak256 : OrderUid → B256
keccak256 uid = uid

abbrev loop : Loop ℕ
loop = record {
  chain = 0;
  db = active_book;
  attempts = record { revert = (1, 10) ∷ []; non_settlement = [] };
}

penalty_tick-IsCapped_example :
    IsCapped (run_tick (λ n. healthy) (λ n. healthy) keccak256 operator 100 loop).attempts.revert
    × IsCapped
        (run_tick (λ n. healthy) (λ n. healthy) keccak256 operator 100 loop).attempts.non_settlement
penalty_tick-IsCapped_example =
    penalty_tick-IsCapped (λ n. healthy) (λ n. healthy) keccak256 operator 100 loop
      (omega arith, tt) tt

penalty_tick-Reach_example :
    Reach active_book (run_tick (λ n. healthy) (λ n. healthy) keccak256 operator 100 loop).db
penalty_tick-Reach_example =
    penalty_tick-Reach (λ n. healthy) (λ n. healthy) keccak256 operator 100 loop

expire_all-none_late_example :
    All
      (λ row. is_late 60 row ≡ false)
      (expire_all (λ n. healthy) 60 (simulated ∷ []) active_book).1.rows
unfolding snapshot_by_statuses encode same_status
expire_all-none_late_example =
    expire_all-none_late healthy 60 active_book (simulated ∷ [])
      ((simulated, decode-encode simulated 0), tt) (omega arith, tt) refl

validation_tick-Reach_example :
    Reach active_book
      (validation_tick
        (λ n. healthy)
        (λ n. healthy)
        (λ n. healthy)
        judge
        (λ ps. ps)
        60
        3_600
        (0, active_book)).1
validation_tick-Reach_example =
    validation_tick-Reach (λ n. healthy) (λ n. healthy) (λ n. healthy) judge (λ ps. ps) 60 3_600 0
      active_book
