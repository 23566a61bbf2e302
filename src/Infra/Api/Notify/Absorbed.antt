-- ===== src/Infra/Api/Notify/Absorbed.antt =====
-- What a notification leaves of the proposals that it is attributed to
-- (crates/byos/src/infra/api/notify.rs).
use byos_service.Prelude.{◌≡◌, Option, some, none}
use byos_service.Domain.Proposal.{ProposalStatus, Proposal, SettlementOutcome}
use byos_service.Infra.Storage.Rows.{Column, Row}
use byos_service.Infra.Storage.Db.{Db}
use byos_service.Infra.Storage.Outcomes.{outcome_target}

-- The outcome leads nowhere from the status, where it can be read.
abbrev pub IsAbsorbedIn : SettlementOutcome → Column ProposalStatus → Type 0
IsAbsorbedIn o none = Unit {0}
IsAbsorbedIn o (some s) = outcome_target o s ≡ none

-- There is no row, or the outcome leads nowhere from its status.
abbrev pub IsAbsorbed : SettlementOutcome → Option Row → Type 0
IsAbsorbed o none = Unit {0}
IsAbsorbed o (some row) = IsAbsorbedIn o row.status
