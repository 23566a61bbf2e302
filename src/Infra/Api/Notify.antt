-- ===== src/Infra/Api/Notify.antt =====
-- The `/notify` handler (crates/byos/src/infra/api/notify.rs).
pub mod Outcomes
pub mod Attributed
pub mod Calls
pub mod Absorbed
use byos_service.Prelude.{
  ℕ, suc, Bool, true, false, ◌||◌, Option, none, some, and_then, Result, ok, err, List, [], ◌∷◌,
  String, str_eq, if◌then◌else◌,
}
use byos_service.Domain.Proposal.{
  B256, Proposal, SettlementOutcome, started, succeeded, reverted, abandoned,
}
use byos_service.Infra.Storage.Db.{Db, Faults}
use byos_service.Infra.Storage.Outcomes.{
  applied, ignored, apply_settlement_outcome, note_driver_notification,
}
use byos_service.Infra.Storage.Queries.{solution_proposals}

pub data SolutionIds : Type 0 where
  single : ℕ → SolutionIds
  merged : List ℕ → SolutionIds

pub record Notification : Type 0 where
  pub auction_id : Option String
  pub solution_id : Option SolutionIds
  pub kind : String
  pub transaction : Option B256

unfoldable pub outcome_of : Notification → Option SettlementOutcome
outcome_of n =
    if str_eq n.kind "settlementStarted"
    then some started
    else if str_eq n.kind "success"
    then and_then n.transaction (λ tx. some (succeeded tx))
    else if str_eq n.kind "revert"
    then and_then n.transaction (λ tx. some (reverted tx))
    else if str_eq n.kind "cancelled" || str_eq n.kind "expired" || str_eq n.kind "fail"
    then some abandoned
    else none

unfoldable pub is_outcome : String → Bool
is_outcome kind =
    str_eq kind "settlementStarted"
    || str_eq kind "success"
    || str_eq kind "revert"
    || str_eq kind "cancelled"
    || str_eq kind "expired"
    || str_eq kind "fail"

abbrev pub ids_of : SolutionIds → List ℕ
ids_of (single id) = id ∷ []
ids_of (merged ids) = ids

abbrev looked_up : {E A : Type 0} → Result E (List A) → List A
looked_up (ok ps) = ps
looked_up (err e) = []

-- `parse_i64` is `str::parse::<i64>`, answering the bit pattern.
unfoldable pub attributed_proposals :
    Faults → (String → Option ℕ) → Notification → Db → List Proposal
unfolding solution_proposals
attributed_proposals f parse_i64 n db = elim (and_then n.auction_id parse_i64) [
  | none ↦ []
  | some auction_id ↦ elim n.solution_id [
    | none ↦ []
    | some ids ↦ looked_up (solution_proposals f auction_id (ids_of ids) db)
  ]
]

-- The loop that leaves evidence of a notification that carries no outcome.
unfoldable pub note_all : String → List Proposal → Db → Db
unfolding note_driver_notification
note_all kind [] db = db
note_all kind (p ∷ ps) db = note_all kind ps (note_driver_notification p kind db)

unfoldable pub report : Faults → SettlementOutcome → String → Proposal → Db → Db
unfolding apply_settlement_outcome note_driver_notification
report f outcome kind p db =
    let (answer, after) = apply_settlement_outcome f p outcome db in
    elim answer [
      | ok effect ↦ elim effect [
        | applied from to ↦ after
        | ignored from ↦ note_driver_notification p kind after
      ]
      | err e ↦ after
    ]

-- The loop that applies an outcome; `f n` are the faults of its n-th call.
unfoldable pub report_all : (ℕ → Faults) → SettlementOutcome → String → List Proposal → Db → Db
unfolding report
report_all f outcome kind [] db = db
report_all f outcome kind (p ∷ ps) db =
    report_all (λ n. f (suc n)) outcome kind ps (report (f 0) outcome kind p db)

-- `StatusCode::OK`
abbrev pub status_ok : ℕ
status_ok = 200

-- No proposals, no call: the early return is the loops over none.
unfoldable pub notify : (ℕ → Faults) → (String → Option ℕ) → Notification → Db → ℕ × Db
unfolding attributed_proposals outcome_of note_all report_all
notify f parse_i64 n db =
    let proposals = attributed_proposals (f 0) parse_i64 n db in
    elim (outcome_of n) [
      | none ↦ (status_ok, note_all n.kind proposals db)
      | some outcome ↦ (status_ok, report_all (λ k. f (suc k)) outcome n.kind proposals db)
    ]
