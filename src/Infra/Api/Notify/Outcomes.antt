-- ===== src/Infra/Api/Notify/Outcomes.antt =====
-- The outcome of a notification and the store calls of the handler
-- (crates/byos/src/infra/api/notify.rs).
use byos_service.Prelude.{
  ℕ, suc, ◌≡◌, ◌⊎◌, ◌↔◌, refl, inl, inr, Option-cases, Result-cases, true, false, Option, none,
  List, [], ◌∷◌, String, str_eq, str_eq-differs, arith,
}
use byos_service.Domain.Proposal.{Proposal, SettlementOutcome}
use byos_service.Infra.Storage.Db.{Db, Faults}
use byos_service.Infra.Storage.Outcomes.{applied, ignored, apply_settlement_outcome}
use byos_service.Infra.Storage.Lifecycle.{Reach, next, reports, notes}
use byos_service.Infra.Api.Notify.{
  Notification, outcome_of, is_outcome, attributed_proposals, note_all, report, report_all, notify,
}

-- A notification carries no outcome exactly when its kind is none of the outcome kinds, or it
-- reports a success or a revert without a transaction hash.
pub outcome_of-eq-none :
    (n : Notification)
    → (outcome_of n ≡ none) ↔ (
        (is_outcome n.kind ≡ false)
        ⊎ ((n.transaction ≡ none)
            × ((str_eq n.kind "success" ≡ true) ⊎ (str_eq n.kind "revert" ≡ true))))
unfolding outcome_of is_outcome
outcome_of-eq-none n = ground (
  arith,
  str_eq-differs n.kind "success" "settlementStarted" refl,
  str_eq-differs n.kind "revert" "settlementStarted" refl,
  str_eq-differs n.kind "revert" "success" refl,
)

note_all-Reach :
    (kind : String) (ps : List Proposal) {a b : Db} → Reach a b → Reach a (note_all kind ps b)
unfolding note_all
note_all-Reach kind [] r = r
note_all-Reach kind (p ∷ ps) {b = b} r = note_all-Reach kind ps (next r (notes p kind b))

report-Reach :
    (f : Faults) (o : SettlementOutcome) (kind : String) (p : Proposal) {a b : Db}
    → Reach a b
    → Reach a (report f o kind p b)
unfolding report
report-Reach f o kind p {b = b} r = elim (Result-cases (apply_settlement_outcome f p o b).0) [
  | inl (applied from to, q) ↦ rw (q, report) (next r (reports f p o b))
  | inl (ignored from, q) ↦ rw (q, report) (next (next r (reports f p o b)) (notes p kind _))
  | inr (e, q) ↦ rw (q, report) (next r (reports f p o b))
]

report_all-Reach :
    (f : ℕ → Faults) (o : SettlementOutcome) (kind : String) (ps : List Proposal) {a b : Db}
    → Reach a b
    → Reach a (report_all f o kind ps b)
unfolding report_all
report_all-Reach f o kind [] r = r
report_all-Reach f o kind (p ∷ ps) r =
    report_all-Reach (λ n. f (suc n)) o kind ps (report-Reach (f 0) o kind p r)

-- What a notification does to the database is a sequence of calls of the store.
pub notify-Reach :
    (f : ℕ → Faults) (parse_i64 : String → Option ℕ) (n : Notification) (db : Db)
    → Reach db (notify f parse_i64 n db).1
unfolding notify
notify-Reach f parse_i64 n db = elim (Option-cases (outcome_of n)) [
  | inl q ↦
      rw (q, notify) (note_all-Reach n.kind (attributed_proposals (f 0) parse_i64 n db) Reach.here)
  | inr (o, q) ↦
      rw (q, notify)
        (report_all-Reach (λ k. f (suc k)) o n.kind (attributed_proposals (f 0) parse_i64 n db)
          Reach.here)
]
