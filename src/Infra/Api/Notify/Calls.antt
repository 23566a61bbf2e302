-- ===== src/Infra/Api/Notify/Calls.antt =====
-- What a notification asks of the store, and for whom (crates/byos/src/infra/api/notify.rs).
use Prim.Native.String.{String}
use text.Mathlib.TextEquality.{eq_iff}
use byos_service.Prelude.{
  ℕ, suc, ◌≡◌, ◌⊎◌, inl, inr, Bool-cases, Option-cases, Result-cases, true, Option, some, List, [],
  ◌∷◌, In-All, All, str_eq, arith, subst,
}
use byos_service.Domain.Proposal.{
  B256, Proposal, SettlementOutcome, started, succeeded, reverted, abandoned,
}
use byos_service.Infra.Storage.Db.{Db, Faults}
use byos_service.Infra.Storage.Outcomes.{
  applied, ignored, apply_settlement_outcome, note_driver_notification,
}
use byos_service.Infra.Api.Notify.{
  Notification, outcome_of, attributed_proposals, note_all, report, report_all, notify,
}
use byos_service.Infra.Api.Notify.Attributed.{IsAttributed, attributed_proposals-IsAttributed}

-- What the kind of a notification says of the settlement.
pub data Means (n : Notification) : SettlementOutcome → Type 0 where
  begins : n.kind ≡ "settlementStarted" → Means n started
  settles : (tx : B256) → n.kind ≡ "success" → n.transaction ≡ some tx → Means n (succeeded tx)
  reverts : (tx : B256) → n.kind ≡ "revert" → n.transaction ≡ some tx → Means n (reverted tx)
  gives_up : (n.kind ≡ "cancelled") ⊎ (n.kind ≡ "expired") ⊎ (n.kind ≡ "fail") → Means n abandoned

-- Calls of the store, each for a proposal of `Q`: a report of what the notification means, or a note
-- of its kind.
pub data Calls (n : Notification) (Q : Proposal → Type 0) (db : Db) : Db → Type 0 where
  idle : Calls n Q db db
  reported :
      {b : Db} (f : Faults) (p : Proposal) (o : SettlementOutcome)
      → Calls n Q db b
      → Q p
      → Means n o
      → Calls n Q db (apply_settlement_outcome f p o b).1
  noted :
      {b : Db} (p : Proposal)
      → Calls n Q db b
      → Q p
      → Calls n Q db (note_driver_notification p n.kind b)

kind_is : (s t : String) → str_eq s t ≡ true → s ≡ t
kind_is s t h = (eq_iff s t).0 h

outcome_of-Means : (n : Notification) (o : SettlementOutcome) → outcome_of n ≡ some o → Means n o
unfolding outcome_of
outcome_of-Means n o h = elim (Bool-cases (str_eq n.kind "settlementStarted")) [
  | inl y ↦ subst (Means n) (ground arith) (begins (kind_is n.kind "settlementStarted" y))
  | inr a ↦ elim (Bool-cases (str_eq n.kind "success")) [
    | inl y ↦ elim (Option-cases n.transaction) [
      | inl q ↦ absurd (ground arith)
      | inr (tx, q) ↦ subst (Means n) (ground arith) (settles tx (kind_is n.kind "success" y) q)
    ]
    | inr b ↦ elim (Bool-cases (str_eq n.kind "revert")) [
      | inl y ↦ elim (Option-cases n.transaction) [
        | inl q ↦ absurd (ground arith)
        | inr (tx, q) ↦ subst (Means n) (ground arith) (reverts tx (kind_is n.kind "revert" y) q)
      ]
      | inr c ↦ elim (Bool-cases (str_eq n.kind "cancelled")) [
        | inl y ↦ subst (Means n) (ground arith) (gives_up (inl (kind_is n.kind "cancelled" y)))
        | inr d ↦ elim (Bool-cases (str_eq n.kind "expired")) [
          | inl y ↦
              subst (Means n) (ground arith) (gives_up (inr (inl (kind_is n.kind "expired" y))))
          | inr e ↦ elim (Bool-cases (str_eq n.kind "fail")) [
            | inl y ↦
                subst (Means n) (ground arith) (gives_up (inr (inr (kind_is n.kind "fail" y))))
            | inr g ↦ absurd (ground arith)
          ]
        ]
      ]
    ]
  ]
]

module _ (n : Notification) (Q : Proposal → Type 0) (db : Db) where
  note_all-Calls :
      (ps : List Proposal) (b : Db)
      → All Q ps
      → Calls n Q db b
      → Calls n Q db (note_all n.kind ps b)
  unfolding note_all
  note_all-Calls [] b q c = c
  note_all-Calls (p ∷ ps) b q c = note_all-Calls ps _ q.1 (noted p c q.0)

  report-Calls :
      (f : Faults) (o : SettlementOutcome) (p : Proposal) (b : Db)
      → Means n o
      → Q p
      → Calls n Q db b
      → Calls n Q db (report f o n.kind p b)
  unfolding report
  report-Calls f o p b m q c = elim (Result-cases (apply_settlement_outcome f p o b).0) [
    | inl (applied from to, r) ↦ rw (r, report) (reported f p o c q m)
    | inl (ignored from, r) ↦ rw (r, report) (noted p (reported f p o c q m) q)
    | inr (e, r) ↦ rw (r, report) (reported f p o c q m)
  ]

  report_all-Calls :
      (f : ℕ → Faults) (o : SettlementOutcome) (ps : List Proposal) (b : Db)
      → Means n o
      → All Q ps
      → Calls n Q db b
      → Calls n Q db (report_all f o n.kind ps b)
  unfolding report_all
  report_all-Calls f o [] b m q c = c
  report_all-Calls f o (p ∷ ps) b m q c =
      report_all-Calls (λ k. f (suc k)) o ps _ m q.1 (report-Calls (f 0) o p b m q.0 c)

-- What a notification does to the database is a sequence of calls of the store, each for a
-- proposal that a row of the solutions table names under the notification's auction and one of its
-- solutions, and that its own row decodes to; each call is a report of the outcome that the
-- notification's kind and transaction stand for, or a note of its kind in the trail.
pub notify-Calls :
    (f : ℕ → Faults) (parse_i64 : String → Option ℕ) (n : Notification) (db : Db)
    → Calls n (IsAttributed parse_i64 n db) db (notify f parse_i64 n db).1
unfolding notify
notify-Calls f parse_i64 n db =
    let ps = attributed_proposals (f 0) parse_i64 n db in
    let known =
      In-All (IsAttributed parse_i64 n db) ps
        (λ p i. attributed_proposals-IsAttributed (f 0) parse_i64 n db p i) in
    elim (Option-cases (outcome_of n)) [
      | inl q ↦ rw (q, notify) (note_all-Calls n _ db ps db known idle)
      | inr (o, q) ↦
          rw (q, notify)
            (report_all-Calls n _ db (λ k. f (suc k)) o ps db (outcome_of-Means n o q) known idle)
    ]
