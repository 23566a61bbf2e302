-- ===== src/Infra/Validation.antt =====
-- The background validation tick (crates/byos/src/infra/validation.rs). The judge is behind the
-- trait `ValidateProposal` (crates/byos/src/domain/validator.rs): a state, here `V`, and its calls.
-- The tick validates concurrently and resolves a verdict when its validation is done, so the order
-- of completion is an argument.
pub mod Expiry
pub mod Late
use byos_service.Prelude.{
  ℕ, suc, Bool, true, false, not, Option, none, some, Result, ok, err, List, [], ◌∷◌, ltb,
  if◌then◌else◌,
}
use byos_service.Domain.Validator.{Verdict, accept}
use byos_service.Domain.Proposal.{Proposal, submitted, active, expired}
use byos_service.Infra.Storage.Db.{Db, Faults}
use byos_service.Infra.Storage.Ops.{transition, resolve_verdict}
use byos_service.Infra.Storage.Outcomes.{release_stale_executing}
use byos_service.Infra.Storage.Queries.{snapshot_by_statuses}

-- `trait ValidateProposal`
pub record ValidateProposal (V : Type 0) : Type 0 where
  pub validate : Proposal → V → Option Verdict × V
  pub begin_tick : V → V

-- `AcceptAll`
unfoldable pub accept_all : {V : Type 0} → ValidateProposal V
accept_all = record { validate = λ p v. (some (accept none), v); begin_tick = λ v. v }

-- The loop over the snapshot: the expired proposals are transitioned, and the others are kept for
-- validation. `f n` are the faults of the n-th call.
unfoldable pub expire_all : (ℕ → Faults) → ℕ → List Proposal → Db → List Proposal × Db
unfolding transition
expire_all f now [] db = ([], db)
expire_all f now (p ∷ ps) db =
    let late = ltb p.valid_until now in
    let after = (if late then (transition (f 0) p expired db).1 else db) in
    let (kept, last) = expire_all (λ n. f (suc n)) now ps after in
    (if late then kept else p ∷ kept, last)

-- A deferred judgment leaves the proposal to the next tick.
abbrev pub resolved : Faults → Proposal → Option Verdict → Db → Db
resolved f p none db = db
resolved f p (some verdict) db = (resolve_verdict f p.id verdict db).1

-- The validations, in the order in which they are done.
unfoldable pub judge_all :
    {V : Type 0} → (ℕ → Faults) → ValidateProposal V → List Proposal → V × Db → V × Db
unfolding resolve_verdict
judge_all f validator [] state = state
judge_all f validator (p ∷ ps) (v, db) =
    let (verdict, v') = validator.validate p v in
    judge_all (λ n. f (suc n)) validator ps (v', resolved (f 0) p verdict db)

-- One pass: the executing timeout, the expiry, the validation; `order` is the order in which the
-- validations are done.
unfoldable pub run_tick :
    {V : Type 0}
    → (ℕ → Faults)
    → (ℕ → Faults)
    → (ℕ → Faults)
    → ValidateProposal V
    → (List Proposal → List Proposal)
    → ℕ
    → ℕ
    → V × Db
    → V × Db
unfolding release_stale_executing snapshot_by_statuses expire_all judge_all
run_tick f g h validator order now executing_timeout (v, db) =
    let begun = validator.begin_tick v in
    let released = (release_stale_executing (f 0) executing_timeout db).1 in
    elim (snapshot_by_statuses (f 1) (submitted ∷ active ∷ []) released) [
      | err e ↦ (begun, released)
      | ok live ↦
          let (to_validate, swept) = expire_all g now live released in
          judge_all h validator (order to_validate) (begun, swept)
    ]
