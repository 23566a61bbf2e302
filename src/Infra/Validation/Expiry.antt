-- ===== src/Infra/Validation/Expiry.antt =====
-- The store calls of a validation tick
-- (crates/byos/src/infra/validation.rs).
use byos_service.Prelude.{
  ℕ, suc, ◌≡◌, inl, inr, Bool-cases, Result-cases, true, Option, none, some, List, [], ◌∷◌, All,
  ltb,
}
use byos_service.Domain.Validator.{Verdict}
use byos_service.Domain.Proposal.{Proposal, is_live, submitted, active}
use byos_service.Infra.Storage.Db.{Db, Faults}
use byos_service.Infra.Storage.Outcomes.{release_stale_executing}
use byos_service.Infra.Storage.Queries.{snapshot_by_statuses}
use byos_service.Infra.Storage.Lifecycle.{Reach, next, expires, resolves, releases}
use byos_service.Infra.Storage.Snapshots.{snapshot-live}
use byos_service.Infra.Validation.{ValidateProposal, expire_all, resolved, judge_all, run_tick}

expire_all-Reach :
    (f : ℕ → Faults) (now : ℕ) (ps : List Proposal) {a b : Db}
    → All (λ p. is_live p.status ≡ true) ps
    → Reach a b
    → Reach a (expire_all f now ps b).1
unfolding expire_all
expire_all-Reach f now [] live r = r
expire_all-Reach f now (p ∷ ps) {b = b} live r = elim (Bool-cases (ltb p.valid_until now)) [
  | inl y ↦
      rw (y, expire_all)
        (expire_all-Reach (λ n. f (suc n)) now ps live.1 (next r (expires (f 0) p b live.0)))
  | inr n ↦ rw (n, expire_all) (expire_all-Reach (λ n. f (suc n)) now ps live.1 r)
]

resolved-Reach :
    (f : Faults) (p : Proposal) (v : Option Verdict) {a b : Db}
    → Reach a b
    → Reach a (resolved f p v b)
resolved-Reach f p none r = r
resolved-Reach f p (some v) {b = b} r = next r (resolves f p.id v b)

judge_all-Reach :
    {V : Type 0} (f : ℕ → Faults) (validator : ValidateProposal V) (ps : List Proposal) (v : V)
    {a b : Db}
    → Reach a b
    → Reach a (judge_all f validator ps (v, b)).1
unfolding judge_all
judge_all-Reach f validator [] v r = r
judge_all-Reach f validator (p ∷ ps) v r =
    let (verdict, v') = validator.validate p v in
    judge_all-Reach (λ n. f (suc n)) validator ps v' (resolved-Reach (f 0) p verdict r)

-- What a tick of the validation loop does to the database is a sequence of calls of the store, in
-- which only live snapshots are expired, in whatever order the validations are done.
pub validation_tick-Reach :
    {V : Type 0} (f g h : ℕ → Faults) (validator : ValidateProposal V)
    (order : List Proposal → List Proposal) (now executing_timeout : ℕ) (v : V) (db : Db)
    → Reach db (run_tick f g h validator order now executing_timeout (v, db)).1
unfolding run_tick
validation_tick-Reach f g h validator order now timeout v db =
    let released = (release_stale_executing (f 0) timeout db).1 in
    elim (Result-cases (snapshot_by_statuses (f 1) (submitted ∷ active ∷ []) released)) [
      | inr (e, q) ↦ rw (q, run_tick) (next Reach.here (releases (f 0) timeout db))
      | inl (live, q) ↦
          rw (q, run_tick)
            (judge_all-Reach h validator (order (expire_all g now live released).0)
              (validator.begin_tick v)
              (expire_all-Reach g now live (snapshot-live (f 1) released live q)
                (next Reach.here (releases (f 0) timeout db))))
    ]
