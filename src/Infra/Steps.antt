-- ===== src/Infra/Steps.antt =====
-- What the handlers and the retention loop do to the database (crates/byos/src/infra/api and
-- crates/byos/src/infra/retention.rs).
use byos_service.Prelude.{ℕ, Result-cases, inl, inr, String, Option}
use byos_service.Domain.Proposal.{ProposalId, U256}
use byos_service.Domain.Uid.{Codec}
use byos_service.Common.Trampoline.{Abi}
use byos_service.Common.Eip712.{Crypto}
use byos_service.Common.Dto.{CreateProposalRequest}
use byos_service.Infra.Storage.Db.{Db, Faults}
use byos_service.Infra.Storage.Lifecycle.{Reach, next, submits, cancels}
use byos_service.Infra.Api.Solve.{Auction, solve}
use byos_service.Infra.Api.Solve.Steps.{solve-Reach}
use byos_service.Infra.Api.Notify.{Notification, notify}
use byos_service.Infra.Api.Notify.Outcomes.{notify-Reach}
use byos_service.Infra.Api.Routes.{
  AppState, Header, checked_proposal, create_proposal, canceller, cancel_signed, cancel_proposal,
}
use byos_service.Infra.Api.Routes.Creation.{checked_proposal-IsAcceptable, IsAcceptable}
use byos_service.Infra.Retention.{retention_loop, retention_loop-Reach}

module _ (k : Codec) (c : Crypto) (state : AppState) (f : Faults) (db : Db) where
  create_proposal-Reach :
      (now : ℕ) (body : CreateProposalRequest)
      → Reach db (create_proposal k c f state now body db).1
  unfolding create_proposal
  create_proposal-Reach now body = elim (Result-cases (checked_proposal k c state now body)) [
    | inr (e, q) ↦ rw (q, create_proposal) Reach.here
    | inl (p, q) ↦
        rw (q, create_proposal)
          (next Reach.here (
            submits f p db
              (IsAcceptable.waiting (checked_proposal-IsAcceptable k c state now body p q))))
  ]

  cancel_proposal-Reach :
      (header : Header) (id : ProposalId) → Reach db (cancel_proposal k c f state header id db).1
  unfolding cancel_proposal cancel_signed
  cancel_proposal-Reach header id = elim (Result-cases (canceller k c state header id)) [
    | inr (e, q) ↦ rw (q, cancel_proposal) Reach.here
    | inl (signer, q) ↦ rw (q, cancel_proposal) (next Reach.here (cancels f id signer db))
  ]

-- What a creation, a cancellation, a round of solving, a notification or any number of retention
-- sweeps does to the database is a sequence of calls of the store and of the passing of time.
handlers-Reach :
    (k : Codec) (c : Crypto) (state : AppState) (f : Faults) (g : ℕ → Faults) (db : Db)
    → ((now : ℕ) (body : CreateProposalRequest)
        → Reach db (create_proposal k c f state now body db).1)
      × ((header : Header) (id : ProposalId)
          → Reach db (cancel_proposal k c f state header id db).1)
      × ((abi : Abi) (now : U256) (a : Auction) (gas_price : ℕ)
          → Reach db (solve g abi now a gas_price db).round.db)
      × ((parse_i64 : String → Option ℕ) (n : Notification) → Reach db (notify g parse_i64 n db).1)
      × ((n period retention : ℕ) → Reach db (retention_loop n g period retention db))
handlers-Reach k c state f g db = (
  create_proposal-Reach k c state f db,
  cancel_proposal-Reach k c state f db,
  λ abi now a gas_price. solve-Reach g abi now a gas_price db,
  λ parse_i64 n. notify-Reach g parse_i64 n db,
  λ n period retention. retention_loop-Reach n g period retention db Reach.here,
)
