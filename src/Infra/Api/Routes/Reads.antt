-- ===== src/Infra/Api/Routes/Reads.antt =====
-- What the reads and the cancellation disclose (crates/byos/src/infra/api/routes.rs).
use byos_service.Prelude.{
  ℕ, ◌<◌, ◌≡◌, ◌≢◌, ◌↔◌, inl, inr, Option-cases, Result-cases, true, some, none, ok, err, arith,
}
use byos_service.Prelude.Ints.{i64_limit}
use byos_service.Domain.Proposal.{ProposalId, Address, Proposal, ProposalStatus, OrderUid, is_live}
use byos_service.Domain.Uid.{Codec}
use byos_service.Common.Eip712.{Crypto}
use byos_service.Common.Dto.{GetProposalResponse, proposal_not_found}
use byos_service.Infra.Storage.Rows.{Row, decode}
use byos_service.Infra.Storage.Db.{Db, Faults, find_row}
use byos_service.Infra.Storage.Decoding.{decode-eq-ok}
use byos_service.Infra.Storage.Ops.{cancel}
use byos_service.Infra.Storage.Queries.{get}
use byos_service.Infra.Api.Errors.{of_kind}
use byos_service.Infra.Api.Routes.{
  AppState, Header, authenticate_reader, get_proposal, proposal_view, cancel_proposal, canceller,
  cancel_signed, status_no_content, cancel_error,
}

-- No proposal has that id, or its row is readable and another's.
abbrev pub IsForeign : Address → ProposalId → Db → Type 0
IsForeign caller id db =
    (row : Row)
    → find_row id db.rows ≡ some row
    → (p : Proposal) × (decode row ≡ ok p) × (p.sub_solver ≢ caller)

-- The proposal of that id is there and is the reader's.
abbrev pub Owns : Address → ProposalId → Db → Proposal → Type 0
Owns reader id db p =
    (id < i64_limit)
    × (row : Row) × (find_row id db.rows ≡ some row)
    × (decode row ≡ ok p)
    × (p.sub_solver ≡ reader)

module _ (k : Codec) (c : Crypto) (state : AppState) (header : Header) (id : ProposalId)
    (db : Db) where
  pub get_proposal-hides :
      (f : Faults) (reader : Address)
      → f 0 ≡ none
      → authenticate_reader k c header state.domain ≡ ok reader
      → ((row : Row)
          → find_row id db.rows ≡ some row
          → (p : Proposal) × (decode row ≡ ok p) × (p.sub_solver ≢ reader))
      → get_proposal k c f state header id db ≡ err (of_kind proposal_not_found)
  unfolding get_proposal get
  get_proposal-hides f reader fine auth others = elim (Option-cases (find_row id db.rows)) [
    | inl missing ↦ ground arith
    | inr (row, found) ↦ let (p, q, other) = others row found in ground arith
  ]

  -- If the database call does not fail and the reader authenticates, a read answers with a body
  -- exactly when the id fits BIGINT and its row decodes to a proposal of the reader, and the body
  -- is that proposal's view.
  pub get_proposal_iff :
      (f : Faults) (answer : GetProposalResponse) (reader : Address)
      → f 0 ≡ none
      → authenticate_reader k c header state.domain ≡ ok reader
      → (get_proposal k c f state header id db ≡ ok answer)
        ↔ ((p : Proposal) × Owns reader id db p × (answer ≡ proposal_view k p))
  unfolding get_proposal get
  get_proposal_iff f answer reader fine auth = (to, from)
    where
      to :
          get_proposal k c f state header id db ≡ ok answer
          → (p : Proposal) × Owns reader id db p × (answer ≡ proposal_view k p)
      to h = elim (Option-cases (find_row id db.rows)) [
        | inl missing ↦ absurd (ground arith)
        | inr (row, found) ↦ elim (Result-cases (decode row)) [
          | inr (e, q) ↦ absurd (ground arith)
          | inl (p, q) ↦ (p, (ground arith, row, found, q, ground arith), ground arith)
        ]
      ]

      from :
          (p : Proposal) × Owns reader id db p × (answer ≡ proposal_view k p)
          → get_proposal k c f state header id db ≡ ok answer
      from (p, (small, row, found, q, mine), e) = ground arith

  -- If no database call fails and the canceller's signature recovers, DELETE answers 204 exactly
  -- when the id fits BIGINT and its row is the signer's, with a readable order and a live status.
  pub cancel_proposal_iff :
      (f : Faults) (signer : Address)
      → ((n : ℕ) → f n ≡ none)
      → canceller k c state header id ≡ ok signer
      → ((cancel_proposal k c f state header id db).0 ≡ ok status_no_content) ↔ (
          (id < i64_limit)
          × (row : Row) × (from : ProposalStatus) × (uid : OrderUid) × (find_row id db.rows
              ≡ some row)
          × (row.sub_solver ≡ some signer)
          × (row.order_uid ≡ some uid)
          × (row.status ≡ some from)
          × (is_live from ≡ true))
  unfolding cancel_proposal cancel_signed cancel
  cancel_proposal_iff f signer fine auth = (to, from_row)
    where
      to :
          (cancel_proposal k c f state header id db).0 ≡ ok status_no_content
          → ((id < i64_limit)
              × (row : Row) × (from : ProposalStatus) × (uid : OrderUid) × (find_row id db.rows
                  ≡ some row)
              × (row.sub_solver ≡ some signer)
              × (row.order_uid ≡ some uid)
              × (row.status ≡ some from)
              × (is_live from ≡ true))
      to h = elim (Option-cases (find_row id db.rows)) [
        | inl missing ↦ absurd (ground (arith, fine 0, fine 1, fine 2, fine 3))
        | inr (row, found) ↦ elim (Option-cases row.order_uid) [
          | inl q ↦ absurd (ground (arith, fine 0, fine 1, fine 2, fine 3))
          | inr (uid, u) ↦ elim (Option-cases row.status) [
            | inl q ↦ absurd (ground (arith, fine 0, fine 1, fine 2, fine 3))
            | inr (from, q) ↦
                (ground arith, row, from, uid, found, ground arith, u, q, ground arith)
          ]
        ]
      ]

      from_row :
          ((id < i64_limit)
            × (row : Row) × (from : ProposalStatus) × (uid : OrderUid) × (find_row id db.rows
                ≡ some row)
            × (row.sub_solver ≡ some signer)
            × (row.order_uid ≡ some uid)
            × (row.status ≡ some from)
            × (is_live from ≡ true))
          → (cancel_proposal k c f state header id db).0 ≡ ok status_no_content
      from_row (small, row, from, uid, found, mine, u, q, live) =
          ground (arith, fine 0, fine 1, fine 2, fine 3)

  pub cancel_proposal-hides :
      (f : Faults) (signer : Address)
      → ((n : ℕ) → f n ≡ none)
      → canceller k c state header id ≡ ok signer
      → ((row : Row)
          → find_row id db.rows ≡ some row
          → (owner : Address) × (uid : OrderUid) × (row.sub_solver ≡ some owner)
            × (row.order_uid ≡ some uid)
            × (owner ≢ signer))
      → cancel_proposal k c f state header id db ≡ (err (of_kind proposal_not_found), db)
  unfolding cancel_proposal cancel_signed cancel cancel_error
  cancel_proposal-hides f signer fine auth others = elim (Option-cases (find_row id db.rows)) [
    | inl missing ↦ ground (arith, fine 0, fine 1)
    | inr (row, found) ↦
        let (owner, uid, o, u, other) = others row found in ground (arith, fine 0, fine 1)
  ]

-- If no database call fails and a caller authenticates to both routes, then for an id that no row
-- has, or whose row decodes to a proposal of another sub-solver, the read and the cancellation
-- both answer that the proposal is not found, and the cancellation changes nothing.
pub foreign-eq-missing :
    (k : Codec) (c : Crypto) (state : AppState) (read_header cancel_header : Header)
    (id : ProposalId) (db : Db) (f : Faults) (caller : Address)
    → ((n : ℕ) → f n ≡ none)
    → authenticate_reader k c read_header state.domain ≡ ok caller
    → canceller k c state cancel_header id ≡ ok caller
    → IsForeign caller id db
    → (get_proposal k c f state read_header id db ≡ err (of_kind proposal_not_found))
      × (cancel_proposal k c f state cancel_header id db ≡ (err (of_kind proposal_not_found), db))
foreign-eq-missing k c state read_header cancel_header id db f caller fine read cancels foreign = (
  get_proposal-hides k c state read_header id db f caller (fine 0) read foreign,
  cancel_proposal-hides k c state cancel_header id db f caller fine cancels (λ row found.
      let (p, q, other) = foreign row found in
      let (i, s, v, o, u) = decode-eq-ok row p q in (p.sub_solver, p.order_uid, o, u, other)),
)
