-- ===== src/Infra/Api/Routes/Roundtrip.antt =====
-- What its owner reads of a proposal after `POST /proposals` has accepted it
-- (crates/byos/src/infra/api/routes.rs).
use byos_service.Prelude.{
  ap, ◌∙◌, ℕ, ◌<◌, ◌≡◌, refl, some, none, ok, List, ◌∷◌, ◌++◌, [], All, arith,
}
use byos_service.Prelude.Ints.{i64_limit}
use byos_service.Domain.Proposal.{ProposalId, Proposal, submitted, is_live}
use byos_service.Domain.Uid.{Codec}
use byos_service.Common.Eip712.{Crypto}
use byos_service.Common.Dto.{CreateProposalRequest}
use byos_service.Infra.Storage.Rows.{Row, encode, decode-encode}
use byos_service.Infra.Storage.Db.{Db, Faults, find_row}
use byos_service.Infra.Storage.Invariant.{Inv, Ids-below}
use byos_service.Infra.Api.Routes.{
  AppState, Header, status_accepted, checked_proposal, create_proposal, authenticate_reader,
  get_proposal, proposal_view, canceller, cancel_proposal, status_no_content,
}
use byos_service.Infra.Api.Routes.Creation.{accepts, IsAcceptable, checked_proposal-IsAcceptable}
use byos_service.Infra.Api.Routes.Reads.{get_proposal_iff, cancel_proposal_iff}

encode-id : (p : Proposal) (now : ℕ) → (encode p now).id ≡ p.id
unfolding encode
encode-id p now = refl

find_row-append :
    (id : ProposalId) (rows : List Row) (r : Row)
    → r.id ≡ id
    → All (λ x. x.id < id) rows
    → find_row id (rows ++ (r ∷ [])) ≡ some r
unfolding find_row
find_row-append id [] r e h = ground arith
find_row-append id (x ∷ rows) r e h = ground (arith, find_row-append id rows r e h.1)

module _ (k : Codec) (c : Crypto) (state : AppState) (now : ℕ) (body : CreateProposalRequest) where
  -- If the database satisfies the invariant, its next id fits BIGINT, no database call fails and
  -- the body's checks give a proposal, then POST /proposals answers 202 with the next id, and a
  -- read of that id that authenticates as the proposal's sub-solver answers the proposal's view.
  pub created_readable :
      (f g : Faults) (header : Header) (db : Db) (p : Proposal)
      → Inv db
      → db.next_id < i64_limit
      → f 0 ≡ none
      → g 0 ≡ none
      → checked_proposal k c state now body ≡ ok p
      → authenticate_reader k c header state.domain ≡ ok p.sub_solver
      → let (answer, after) = create_proposal k c f state now body db in
        (answer ≡ ok (status_accepted, record { id = db.next_id }))
        × (get_proposal k c g state header db.next_id after
            ≡ ok (proposal_view k (record p { id = db.next_id })))
  created_readable f g header db p inv small fine fine_too q auth =
      let e = accepts k c state now body f db p q fine in
      let stored : Proposal = record p { id = db.next_id } in
      rw e (
        refl,
        (get_proposal_iff k c state header db.next_id _ g _ p.sub_solver fine_too auth).1 (
          stored,
          (
            small,
            encode stored db.clock,
            find_row-append db.next_id db.rows _ (encode-id stored db.clock)
                (Ids-below _ _ db.rows inv.ids),
            decode-encode stored db.clock,
            refl,
          ),
          refl,
        ),
      )

  encode_live :
      (p : Proposal) (clock : ℕ)
      → let row = encode p clock in
        (row.sub_solver ≡ some p.sub_solver)
        × (row.order_uid ≡ some p.order_uid)
        × (row.status ≡ some p.status)
  unfolding encode
  encode_live p clock = (refl, refl, refl)

  pub created_cancellable :
      (f g : Faults) (header : Header) (db : Db) (p : Proposal)
      → Inv db
      → db.next_id < i64_limit
      → f 0 ≡ none
      → ((n : ℕ) → g n ≡ none)
      → checked_proposal k c state now body ≡ ok p
      → canceller k c state header db.next_id ≡ ok p.sub_solver
      → (cancel_proposal k c g state header db.next_id
          (create_proposal k c f state now body db).1).0
        ≡ ok status_no_content
  unfolding is_live
  created_cancellable f g header db p inv small fine fine_too q auth =
      let stored : Proposal = record p { id = db.next_id } in
      let (owned, ordered, waiting) = encode_live stored db.clock in
      rw (accepts k c state now body f db p q fine) (
        (cancel_proposal_iff k c state header db.next_id _ g p.sub_solver fine_too auth).1 (
          small,
          encode stored db.clock,
          submitted,
          p.order_uid,
          find_row-append db.next_id db.rows _ (encode-id stored db.clock)
              (Ids-below _ _ db.rows inv.ids),
          owned,
          ordered,
          waiting
              ∙ ap some
                  (IsAcceptable.waiting (checked_proposal-IsAcceptable k c state now body p q)),
          refl,
        ))
