-- ===== src/Tests/RouteTests.antt =====
-- The properties of the routes and of the sub-solver's submissions at concrete inputs.
use byos_service.Common.Eip712.{sign_cancellation}
use byos_service.Common.Eip712.{sign_read_auth}
use byos_service.Prelude.Ints.{u64_saturating_add}
use byos_service.Common.Eip712.{sign_proposal}
use byos_service.Subsolver.Proposal.{signed_by}
use byos_service.Infra.Api.Routes.{canceller}
use byos_service.Prelude.Bytes.{strip_0x}
use byos_service.Infra.Api.Routes.{authenticate_reader}
use byos_service.Prelude.{subst, ℕ, ◌<◌, ◌≡◌, ◌↔◌, ◌⊎◌, refl, true, some, ok, err, arith}
use byos_service.Domain.Proposal.{ProposalStatus, OrderUid, is_live}
use byos_service.Common.Eip712.{IsSigner}
use byos_service.Common.Dto.{CreateProposalRequest, proposal_not_found}
use byos_service.Infra.Storage.Rows.{Row, decode, encode, decode-encode}
use byos_service.Infra.Storage.Db.{Db, empty, healthy, find_row}
use byos_service.Infra.Storage.Invariant.{empty-Inv}
use byos_service.Infra.Api.Errors.{ApiError, of_kind}
use byos_service.Infra.Api.Routes.{
  status_accepted, status_no_content, checked_proposal, create_proposal, get_proposal,
  cancel_proposal, proposal_view,
}
use byos_service.Infra.Api.Routes.Creation.{IsAcceptable, Refuses, Accepts, create_proposal_cases}
use byos_service.Infra.Api.Routes.Reads.{
  IsForeign, Owns, get_proposal_iff, cancel_proposal_iff, foreign-eq-missing,
}
use byos_service.Infra.Api.Routes.Roundtrip.{created_readable}
use byos_service.Infra.Api.Auth.{guarded, status_unauthorized}
use byos_service.Infra.Api.Auth.Bearer.{Bears, guarded_cases}
use byos_service.Subsolver.Wire.{to_request}
use byos_service.Subsolver.Wire.Accepted.{IsSized, stored_as, submitted-IsStored}
use byos_service.Prelude.Ints.{u64_saturating_add}
use byos_service.Subsolver.Client.{submit, proposal, cancel}
use byos_service.Subsolver.Client.Service.{service}
use byos_service.Subsolver.Client.Owned.{submitted_cancellable}
use byos_service.Tests.Codecs.{
  read_from, codec, codec-IsCodec, calls-IsSerial, crypto, signer, calls,
}
use byos_service.Tests.Edge.{state, header, other_header, unsigned, routed}
use byos_service.Tests.Data.{simulated, active_book}

-- A handler that empties the database.
abbrev clear : Db → ℕ × Db
clear db = (200, empty)

abbrev body : CreateProposalRequest
body = to_request codec routed

create_proposal_cases_example :
    ((e : ApiError) × Refuses codec crypto state 10 body healthy empty e)
    ⊎ ((p : _) × IsAcceptable codec crypto state 10 body p
        × Accepts codec crypto state 10 body healthy empty p)
create_proposal_cases_example = create_proposal_cases codec crypto state 10 body healthy empty

get_proposal_iff_example :
    (get_proposal codec crypto healthy state header 1 active_book
      ≡ ok (proposal_view codec simulated))
    ↔ ((p : _) × Owns 7 1 active_book p × (proposal_view codec simulated ≡ proposal_view codec p))
unfolding authenticate_reader read_from strip_0x
get_proposal_iff_example =
    get_proposal_iff codec crypto state header 1 active_book healthy (proposal_view codec simulated)
      7 refl refl

cancel_proposal_iff_example :
    ((cancel_proposal codec crypto healthy state header 1 active_book).0 ≡ ok status_no_content) ↔ (
      (1 < 9_223_372_036_854_775_808)
      × (row : Row) × (from : ProposalStatus) × (uid : OrderUid) × (find_row 1 active_book.rows
          ≡ some row)
      × (row.sub_solver ≡ some 7)
      × (row.order_uid ≡ some uid)
      × (row.status ≡ some from)
      × (is_live from ≡ true))
unfolding canceller read_from strip_0x
cancel_proposal_iff_example =
    cancel_proposal_iff codec crypto state header 1 active_book healthy 7 (λ n. refl) refl

foreign : IsForeign 9 1 active_book
unfolding find_row
foreign row found =
    let same : encode simulated 0 ≡ row = ground (arith, found) in
    (simulated, subst (λ r. decode r ≡ ok simulated) same (decode-encode simulated 0), omega arith)

routed-IsSized : IsSized routed
routed-IsSized = record {
  uid_bytes = ground arith;
  uid_length = refl;
  sells = omega arith;
  buys = omega arith;
  lasts = omega arith;
  numbered = omega arith;
  calls = ground arith;
  signature_bytes = calls-IsSerial.sized 7;
}

foreign-eq-missing_example :
    (get_proposal codec crypto healthy state other_header 1 active_book
      ≡ err (of_kind proposal_not_found))
    × (cancel_proposal codec crypto healthy state other_header 1 active_book
        ≡ (err (of_kind proposal_not_found), active_book))
unfolding authenticate_reader read_from strip_0x canceller
foreign-eq-missing_example =
    foreign-eq-missing codec crypto state other_header other_header 1 active_book healthy 9
      (λ n. refl) refl refl foreign

scheme : IsSigner crypto signer
scheme h sig e = ground arith

submitted-IsStored_example :
    checked_proposal codec crypto state 10 (to_request codec routed)
    ≡ ok (stored_as crypto 7 routed)
unfolding signed_by sign_proposal u64_saturating_add
submitted-IsStored_example =
    submitted-IsStored codec codec-IsCodec crypto calls state 10 signer unsigned routed
      calls-IsSerial.reads scheme refl routed-IsSized (omega arith) (omega arith)

body_accepted : checked_proposal codec crypto state 10 body ≡ ok (stored_as crypto 7 routed)
unfolding signed_by sign_proposal u64_saturating_add
body_accepted =
    submitted-IsStored codec codec-IsCodec crypto calls state 10 signer unsigned routed
      calls-IsSerial.reads scheme refl routed-IsSized (omega arith) (omega arith)

created_readable_example :
    let (answer, after) = create_proposal codec crypto healthy state 10 body empty in
    (answer ≡ ok (status_accepted, record { id = 1 }))
    × (get_proposal codec crypto healthy state header 1 after
        ≡ ok (proposal_view codec (record (stored_as crypto 7 routed) { id = 1 })))
unfolding authenticate_reader read_from strip_0x
created_readable_example =
    created_readable codec crypto state 10 body healthy healthy header empty
      (stored_as crypto 7 routed) empty-Inv (omega arith) refl refl body_accepted refl

guarded_cases_example :
    (guarded (some "key") (some (some "Bearer key")) clear empty ≡ (status_unauthorized, empty))
    ⊎ ((guarded (some "key") (some (some "Bearer key")) clear empty ≡ clear empty)
        × Bears "key" (some (some "Bearer key")))
guarded_cases_example = guarded_cases "key" (some (some "Bearer key")) clear empty

submitted_cancellable_example :
    let api = service codec crypto healthy state 10 in
    let (answer, after) = submit codec crypto calls signer state.domain api routed empty in
    (answer ≡ ok 1)
    × (proposal codec crypto calls signer state.domain api 1 after
        ≡ some (ok (proposal_view codec (record (stored_as crypto 7 routed) { id = 1 })), after))
    × ((final : Db) × (cancel codec crypto calls signer state.domain api 1 after
          ≡ some (ok tt, final)))
unfolding signed_by sign_proposal u64_saturating_add sign_read_auth sign_cancellation
submitted_cancellable_example =
    submitted_cancellable codec codec-IsCodec crypto calls calls-IsSerial signer scheme state.domain
      state 10 healthy empty unsigned routed 7 7 refl (λ n. refl) empty-Inv (omega arith) refl
      routed-IsSized (omega arith) (omega arith) refl refl
