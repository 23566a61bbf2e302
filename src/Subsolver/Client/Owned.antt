-- ===== src/Subsolver/Client/Owned.antt =====
-- A sub-solver's submission through its client, read back and cancelled
-- (crates/subsolver/src/infra/byos.rs against crates/byos/src/infra/api/routes.rs).
use byos_service.Prelude.{ℕ, ◌≤◌, ◌<◌, ◌≡◌, refl, none, some, ok, arith}
use byos_service.Prelude.Ints.{i64_limit, u64_saturating_add}
use byos_service.Domain.Proposal.{ProposalId}
use byos_service.Domain.Uid.{Codec}
use byos_service.Common.Eip712.{
  Crypto, Signer, Signature, Eip712Domain, IsSigner, sign_read_auth, sign_cancellation,
  recover_reader, recover_canceller,
}
use byos_service.Common.Dto.{GetProposalResponse}
use byos_service.Infra.Storage.Db.{Db, Faults}
use byos_service.Infra.Storage.Invariant.{Inv}
use byos_service.Infra.Api.Dto.{parse_hex}
use byos_service.Infra.Api.Routes.{
  AppState, Header, status_accepted, status_no_content, create_proposal, authenticate_reader,
  signature_from_header, canceller, get_proposal, proposal_view, cancel_proposal,
}
use byos_service.Infra.Api.Routes.Roundtrip.{created_readable, created_cancellable}
use byos_service.Subsolver.Proposal.{RoutedProposal, Calls, signed_by}
use byos_service.Subsolver.Wire.{to_request}
use byos_service.Subsolver.Wire.Accepted.{AreBytes, IsCodec, IsSized, stored_as, submitted-IsStored}
use byos_service.Subsolver.Client.{parse, parse_cancelled, submit, read_auth, proposal, cancel}
use byos_service.Subsolver.Client.Service.{service}

-- A signature's bytes are bytes, and parse back.
pub record IsSerial (c : Crypto) (calls : Calls) : Type 0 where
  pub reads : (s : Signature) → c.to_signature (calls.signature_bytes s) ≡ some s
  pub sized : (s : Signature) → AreBytes (calls.signature_bytes s)

module _ (k : Codec) (laws : IsCodec k) (c : Crypto) (calls : Calls) (serial : IsSerial c calls)
    (signer : Signer) (scheme : IsSigner c signer) (domain : Eip712Domain) where
  -- The header that carries a signature.
  abbrev header_of : Signature → Header
  header_of s = some (some (k.encode_prefixed (calls.signature_bytes s)))

  header_back : (s : Signature) → signature_from_header k c (header_of s) ≡ ok s
  unfolding signature_from_header parse_hex
  header_back s =
      ground (arith, laws.hexes (calls.signature_bytes s) (serial.sized s), serial.reads s)

  reader_back :
      (s : Signature)
      → sign_read_auth c signer domain ≡ some s
      → authenticate_reader k c (header_of s) domain ≡ ok signer.address
  unfolding authenticate_reader recover_reader sign_read_auth
  reader_back s q = rw (header_back s, scheme _ s q, authenticate_reader) refl

  canceller_back :
      (state : AppState) (id : ProposalId) (s : Signature)
      → state.domain ≡ domain
      → sign_cancellation c signer domain id ≡ some s
      → canceller k c state (header_of s) id ≡ ok signer.address
  unfolding canceller recover_canceller sign_cancellation
  canceller_back state id s same q = rw (header_back s, same, scheme _ s q, canceller) refl

  module _ (state : AppState) (now : ℕ) (f : Faults) where
    submit_back :
        (p : RoutedProposal) (id : ℕ) (db : Db)
        → (create_proposal k c f state now (to_request k p) db).0
          ≡ ok (status_accepted, record { id = id })
        → submit k c calls signer domain (service k c f state now) p db
          ≡ (ok id, (create_proposal k c f state now (to_request k p) db).1)
    unfolding submit parse service
    submit_back p id db created = rw (created, submit) refl

    proposal_back :
        (id : ℕ) (db : Db) (s : Signature) (view : GetProposalResponse)
        → sign_read_auth c signer domain ≡ some s
        → get_proposal k c f state (header_of s) id db ≡ ok view
        → proposal k c calls signer domain (service k c f state now) id db ≡ some (ok view, db)
    unfolding proposal read_auth parse service
    proposal_back id db s view signed readable = rw (signed, readable, proposal) refl

    cancel_back :
        (id : ℕ) (db : Db) (s : Signature)
        → sign_cancellation c signer domain id ≡ some s
        → (cancel_proposal k c f state (header_of s) id db).0 ≡ ok status_no_content
        → cancel k c calls signer domain (service k c f state now) id db
          ≡ some (ok tt, (cancel_proposal k c f state (header_of s) id db).1)
    unfolding cancel parse_cancelled service
    cancel_back id db s signed cancelled = rw (signed, cancelled, cancel) refl

  -- With codecs that read back what they print, signature bytes that parse back and a signature
  -- scheme that recovers its signer: against the service with a database that satisfies the
  -- invariant, a next id that fits BIGINT and no failing database call, the client's submission of
  -- a signed proposal of sized fields, which has not expired and is within the lifetime cap,
  -- answers with the next id; its read of that id, if the signer signs it, then answers the
  -- proposal's view, with the signer as the sub-solver; and its cancellation of it, if the signer
  -- signs it, succeeds.
  pub submitted_cancellable :
      (state : AppState) (now : ℕ) (f : Faults) (db : Db) (unsigned p : RoutedProposal)
      (by_read by_cancel : Signature)
      → state.domain ≡ domain
      → ((n : ℕ) → f n ≡ none)
      → Inv db
      → db.next_id < i64_limit
      → signed_by c calls signer state.domain unsigned ≡ some p
      → IsSized p
      → now ≤ p.valid_until
      → p.valid_until ≤ u64_saturating_add now state.max_proposal_lifetime_secs
      → sign_read_auth c signer domain ≡ some by_read
      → sign_cancellation c signer domain db.next_id ≡ some by_cancel
      → let api = service k c f state now in
        let (answer, after) = submit k c calls signer domain api p db in
        (answer ≡ ok db.next_id)
        × (proposal k c calls signer domain api db.next_id after
            ≡ some (
              ok (proposal_view k (record (stored_as c signer.address p) { id = db.next_id })),
              after,
            ))
        × ((final : Db) × (cancel k c calls signer domain api db.next_id after
              ≡ some (ok tt, final)))
  submitted_cancellable state now f db unsigned p by_read by_cancel same fine inv small signed sized
        fresh capped reads cancels =
      let q =
        submitted-IsStored k laws c calls state now signer unsigned p serial.reads scheme signed
          sized fresh capped in
      let auth = reader_back by_read reads in
      let (created, readable) =
        created_readable k c state now (to_request k p) f f (header_of by_read) db
          (stored_as c signer.address p) inv small (fine 0) (fine 0) q (rw same auth) in
      let cancelled =
        created_cancellable k c state now (to_request k p) f f (header_of by_cancel) db
          (stored_as c signer.address p) inv small (fine 0) fine q
          (canceller_back state db.next_id by_cancel same cancels) in
      rw (submit_back state now f p db.next_id db created) (
        refl,
        proposal_back state now f db.next_id _ by_read _ reads readable,
        (_, cancel_back state now f db.next_id _ by_cancel cancels cancelled),
      )
