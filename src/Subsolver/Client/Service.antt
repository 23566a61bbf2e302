-- ===== src/Subsolver/Client/Service.antt =====
-- The service as the client's network: its handlers (crates/byos/src/infra/api/routes.rs) behind the
-- requests of crates/subsolver/src/infra/byos.rs, with bodies that arrive as they were sent.
use byos_service.Prelude.{ℕ, none, some, Result, ok, err}
use byos_service.Domain.Uid.{Codec}
use byos_service.Common.Eip712.{Crypto}
use byos_service.Infra.Storage.Db.{Db, Faults}
use byos_service.Infra.Api.Errors.{ApiError, into_response}
use byos_service.Infra.Api.Routes.{
  AppState, create_proposal, get_proposal, list_proposals, cancel_proposal,
}
use byos_service.Subsolver.Client.{Answer, Api}

-- An answer with a body of JSON, which has status 200 where the handler names none.
abbrev replied : {A : Type 0} → ℕ → A → Answer A
replied status body = record { status = status; body = some body; error_body = none }

abbrev refused : {A : Type 0} → ApiError → Answer A
refused e =
    let (status, body) = into_response e in
    record { status = status; body = none; error_body = some body }

abbrev answer_json : {A : Type 0} → Result ApiError A → Answer A
answer_json (ok body) = replied 200 body
answer_json (err e) = refused e

abbrev answer_status : {A : Type 0} → Result ApiError (ℕ × A) → Answer A
answer_status (ok (status, body)) = replied status body
answer_status (err e) = refused e

abbrev answer_empty : Result ApiError ℕ → Answer (Unit {0})
answer_empty (ok status) = record { status = status; body = none; error_body = none }
answer_empty (err e) = refused e

-- The public API at second `now`, where the calls of a request have the faults `f`.
unfoldable pub service : Codec → Crypto → Faults → AppState → ℕ → Api Db
unfolding into_response create_proposal get_proposal list_proposals cancel_proposal
service k c f state now = record {
  post_proposal = λ body db.
      let (answer, after) = create_proposal k c f state now body db in
      (some (answer_status answer), after);
  get_one = λ id header db.
      (some (answer_json (get_proposal k c f state (some (some header)) id db)), db);
  get_list = λ order_uid header db.
      (some (answer_json (list_proposals k c f state (some (some header)) order_uid db)), db);
  delete = λ id header db.
      let (answer, after) = cancel_proposal k c f state (some (some header)) id db in
      (some (answer_empty answer), after);
}
