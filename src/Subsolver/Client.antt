-- ===== src/Subsolver/Client.antt =====
-- The sub-solver's client of the service (crates/subsolver/src/infra/byos.rs). `Api` is the four
-- requests that it sends, over a state `N` of the network; an answer of `none` is a request that
-- fails. JSON is a library's: an answer has its body as the value that is expected, and as an error,
-- where it parses so.
pub mod Service
pub mod Owned
use byos_service.Prelude.{
  ℕ, Bool, ◌&&◌, Option, none, some, and_then, Result, ok, err, String, leb, ltb, if◌then◌else◌,
}
use byos_service.Domain.Proposal.{Bytes}
use byos_service.Domain.Uid.{Codec}
use byos_service.Common.Eip712.{
  Crypto, Signer, Eip712Domain, Signature, sign_cancellation, sign_read_auth,
}
use byos_service.Common.Dto.{
  ErrorBody, CreateProposalRequest, CreateProposalResponse, GetProposalResponse,
  ListProposalsResponse,
}
use byos_service.Subsolver.Proposal.{RoutedProposal, Calls}
use byos_service.Subsolver.Wire.{to_request}

pub record Answer (A : Type 0) : Type 0 where
  pub status : ℕ
  pub body : Option A
  pub error_body : Option ErrorBody

-- `enum Error`
pub data ClientError : Type 0 where
  rejected : ErrorBody → ClientError
  unexpected_status : ℕ → ClientError
  http_failure : ClientError

-- The texts are those of the order uid in the path and of the `X-Signature` header.
pub record Api (N : Type 0) : Type 0 where
  pub post_proposal : CreateProposalRequest → N → Option (Answer CreateProposalResponse) × N
  pub get_one : ℕ → String → N → Option (Answer GetProposalResponse) × N
  pub get_list : String → String → N → Option (Answer ListProposalsResponse) × N
  pub delete : ℕ → String → N → Option (Answer (Unit {0})) × N

-- `ByosClient::error`
unfoldable pub read_error : {A : Type 0} → Answer A → ClientError
read_error answer = elim answer.error_body [
  | some body ↦ rejected body
  | none ↦ unexpected_status answer.status
]

abbrev is_success : ℕ → Bool
is_success status = leb 200 status && ltb status 300

-- `ByosClient::parse`, after `send`.
unfoldable pub parse : {A : Type 0} → Option (Answer A) → Result ClientError A
unfolding read_error
parse none = err http_failure
parse (some answer) =
    if is_success answer.status
    then elim answer.body [ some body ↦ ok body | none ↦ err http_failure ]
    else err (read_error answer)

-- The end of `ByosClient::cancel`, which reads no body of a success.
unfoldable pub parse_cancelled : Option (Answer (Unit {0})) → Result ClientError (Unit {0})
unfolding read_error
parse_cancelled none = err http_failure
parse_cancelled (some answer) = if is_success answer.status then ok tt else err (read_error answer)

module _ {N : Type 0} (k : Codec) (c : Crypto) (calls : Calls) (signer : Signer)
    (domain : Eip712Domain) (api : Api N) where
  unfoldable pub submit : RoutedProposal → N → Result ClientError ℕ × N
  unfolding parse to_request
  submit p net =
      let (answer, net') = api.post_proposal (to_request k p) net in
      elim (parse answer) [ err e ↦ (err e, net') | ok submitted ↦ (ok submitted.id, net') ]

  -- The text of a signature's bytes.
  abbrev pub signature_text : Signature → String
  signature_text s = k.encode_prefixed (calls.signature_bytes s)

  -- Where the signer fails, here and below, the code panics: the answer is `none`.
  unfoldable pub read_auth : Option String
  read_auth = and_then (sign_read_auth c signer domain) (λ s. some (signature_text s))

  unfoldable pub proposal : ℕ → N → Option (Result ClientError GetProposalResponse × N)
  unfolding read_auth parse
  proposal id net =
      and_then read_auth
        (λ header. let (answer, net') = api.get_one id header net in some (parse answer, net'))

  unfoldable pub proposals : Bytes → N → Option (Result ClientError ListProposalsResponse × N)
  unfolding read_auth parse
  proposals order_uid net = and_then read_auth (λ header.
      let (answer, net') = api.get_list (k.encode_prefixed order_uid) header net in
      some (parse answer, net'))

  unfoldable pub cancel : ℕ → N → Option (Result ClientError (Unit {0}) × N)
  unfolding parse_cancelled
  cancel proposal_id net = and_then (sign_cancellation c signer domain proposal_id) (λ s.
      let (answer, net') = api.delete proposal_id (signature_text s) net in
      some (parse_cancelled answer, net'))
