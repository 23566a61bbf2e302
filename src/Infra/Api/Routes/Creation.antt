-- ===== src/Infra/Api/Routes/Creation.antt =====
-- What `POST /proposals` accepts (crates/byos/src/infra/api/routes.rs).
use byos_service.Prelude.{
  ℕ, suc, ◌≤◌, ◌≡◌, ◌⊎◌, refl, inl, inr, Option-cases, Result-cases, and_then, some, none, ok, err,
  collect, List, ◌∷◌, ◌++◌, [], arith,
}
use byos_service.Prelude.Bytes.{to_be_bytes}
use byos_service.Prelude.Ints.{u64_saturating_add}
use byos_service.Domain.Proposal.{Proposal, submitted}
use byos_service.Domain.Uid.{Codec, from_hex}
use byos_service.Common.Trampoline.{SignedProposal}
use byos_service.Common.Eip712.{Crypto, compute_interactions_hash, recover_proposer}
use byos_service.Common.Dto.{CreateProposalRequest, WireInteraction, internal}
use byos_service.Infra.Storage.Rows.{SqlxError, encode}
use byos_service.Infra.Storage.Db.{Db, Faults, emit}
use byos_service.Infra.Api.Errors.{ApiError, of_kind, response_status}
use byos_service.Infra.Api.Dto.{interaction, parse_hex}
use byos_service.Domain.Audit.{received}
use byos_service.Infra.Api.Routes.{AppState, status_accepted, checked_proposal, create_proposal}

-- The part of a proposal that its signature covers.
abbrev pub signed_part : Proposal → SignedProposal
signed_part p = record {
  order_uid_hash = p.order_uid_hash;
  sell_amount = p.sell_amount;
  buy_amount = p.buy_amount;
  valid_until = p.valid_until;
  nonce = p.nonce;
}

module _ (k : Codec) (c : Crypto) (state : AppState) (now : ℕ) (body : CreateProposalRequest) where
  -- A proposal that the body carries: signed by its sub-solver over its own hashes, not expired, and
  -- within the lifetime cap.
  pub record IsAcceptable (p : Proposal) : Type 0 where
    pub uid : from_hex k body.order_uid ≡ ok p.order_uid
    pub sells : k.from_decimal body.sell_amount ≡ some p.sell_amount
    pub buys : k.from_decimal body.buy_amount ≡ some p.buy_amount
    pub lasts : k.from_decimal body.valid_until ≡ some p.valid_until
    pub numbered : k.from_decimal body.nonce ≡ some p.nonce
    pub routes : collect (interaction k) body.interactions ≡ ok p.interactions
    pub signature_bytes : parse_hex k body.signature ≡ ok p.signature
    pub uid_hashed : p.order_uid_hash ≡ c.keccak256 (to_be_bytes 56 p.order_uid)
    pub hashed : p.interactions_hash ≡ compute_interactions_hash c p.interactions
    pub signed :
        and_then
          (c.to_signature p.signature)
          (λ s. recover_proposer c s state.domain (signed_part p) p.interactions_hash)
        ≡ some p.sub_solver
    pub unexpired : now ≤ p.valid_until
    pub capped : p.valid_until ≤ u64_saturating_add now state.max_proposal_lifetime_secs
    pub waiting : p.status ≡ submitted

  pub checked_proposal-IsAcceptable :
      (p : Proposal) → checked_proposal k c state now body ≡ ok p → IsAcceptable p
  unfolding checked_proposal
  checked_proposal-IsAcceptable p h = ground arith

  interactions_error :
      (l : List WireInteraction) (e : ApiError)
      → collect (interaction k) l ≡ err e
      → response_status e.kind ≡ 400
  unfolding interaction response_status
  interactions_error [] e h = cc
  interactions_error (i ∷ l) e h = ground (arith, interactions_error l e)

  checked_proposal_error :
      (e : ApiError) → checked_proposal k c state now body ≡ err e → response_status e.kind ≡ 400
  unfolding checked_proposal response_status of_kind
  checked_proposal_error e h = ground (arith, interactions_error body.interactions e)

  -- The answer to a request whose body is refused, or whose insert fails.
  abbrev pub Refuses : Faults → Db → ApiError → Type 0
  Refuses f db e =
      (create_proposal k c f state now body db ≡ (err e, db))
      × ((response_status e.kind ≡ 400)
          ⊎ ((response_status e.kind ≡ 500) × (x : SqlxError) × (f 0 ≡ some x)))

  -- The answer to a request that carries `p`.
  abbrev pub Accepts : Faults → Db → Proposal → Type 0
  Accepts f db p =
      let stored = record p { id = db.next_id } in
      create_proposal k c f state now body db ≡ (
        ok (status_accepted, record { id = db.next_id }),
        emit (received stored) (record db {
          rows = db.rows ++ (encode stored db.clock ∷ []);
          next_id = suc db.next_id;
        }),
      )

  pub accepts :
      (f : Faults) (db : Db) (p : Proposal)
      → checked_proposal k c state now body ≡ ok p
      → f 0 ≡ none
      → Accepts f db p
  unfolding create_proposal
  accepts f db p q fine = rw (q, fine, create_proposal) refl

  refuses :
      (f : Faults) (db : Db) (e : ApiError)
      → checked_proposal k c state now body ≡ err e
      → Refuses f db e
  unfolding create_proposal
  refuses f db e q = (rw (q, create_proposal) refl, inl (checked_proposal_error e q))

  -- POST /proposals either refuses and leaves the database as it was, with status 400, or with
  -- status 500 when the insert fails, or stores a submitted proposal under the next id and answers
  -- 202 with it, where the proposal's fields are what the body parses to, its signature recovers
  -- to its sub-solver over its own hashes, and its deadline has not passed and is within the
  -- lifetime cap.
  pub create_proposal_cases :
      (f : Faults) (db : Db)
      → ((e : ApiError) × Refuses f db e) ⊎ ((p : Proposal) × IsAcceptable p × Accepts f db p)
  unfolding create_proposal response_status of_kind
  create_proposal_cases f db = elim (Result-cases (checked_proposal k c state now body)) [
    | inr (e, q) ↦ inl (e, refuses f db e q)
    | inl (p, q) ↦ elim (Option-cases (f 0)) [
      | inl fine ↦ inr (p, checked_proposal-IsAcceptable p q, accepts f db p q fine)
      | inr (x, fault) ↦
          inl (of_kind internal, (rw (q, fault, create_proposal) refl, inr (refl, x, fault)))
    ]
  ]
