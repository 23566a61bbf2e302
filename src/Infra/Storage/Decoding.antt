-- ===== src/Infra/Storage/Decoding.antt =====
-- The columns of a row that decodes (the conversion of `ProposalRow` in
-- crates/byos/src/infra/storage.rs).
use byos_service.Prelude.{Result, err, none, ap, Option, ℕ, ◌≡◌, some, ok, List, sym}
use byos_service.Domain.Validator.{RejectionReason}
use byos_service.Domain.Proposal.{
  B256, U256, Bytes, Interaction, Proposal, ProposalStatus, Address, OrderUid,
}
use byos_service.Infra.Storage.Rows.{Column, StoreError, Row, decode}

ok-inj : {a b : Proposal} → ◌≡◌ {A = Result StoreError Proposal} (ok a) (ok b) → a ≡ b
ok-inj {a = a} h = ap (λ r. elim r [ ok q ↦ q | err e ↦ a ]) h

-- The columns that a decoded row must have, one by one: an unreadable one is an error.
decode_columns :
    (id now : ℕ) (c0 : Column Address) (c1 : Column OrderUid) (c2 : Column B256) (c3 : Column U256)
    (c4 : Column U256) (c5 : Column Address) (c6 : Column Address) (c7 : Column (List Interaction))
    (c8 : Column B256) (c9 : Column U256) (c10 : Column U256) (c11 : Column Bytes)
    (c12 : Column ProposalStatus) (c13 : Column (Option RejectionReason)) (c14 : Column (Option ℕ))
    (c15 : Column (Option Address)) (c16 : Column (Option B256)) (c17 : Column (Option B256))
    (p : Proposal)
    → decode (record {
      id = id;
      sub_solver = c0;
      order_uid = c1;
      order_uid_hash = c2;
      sell_amount = c3;
      buy_amount = c4;
      sell_token = c5;
      buy_token = c6;
      interactions = c7;
      interactions_hash = c8;
      valid_until = c9;
      nonce = c10;
      signature = c11;
      status = c12;
      rejection_reason = c13;
      gas_used = c14;
      trampoline = c15;
      settlement_tx_hash = c16;
      penalty_tx_hash = c17;
      status_changed_at = now;
    })
      ≡ ok p
    → (p.id ≡ id)
      × (c12 ≡ some p.status)
      × (c9 ≡ some p.valid_until)
      × (c0 ≡ some p.sub_solver)
      × (c1 ≡ some p.order_uid)
unfolding decode
decode_columns id now none c1 c2 c3 c4 c5 c6 c7 c8 c9 c10 c11 c12 c13 c14 c15 c16 c17 p h = cc
decode_columns id now (some x0) none c2 c3 c4 c5 c6 c7 c8 c9 c10 c11 c12 c13 c14 c15 c16 c17 p h =
    cc
decode_columns id now (some x0) (some x1) none c3 c4 c5 c6 c7 c8 c9 c10 c11 c12 c13 c14 c15 c16 c17
      p h =
    cc
decode_columns id now (some x0) (some x1) (some x2) none c4 c5 c6 c7 c8 c9 c10 c11 c12 c13 c14 c15
      c16 c17 p h =
    cc
decode_columns id now (some x0) (some x1) (some x2) (some x3) none c5 c6 c7 c8 c9 c10 c11 c12 c13
      c14 c15 c16 c17 p h =
    cc
decode_columns id now (some x0) (some x1) (some x2) (some x3) (some x4) none c6 c7 c8 c9 c10 c11 c12
      c13 c14 c15 c16 c17 p h =
    cc
decode_columns id now (some x0) (some x1) (some x2) (some x3) (some x4) (some x5) none c7 c8 c9 c10
      c11 c12 c13 c14 c15 c16 c17 p h =
    cc
decode_columns id now (some x0) (some x1) (some x2) (some x3) (some x4) (some x5) (some x6) none c8
      c9 c10 c11 c12 c13 c14 c15 c16 c17 p h =
    cc
decode_columns id now (some x0) (some x1) (some x2) (some x3) (some x4) (some x5) (some x6)
      (some x7) none c9 c10 c11 c12 c13 c14 c15 c16 c17 p h =
    cc
decode_columns id now (some x0) (some x1) (some x2) (some x3) (some x4) (some x5) (some x6)
      (some x7) (some x8) none c10 c11 c12 c13 c14 c15 c16 c17 p h =
    cc
decode_columns id now (some x0) (some x1) (some x2) (some x3) (some x4) (some x5) (some x6)
      (some x7) (some x8) (some x9) none c11 c12 c13 c14 c15 c16 c17 p h =
    cc
decode_columns id now (some x0) (some x1) (some x2) (some x3) (some x4) (some x5) (some x6)
      (some x7) (some x8) (some x9) (some x10) none c12 c13 c14 c15 c16 c17 p h =
    cc
decode_columns id now (some x0) (some x1) (some x2) (some x3) (some x4) (some x5) (some x6)
      (some x7) (some x8) (some x9) (some x10) (some x11) none c13 c14 c15 c16 c17 p h =
    cc
decode_columns id now (some x0) (some x1) (some x2) (some x3) (some x4) (some x5) (some x6)
      (some x7) (some x8) (some x9) (some x10) (some x11) (some x12) none c14 c15 c16 c17 p h =
    cc
decode_columns id now (some x0) (some x1) (some x2) (some x3) (some x4) (some x5) (some x6)
      (some x7) (some x8) (some x9) (some x10) (some x11) (some x12) (some x13) none c15 c16 c17 p
      h =
    cc
decode_columns id now (some x0) (some x1) (some x2) (some x3) (some x4) (some x5) (some x6)
      (some x7) (some x8) (some x9) (some x10) (some x11) (some x12) (some x13) (some x14) none c16
      c17 p h =
    cc
decode_columns id now (some x0) (some x1) (some x2) (some x3) (some x4) (some x5) (some x6)
      (some x7) (some x8) (some x9) (some x10) (some x11) (some x12) (some x13) (some x14)
      (some x15) none c17 p h =
    cc
decode_columns id now (some x0) (some x1) (some x2) (some x3) (some x4) (some x5) (some x6)
      (some x7) (some x8) (some x9) (some x10) (some x11) (some x12) (some x13) (some x14)
      (some x15) (some x16) none p h =
    cc
decode_columns id now (some x0) (some x1) (some x2) (some x3) (some x4) (some x5) (some x6)
      (some x7) (some x8) (some x9) (some x10) (some x11) (some x12) (some x13) (some x14)
      (some x15) (some x16) (some x17) p h =
    let e = ok-inj h in
    (
      ap (λ q. q.id) (sym e),
      ap (λ q. some q.status) e,
      ap (λ q. some q.valid_until) e,
      ap (λ q. some q.sub_solver) e,
      ap (λ q. some q.order_uid) e,
    )

-- What the callers rely on in a decoded proposal.
pub decode-eq-ok :
    (row : Row) (p : Proposal)
    → decode row ≡ ok p
    → (p.id ≡ row.id)
      × (row.status ≡ some p.status)
      × (row.valid_until ≡ some p.valid_until)
      × (row.sub_solver ≡ some p.sub_solver)
      × (row.order_uid ≡ some p.order_uid)
decode-eq-ok row p h =
    decode_columns row.id row.status_changed_at row.sub_solver row.order_uid row.order_uid_hash
      row.sell_amount row.buy_amount row.sell_token row.buy_token row.interactions
      row.interactions_hash row.valid_until row.nonce row.signature row.status row.rejection_reason
      row.gas_used row.trampoline row.settlement_tx_hash row.penalty_tx_hash p h
