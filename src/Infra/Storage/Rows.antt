-- ===== src/Infra/Storage/Rows.antt =====
-- The rows of the `proposals` table and their codec (`ProposalRow`, `TryFrom<ProposalRow>` and the
-- binds of `insert` in crates/byos/src/infra/storage.rs). A text column is the value that its text
-- parses to, or is unreadable; what prints and parses the texts is not under the repository.
use byos_service.Prelude.{
  ℕ, Bool, true, false, ◌≡◌, refl, Option, none, some, Result, ok, ◌>>=◌, or_fail, List, String,
  ◌==◌,
}
use byos_service.Domain.Validator.{RejectionReason}
use byos_service.Domain.Proposal.{
  ProposalId, OrderUid, Address, B256, U256, Bytes, ProposalStatus, Interaction, Proposal,
  same_status,
}

-- The variants of `sqlx::Error` that `should_retry` tells apart, and all others.
pub data SqlxError : Type 0 where
  configuration : SqlxError
  decode_error : SqlxError
  encode_error : SqlxError
  column_not_found : SqlxError
  column_index_out_of_bounds : SqlxError
  column_decode : SqlxError
  type_not_found : SqlxError
  migrate : SqlxError
  other_error : SqlxError

-- The `expected` text of a lost compare-and-swap: one status, or "submitted or active".
pub data Expected : Type 0 where
  exactly : ProposalStatus → Expected
  submitted_or_active : Expected

pub data StoreError : Type 0 where
  not_found : ProposalId → StoreError
  not_owner : ProposalId → Address → StoreError
  stale_transition : ProposalId → Expected → ProposalStatus → StoreError
  database : SqlxError → StoreError
  -- the table and the column
  corrupt_row : String → String → StoreError

unfoldable pub should_retry : StoreError → Bool
should_retry (not_found id) = false
should_retry (not_owner id s) = false
should_retry (stale_transition id e a) = false
should_retry (corrupt_row t c) = false
should_retry (database configuration) = false
should_retry (database decode_error) = false
should_retry (database encode_error) = false
should_retry (database column_not_found) = false
should_retry (database column_index_out_of_bounds) = false
should_retry (database column_decode) = false
should_retry (database type_not_found) = false
should_retry (database migrate) = false
should_retry (database other_error) = true

-- `none` is a text that does not parse.
abbrev pub Column : Type 0 → Type 0
Column A = Option A

-- `corrupt(column, e)` for an unreadable column of `proposals`.
abbrev pub read : {A : Type 0} → Column A → String → Result StoreError A
read c name = or_fail c (corrupt_row "proposals" name)

pub record Row : Type 0 where
  pub id : ProposalId
  pub sub_solver : Column Address
  pub order_uid : Column OrderUid
  pub order_uid_hash : Column B256
  pub sell_amount : Column U256
  pub buy_amount : Column U256
  pub sell_token : Column Address
  pub buy_token : Column Address
  pub interactions : Column (List Interaction)
  pub interactions_hash : Column B256
  pub valid_until : Column U256
  pub nonce : Column U256
  pub signature : Column Bytes
  pub status : Column ProposalStatus
  pub rejection_reason : Column (Option RejectionReason)
  pub gas_used : Column (Option ℕ)
  pub trampoline : Column (Option Address)
  pub settlement_tx_hash : Column (Option B256)
  pub penalty_tx_hash : Column (Option B256)
  pub status_changed_at : ℕ

-- The values that `insert` binds; `status_changed_at` defaults to `now()`.
unfoldable pub encode : Proposal → ℕ → Row
encode p now = record {
  id = p.id;
  sub_solver = some p.sub_solver;
  order_uid = some p.order_uid;
  order_uid_hash = some p.order_uid_hash;
  sell_amount = some p.sell_amount;
  buy_amount = some p.buy_amount;
  sell_token = some p.sell_token;
  buy_token = some p.buy_token;
  interactions = some p.interactions;
  interactions_hash = some p.interactions_hash;
  valid_until = some p.valid_until;
  nonce = some p.nonce;
  signature = some p.signature;
  status = some p.status;
  rejection_reason = some p.rejection_reason;
  gas_used = some p.gas_used;
  trampoline = some p.trampoline;
  settlement_tx_hash = some p.settlement_tx_hash;
  penalty_tx_hash = some p.penalty_tx_hash;
  status_changed_at = now;
}

-- `Proposal::try_from`: the columns are read in order, and the first unreadable one is the error.
unfoldable pub decode : Row → Result StoreError Proposal
decode row = do
  sub_solver ← read row.sub_solver "sub_solver"
  order_uid ← read row.order_uid "order_uid"
  order_uid_hash ← read row.order_uid_hash "order_uid_hash"
  sell_amount ← read row.sell_amount "sell_amount"
  buy_amount ← read row.buy_amount "buy_amount"
  sell_token ← read row.sell_token "sell_token"
  buy_token ← read row.buy_token "buy_token"
  interactions ← read row.interactions "interactions"
  interactions_hash ← read row.interactions_hash "interactions_hash"
  valid_until ← read row.valid_until "valid_until"
  nonce ← read row.nonce "nonce"
  signature ← read row.signature "signature"
  status ← read row.status "status"
  rejection_reason ← read row.rejection_reason "rejection_reason"
  gas_used ← read row.gas_used "gas_used"
  trampoline ← read row.trampoline "trampoline"
  settlement_tx_hash ← read row.settlement_tx_hash "settlement_tx_hash"
  penalty_tx_hash ← read row.penalty_tx_hash "penalty_tx_hash"
  ok (record {
    id = row.id;
    sub_solver = sub_solver;
    order_uid = order_uid;
    order_uid_hash = order_uid_hash;
    sell_amount = sell_amount;
    buy_amount = buy_amount;
    sell_token = sell_token;
    buy_token = buy_token;
    interactions = interactions;
    interactions_hash = interactions_hash;
    valid_until = valid_until;
    nonce = nonce;
    signature = signature;
    status = status;
    rejection_reason = rejection_reason;
    gas_used = gas_used;
    trampoline = trampoline;
    settlement_tx_hash = settlement_tx_hash;
    penalty_tx_hash = penalty_tx_hash;
  })

-- SQL comparisons of a column with a bound value.
abbrev pub column_is : Column ℕ → ℕ → Bool
column_is none v = false
column_is (some c) v = c == v

abbrev pub status_is : Column ProposalStatus → ProposalStatus → Bool
status_is none s = false
status_is (some c) s = same_status c s

-- Decoding the row that a proposal is stored as gives the proposal back.
pub decode-encode : (p : Proposal) (now : ℕ) → decode (encode p now) ≡ ok p
unfolding decode encode
decode-encode p now = refl
