-- ===== src/Infra/Audit.antt =====
-- The audit writer (crates/byos/src/infra/audit.rs): it drains the channel into the table, and
-- retries each insert until it lands. `lands n` says whether the n-th insert of the process does;
-- durations are in milliseconds. The loops are bounded by fuel, and `none` is that it ran out.
pub mod Drain
use byos_service.Prelude.{
  ℕ, zero, suc, ◌*◌, Bool, Option, none, some, List, [], ◌∷◌, ◌++◌, String, leb, if◌then◌else◌,
}
use byos_service.Domain.Proposal.{ProposalId, Address, OrderUid, B256}
use byos_service.Domain.Audit.{
  AuditKind, proposal_id, sub_solver, settlement_tx_hash, order_uid, event_type,
}

abbrev pub initial_backoff : ℕ
initial_backoff = 100

abbrev pub max_backoff : ℕ
max_backoff = 5000

-- A row of `audit_events`; the event itself stands for its payload.
pub record AuditRow : Type 0 where
  pub proposal_id : ProposalId
  pub event_type : String
  pub sub_solver : Address
  pub order_uid : OrderUid
  pub settlement_tx_hash : Option B256
  pub payload : AuditKind

-- The binds of `insert`. The code panics on a proposal id that `i64` cannot hold; those of the events
-- come from a BIGINT column.
unfoldable pub row_of : AuditKind → AuditRow
unfolding proposal_id event_type sub_solver order_uid settlement_tx_hash
row_of e = record {
  proposal_id = proposal_id e;
  event_type = event_type e;
  sub_solver = sub_solver e;
  order_uid = order_uid e;
  settlement_tx_hash = settlement_tx_hash e;
  payload = e;
}

-- `(backoff * 2).min(MAX_BACKOFF)`
unfoldable pub next_backoff : ℕ → ℕ
next_backoff backoff = if leb (backoff * 2) max_backoff then backoff * 2 else max_backoff

-- The table, the number of inserts that were tried, and the sleeps, the latest first.
pub record Writer : Type 0 where
  pub table : List AuditRow
  pub tried : ℕ
  pub sleeps : List ℕ

-- The loop of `insert_with_retry`, from its `backoff`.
unfoldable pub retry : ℕ → (ℕ → Bool) → ℕ → AuditKind → Writer → Option Writer
unfolding next_backoff row_of
retry zero lands backoff e w = none
retry (suc fuel) lands backoff e w =
    let later =
      retry fuel lands (next_backoff backoff) e
        (record w { tried = suc w.tried; sleeps = backoff ∷ w.sleeps }) in
    if lands w.tried
    then some (record w { table = w.table ++ (row_of e ∷ []); tried = suc w.tried })
    else later

unfoldable pub insert_with_retry : ℕ → (ℕ → Bool) → AuditKind → Writer → Option Writer
unfolding retry
insert_with_retry fuel lands e w = retry fuel lands initial_backoff e w

-- The loop of `spawn`, over what the channel delivers until it is closed.
unfoldable pub drain : ℕ → (ℕ → Bool) → List AuditKind → Writer → Option Writer
unfolding insert_with_retry
drain fuel lands [] w = some w
drain fuel lands (e ∷ es) w = elim (insert_with_retry fuel lands e w) [
  | none ↦ none
  | some w' ↦ drain fuel lands es w'
]
