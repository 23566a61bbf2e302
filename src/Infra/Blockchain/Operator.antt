-- ===== src/Infra/Blockchain/Operator.antt =====
-- The escrow operator (crates/byos/src/infra/blockchain/operator.rs), the production implementation
-- of `DebitEscrow`. `Wallet` is what it calls of the RPC client, over a state `N` of the network.
use byos_service.Prelude.{ℕ, Bool, Option, none, some, Result, ok, err, String, if◌then◌else◌}
use byos_service.Prelude.Ints.{saturating_mul}
use byos_service.Domain.Proposal.{Address, B256, U256}
use byos_service.Infra.Penalty.{DebitError, transient, DebitEscrow}

-- Of a transaction receipt, what the code reads.
pub record Receipt : Type 0 where
  pub gas_used : ℕ
  pub effective_gas_price : ℕ
  pub status : Bool
  pub transaction_hash : B256

-- `get_transaction_receipt`, and `Escrow::debit` sent and confirmed within the timeout.
pub record Wallet (N : Type 0) : Type 0 where
  pub get_receipt : B256 → N → Result String (Option Receipt) × N
  pub send_debit : Address → Address → U256 → B256 → N → Result String Receipt × N

module _ {N : Type 0} (wallet : Wallet N) (escrow_address : Address) where
  unfoldable pub settlement_cost : B256 → N → Result DebitError U256 × N
  settlement_cost tx net =
      let (answer, net') = wallet.get_receipt tx net in
      elim answer [
        | err e ↦ (err transient, net')
        | ok found ↦ elim found [
          | none ↦ (err transient, net')
          | some r ↦ (ok (saturating_mul r.gas_used r.effective_gas_price), net')
        ]
      ]

  unfoldable pub debit : Address → U256 → B256 → N → Result DebitError B256 × N
  debit sub_solver amount reason net =
      let (answer, net') = wallet.send_debit escrow_address sub_solver amount reason net in
      elim answer [
        | err e ↦ (err transient, net')
        | ok r ↦ if r.status then (ok r.transaction_hash, net') else (err transient, net')
      ]

  -- `impl DebitEscrow for EscrowOperator`
  unfoldable pub escrow_operator : DebitEscrow N
  unfolding settlement_cost debit
  escrow_operator = record { settlement_cost = settlement_cost; debit = debit }
