-- ===== src/Domain/Validator.antt =====
-- The verdict types of the validation seam (crates/byos/src/domain/validator.rs).
use byos_service.Prelude.{ℕ, Option}

pub data RejectionReason : Type 0 where
  insufficient_escrow : RejectionReason
  unsupported_order : RejectionReason
  amount_mismatch : RejectionReason
  order_not_found : RejectionReason
  unprofitable : RejectionReason

-- `gas_used` is a `u64`; addresses are 160-bit numbers.
pub record SimulationOutcome : Type 0 where
  pub gas_used : ℕ
  pub trampoline : ℕ
  pub sell_token : ℕ
  pub buy_token : ℕ

pub data Verdict : Type 0 where
  accept : Option SimulationOutcome → Verdict
  reject : RejectionReason → Verdict
  sim_failed : Verdict
