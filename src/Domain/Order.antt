-- ===== src/Domain/Order.antt =====
-- The order that a proposal settles and the validation envelope (crates/byos/src/domain/order.rs,
-- with the order type of crates/byos-common/src/settlement.rs).
pub mod Envelope
use byos_service.Prelude.{
  ℕ, Bool, true, false, ◌||◌, not, Option, none, some, Result, ok, err, List, ltb, leb, ◌==◌,
  if◌then◌else◌,
}
use byos_service.Prelude.Ints.{checked_mul}
use byos_service.Domain.Proposal.{Proposal, Interaction, Address, B256, U256, Bytes}
use byos_service.Domain.Validator.{RejectionReason, unsupported_order, amount_mismatch}

pub data OrderKind : Type 0 where
  sell : OrderKind
  buy : OrderKind

pub data SigningScheme : Type 0 where
  eip712 : SigningScheme
  eth_sign : SigningScheme
  eip1271 : SigningScheme
  pre_sign : SigningScheme

-- `valid_to` is a `u32`.
pub record CowOrder : Type 0 where
  pub sell_token : Address
  pub buy_token : Address
  pub receiver : Address
  pub sell_amount : U256
  pub buy_amount : U256
  pub valid_to : ℕ
  pub app_data : B256
  pub fee_amount : U256
  pub kind : OrderKind
  pub partially_fillable : Bool
  pub signing_scheme : SigningScheme
  pub signature : Bytes

pub record OrderRecord : Type 0 where
  pub order : CowOrder
  pub pre_interactions : List Interaction
  pub post_interactions : List Interaction
  pub erc20_balances : Bool

abbrev pub Checked : Type 0
Checked = Result RejectionReason (Unit {0})

-- `match (lhs, rhs) { (Some(l), Some(r)) if test => Ok(()), _ => Err(AmountMismatch) }`
abbrev within_limit : (U256 → U256 → Bool) → Option U256 → Option U256 → Checked
within_limit test none r = err amount_mismatch
within_limit test (some l) none = err amount_mismatch
within_limit test (some l) (some r) = if test l r then ok tt else err amount_mismatch

unfoldable pub amounts_match : OrderKind → CowOrder → Proposal → Bool
amounts_match sell o p = p.sell_amount == o.sell_amount
amounts_match buy o p = p.buy_amount == o.buy_amount

unfoldable pub check_fill_or_kill : OrderRecord → Proposal → Checked
unfolding amounts_match
check_fill_or_kill r p =
    if not (amounts_match r.order.kind r.order p) then err amount_mismatch else ok tt

-- The two arms of `match self.order.kind`.
unfoldable pub check_fill_side : OrderKind → CowOrder → Proposal → Checked
check_fill_side sell o p =
    if p.sell_amount == 0 || ltb o.sell_amount p.sell_amount
    then err amount_mismatch
    else within_limit (λ l r. leb r l) (checked_mul p.buy_amount o.sell_amount)
        (checked_mul p.sell_amount o.buy_amount)
check_fill_side buy o p =
    if p.buy_amount == 0 || p.sell_amount == 0 || ltb o.buy_amount p.buy_amount
    then err amount_mismatch
    else within_limit (λ l r. leb l r) (checked_mul p.sell_amount o.buy_amount)
        (checked_mul p.buy_amount o.sell_amount)

unfoldable pub check_partial_fill : OrderRecord → Proposal → Checked
unfolding check_fill_side
check_partial_fill r p = check_fill_side r.order.kind r.order p

unfoldable pub check_envelope : OrderRecord → Proposal → Checked
unfolding check_fill_or_kill check_partial_fill
check_envelope r p =
    if not r.erc20_balances
    then err unsupported_order
    else if r.order.partially_fillable
    then check_partial_fill r p
    else check_fill_or_kill r p
