-- ===== src/Common/Settlement/Flags.antt =====
-- The flags word of a trade, read by the bits that `trade_flags` documents
-- (crates/byos-common/src/settlement.rs).
use byos_service.Prelude.{
  ℕ, ◌/◌, ◌%◌, ◌<◌, ◌≡◌, refl, Bool, true, false, ◌==◌, arith, if◌then◌else◌,
}
use byos_service.Domain.Order.{
  CowOrder, OrderKind, sell, buy, SigningScheme, eip712, eth_sign, eip1271, pre_sign,
}
use byos_service.Common.Settlement.{trade_flags}

-- Bit 0: the order's kind.
abbrev pub kind_bit : ℕ → OrderKind
kind_bit flags = if flags % 2 == 0 then sell else buy

-- Bit 1: whether the order may be filled in part.
abbrev pub partial_bit : ℕ → Bool
partial_bit flags = flags / 2 % 2 == 1

-- Bits 2 to 4: the balances; 0 is erc20 on both sides.
abbrev pub balance_bits : ℕ → ℕ
balance_bits flags = flags / 4 % 8

-- Bits 5 and 6: the signing scheme.
abbrev pub scheme_bits : ℕ → SigningScheme
scheme_bits flags =
    let scheme = flags / 32 in
    if scheme == 0
    then eip712
    else if scheme == 1
    then eth_sign
    else if scheme == 2
    then eip1271
    else pre_sign

abbrev pub Reads : CowOrder → ℕ → Type 0
Reads o flags =
    (kind_bit flags ≡ o.kind)
    × (partial_bit flags ≡ o.partially_fillable)
    × (balance_bits flags ≡ 0)
    × (scheme_bits flags ≡ o.signing_scheme)
    × (flags < 128)

flags_of :
    (o : CowOrder) (kind : OrderKind) (partial : Bool) (scheme : SigningScheme)
    → let o' = record o { kind = kind; partially_fillable = partial; signing_scheme = scheme } in
      Reads o' (trade_flags o')
unfolding trade_flags
flags_of o sell true eip712 = (refl, refl, refl, refl, omega arith)
flags_of o sell true eth_sign = (refl, refl, refl, refl, omega arith)
flags_of o sell true eip1271 = (refl, refl, refl, refl, omega arith)
flags_of o sell true pre_sign = (refl, refl, refl, refl, omega arith)
flags_of o sell false eip712 = (refl, refl, refl, refl, omega arith)
flags_of o sell false eth_sign = (refl, refl, refl, refl, omega arith)
flags_of o sell false eip1271 = (refl, refl, refl, refl, omega arith)
flags_of o sell false pre_sign = (refl, refl, refl, refl, omega arith)
flags_of o buy true eip712 = (refl, refl, refl, refl, omega arith)
flags_of o buy true eth_sign = (refl, refl, refl, refl, omega arith)
flags_of o buy true eip1271 = (refl, refl, refl, refl, omega arith)
flags_of o buy true pre_sign = (refl, refl, refl, refl, omega arith)
flags_of o buy false eip712 = (refl, refl, refl, refl, omega arith)
flags_of o buy false eth_sign = (refl, refl, refl, refl, omega arith)
flags_of o buy false eip1271 = (refl, refl, refl, refl, omega arith)
flags_of o buy false pre_sign = (refl, refl, refl, refl, omega arith)

-- The flags word of an order reads back, by its documented bits, as the order's kind, its partial
-- fillability, erc20 balances and its signing scheme, and has no further bits.
pub trade_flags-Reads : (o : CowOrder) → Reads o (trade_flags o)
trade_flags-Reads o = flags_of o o.kind o.partially_fillable o.signing_scheme
