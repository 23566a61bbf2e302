-- ===== src/Subsolver/Routing/Swaps.antt =====
-- What a routed swap does to the pool (crates/subsolver/src/domain/routing.rs).
use native.Mathlib.Nat.{mul-pos, div-mul-le_self, div-lt_iff_lt-mul, le-div_iff_mul-le}
use byos_service.Prelude.{ℕ, ◌+◌, ◌-◌, ◌*◌, ◌/◌, ◌≤◌, ◌<◌, ◌≡◌, some, arith}
use byos_service.Domain.Proposal.{Address, B256, U256, Bytes}
use byos_service.Subsolver.Routing.{amount_out, amount_in, pair_address}

amount_out_formula :
    (x rin rout y : U256)
    → amount_out x rin rout ≡ some y
    → (0 < rin) × (0 < rout) × (y ≡ x * 997 * rout / (rin * 1000 + x * 997))
unfolding amount_out
amount_out_formula x rin rout y h = ground arith

amount_in_formula :
    (out rin rout x : U256)
    → amount_in out rin rout ≡ some x
    → (0 < rin) × (out < rout) × (x ≡ rin * out * 1000 / ((rout - out) * 997) + 1)
unfolding amount_in
amount_in_formula out rin rout x h = ground arith

covers :
    (out d rin x : ℕ)
    → rin * out * 1000 < x * (d * 997)
    → out * (rin * 1000 + x * 997) ≤ x * 997 * (out + d)
covers out d rin x h = grind arith

keeps :
    (x y rin rout : ℕ) → y * (rin * 1000 + x * 997) ≤ x * 997 * rout → (y * (rin + x) ≤ x * rout)
keeps x y rin rout h = grind arith

grows : (x y z rin : ℕ) → y * (rin + x) ≤ x * (y + z) → rin * (y + z) ≤ (rin + x) * z
grows x y z rin k = grind arith

positive : (x rin rout : ℕ) → 0 < rin → 0 < rout → x * 997 * rout < rout * (rin * 1000 + x * 997)
positive x rin rout h k = grind (arith, mul-pos h k)

product_grows :
    (x y rin rout : ℕ) → y < rout → y * (rin + x) ≤ x * rout → rin * rout ≤ (rin + x) * (rout - y)
product_grows x y rin rout h k =
    let whole : rout ≡ y + (rout - y) = omega arith in
    let more = grows x y (rout - y) rin (rw (← whole) k) in rw (← whole) at more

-- A swap of the amount that a wanted output costs yields at least that output.
pub amount_out-amount_in :
    (out rin rout x y : U256)
    → amount_in out rin rout ≡ some x
    → amount_out x rin rout ≡ some y
    → out ≤ y
amount_out-amount_in out rin rout x y h k =
    let (pos, short, cost) = amount_in_formula out rin rout x h in
    let (pos', some_out, gain) = amount_out_formula x rin rout y k in
    let m : ℕ = (rout - out) * 997 in
    let n : ℕ = rin * 1000 + x * 997 in
    let low : rin * out * 1000 < x * m =
      (div-lt_iff_lt-mul {k = m} {x = rin * out * 1000} {y = x} (omega arith)).0 (omega arith) in
    let enough : out * n ≤ x * 997 * (out + (rout - out)) = covers out (rout - out) rin x low in
    let whole : out + (rout - out) ≡ rout = omega arith in
    rw gain (
      (le-div_iff_mul-le {k = n} {x = out} {y = x * 997 * rout} (omega arith)).1
        (rw whole at enough))

-- A routed swap leaves something in the pool and does not make the product of its reserves
-- smaller.
pub amount_out-keeps_product :
    (x rin rout y : U256)
    → amount_out x rin rout ≡ some y
    → (y < rout) × (rin * rout ≤ (rin + x) * (rout - y))
amount_out-keeps_product x rin rout y h =
    let (pos, some_out, gain) = amount_out_formula x rin rout y h in
    let n : ℕ = rin * 1000 + x * 997 in
    let top : y * n ≤ x * 997 * rout = rw gain (div-mul-le_self (x * 997 * rout) n) in
    let below : y < rout = rw gain (
      (div-lt_iff_lt-mul {k = n} {x = x * 997 * rout} {y = rout} (omega arith)).1
        (positive x rin rout pos some_out)) in
    (below, product_grows x y rin rout below (keeps x y rin rout top))

pair_address_sym :
    (keccak256 : Bytes → B256) (create2 : Address → B256 → B256 → Address) (factory : Address)
    (code : B256) (a b : Address)
    → pair_address keccak256 create2 factory code a b
      ≡ pair_address keccak256 create2 factory code b a
unfolding pair_address
pair_address_sym keccak256 create2 factory code a b = ground arith
