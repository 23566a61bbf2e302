-- ===== src/Prelude/Bytes.antt =====
-- Fixed-width byte strings as numbers, and the texts that the edges parse.
use Prim.Native.Nat.{ℕ, zero, suc, ◌+◌, ◌*◌, ◌/◌, ◌%◌, ◌<◌}
use Prim.Native.Char.{code}
use Prim.Native.String.{String}
use mathlib.Core.Path.{◌≡◌, refl, ◌∙◌}
use native.Mathlib.Nat.{add-zero, zero-add}
use mathlib.Core.Bool.{◌&&◌}
use mathlib.Core.List.{List, [], ◌∷◌, ◌++◌, append-nil, append_assoc}
use native.Mathlib.Omega.{arith}
use byos_service.Prelude.Lists.{length, All}
use byos_service.Prelude.Tests.{◌==◌, if◌then◌else◌}

-- The bytes of a number, most significant first.
unfoldable pub to_be_bytes : ℕ → ℕ → List ℕ
to_be_bytes zero v = []
to_be_bytes (suc width) v = to_be_bytes width (v / 256) ++ (v % 256 ∷ [])

unfoldable pub of_be_bytes : ℕ → List ℕ → ℕ
of_be_bytes high [] = high
of_be_bytes high (b ∷ bs) = of_be_bytes (high * 256 + b) bs

-- `s.strip_prefix("0x").unwrap_or(s)`
unfoldable pub strip_0x : String → String
strip_0x String.[] = String.[]
strip_0x (String.◌∷◌ a String.[]) = String.◌∷◌ a String.[]
strip_0x (String.◌∷◌ a (String.◌∷◌ b s)) =
    if code a == b'0' && code b == b'x' then s else String.◌∷◌ a (String.◌∷◌ b s)

strip_0x_runs : strip_0x "0xab" ≡ "ab"
unfolding strip_0x
strip_0x_runs = refl

-- Reading the bytes back gives them, whatever the high part is.
pub to_be_bytes-of_be_bytes :
    (n high : ℕ) (bs : List ℕ)
    → All (λ b. b < 256) bs
    → to_be_bytes (n + length bs) (of_be_bytes high bs) ≡ to_be_bytes n high ++ bs
unfolding to_be_bytes of_be_bytes
to_be_bytes-of_be_bytes n high [] small = rw (append-nil (to_be_bytes n high), add-zero n) refl
to_be_bytes-of_be_bytes n high (b ∷ bs) small =
    let later = to_be_bytes-of_be_bytes (suc n) (high * 256 + b) bs small.1 in
    let over : n + suc (length bs) ≡ suc n + length bs = omega arith in
    let quotient : (high * 256 + b) / 256 ≡ high = omega arith in
    let rest : (high * 256 + b) % 256 ≡ b = omega arith in
    rw over (later ∙ rw (quotient, rest) (append_assoc (to_be_bytes n high) (b ∷ []) bs))

pub to_be_bytes-of_be_bytes_self :
    (bs : List ℕ) → All (λ b. b < 256) bs → to_be_bytes (length bs) (of_be_bytes 0 bs) ≡ bs
unfolding to_be_bytes
to_be_bytes-of_be_bytes_self bs small =
    rw (← zero-add (length bs)) (to_be_bytes-of_be_bytes 0 0 bs small)
