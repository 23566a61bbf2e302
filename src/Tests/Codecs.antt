-- ===== src/Tests/Codecs.antt =====
-- Codecs and a signature scheme, as concrete functions.
use Prim.Native.Char.{code}
use Prim.Native.String.{String}
use native.Mathlib.Nat.{zero-add}
use byos_service.Prelude.{
  ◌%◌, ℕ, zero, suc, ◌+◌, ◌≡◌, refl, ◌∙◌, length, ap, some, ok, [], ◌∷◌, ◌==◌, if◌then◌else◌, arith,
}
use byos_service.Prelude.Bytes.{strip_0x}
use byos_service.Domain.Proposal.{Bytes}
use byos_service.Domain.Uid.{Codec}
use byos_service.Common.Eip712.{Crypto, Signer}
use byos_service.Subsolver.Proposal.{Calls}
use byos_service.Subsolver.Client.Owned.{IsSerial}
use byos_service.Subsolver.Wire.Accepted.{IsCodec, AreBytes}

-- `n` letters before `s`.
unfoldable pub unary : ℕ → String → String
unary zero s = s
unary (suc n) s = String.◌∷◌ "a" (unary n s)

-- A byte is as many letters, closed by a point.
unfoldable pub written : Bytes → String
unfolding unary
written [] = String.[]
written (b ∷ bs) = unary b (String.◌∷◌ "." (written bs))

unfoldable pub read_from : ℕ → String → Bytes
read_from n String.[] = []
read_from n (String.◌∷◌ c s) =
    let rest = read_from 0 s in
    let more = read_from (suc n) s in if code c == b'.' then n ∷ rest else more

unfoldable pub letters : String → ℕ
letters String.[] = 0
letters (String.◌∷◌ c s) = suc (letters s)

-- Numbers in unary.
abbrev pub codec : Codec
codec = record {
  decode_hex = λ s. ok (read_from 0 s);
  encode_prefixed = λ bs. String.◌∷◌ "0" (String.◌∷◌ "x" (written bs));
  from_decimal = λ s. some (letters s);
  to_decimal = λ n. unary n String.[];
}

letters-unary : (n : ℕ) → letters (unary n String.[]) ≡ n
unfolding letters unary
letters-unary zero = refl
letters-unary (suc n) = ap suc (letters-unary n)

read_from-unary : (n b : ℕ) (s : String) → read_from n (unary b s) ≡ read_from (n + b) s
unfolding read_from unary
read_from-unary n zero s = ap (λ m. read_from m s) (omega arith)
read_from-unary n (suc b) s = read_from-unary (suc n) b s ∙ ap (λ m. read_from m s) (omega arith)

read_from-written : (bs : Bytes) → read_from 0 (written bs) ≡ bs
unfolding read_from written
read_from-written [] = refl
read_from-written (b ∷ bs) =
    read_from-unary 0 b (String.◌∷◌ "." (written bs))
    ∙ ap (λ m. read_from m (String.◌∷◌ "." (written bs))) (zero-add b)
    ∙ ap (λ rest. b ∷ rest) (read_from-written bs)

pub codec-IsCodec : IsCodec codec
unfolding strip_0x
codec-IsCodec = record {
  decimals = λ n small. ap some (letters-unary n);
  hexes = λ bs small. ap ok (read_from-written bs);
}

-- A signature is as many zeros.
unfoldable pub zeros : ℕ → Bytes
zeros zero = []
zeros (suc n) = 0 ∷ zeros n

pub length-zeros : (n : ℕ) → length (zeros n) ≡ n
unfolding zeros
length-zeros zero = refl
length-zeros (suc n) = ap suc (length-zeros n)

zeros-AreBytes : (n : ℕ) → AreBytes (zeros n)
unfolding zeros
zeros-AreBytes zero = tt
zeros-AreBytes (suc n) = (omega arith, zeros-AreBytes n)

abbrev pub crypto : Crypto
crypto = record {
  encode_interactions = λ is. [];
  keccak256 = λ bs. 5;
  proposal_hash = λ domain p. p.nonce;
  cancel_hash = λ domain m. m.proposal_id;
  read_hash = λ domain m. m.version;
  to_signature = λ bs. some (length bs);
  recover_address = λ signature h. some signature;
}

abbrev pub signer : Signer
signer = record { address = 7; sign_hash = λ h. some 7 }

abbrev pub calls : Calls
calls = record {
  swap_exact_in = λ a b path to deadline. a % 256 ∷ b % 256 ∷ [];
  swap_exact_out = λ a b path to deadline. a % 256 ∷ b % 256 ∷ [];
  approve = λ spender amount. spender ∷ [];
  signature_bytes = zeros;
}

pub calls-IsSerial : IsSerial crypto calls
calls-IsSerial = record { reads = λ s. ap some (length-zeros s); sized = zeros-AreBytes }
