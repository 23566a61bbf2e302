-- ===== src/Domain/Uid.antt =====
-- The texts of order uids (`OrderUid` of crates/byos/src/domain/proposal.rs). The hexadecimal and
-- decimal codecs are third-party crates and the standard library: `Codec` is what the code calls of
-- them.
use Prim.Native.String.{◌++◌}
use byos_service.Prelude.{
  ℕ, Option, Result, ok, err, ◌>>=◌, map_err, String, length, ◌==◌, if◌then◌else◌,
}
use byos_service.Prelude.Bytes.{to_be_bytes, of_be_bytes, strip_0x}
use byos_service.Domain.Proposal.{OrderUid, U256, Bytes}

-- A failed `hex::decode` answers the text of its error; `encode_prefixed` begins with `0x`.
pub record Codec : Type 0 where
  pub decode_hex : String → Result String Bytes
  pub encode_prefixed : Bytes → String
  pub from_decimal : String → Option U256
  pub to_decimal : ℕ → String

pub data OrderUidError : Type 0 where
  hex : String → OrderUidError
  bad_length : ℕ → OrderUidError

module _ (k : Codec) where
  -- Its `Display`.
  unfoldable pub uid_error_text : OrderUidError → String
  uid_error_text (hex e) = "invalid hex: " ++ e
  uid_error_text (bad_length n) = "expected 56 bytes, got " ++ k.to_decimal n

  -- `OrderUid::from_hex`
  unfoldable pub from_hex : String → Result OrderUidError OrderUid
  from_hex s = do
    bytes ← map_err hex (k.decode_hex (strip_0x s))
    if length bytes == 56 then ok (of_be_bytes 0 bytes) else err (bad_length (length bytes))

  -- The `Display` of an order uid.
  unfoldable pub uid_text : OrderUid → String
  uid_text uid = k.encode_prefixed (to_be_bytes 56 uid)
