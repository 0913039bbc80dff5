-- ===== src/Server/Hex.antt =====
-- Hexadecimal strings: `HexString` of crates/pop-fork/src/rpc_server/types/common.rs, and the parsers
-- of crates/pop-fork/src/rpc_server/mod.rs. The codec is the library `hex`, a parameter.
use pop_cli.Prelude.{
  ◌<◌, ◌≡◌, refl, ◌∙◌, ap, ◌&&◌, [], ◌∷◌, Option, none, some, arith, length, nat_beq, if◌then◌else◌,
  All,
}
use pop_cli.Bytes.{Bytes}
use pop_cli.Server.Error.{invalid_param, invalid_hash_length, RpcResult, answer, refuse, and_then}

-- `hex::encode` and `hex::decode`; a string is the list of its bytes.
pub record Codec : Type 0 where
  pub encode : Bytes → Bytes
  pub decode : Bytes → Option Bytes

-- `str::trim_start_matches("0x")`, which removes the prefix as often as it stands there.
unfoldable pub trim_prefix : Bytes → Bytes
trim_prefix [] = []
trim_prefix (a ∷ []) = a ∷ []
trim_prefix (a ∷ b ∷ text) =
    if nat_beq a b'0' && nat_beq b b'x' then trim_prefix text else a ∷ b ∷ text

abbrev or_invalid : Option Bytes → RpcResult Bytes
or_invalid none = refuse invalid_param
or_invalid (some bytes) = answer bytes

module _ (hex : Codec) where
  unfoldable pub from_bytes : Bytes → Bytes
  from_bytes bytes = b'0' ∷ b'x' ∷ hex.encode bytes

  unfoldable pub to_bytes : Bytes → Option Bytes
  unfolding trim_prefix
  to_bytes text = hex.decode (trim_prefix text)

  unfoldable pub parse_hex_bytes : Bytes → RpcResult Bytes
  unfolding trim_prefix
  parse_hex_bytes text = or_invalid (hex.decode (trim_prefix text))

  unfoldable pub parse_block_hash : Bytes → RpcResult Bytes
  unfolding parse_hex_bytes
  parse_block_hash text =
      and_then (parse_hex_bytes text)
        (λ bytes. if nat_beq (length bytes) 32 then answer bytes else refuse invalid_hash_length)

-- What is documented of the library: it decodes what it encodes, and it encodes with digits and
-- the letters up to `f`.
pub record IsCodec (hex : Codec) : Type 0 where
  pub decode-encode :
      (bytes : Bytes) → All (λ b. b < 256) bytes → hex.decode (hex.encode bytes) ≡ some bytes
  pub digits : (bytes : Bytes) → All (λ b. b < 256) bytes → All (λ c. c < b'x') (hex.encode bytes)

trim_prefix-digits : (text : Bytes) → All (λ c. c < b'x') text → trim_prefix text ≡ text
unfolding trim_prefix
trim_prefix-digits [] h = refl
trim_prefix-digits (a ∷ []) h = refl
trim_prefix-digits (a ∷ b ∷ text) h = ground arith

module _ (hex : Codec) (codec : IsCodec hex) where
  decode-from_bytes :
      (bytes : Bytes)
      → All (λ b. b < 256) bytes
      → hex.decode (trim_prefix (from_bytes hex bytes)) ≡ some bytes
  unfolding from_bytes trim_prefix
  decode-from_bytes bytes h =
      ap hex.decode (trim_prefix-digits (hex.encode bytes) (codec.digits bytes h))
      ∙ codec.decode-encode bytes h

  -- What is printed as a hexadecimal string is read back, by the reader of strings and by the parser
  -- of parameters; the parser of block hashes takes it exactly if it has 32 bytes.
  pub to_bytes-from_bytes :
      (bytes : Bytes)
      → All (λ b. b < 256) bytes
      → (to_bytes hex (from_bytes hex bytes) ≡ some bytes)
        × (parse_hex_bytes hex (from_bytes hex bytes) ≡ answer bytes)
        × (parse_block_hash hex (from_bytes hex bytes)
            ≡ (if nat_beq (length bytes) 32 then answer bytes else refuse invalid_hash_length))
  unfolding to_bytes parse_hex_bytes parse_block_hash
  to_bytes-from_bytes bytes h =
      (decode-from_bytes bytes h, rw (decode-from_bytes bytes h), rw (decode-from_bytes bytes h))
