-- ===== src/Shared/Crypto.antt =====
-- crates/zorch-shared/src/crypto.rs. AES-256-GCM, SHA-256, base64 and the random numbers are
-- parameters; bytes are numbers below 256.
pub mod Vault
mod Examples
use zorch.Prelude.{
  ℕ, zero, suc, Bool, String, Option, none, some, List, [], ◌∷◌, ◌++◌, length, ltb, if◌then◌else◌,
}
use zorch.Shared.Errors.{
  Result, ok, err, AppError, Message, text, num, internal, Reply, got, failed,
}
use zorch.Shared.Action.{Action}

abbrev pub Bytes : Type 0
Bytes = List ℕ

-- base64::DecodeError
pub data DecodeError : Type 0 where
  invalid_byte : ℕ → ℕ → DecodeError
  invalid_length invalid_padding : DecodeError
  invalid_last_symbol : ℕ → ℕ → DecodeError

pub data Decoded : Type 0 where
  decoded : Bytes → Decoded
  undecodable : DecodeError → Decoded

pub record Ciphers (W : Type 0) : Type 0 where
  pub sha256 : Bytes → Bytes
  -- key, nonce, plaintext
  pub seal : Bytes → Bytes → Bytes → Reply Bytes
  -- key, nonce, ciphertext; nothing if the tag does not match
  pub unseal : Bytes → Bytes → Bytes → Option Bytes
  pub fill_bytes : ℕ → W → Bytes × W
  pub encode : Bytes → String
  pub decode : String → Decoded
  pub show_decode_error : DecodeError → String
  pub as_bytes : String → Bytes
  pub from_utf8 : Bytes → Reply String

pub record SecretVault : Type 0 where
  pub key_bytes : Bytes

-- `split_at`
unfoldable pub split_at : ℕ → Bytes → Bytes × Bytes
split_at zero bytes = ([], bytes)
split_at (suc n) [] = ([], [])
split_at (suc n) (b ∷ bytes) = let (front, back) = split_at n bytes in (b ∷ front, back)

unfoldable pub classify_base64_error : DecodeError → String
classify_base64_error (invalid_byte i b) = "invalid_base64_byte"
classify_base64_error invalid_length = "invalid_base64_length"
classify_base64_error invalid_padding = "invalid_base64_padding"
classify_base64_error (invalid_last_symbol i b) = "invalid_base64_last_symbol"

abbrev remediate_resave : String
remediate_resave =
    "Re-enter the upstream API key in the provider's edit dialog and save to regenerate the ciphertext."

module _ {W : Type 0} (ciphers : Ciphers W) where
  unfoldable pub new : String → Result SecretVault
  new key = ok (record { key_bytes = ciphers.sha256 (ciphers.as_bytes key) })

  unfoldable pub sealed : Bytes → Reply Bytes → Result String
  sealed nonce (got ciphertext) = ok (ciphers.encode (nonce ++ ciphertext))
  sealed nonce (failed e) = err (internal (text "Encryption failed: " ∷ text e ∷ []))

  unfoldable pub encrypt : SecretVault → String → Action W String
  encrypt vault plaintext w =
      let (nonce, w') = ciphers.fill_bytes 12 w in
      (sealed nonce (ciphers.seal vault.key_bytes nonce (ciphers.as_bytes plaintext)), w')

  unfoldable pub plain_text : Option Bytes → Result String
  plain_text none = err (
      internal (
        text
          "SecretVault decrypt failed [auth_failed]: AES-GCM tag mismatch — the current ZORCH_ENCRYPTION_KEY did not produce this ciphertext. Either the key was rotated after this secret was saved, or the stored value is corrupted. "
        ∷ text remediate_resave
        ∷ []))
  plain_text (some bytes) = elim (ciphers.from_utf8 bytes) [
    | got s ↦ ok s
    | failed e ↦ err (
        internal (
          text "SecretVault decrypt failed [non_utf8]: decrypted bytes are not valid UTF-8 ("
          ∷ text e
          ∷ text "). "
          ∷ text remediate_resave
          ∷ []))
  ]

  unfoldable pub decrypt_data : SecretVault → Decoded → Result String
  decrypt_data vault (undecodable e) = err (
      internal (
        text "SecretVault decrypt failed ["
        ∷ text (classify_base64_error e)
        ∷ text "]: stored ciphertext is not valid base64 ("
        ∷ text (ciphers.show_decode_error e)
        ∷ text "). "
        ∷ text remediate_resave
        ∷ []))
  decrypt_data vault (decoded bytes) =
      if ltb (length bytes) 12
      then err (
          internal (
            text "SecretVault decrypt failed [truncated_ciphertext]: stored payload is "
            ∷ num (length bytes)
            ∷ text " bytes but must be at least "
            ∷ num 12
            ∷ text " (nonce) + 16 (AES-GCM tag). "
            ∷ text remediate_resave
            ∷ []))
      else (let (nonce, ct) = split_at 12 bytes in
          plain_text (ciphers.unseal vault.key_bytes nonce ct))

  unfoldable pub decrypt : SecretVault → String → Result String
  decrypt vault ciphertext = decrypt_data vault (ciphers.decode ciphertext)
