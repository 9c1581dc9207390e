-- ===== src/Shared/Crypto/Vault.antt =====
-- What is encrypted can be decrypted.
use zorch.Prelude.{
  ℕ, ◌≤◌, String, some, [], ◌∷◌, ◌++◌, length, length-append, ◌≡◌, refl, sym, arith, inl, inr,
}
use zorch.Shared.Errors.{ok, got, Reply-cases}
use zorch.Shared.Crypto.{
  Bytes, Ciphers, SecretVault, decoded, split_at, sealed, encrypt, plain_text, decrypt_data,
  decrypt,
}

-- What the libraries promise.
pub record CiphersLaws {W : Type 0} (ciphers : Ciphers W) : Type 0 where
  pub decode-encode : (bytes : Bytes) → ciphers.decode (ciphers.encode bytes) ≡ decoded bytes
  pub fill_bytes-length : (n : ℕ) (w : W) → length (ciphers.fill_bytes n w).0 ≡ n
  pub unseal-seal :
      (key nonce bytes c : Bytes)
      → ciphers.seal key nonce bytes ≡ got c
      → ciphers.unseal key nonce c ≡ some bytes

split_at-append : (front back : Bytes) → split_at (length front) (front ++ back) ≡ (front, back)
unfolding split_at
split_at-append [] back = refl
split_at-append (b ∷ front) back = let later = split_at-append front back in ground (arith, later)

module _ {W : Type 0} (ciphers : Ciphers W) (laws : CiphersLaws ciphers) where
  decrypt_data-seal :
      (vault : SecretVault) (nonce c : Bytes) (s : String)
      → length nonce ≡ 12
      → ciphers.from_utf8 (ciphers.as_bytes s) ≡ got s
      → ciphers.unseal vault.key_bytes nonce c ≡ some (ciphers.as_bytes s)
      → decrypt_data ciphers vault (decoded (nonce ++ c)) ≡ ok s
  unfolding decrypt_data plain_text
  decrypt_data-seal vault nonce c s n read h =
      let enough : 12 ≤ length (nonce ++ c) = omega (arith, length-append nonce c, n) in
      let parts = rw n at (split_at-append nonce c) in ground (arith, enough, parts, h, read)

  -- A vault decrypts what it encrypted, if the encryption succeeded, to the same text: the bytes of
  -- the text are read as that text.
  pub decrypt-encrypt :
      (vault : SecretVault) (plaintext ciphertext : String) (w : W)
      → ciphers.from_utf8 (ciphers.as_bytes plaintext) ≡ got plaintext
      → (encrypt ciphers vault plaintext w).0 ≡ ok ciphertext
      → decrypt ciphers vault ciphertext ≡ ok plaintext
  unfolding encrypt sealed decrypt
  decrypt-encrypt vault plaintext ciphertext w read h =
      let nonce = (ciphers.fill_bytes 12 w).0 in
      elim (Reply-cases (ciphers.seal vault.key_bytes nonce (ciphers.as_bytes plaintext))) [
        | inl (c, e) ↦
            let same : ciphers.encode (nonce ++ c) ≡ ciphertext = ground (arith, e, h) in
            rw (sym same, laws.decode-encode (nonce ++ c))
              (decrypt_data-seal vault nonce c plaintext (laws.fill_bytes-length 12 w) read
                (laws.unseal-seal vault.key_bytes nonce (ciphers.as_bytes plaintext) c e))
        | inr (e, f) ↦ ground (arith, f, h)
      ]
