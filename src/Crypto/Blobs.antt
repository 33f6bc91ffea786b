-- ===== src/Crypto/Blobs.antt =====
-- What is decrypted is what was encrypted.
use nightswatch.Prelude.{
  suc, ◌≤◌, ◌≡◌, false, some, ◌++◌, length, take, drop, take-append, drop-append, length-append,
  ltb, arith,
}
use mathlib.Core.Path.{subst}
use nightswatch.Action.{return}
use nightswatch.Crypto.{Aead, Bytes, encrypt, decrypt}

-- The contract of an authenticated cipher: what it encrypted under a nonce it decrypts under that
-- nonce, and a ciphertext has a tag of 16 bytes.
pub record Authentic (aead : Aead) : Type 0 where
  pub round_trip :
      (nonce plaintext : Bytes) → aead.decrypt nonce (aead.encrypt nonce plaintext) ≡ some plaintext
  pub tagged : (nonce plaintext : Bytes) → 16 ≤ length (aead.encrypt nonce plaintext)

module _ (aead : Aead) (authentic : Authentic aead) where
  take_nonce : (nonce rest : Bytes) → length nonce ≡ 12 → take 12 (nonce ++ rest) ≡ nonce
  take_nonce nonce rest e = subst (λ n. take n (nonce ++ rest) ≡ nonce) e (take-append nonce rest)

  drop_nonce : (nonce rest : Bytes) → length nonce ≡ 12 → drop 12 (nonce ++ rest) ≡ rest
  drop_nonce nonce rest e = subst (λ n. drop n (nonce ++ rest) ≡ rest) e (drop-append nonce rest)

  -- A blob that was encrypted under any nonce of 12 bytes decrypts to what was encrypted.
  pub decrypt-encrypt :
      (nonce plaintext : Bytes)
      → length nonce ≡ 12
      → decrypt aead (encrypt aead nonce plaintext) ≡ return plaintext
  unfolding decrypt encrypt
  decrypt-encrypt nonce plaintext e =
      let ct = aead.encrypt nonce plaintext in
      let long : ltb (suc (length (nonce ++ ct))) 29 ≡ false =
        ground (arith, length-append nonce ct, authentic.tagged nonce plaintext) in
      rw long (
        rw (take_nonce nonce ct e)
          (rw (drop_nonce nonce ct e) (rw (authentic.round_trip nonce plaintext))))
