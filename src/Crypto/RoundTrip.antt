-- ===== src/Crypto/RoundTrip.antt =====
-- What packages/crypto/src/index.ts opens again, and what it refuses.
use tangentfeed.Prelude.{
  ◌<◌, ◌≡◌, ◌≢◌, refl, ◌∙◌, true, false, none, some, ◌++◌, arith, Text, eqb_refl, length,
  take-append, drop-append, length-append, leb,
}
use tangentfeed.Errors.{ok, err, decrypt_error, not_authentic, not_json, ◌>>=◌}
use tangentfeed.Values.{Value, string}
use tangentfeed.Signing.{Platform, Bytes, canonical_json}
use tangentfeed.Engine.Reads.{cipher_prefix, is_encrypted_value}
use tangentfeed.Crypto.{
  Noble, SpaceCipher, encrypt, decrypt, unpack, base64_encode, base64_decode, attempt,
}

-- What the cipher relies on: base64 decodes what it has encoded, and the authenticated cipher opens what it
-- has sealed under the same associated data, under no other, and adds to the length.
pub record IsReliable (p : Platform) (n : Noble) : Type 0 where
  pub atob_btoa : (b : Bytes) → p.atob (p.btoa b) ≡ some b
  pub open_seal :
      (key nonce aad pt : Bytes) → n.open_sealed key nonce aad (n.seal key nonce aad pt) ≡ some pt
  pub open_other :
      (key nonce aad other pt : Bytes)
      → aad ≢ other
      → n.open_sealed key nonce other (n.seal key nonce aad pt) ≡ none
  pub tagged : (key nonce aad pt : Bytes) → length pt < length (n.seal key nonce aad pt)

module _ (p : Platform) (n : Noble) (reliable : IsReliable p n) (c : SpaceCipher) (nonce : Bytes)
    (sized : length nonce ≡ 24) where
  sealed : Value → Text → Bytes
  sealed v id = n.seal c.key nonce (p.utf8 id) (p.utf8 (canonical_json p v))

  encrypt-is_encrypted :
      (v : Value) (id : Text) → is_encrypted_value (string (encrypt p n c nonce v id)) ≡ true
  unfolding encrypt
  encrypt-is_encrypted v id = eqb_refl cipher_prefix

  -- An encrypted value is taken apart into its nonce and its ciphertext.
  unpack-encrypt :
      (v : Value) (id other : Text)
      → unpack p n c (encrypt p n c nonce v id) other ≡ (
          attempt not_authentic (n.open_sealed c.key nonce (p.utf8 other) (sealed v id)) >>= λ pt.
          attempt not_json (n.parse (n.from_utf8 pt)))
  unfolding unpack encrypt base64_decode base64_encode attempt sealed
  unpack-encrypt v id other =
      let ct = sealed v id in
      let long : leb (length (nonce ++ ct)) 24 ≡ false = ground (
        arith,
        length-append nonce ct,
        reliable.tagged c.key nonce (p.utf8 id) (p.utf8 (canonical_json p v)),
      ) in
      rw
        (
          reliable.atob_btoa (nonce ++ ct),
          long,
          take-append 24 nonce ct sized,
          drop-append 24 nonce ct sized,
        )
        refl

  decrypt-unpack :
      (v : Value) (id other : Text)
      → decrypt p n c (string (encrypt p n c nonce v id)) other
        ≡ unpack p n c (encrypt p n c nonce v id) other
  unfolding decrypt
  decrypt-unpack v id other = rw (encrypt-is_encrypted v id) refl

  -- A value that was encrypted for an operation decrypts, for that operation, to what parsing its canonical
  -- text gives, when text that is encoded decodes.
  pub decrypt-encrypt :
      (v w : Value) (id : Text)
      → n.from_utf8 (p.utf8 (canonical_json p v)) ≡ canonical_json p v
      → n.parse (canonical_json p v) ≡ some w
      → decrypt p n c (string (encrypt p n c nonce v id)) id ≡ ok w
  unfolding attempt sealed
  decrypt-encrypt v w id decodes parses =
      decrypt-unpack v id id
      ∙ unpack-encrypt v id id
      ∙ rw
          (
            reliable.open_seal c.key nonce (p.utf8 id) (p.utf8 (canonical_json p v)),
            decodes,
            parses,
          )
          refl

  -- A ciphertext that is moved to an operation with another encoded id is refused.
  pub decrypt-relocated :
      (v : Value) (id other : Text)
      → p.utf8 id ≢ p.utf8 other
      → decrypt p n c (string (encrypt p n c nonce v id)) other ≡ err (decrypt_error not_authentic)
  unfolding attempt sealed
  decrypt-relocated v id other apart =
      decrypt-unpack v id other
      ∙ unpack-encrypt v id other
      ∙ rw
          (reliable.open_other c.key nonce (p.utf8 id) (p.utf8 other) (p.utf8 (canonical_json p v))
            apart)
          refl
