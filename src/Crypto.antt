-- ===== src/Crypto.antt =====
-- packages/crypto/src/index.ts: the cipher of a space. The random bytes of an encryption are an argument.
pub mod RoundTrip
use tangentfeed.Prelude.{
  ℕ, Bool, true, false, not, Option, none, some, List, [], ◌∷◌, ◌++◌, Text, codes, take, drop,
  length, ltb, leb, if◌then◌else◌,
}
use tangentfeed.Errors.{
  Error, Result, ok, err, DecryptFault, decrypt_error, secret_too_short, not_base64, too_short,
  not_authentic, not_json, ◌>>=◌, ◌>>◌, guard,
}
use tangentfeed.Values.{Value}
use tangentfeed.Signing.{Platform, Bytes, canonical_json}
use tangentfeed.Engine.Reads.{cipher_prefix, is_encrypted_value}

-- What the source takes from @noble and from the platform. The key, the nonce and the associated data come
-- first; `none` is where a call throws.
pub record Noble : Type 0 where
  -- `hkdf(sha256, secret, salt, info, length)`
  pub hkdf : Bytes → Bytes → Bytes → ℕ → Bytes
  pub scrypt : Bytes → Bytes → Bytes
  pub seal : Bytes → Bytes → Bytes → Bytes → Bytes
  pub open_sealed : Bytes → Bytes → Bytes → Bytes → Option Bytes
  -- `new TextDecoder().decode`
  pub from_utf8 : Bytes → Text
  pub parse : Text → Option Value

abbrev pub cell_info : Text
cell_info = codes "tangentfeed/v1/cells"

abbrev pub nonce_bytes : ℕ
nonce_bytes = 24

abbrev pub key_bytes : ℕ
key_bytes = 32

pub record SpaceCipher : Type 0 where
  pub key : Bytes

-- `value` as the text that it is, once `isEncryptedValue` has passed.
abbrev pub text_of : Value → Text
text_of (Value.string s) = s
text_of _ = []

-- `try { … } catch { throw new DecryptError(…) }`
unfoldable pub attempt {ℓ} : {A : Type ℓ} → DecryptFault → Option A → Result A
attempt fault none = err (decrypt_error fault)
attempt fault (some a) = ok a

module _ (p : Platform) (n : Noble) where
  unfoldable pub new_cipher : Bytes → Result SpaceCipher
  new_cipher secret =
      if ltb (length secret) 16
      then err secret_too_short
      else ok (record { key = n.hkdf secret [] (p.utf8 cell_info) key_bytes })

  unfoldable pub from_passphrase : Text → Text → Result SpaceCipher
  unfolding new_cipher
  from_passphrase passphrase salt = new_cipher (n.scrypt (p.utf8 passphrase) (p.utf8 salt))

  unfoldable pub base64_encode : Bytes → Text
  base64_encode bytes = p.btoa bytes

  unfoldable pub base64_decode : Text → Option Bytes
  base64_decode s = p.atob s

  unfoldable pub encrypt : SpaceCipher → Bytes → Value → Text → Text
  unfolding base64_encode
  encrypt c nonce value op_id =
      let plaintext = p.utf8 (canonical_json p value) in
      let ct = n.seal c.key nonce (p.utf8 op_id) plaintext in
      cipher_prefix ++ base64_encode (nonce ++ ct)

  -- What follows the test for a plaintext.
  unfoldable pub unpack : SpaceCipher → Text → Text → Result Value
  unfolding base64_decode attempt
  unpack c s op_id = do
    packed ← attempt not_base64 (base64_decode (drop (length cipher_prefix) s))
    guard (not (leb (length packed) nonce_bytes)) (decrypt_error too_short)
    pt ←
        attempt not_authentic
          (n.open_sealed c.key (take nonce_bytes packed) (p.utf8 op_id) (drop nonce_bytes packed))
    attempt not_json (n.parse (n.from_utf8 pt))

  unfoldable pub decrypt : SpaceCipher → Value → Text → Result Value
  unfolding unpack
  decrypt c value op_id =
      if not (is_encrypted_value value) then ok value else unpack c (text_of value) op_id
