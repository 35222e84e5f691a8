-- ===== src/Tests/Ciphers.antt =====
-- The cipher of packages/crypto/src/index.ts over a sealing that puts the associated data in front.
use tangentfeed.Prelude.{
  ◌≡◌, ◌≢◌, refl, inl, inr, true, false, ◌&&◌, Option, none, some, [], ◌∷◌, ◌++◌, arith, codes,
  text_eqb, eqb_iff, eqb_refl, take, drop, length, replicate, take-append, drop-append,
  length-append, ◌==◌, Bool-cases, if◌then◌else◌,
}
use tangentfeed.Errors.{ok, err, decrypt_error, not_authentic}
use tangentfeed.Values.{Value, string}
use tangentfeed.Signing.{Bytes}
use tangentfeed.Crypto.{Noble, SpaceCipher, encrypt, decrypt}
use tangentfeed.Crypto.RoundTrip.{IsReliable, decrypt-encrypt, decrypt-relocated}
use tangentfeed.Samples.{platform}

abbrev seal : Bytes → Bytes → Bytes → Bytes → Bytes
seal key nonce aad pt = length aad ∷ (aad ++ pt)

abbrev open_at : Bytes → Bytes → Option Bytes
open_at aad [] = none
open_at aad (l ∷ r) =
    if l == length aad && text_eqb (take (length aad) r) aad
    then some (drop (length aad) r)
    else none

abbrev noble : Noble
noble = record {
  hkdf = λ secret salt info size. secret;
  scrypt = λ pw salt. pw ++ salt;
  seal = seal;
  open_sealed = λ key nonce aad ct. open_at aad ct;
  from_utf8 = λ b. b;
  parse = λ s. some (Value.boolean true);
}

open_at-seal : (aad pt : Bytes) → open_at aad (length aad ∷ (aad ++ pt)) ≡ some pt
open_at-seal aad pt =
    let same : (length aad == length aad) ≡ true = ground arith in
    rw
      (
        same,
        take-append (length aad) aad pt refl,
        drop-append (length aad) aad pt refl,
        eqb_refl aad,
      )
      refl

open_at-other :
    (aad other pt : Bytes) → aad ≢ other → open_at other (length aad ∷ (aad ++ pt)) ≡ none
open_at-other aad other pt apart = elim (Bool-cases (length aad == length other)) [
  | inr h ↦ rw h refl
  | inl h ↦
      let size : length aad ≡ length other = ground arith in
      let differ : text_eqb aad other ≡ false = elim (Bool-cases (text_eqb aad other)) [
        | inl q ↦ absurd (apart ((eqb_iff aad other).0 q))
        | inr q ↦ q
      ] in
      rw (h, take-append (length other) aad pt size, differ) refl
]

noble-IsReliable : IsReliable platform noble
noble-IsReliable = record {
  atob_btoa = λ b. refl;
  open_seal = λ key nonce aad pt. open_at-seal aad pt;
  open_other = λ key nonce aad other pt apart. open_at-other aad other pt apart;
  tagged = λ key nonce aad pt. ground (arith, length-append aad pt);
}

abbrev cipher : SpaceCipher
cipher = record { key = replicate 32 7 }

abbrev nonce : Bytes
nonce = replicate 24 1

decrypt-encrypt_example :
    decrypt platform noble cipher
      (string (encrypt platform noble cipher nonce (Value.boolean true) (codes "a")))
      (codes "a")
    ≡ ok (Value.boolean true)
decrypt-encrypt_example =
    decrypt-encrypt platform noble noble-IsReliable cipher nonce refl (Value.boolean true)
      (Value.boolean true) (codes "a") refl refl

a_not_b : codes "a" ≢ codes "b"
a_not_b h = ground arith

decrypt-relocated_example :
    decrypt platform noble cipher
      (string (encrypt platform noble cipher nonce (Value.boolean true) (codes "a")))
      (codes "b")
    ≡ err (decrypt_error not_authentic)
decrypt-relocated_example =
    decrypt-relocated platform noble noble-IsReliable cipher nonce refl (Value.boolean true)
      (codes "a") (codes "b") a_not_b
