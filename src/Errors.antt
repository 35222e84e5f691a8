-- ===== src/Errors.antt =====
-- The errors that packages/core/src and packages/schema/src throw, and the results of code that may throw. An error keeps
-- its class and what code can tell apart; of a message only the case is kept.
pub mod Schemas
use tangentfeed.Prelude.{if◌then◌else◌, arith, ℕ, Text, ◌≡◌, refl, ◌⊎◌, inl, inr, Bool, true}
use Schemas.{SchemaError}

-- The cases of `BadOpError` in op.ts and engine.ts.
pub data BadOp : Type 0 where
  not_an_object missing_value malformed_hlc id_not_hlc device_mismatch : BadOp
  bad_table bad_column bad_row non_finite unsupported_type op_too_large : BadOp
  batch_too_large unknown_device bad_signature : BadOp
  not_a_string : Text → BadOp

-- The cases of `DecryptError` in packages/crypto/src/index.ts.
pub data DecryptFault : Type 0 where
  not_base64 too_short not_authentic not_json : DecryptFault

pub data Error : Type 0 where
  clock_drift : ℕ → ℕ → Error
  bad_op : BadOp → Error
  schema_error : SchemaError → Error
  millis_out_of_range invalid_device_id malformed_hlc_string ulid_time secret_too_short : Error
  decrypt_error : DecryptFault → Error
  no_indexeddb : Error
  unknown_storage : Text → Error

-- What code that may throw gives.
pub data Result {κ} (V : Type κ) : Type κ where
  ok : V → Result V
  err : Error → Result V

-- Which of the two a computed result is.
pub Result-cases {κ} :
    {V : Type κ} (r : Result V) → ((x : Error) × (r ≡ err x)) ⊎ ((v : V) × (r ≡ ok v))
Result-cases (ok v) = inr (v, refl)
Result-cases (err x) = inl (x, refl)

-- `if (!test) throw x`
abbrev pub guard : Bool → Error → Result (Unit {0})
guard test x = if test then ok tt else err x

-- A test that has not thrown has passed.
pub guard-eq-ok : (test : Bool) (x : Error) {u : Unit {0}} → guard test x ≡ ok u → test ≡ true
guard-eq-ok test x h = ground arith

-- One statement after the other: what has thrown skips the rest.
infixl 5 ◌>>=◌ ◌>>◌
abbrev pub ◌>>=◌ {κ μ} : {V : Type κ} {W : Type μ} → Result V → (V → Result W) → Result W
err x >>= rest = err x
ok v >>= rest = rest v

abbrev pub ◌>>◌ {κ μ} : {V : Type κ} {W : Type μ} → Result V → Result W → Result W
first >> rest = first >>= λ v. rest

-- Code that has not thrown has a first part that has not thrown, and a rest that has not.
pub >>=-eq-ok {κ μ} :
    {V : Type κ} {W : Type μ} (first : Result V) (rest : V → Result W) {w : W}
    → (first >>= rest) ≡ ok w
    → (v : V) × (first ≡ ok v) × (rest v ≡ ok w)
>>=-eq-ok (err x) rest h = cc
>>=-eq-ok (ok v) rest h = (v, refl, h)
