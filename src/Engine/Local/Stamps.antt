-- ===== src/Engine/Local/Stamps.antt =====
-- `makeLocalOp` of packages/core/src/engine.ts: what it writes into an operation, and what it leaves alone.
use tangentfeed.Prelude.{◌≡◌, refl, sym, ap, ◌∙◌, subst, ℕ, ◌+◌, Option, Ordering, arith, Text}
use tangentfeed.Errors.{Result, ok, >>=-eq-ok}
use tangentfeed.Values.{Value}
use tangentfeed.Hlc.{Hlc, encode_hlc, compare_hlc, now}
use tangentfeed.Hlc.Ticks.{now_increases}
use tangentfeed.Signing.{Platform, sign_payload}
use tangentfeed.Op.{Op, op_value, validate_op, signed_payload}
use tangentfeed.Op.Valid.{IsValid, as_op-op_value, validate_op-IsValid}
use tangentfeed.Engine.{SyncEngine, Cipher}
use tangentfeed.Engine.Local.{make_local_op, checked_op, signed_op}

-- An operation that an engine has made, for the engine's new state.
pub record IsMade (p : Platform) (e e' : SyncEngine) (op : Op) : Type 0 where
  pub valid : IsValid op
  pub stamped : op.hlc ≡ encode_hlc e'.clock
  pub later : compare_hlc e.clock e'.clock ≡ Ordering.lt
  pub own : op.device ≡ e.device_id
  pub signed : op.sig ≡ sign_payload p (signed_payload p op) e.device_key.private_key
  pub stored : e'.storage ≡ e.storage

ok_injective : (a b : Op) → ok a ≡ ok b → a ≡ b
ok_injective a b h = ground arith

module _ (p : Platform) (physical_clock : ℕ → ℕ) (cipher : Option Cipher) (table row column : Text)
    (value : Value) where
  pub checked_op-eq-ok :
      (e : SyncEngine) (stamp : Result Hlc) (op : Op)
      → checked_op p physical_clock cipher table row column value e stamp ≡ ok op
      → (h : Hlc) × (stamp ≡ ok h)
        × IsValid op
        × (op ≡ signed_op p physical_clock cipher table row column value (encode_hlc h) e)
  unfolding checked_op
  checked_op-eq-ok e stamp op q =
      let (h, at, rest) = >>=-eq-ok stamp _ q in
      let made = signed_op p physical_clock cipher table row column value (encode_hlc h) e in
      let (found, valid, same) = >>=-eq-ok (validate_op p (op_value made)) _ rest in
      let (parsed, v, small) = validate_op-IsValid p (op_value made) found valid in
      let q' : found ≡ made = sym (ok_injective _ _ (sym (as_op-op_value made) ∙ parsed)) in
      let q'' : made ≡ op = ok_injective _ _ same in (h, at, subst IsValid (q' ∙ q'') v, sym q'')

  -- An operation that is made is valid, carries the engine's device and a signature with its key over
  -- the operation, and has as its timestamp the clock's new state, which is greater than the old one;
  -- the store is left alone.
  pub make_local_op-IsMade :
      (e e' : SyncEngine) (op : Op)
      → make_local_op p physical_clock cipher table row column value e ≡ (ok op, e')
      → IsMade p e e' op
  unfolding make_local_op signed_op signed_payload
  make_local_op-IsMade e e' op q =
      let a = now (physical_clock e.readings) e.clock in
      let e1 = record e { clock = a.1; readings = e.readings + 1 } in
      let (h, at, valid, same) = checked_op-eq-ok e1 a.0 op (ap (λ r. r.0) q) in
      let (new, later, device) =
        now_increases (physical_clock e.readings) e.clock h a.1 (ap (λ r. (r, a.1)) at) in
      subst (λ x. IsMade p e x op) (ap (λ r. r.1) q)
        (record {
          valid = valid;
          stamped = ap (λ o. o.hlc) same ∙ ap encode_hlc new;
          later = subst (λ g. compare_hlc e.clock g ≡ Ordering.lt) new later;
          own = ap (λ o. o.device) same;
          signed =
              subst
                (λ (o : Op). o.sig ≡ sign_payload p (signed_payload p o) e.device_key.private_key)
                (sym same) refl;
          stored = refl;
        })
