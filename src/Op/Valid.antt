-- ===== src/Op/Valid.antt =====
-- What `validateOp` of packages/core/src/op.ts accepts.
use tangentfeed.Prelude.{
  ◌≤◌, ◌≡◌, refl, sym, ◌⊎◌, ◌↔◌, true, not, arith, Text, eqb_iff, text_compare, ltb,
}
use tangentfeed.Errors.{ok, bad_op, ◌>>=◌, ◌>>◌, guard, >>=-eq-ok, guard-eq-ok, op_too_large}
use tangentfeed.Values.{Value, property}
use tangentfeed.Hlc.{Hlc, decode_hlc, encode_hlc}
use tangentfeed.Hlc.Codec.{InRange, encode_hlc-decode_hlc, decode_hlc-encode_hlc}
use tangentfeed.Signing.{Platform}
use tangentfeed.Op.{
  Op, tombstone_column, max_op_bytes, is_name, is_ulid, assert_json, as_op, as_object, string_field,
  required_value, decoded_hlc, check_op, validate_op, op_value,
}

-- The timestamp of an operation, as the clock that wrote it had it.
pub record IsStamp (s device : Text) : Type 0 where
  pub stamp : Hlc
  pub in_range : InRange stamp
  pub encoded : encode_hlc stamp ≡ s
  pub by_device : stamp.device_id ≡ device

pub record IsValid (op : Op) : Type 0 where
  pub id_hlc : op.id ≡ op.hlc
  pub stamped : IsStamp op.hlc op.device
  pub table_name : is_name op.table ≡ true
  pub column_name : (op.column ≡ tombstone_column) ⊎ (is_name op.column ≡ true)
  pub row_ulid : is_ulid op.row ≡ true
  pub json_value : assert_json op.value ≡ ok tt

decoded-IsStamp :
    (s device : Text) (h : Hlc) → decoded_hlc s ≡ ok h → device ≡ h.device_id → IsStamp s device
unfolding decoded_hlc
decoded-IsStamp s device h d e =
    let (r, c) = encode_hlc-decode_hlc s h (ground arith) in
    record { stamp = h; in_range = r; encoded = c; by_device = sym e }

check_op-IsValid :
    (op : Op) (h : Hlc) → decoded_hlc op.hlc ≡ ok h → check_op op h ≡ ok tt → IsValid op
unfolding check_op
check_op-IsValid op h d c =
    let device : op.device ≡ h.device_id = ground (arith, eqb_iff op.device h.device_id) in
    record {
      id_hlc = ground (arith, eqb_iff op.id op.hlc);
      stamped = decoded-IsStamp op.hlc op.device h d device;
      table_name = ground arith;
      column_name = ground (arith, eqb_iff op.column tombstone_column);
      row_ulid = ground arith;
      json_value = ground arith;
    }

decoded_of : (s : Text) (h : Hlc) → decode_hlc s ≡ ok h → decoded_hlc s ≡ ok h
unfolding decoded_hlc
decoded_of s h e = ground arith

IsValid-check_op :
    (op : Op) → IsValid op → (h : Hlc) × (decoded_hlc op.hlc ≡ ok h) × (check_op op h ≡ ok tt)
unfolding check_op
IsValid-check_op op v = (
  v.stamped.stamp,
  decoded_of op.hlc v.stamped.stamp
      (rw (← v.stamped.encoded) (decode_hlc-encode_hlc v.stamped.stamp v.stamped.in_range)),
  ground (
    arith,
    v,
    eqb_iff op.id op.hlc,
    eqb_iff op.device v.stamped.stamp.device_id,
    eqb_iff op.column tombstone_column,
  ),
)

pub as_op-op_value : (op : Op) → as_op (op_value op) ≡ ok op
unfolding as_op as_object string_field required_value property text_compare
as_op-op_value op = refl

module _ (p : Platform) where
  open p use {json_length}

  -- What follows the destructuring.
  accepted :
      (v : Value) (op' op : Op)
      → (do
        decoded ← decoded_hlc op'.hlc
        check_op op' decoded
        guard (not (ltb max_op_bytes (json_length v))) (bad_op op_too_large)
        ok op')
        ≡ ok op
      → (op' ≡ op) × IsValid op' × (json_length v ≤ max_op_bytes)
  accepted v op' op h =
      let (decoded, stamp, rest) = >>=-eq-ok (decoded_hlc op'.hlc) _ h in
      let (u, checked, rest') = >>=-eq-ok (check_op op' decoded) _ rest in
      let (w, small, same) =
        >>=-eq-ok (guard (not (ltb max_op_bytes (json_length v))) (bad_op op_too_large)) _ rest' in
      (cc, check_op-IsValid op' decoded stamp checked, ground (arith, guard-eq-ok _ _ small))

  -- An accepted value is the operation that it was taken for, a valid one, and not too large.
  pub validate_op-IsValid :
      (v : Value) (op : Op)
      → validate_op p v ≡ ok op
      → (as_op v ≡ ok op) × IsValid op × (json_length v ≤ max_op_bytes)
  unfolding validate_op
  validate_op-IsValid v op h =
      let (op', parsed, rest) = >>=-eq-ok (as_op v) _ h in
      let (same, valid, small) = accepted v op' op rest in
      (rw (← same) parsed, rw (← same) valid, small)

  -- The value of an operation is accepted, as that operation, exactly if the operation is valid and
  -- its serialised length is within the limit.
  pub validate_op-op_value :
      (op : Op)
      → (validate_op p (op_value op) ≡ ok op)
        ↔ (IsValid op × (json_length (op_value op) ≤ max_op_bytes))
  unfolding validate_op
  validate_op-op_value op = (
    λ h. let (same, valid, small) = validate_op-IsValid (op_value op) op h in (valid, small),
    λ h.
        let (decoded, stamp, checked) = IsValid-check_op op h.0 in
        rw (as_op-op_value op, stamp, checked) (ground arith),
  )
