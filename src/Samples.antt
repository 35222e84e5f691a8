-- ===== src/Samples.antt =====
-- Concrete data for the tests: a device, operations that it wrote, and a platform whose signatures
-- are constant.
pub mod Sorted
use mathlib.Core.Bool.{false≢true}
use tangentfeed.Prelude.{
  ◌+◌, ◌≢◌, sym, ap, ◌∙◌, subst, eqb_iff, ℕ, ◌≡◌, refl, inl, inr, true, false, some, [], ◌∷◌, arith,
  Text, codes, text_compare, text_eqb, all, Elem, replicate,
}
use tangentfeed.Values.{Value, boolean}
use tangentfeed.Hlc.{Hlc, encode_hlc, is_valid_device_id}
use tangentfeed.Hlc.Codec.{InRange}
use tangentfeed.Signing.{Platform, DeviceKey}
use tangentfeed.Op
use tangentfeed.Op.{Op, Frontier, is_name, is_ulid, assert_json}
use tangentfeed.Op.Valid.{IsValid}
use tangentfeed.Storage.{empty_store}
use tangentfeed.Storage.Keys.{AreParts}
use tangentfeed.Op.Names.{no_sep}
use tangentfeed.Replica.Convergence.{IsDelivery}
use tangentfeed.Engine.{SyncEngine}

abbrev pub device : Text
device = codes "0a0a0a0a0a0a0a0a0a0a0a0a0a0a0a0a"

abbrev pub early : Hlc
early = record { millis = 5; counter = 1; device_id = device }

abbrev pub late : Hlc
late = record { millis = 6; counter = 0; device_id = device }

abbrev pub early_text : Text
early_text = codes "000000000005-0001-0a0a0a0a0a0a0a0a0a0a0a0a0a0a0a0a"

abbrev pub late_text : Text
late_text = codes "000000000006-0000-0a0a0a0a0a0a0a0a0a0a0a0a0a0a0a0a"

abbrev pub row : Text
row = codes "01ARZ3NDEKTSV4RRFFQ69G5FAV"

-- Sixty-four letters.
abbrev pub signature : Text
signature = replicate 64 b'A'

abbrev pub op_at : Text → Value → Op
op_at stamp value = record {
  id = stamp;
  table = codes "todos";
  row = row;
  column = codes "done";
  value = value;
  hlc = stamp;
  sig = signature;
  device = device;
}

abbrev pub first_op : Op
first_op = op_at early_text (boolean false)

abbrev pub second_op : Op
second_op = op_at late_text (boolean true)

-- A platform that knows one signature; it hashes to the bytes of `device`.
abbrev pub platform : Platform
platform = record {
  stringify = λ v. [];
  json_length = λ v. 300;
  utf8 = λ s. s;
  sha256 = λ b. replicate 16 10;
  ed25519_sign = λ payload key. signature;
  ed25519_verify = λ sig payload key. some (text_eqb sig signature);
  btoa = λ b. b;
  atob = λ s. some s;
}

abbrev pub device_key : DeviceKey
device_key = record { public_key = 1 ∷ []; private_key = 2 ∷ [] }

abbrev pub engine : SyncEngine
engine = record {
  device_id = device;
  storage = empty_store;
  clock = record { millis = 0; counter = 0; device_id = device };
  device_key = device_key;
  keys = (device, 1 ∷ []) ∷ [];
  subscribers = [];
  readings = 0;
}

abbrev pub physical_clock : ℕ → ℕ
physical_clock n = 10 + n

pub device-valid : is_valid_device_id device ≡ true
unfolding is_valid_device_id all
device-valid = refl

pub early-InRange : InRange early
early-InRange = record {
  millis_fits = omega arith;
  counter_fits = omega arith;
  device_valid = device-valid;
}

pub late-InRange : InRange late
late-InRange = record {
  millis_fits = omega arith;
  counter_fits = omega arith;
  device_valid = device-valid;
}

encode-early : encode_hlc early ≡ early_text
unfolding encode_hlc
encode-early = refl

encode-late : encode_hlc late ≡ late_text
unfolding encode_hlc
encode-late = refl

pub first_op-IsValid : IsValid first_op
unfolding Op.program all
first_op-IsValid = record {
  id_hlc = refl;
  stamped = record {
    stamp = early;
    in_range = early-InRange;
    encoded = encode-early;
    by_device = refl;
  };
  table_name = refl;
  column_name = inr refl;
  row_ulid = refl;
  json_value = refl;
}

pub second_op-IsValid : IsValid second_op
unfolding Op.program all
second_op-IsValid = record {
  id_hlc = refl;
  stamped = record {
    stamp = late;
    in_range = late-InRange;
    encoded = encode-late;
    by_device = refl;
  };
  table_name = refl;
  column_name = inr refl;
  row_ulid = refl;
  json_value = refl;
}

pub cell-AreParts : AreParts first_op.table first_op.row first_op.column
unfolding no_sep all
cell-AreParts = record { table_part = refl; row_part = refl; column_part = refl }

stamps_apart : text_eqb early_text late_text ≡ false
unfolding text_compare
stamps_apart = refl

pub stamps-ne : early_text ≢ late_text
stamps-ne e = let same = (eqb_iff early_text late_text).1 e in false≢true (sym stamps_apart ∙ same)

pub pair-IsDelivery : (a b : Op) → IsValid a → IsValid b → a.id ≢ b.id → IsDelivery (a ∷ b ∷ [])
pair-IsDelivery a b va vb ne = record { valid = valid; one_each = one_each }
  where
    valid : (x : Op) → Elem x (a ∷ b ∷ []) → IsValid x
    valid x (inl e) = subst IsValid (sym e) va
    valid x (inr (inl e)) = subst IsValid (sym e) vb
    valid x (inr (inr n)) = absurd n

    one_each : (x y : Op) → Elem x (a ∷ b ∷ []) → Elem y (a ∷ b ∷ []) → x.id ≡ y.id → x ≡ y
    one_each x y (inl e) (inl f) q = e ∙ sym f
    one_each x y (inr (inl e)) (inr (inl f)) q = e ∙ sym f
    one_each x y (inl e) (inr (inl f)) q =
        absurd (ne (sym (ap (λ (o : Op). o.id) e) ∙ q ∙ ap (λ (o : Op). o.id) f))
    one_each x y (inr (inl e)) (inl f) q =
        absurd (ne (sym (ap (λ (o : Op). o.id) f) ∙ sym q ∙ ap (λ (o : Op). o.id) e))
    one_each x y (inr (inr n)) f q = absurd n
    one_each x y e (inr (inr n)) q = absurd n
