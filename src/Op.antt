-- ===== src/Op.antt =====
-- packages/core/src/op.ts: operations, their validation and frontiers.
pub mod Frontiers
pub mod Names
pub mod Valid
use tangentfeed.Prelude.{
  ℕ, zero, suc, ◌+◌, ◌-◌, ◌*◌, Bool, true, false, not, ◌&&◌, ◌||◌, Option, none, some, List, [],
  ◌∷◌, ◌++◌, Text, codes, Map, get, set, text_ltb, text_leb, text_eqb, length, all, ltb, leb, ◌==◌,
  if◌then◌else◌,
}
use tangentfeed.Errors.{
  BadOp, Error, Result, ok, err, bad_op, ◌>>=◌, ◌>>◌, guard, not_an_object, missing_value,
  malformed_hlc, id_not_hlc, device_mismatch, bad_table, bad_column, bad_row, non_finite,
  unsupported_type, op_too_large, not_a_string,
}
use tangentfeed.Values.{
  Value, Items, Fields, null, undefined, boolean, number, string, array, object, other, nil, item,
  end, field, is_finite, property,
}
use tangentfeed.Hlc.{Hlc, decode_hlc}
use tangentfeed.Signing.{Platform, Bytes, signing_domain, canonical_json, verify_payload}

abbrev pub tombstone_column : Text
tombstone_column = codes "-"

abbrev pub max_op_bytes : ℕ
max_op_bytes = 64 * 1024

abbrev pub max_batch_ops : ℕ
max_batch_ops = 1000

pub record Op : Type 0 where
  pub id : Text
  pub table : Text
  pub row : Text
  pub column : Text
  pub value : Value
  pub hlc : Text
  pub sig : Text
  pub device : Text

abbrev pub Frontier : Type 0
Frontier = Map Text

pub is_name_start : ℕ → Bool
is_name_start c = (leb b'a' c && leb c b'z') || (leb b'A' c && leb c b'Z') || c == b'_'

pub is_name_char : ℕ → Bool
unfolding is_name_start
is_name_char c = is_name_start c || (leb b'0' c && leb c b'9')

-- `/^[a-zA-Z_][a-zA-Z0-9_]{0,63}$/`
unfoldable pub is_name : Text → Bool
is_name [] = false
is_name (c ∷ s) = is_name_start c && all is_name_char s && leb (length s) 63

-- `[0-9A-HJKMNP-TV-Z]`
pub is_base32_upper : ℕ → Bool
is_base32_upper c =
    (leb b'0' c && leb c b'9')
    || (leb b'A' c && leb c b'H')
    || c == b'J'
    || c == b'K'
    || c == b'M'
    || c == b'N'
    || (leb b'P' c && leb c b'T')
    || (leb b'V' c && leb c b'Z')

-- The same under the flag `i`, with the lower-case letters.
pub is_base32 : ℕ → Bool
unfolding is_base32_upper
is_base32 c = is_base32_upper c || (leb b'a' c && leb c b'z' && is_base32_upper (c - 32))

-- `/^[0-9A-HJKMNP-TV-Z]{26}$/i`
unfoldable pub is_ulid : Text → Bool
is_ulid s = length s == 26 && all is_base32 s

-- `assertJson`, whose `path` shows only in messages.
unfoldable mutual
  unfolding is_finite

  pub assert_json : Value → Result (Unit {0})
  assert_json null = ok tt
  assert_json (boolean b) = ok tt
  assert_json (string s) = ok tt
  assert_json (number n) = guard (is_finite n) (bad_op non_finite)
  assert_json (array xs) = assert_items xs
  assert_json (object fs) = assert_fields fs
  assert_json undefined = err (bad_op unsupported_type)
  assert_json other = err (bad_op unsupported_type)

  pub assert_items : Items → Result (Unit {0})
  assert_items nil = ok tt
  assert_items (item v xs) = assert_json v >> assert_items xs

  pub assert_fields : Fields → Result (Unit {0})
  assert_fields end = ok tt
  assert_fields (field k v fs) = assert_json v >> assert_fields fs

-- `typeof op === "object" && op !== null`: an array passes, and has none of the properties below.
pub as_object : Value → Result Fields
as_object (object fs) = ok fs
as_object (array xs) = ok end
as_object v = err (bad_op not_an_object)

-- One round of the loop over the field names.
pub string_field : Text → Fields → Result Text
string_field name o = elim (property name o) [
  | some (string s) ↦ ok s
  | _ ↦ err (bad_op (not_a_string name))
]

pub required_value : Fields → Result Value
required_value o = elim (property (codes "value") o) [
  | none ↦ err (bad_op missing_value)
  | some v ↦ ok v
]

-- The loop over the field names, the test for a value, and the destructuring.
pub as_op : Value → Result Op
as_op v = do
  o ← as_object v
  id ← string_field (codes "id") o
  table ← string_field (codes "table") o
  row ← string_field (codes "row") o
  column ← string_field (codes "column") o
  hlc ← string_field (codes "hlc") o
  device ← string_field (codes "device") o
  sig ← string_field (codes "sig") o
  value ← required_value o
  ok (record {
    id = id;
    table = table;
    row = row;
    column = column;
    value = value;
    hlc = hlc;
    sig = sig;
    device = device;
  })

-- `try { decodeHlc(hlc) } catch { … }`
pub decoded_hlc : Text → Result Hlc
decoded_hlc hlc = elim (decode_hlc hlc) [ ok h ↦ ok h | err e ↦ err (bad_op malformed_hlc) ]

-- The tests that follow the loop and the timestamp.
pub check_op : Op → Hlc → Result (Unit {0})
check_op op decoded = do
  guard (text_eqb op.id op.hlc) (bad_op id_not_hlc)
  guard (text_eqb op.device decoded.device_id) (bad_op device_mismatch)
  guard (is_name op.table) (bad_op bad_table)
  guard (text_eqb op.column tombstone_column || is_name op.column) (bad_op bad_column)
  guard (is_ulid op.row) (bad_op bad_row)
  assert_json op.value

-- The object that an operation is, in the order in which the engine builds it.
abbrev pub op_value : Op → Value
op_value op = object (
    field (codes "id") (string op.id) (
      field (codes "table") (string op.table) (
        field (codes "row") (string op.row) (
          field (codes "column") (string op.column) (
            field (codes "value") op.value (
              field (codes "hlc") (string op.hlc) (
                field (codes "device") (string op.device)
                  (field (codes "sig") (string op.sig) end))))))))

module _ (p : Platform) where
  open p use {json_length, utf8}

  -- Returns the operation that the value is asserted to be.
  unfoldable pub validate_op : Value → Result Op
  validate_op v = do
    op ← as_op v
    decoded ← decoded_hlc op.hlc
    check_op op decoded
    guard (not (ltb max_op_bytes (json_length v))) (bad_op op_too_large)
    ok op

  -- Everything but the signature, under its canonical form.
  abbrev unsigned_value : Op → Value
  unsigned_value op = object (
      field (codes "id") (string op.id) (
        field (codes "table") (string op.table) (
          field (codes "row") (string op.row) (
            field (codes "column") (string op.column) (
              field (codes "value") op.value (
                field (codes "hlc") (string op.hlc)
                  (field (codes "device") (string op.device) end)))))))

  unfoldable pub signed_payload : Op → Bytes
  signed_payload op = utf8 (signing_domain ++ canonical_json p (unsigned_value op))

  unfoldable pub verify_op : Op → Bytes → Bool
  verify_op op public_key = verify_payload p (signed_payload op) op.sig public_key

unfoldable pub above_frontier : Op → Frontier → Bool
above_frontier op frontier = elim (get op.device frontier) [
  | none ↦ true
  | some seen ↦ text_ltb seen op.hlc
]

unfoldable pub advance_frontier : Frontier → Op → Frontier
advance_frontier frontier op = elim (get op.device frontier) [
  | none ↦ set op.device op.hlc frontier
  | some seen ↦ if text_leb op.hlc seen then frontier else set op.device op.hlc frontier
]

-- Opened as a whole by the tests that run validation.
unfoldable pub program : Unit {0}
unfolding validate_op as_op as_object string_field required_value decoded_hlc check_op property
    is_name is_ulid is_name_start is_name_char is_base32 is_base32_upper assert_json
program = tt
