-- ===== src/Engine/Local.antt =====
-- Local writes of packages/core/src/engine.ts: `update`, `delete` and `makeLocalOp`. The readings of the
-- physical clock and the cipher are parameters.
pub mod Stamps
pub mod Made
use tangentfeed.Prelude.{
  ℕ, ◌+◌, ◌%◌, ◌^◌, max, true, not, Option, none, some, List, [], ◌∷◌, Text, Map, text_eqb,
  if◌then◌else◌,
}
use tangentfeed.Errors.{Result, ok, err, ◌>>=◌, ◌>>◌}
use tangentfeed.Values.{Value, boolean, string}
use tangentfeed.Hlc.{Hlc, encode_hlc, now}
use tangentfeed.Signing.{Platform, Bytes, sign_payload}
use tangentfeed.Op.{Op, tombstone_column, validate_op, op_value, signed_payload}
use tangentfeed.Ulid.{ulid}
use tangentfeed.Engine.{local, Cipher, SyncEngine, commit}

module _ (p : Platform) (physical_clock : ℕ → ℕ) (cipher : Option Cipher) where
  -- `this.cipher && column !== TOMBSTONE_COLUMN ? this.cipher.encrypt(value, hlc) : value`
  unfoldable pub stored_value : Text → Value → Text → Value
  stored_value column value hlc = elim cipher [
    | none ↦ value
    | some c ↦
        if not (text_eqb column tombstone_column) then string (c.encrypt value hlc) else value
  ]

  -- The operation that is signed, with the signature in place.
  unfoldable pub signed_op : Text → Text → Text → Value → Text → SyncEngine → Op
  unfolding stored_value
  signed_op table row column value hlc e =
      let unsigned : Op = record {
        id = hlc;
        table = table;
        row = row;
        column = column;
        value = stored_value column value hlc;
        hlc = hlc;
        sig = [];
        device = e.device_id;
      } in
      record unsigned { sig = sign_payload p (signed_payload p unsigned) e.device_key.private_key }

  -- What follows the clock's answer.
  pub checked_op : Text → Text → Text → Value → SyncEngine → Result Hlc → Result Op
  unfolding signed_op
  checked_op table row column value e stamp = do
    h ← stamp
    let op = signed_op table row column value (encode_hlc h) e
    validate_op p (op_value op)
    ok op

  unfoldable pub make_local_op : Text → Text → Text → Value → SyncEngine → Result Op × SyncEngine
  unfolding checked_op
  make_local_op table row column value e =
      let (stamp, clock) = now (physical_clock e.readings) e.clock in
      let e' = record e { clock = clock; readings = e.readings + 1 } in
      (checked_op table row column value e' stamp, e')

  abbrev pub prepend : Op → Result (List Op) → Result (List Op)
  prepend op (ok ops) = ok (op ∷ ops)
  prepend op (err x) = err x

  -- The operations after the first, unless the first throws.
  abbrev pub after_made :
      Result Op → SyncEngine → Result (List Op) × SyncEngine → Result (List Op) × SyncEngine
  after_made (err x) e rest = (err x, e)
  after_made (ok op) e rest = (prepend op rest.0, rest.1)

  -- `Object.entries(values).map(…)`: the first operation that throws ends it.
  unfoldable pub make_local_ops :
      Text → Text → Map Value → SyncEngine → Result (List Op) × SyncEngine
  unfolding make_local_op
  make_local_ops table row [] e = (ok [], e)
  make_local_ops table row ((column, value) ∷ values) e =
      let (made, e') = make_local_op table row column value e in
      let rest = make_local_ops table row values e' in after_made made e' rest

  abbrev pub committed : Result (List Op) × SyncEngine → Result (Unit {0}) × SyncEngine
  committed (ok ops, e) = commit ops local e
  committed (err x, e) = (err x, e)

  unfoldable pub update : Text → Text → Map Value → SyncEngine → Result (Unit {0}) × SyncEngine
  unfolding make_local_ops
  update table row values e = committed (make_local_ops table row values e)

  unfoldable pub delete : Text → Text → SyncEngine → Result (Unit {0}) × SyncEngine
  unfolding make_local_ops
  delete table row e =
      committed (make_local_ops table row ((tombstone_column, boolean true) ∷ []) e)

  -- `insert`: `date` is what `Date.now()` gives; the row's id comes back.
  unfoldable pub insert : ℕ → (ℕ → Bytes) → Text → Map Value → SyncEngine → Result Text × SyncEngine
  unfolding update
  insert date random_bytes table values e =
      elim (ulid (max e.clock.millis date % 2 ^ 48) random_bytes) [
        | err x ↦ (err x, e)
        | ok row ↦ let (done, e') = update table row values e in (done >> ok row, e')
      ]
