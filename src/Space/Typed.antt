-- ===== src/Space/Typed.antt =====
-- That what is written through the schema of packages/tangentfeed/src/index.ts is typed.
use tangentfeed.Prelude.{
  ℕ, has, ◌≡◌, refl, sym, ap, ◌∙◌, inl, inr, true, false, Option, none, some, List, arith, is_some,
  Text, text_eqb, Map, get, Elem, IsUnique, get_of_Elem,
}
use tangentfeed.Errors.{Result, ok, err, Result-cases}
use tangentfeed.Values.{Value}
use tangentfeed.Signing.{Platform}
use tangentfeed.Hlc.{now}
use tangentfeed.Op.{Op}
use tangentfeed.Schema.{Field, Shape, Schema, own_field}
use tangentfeed.Schema.Check.{Host}
use tangentfeed.Schema.Check.Typing.{HasType}
use tangentfeed.Schema.Validate.{validate_update, proto}
use tangentfeed.Schema.Validate.Writes.{
  get-validate_update, validate_update-IsUnique, has-validate_update,
}
use tangentfeed.Engine.{SyncEngine, Cipher, local, commit}
use tangentfeed.Space
use tangentfeed.Space.{after_check}
use tangentfeed.Engine.Local.{make_local_ops, committed, update, stored_value}
use tangentfeed.Engine.Local.Made.{
  make_local_ops-IsFrom, make_local_ops-covers, make_local_ops-distinct, make_local_ops-kept,
}

-- What an operation through a schema writes: its column is declared, and its value, before it is encrypted, is
-- one that the column's field describes.
pub record IsTyped (host : Host) (s : Shape) (p : Platform) (physical_clock : ℕ → ℕ)
    (cipher : Option Cipher) (op : Op) : Type 0 where
  pub field : Field
  pub value : Value
  pub is_declared : own_field op.column s ≡ some field
  pub described : HasType host field value
  pub stored : op.value ≡ stored_value p physical_clock cipher op.column value op.hlc

module _ (host : Host) (schema : Schema) (p : Platform) (physical_clock : ℕ → ℕ)
    (cipher : Option Cipher) (table row : Text) where
  committed-eq-ok :
      (r : Result (List Op) × SyncEngine) (e' : SyncEngine)
      → committed p physical_clock cipher r ≡ (ok tt, e')
      → (ops : List Op) × (r.0 ≡ ok ops) × (commit ops local r.1 ≡ (ok tt, e'))
  committed-eq-ok (ok ops, e) e' h = (ops, refl, h)
  committed-eq-ok (err x, e) e' h = absurd (ground arith)

  -- An update of a declared table through a schema that succeeds is one commit, of operations of its table and row
  -- alone, each in a declared column and with a value that the column's field describes, and exactly one for each
  -- column that is given; before it the store and the subscribers are what they were. No column is __proto__ or
  -- inherited by every object, and none is given twice.
  pub update-IsTyped :
      (s : Shape) (values : Map Value) (e e' : SyncEngine)
      → get table schema ≡ some s
      → IsUnique values
      → ((c : Text) → has c values ≡ true → (text_eqb c proto ≡ false) × (host.inherited c ≡ none))
      → Space.update host (some schema) p physical_clock cipher table row values e ≡ (ok tt, e')
      → (ops : List Op) × (e1 : SyncEngine) × ((e1.storage ≡ e.storage)
          × (e1.subscribers ≡ e.subscribers))
        × (commit ops local e1 ≡ (ok tt, e'))
        × ((x : Op)
            → Elem x ops
            → (x.table ≡ table) × (x.row ≡ row) × IsTyped host s p physical_clock cipher x)
        × ((c : Text) → has c values ≡ true → (x : Op) × Elem x ops × (x.column ≡ c))
        × ((x y : Op) → Elem x ops → Elem y ops → x.column ≡ y.column → x ≡ y)
  unfolding Space.update Space.update_values update
  update-IsTyped s values e e' at unique plain h =
      elim (Result-cases (validate_update host schema table values)) [
        | inl (x, q) ↦ absurd (ground arith)
        | inr (out, q) ↦
            let made = make_local_ops p physical_clock cipher table row out e in
            let (ops, done, now) = committed-eq-ok made e' (
              ap (λ o. after_check o (λ out e. update p physical_clock cipher table row out e) e)
                (sym q)
              ∙ h) in
            (
              ops,
              made.1,
              make_local_ops-kept p physical_clock cipher table row out e,
              now,
              λ x i.
                  let f =
                    make_local_ops-IsFrom p physical_clock cipher table row out e ops done x i in
                  let found : get x.column out ≡ some f.value =
                    get_of_Elem x.column f.value out
                      (validate_update-IsUnique host schema table values out q) f.entry in
                  let given =
                    has-validate_update host schema table x.column values out q
                      (ap is_some found) in
                  let (usual, own) = plain x.column given in
                  let (some_given, same, typed) =
                    get-validate_update host s table x.column usual own schema values out at unique
                      q in
                  let (column_field, declared, described) = typed f.value (sym same ∙ found) in
                  (
                    f.in_table,
                    f.in_row,
                    record {
                      field = column_field;
                      value = f.value;
                      is_declared = declared;
                      described = described;
                      stored = f.stored;
                    },
                  ),
              λ c given.
                  let (usual, own) = plain c given in
                  let (some_given, same, typed) =
                    get-validate_update host s table c usual own schema values out at unique q in
                  make_local_ops-covers p physical_clock cipher table row out e ops done c
                    (ap is_some same ∙ given),
              make_local_ops-distinct p physical_clock cipher table row out e ops
                  (validate_update-IsUnique host schema table values out q) done,
            )
      ]
