-- ===== src/Engine/Local/Made.antt =====
-- What the operations that a local write of packages/core/src/engine.ts makes are, one for each value.
use tangentfeed.Prelude.{
  ℕ, ◌+◌, has, ◌≡◌, refl, sym, ap, ◌∙◌, subst, inl, inr, true, false, Option, some, List, [], ◌∷◌,
  arith, Text, text_eqb, Map, get, Elem, IsUnique, get_of_Elem, Bool-cases, eqb_iff,
}
use tangentfeed.Errors.{ok, Result-cases}
use tangentfeed.Values.{Value}
use tangentfeed.Signing.{Platform}
use tangentfeed.Hlc.{now}
use tangentfeed.Op.{Op}
use tangentfeed.Engine.{SyncEngine, Cipher}
use tangentfeed.Engine.Local.{make_local_op, make_local_ops, stored_value, signed_op}
use tangentfeed.Engine.Local.Stamps.{checked_op-eq-ok}

-- An operation writes an entry of the values.
pub record IsFrom (p : Platform) (physical_clock : ℕ → ℕ) (cipher : Option Cipher)
    (table row : Text) (values : Map Value) (op : Op) : Type 0 where
  pub value : Value
  pub entry : Elem (op.column, value) values
  pub in_table : op.table ≡ table
  pub in_row : op.row ≡ row
  pub stored : op.value ≡ stored_value p physical_clock cipher op.column value op.hlc

module _ (p : Platform) (physical_clock : ℕ → ℕ) (cipher : Option Cipher) (table row : Text) where
  made-IsFrom :
      (column : Text) (value : Value) (values : Map Value) (e e' : SyncEngine) (op : Op)
      → make_local_op p physical_clock cipher table row column value e ≡ (ok op, e')
      → IsFrom p physical_clock cipher table row ((column, value) ∷ values) op
  unfolding make_local_op signed_op
  made-IsFrom column value values e e' op q =
      let a = now (physical_clock e.readings) e.clock in
      let e1 : SyncEngine = record e { clock = a.1; readings = e.readings + 1 } in
      let (h, at, valid, same) =
        checked_op-eq-ok p physical_clock cipher table row column value e1 a.0 op
          (ap (λ r. r.0) q) in
      subst (IsFrom p physical_clock cipher table row ((column, value) ∷ values)) (sym same)
        (record { value = value; entry = inl refl; in_table = refl; in_row = refl; stored = refl })

  later-IsFrom :
      (column : Text) (value : Value) (values : Map Value) (op : Op)
      → IsFrom p physical_clock cipher table row values op
      → IsFrom p physical_clock cipher table row ((column, value) ∷ values) op
  later-IsFrom column value values op f = record {
    value = f.value;
    entry = inr f.entry;
    in_table = f.in_table;
    in_row = f.in_row;
    stored = f.stored;
  }

  -- Each operation of a write writes one of its values, in its table and row.
  pub make_local_ops-IsFrom :
      (values : Map Value) (e : SyncEngine) (ops : List Op)
      → (make_local_ops p physical_clock cipher table row values e).0 ≡ ok ops
      → (x : Op) → Elem x ops
      → IsFrom p physical_clock cipher table row values x
  unfolding make_local_ops
  make_local_ops-IsFrom [] e ops h x i =
      let same : [] ≡ ops = ground arith in absurd (subst (Elem x) (sym same) i)
  make_local_ops-IsFrom ((column, value) ∷ values) e ops h x i =
      let e1 = (make_local_op p physical_clock cipher table row column value e).1 in
      elim (Result-cases (make_local_op p physical_clock cipher table row column value e).0) [
        | inl (y, q) ↦ absurd (ground arith)
        | inr (op, q) ↦
            elim (Result-cases (make_local_ops p physical_clock cipher table row values e1).0) [
              | inl (y, r) ↦ absurd (ground arith)
              | inr (os, r) ↦
                  let same : op ∷ os ≡ ops = ground arith in
                  elim (subst (Elem x) (sym same) i) [
                    | inl z ↦
                        subst (IsFrom p physical_clock cipher table row ((column, value) ∷ values))
                          (sym z) (made-IsFrom column value values e e1 op (ap (λ a. (a, e1)) q))
                    | inr j ↦
                        later-IsFrom column value values x
                          (make_local_ops-IsFrom values e1 os r x j)
                  ]
            ]
      ]

module _ (p : Platform) (physical_clock : ℕ → ℕ) (cipher : Option Cipher) (table row : Text) where
  made_column :
      (column : Text) (value : Value) (e : SyncEngine) (op : Op)
      → (make_local_op p physical_clock cipher table row column value e).0 ≡ ok op
      → op.column ≡ column
  unfolding make_local_op signed_op
  made_column column value e op q =
      let a = now (physical_clock e.readings) e.clock in
      let e1 : SyncEngine = record e { clock = a.1; readings = e.readings + 1 } in
      let (h, at, valid, same) =
        checked_op-eq-ok p physical_clock cipher table row column value e1 a.0 op q in
      ap (λ (o : Op). o.column) same

  -- Each value of a write is written by an operation.
  pub make_local_ops-covers :
      (values : Map Value) (e : SyncEngine) (ops : List Op)
      → (make_local_ops p physical_clock cipher table row values e).0 ≡ ok ops
      → (c : Text) → has c values ≡ true
      → (x : Op) × Elem x ops × (x.column ≡ c)
  unfolding make_local_ops get
  make_local_ops-covers [] e ops h c given = absurd (ground arith)
  make_local_ops-covers ((column, value) ∷ values) e ops h c given =
      let e1 = (make_local_op p physical_clock cipher table row column value e).1 in
      elim (Result-cases (make_local_op p physical_clock cipher table row column value e).0) [
        | inl (y, q) ↦ absurd (ground arith)
        | inr (op, q) ↦
            elim (Result-cases (make_local_ops p physical_clock cipher table row values e1).0) [
              | inl (y, r) ↦ absurd (ground arith)
              | inr (os, r) ↦
                  let same : op ∷ os ≡ ops = ground arith in
                  elim (Bool-cases (text_eqb column c)) [
                    | inl here ↦ (
                      op,
                      subst (Elem op) same (inl refl),
                      made_column column value e op q ∙ (eqb_iff column c).0 here,
                    )
                    | inr there ↦
                        let (x, i, at) =
                          make_local_ops-covers values e1 os r c (rw there at given) in
                        (x, subst (Elem x) same (inr i), at)
                  ]
            ]
      ]

  -- A write makes one operation for a column, when its values have the column once.
  pub make_local_ops-distinct :
      (values : Map Value) (e : SyncEngine) (ops : List Op)
      → IsUnique values
      → (make_local_ops p physical_clock cipher table row values e).0 ≡ ok ops
      → (x y : Op) → Elem x ops
      → Elem y ops
      → x.column ≡ y.column
      → x ≡ y
  unfolding make_local_ops
  make_local_ops-distinct [] e ops u h x y i j q =
      let same : [] ≡ ops = ground arith in absurd (subst (Elem x) (sym same) i)
  make_local_ops-distinct ((column, value) ∷ values) e ops u h x y i j q =
      let e1 = (make_local_op p physical_clock cipher table row column value e).1 in
      elim (Result-cases (make_local_op p physical_clock cipher table row column value e).0) [
        | inl (z, r) ↦ absurd (ground arith)
        | inr (op, r) ↦
            elim (Result-cases (make_local_ops p physical_clock cipher table row values e1).0) [
              | inl (z, t) ↦ absurd (ground arith)
              | inr (os, t) ↦
                  let same : op ∷ os ≡ ops = ground arith in
                  let head = made_column column value e op r in
                  elim (subst (Elem x) (sym same) i) [
                    | inl a ↦ elim (subst (Elem y) (sym same) j) [
                      | inl b ↦ a ∙ sym b
                      | inr n ↦ absurd (
                          not_again values e1 os column u t y n
                            (sym q ∙ ap (λ (o : Op). o.column) a ∙ head))
                    ]
                    | inr m ↦ elim (subst (Elem y) (sym same) j) [
                      | inl b ↦ absurd (
                          not_again values e1 os column u t x m
                            (q ∙ ap (λ (o : Op). o.column) b ∙ head))
                      | inr n ↦ make_local_ops-distinct values e1 os u.1 t x y m n q
                    ]
                  ]
            ]
      ]
    where
      not_again :
          (values : Map Value) (e : SyncEngine) (os : List Op) (column : Text)
          → (has column values ≡ false) × IsUnique values
          → (make_local_ops p physical_clock cipher table row values e).0 ≡ ok os
          → (z : Op) → Elem z os
          → z.column ≡ column
          → ⊥
      not_again values e os column u t z n q =
          let f = make_local_ops-IsFrom p physical_clock cipher table row values e os t z n in
          let found : get z.column values ≡ some f.value =
            get_of_Elem z.column f.value values u.1 f.entry in
          let found' : get column values ≡ some f.value = ap (λ c. get c values) (sym q) ∙ found in
          ground (arith, u.0)

  -- Making operations moves the clock alone.
  pub make_local_ops-kept :
      (values : Map Value) (e : SyncEngine)
      → ((make_local_ops p physical_clock cipher table row values e).1.storage ≡ e.storage)
        × ((make_local_ops p physical_clock cipher table row values e).1.subscribers
            ≡ e.subscribers)
  unfolding make_local_ops make_local_op
  make_local_ops-kept [] e = (refl, refl)
  make_local_ops-kept ((column, value) ∷ values) e =
      let e1 = (make_local_op p physical_clock cipher table row column value e).1 in
      let rest = make_local_ops-kept values e1 in
      elim (Result-cases (make_local_op p physical_clock cipher table row column value e).0) [
        | inl (y, q) ↦ (ground (arith, rest.0), ground (arith, rest.1))
        | inr (op, q) ↦ (ground (arith, rest.0), ground (arith, rest.1))
      ]
