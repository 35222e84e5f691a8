-- ===== src/Idb/Listing.antt =====
-- What the adapter of packages/adapter-idb/src/index.ts reads of the log is what the one in memory reads.
use tangentfeed.Prelude.{
  ◌≡◌, refl, sym, ◌∙◌, subst, ◌↔◌, inl, inr, Bool, true, none, some, [], ◌∷◌, arith, Text, text_ltb,
  Map, get, values, IsUnique, Elem-of_get, All, Elem, Elem-filter, Elem-filter_inv, filter,
  Bool-cases,
}
use tangentfeed.Op.{Op, Frontier, above_frontier}
use tangentfeed.Storage
use tangentfeed.Storage.{MemoryAdapter}
use tangentfeed.Storage.Listing.{Elem-values, values_of_Elem, Elem-ops_since}
use tangentfeed.Storage.Strict.{IsStrict, IsKeyed, All_of_Elem, eq_of_same_Elem, ops_since-IsStrict}
use tangentfeed.Idb
use tangentfeed.Idb.{Factory, IdbAdapter}
use tangentfeed.Idb.Documented.{AreDocumented, IsKeyOrdered}
use tangentfeed.Idb.Writes.{Agrees}

All-entries : (P : Text × Op → Type 0) (m : Map Op) (e : Text × Op) → All P m → Elem e m → P e
All-entries P [] e a i = absurd i
All-entries P (x ∷ m) e a (inl q) = subst P (sym q) a.0
All-entries P (x ∷ m) e a (inr i) = All-entries P m e a.1 i

-- The operations of a cursor's records are in strict order, as the records are.
values-IsStrict :
    (p : Op → Bool) (m : Map Op) → IsKeyOrdered m → IsKeyed m → IsStrict (filter p (values m))
unfolding filter
values-IsStrict p [] o k = tt
values-IsStrict p ((j, v) ∷ m) o k =
    let rest = values-IsStrict p m o.1 (λ i op e. k i op (inr e)) in
    elim (Bool-cases (p v)) [
      | inr h ↦ rw h rest
      | inl h ↦ rw h (
        All_of_Elem (λ y. text_ltb v.hlc y.hlc ≡ true) (filter p (values m))
            (λ y e.
              let (i, at) = Elem-values y m (Elem-filter_inv p y (values m) e).0 in
              let here = k j v (inl refl) in
              let there = k i y (inr at) in
              let above = All-entries (λ z. text_ltb j z.0 ≡ true) m (i, y) o.0 at in ground arith),
        rest,
      )
    ]

module _ (factory : Factory) (laws : AreDocumented factory) (db : IdbAdapter factory)
    (st : MemoryAdapter) (same : Agrees factory laws db st) (unique : IsUnique st.ops_by_id)
    (keyed : IsKeyed st.ops_by_id) where
  record_at :
      (k : Text) (op : Op)
      → Elem (k, op) (factory.ops.cursor none db.ops) ↔ (get k st.ops_by_id ≡ some op)
  record_at k op =
      let seen = laws.ops_store.visits none k op db.ops in
      (λ e. sym (same.same_ops k) ∙ (seen.0 e).0, λ at. seen.1 (same.same_ops k ∙ at, refl))

  cursor-IsKeyed : IsKeyed (factory.ops.cursor none db.ops)
  cursor-IsKeyed k op e = keyed k op (Elem-of_get k op st.ops_by_id ((record_at k op).0 e))

  -- A database that holds what an adapter in memory does returns the same operations above a frontier in the
  -- same order, when each is logged once, under its own timestamp.
  pub ops_since-Agrees : (f : Frontier) → Idb.ops_since factory f db ≡ Storage.ops_since f st
  unfolding Idb.ops_since
  ops_since-Agrees f =
      let p = λ (op : Op). above_frontier op f in
      let entries = factory.ops.cursor none db.ops in
      eq_of_same_Elem (filter p (values entries)) (Storage.ops_since f st)
        (values-IsStrict p entries (laws.ops_store.ordered none db.ops) cursor-IsKeyed)
        (ops_since-IsStrict f st unique keyed)
        (λ x. (
          λ e.
              let (m, above) = Elem-filter_inv p x (values entries) e in
              let (k, at) = Elem-values x entries m in
              (Elem-ops_since f st x unique).1 ((k, (record_at k x).0 at), above),
          λ e.
              let ((k, at), above) = (Elem-ops_since f st x unique).0 e in
              Elem-filter p x (values entries) (values_of_Elem k x entries ((record_at k x).1 at))
                above,
        ))

  -- The two have the same ids.
  pub has_op-Agrees : (id : Text) → Idb.has_op factory id db ≡ Storage.has_op id st
  unfolding Idb.has_op Storage.has_op
  has_op-Agrees id = ground (arith, laws.ops_store.counted_at id db.ops, same.same_ops id)
