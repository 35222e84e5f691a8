-- ===== src/Sqlite/Listing.antt =====
-- `opsSince` of packages/adapter-sqlite/src/index.ts, which asks for each device of the frontier, is the filter of the
-- adapter in memory.
use tangentfeed.Prelude.{
  ◌≡◌, refl, sym, ap, ap₂, ◌∙◌, ◌↔◌, inl, inr, Bool, true, false, not, ◌&&◌, some, is_some, List,
  [], ◌∷◌, ◌++◌, map, Text, text_ltb, text_eqb, get, IsUnique, All, Elem, filter, Bool-cases,
}
use tangentfeed.Op.{Op, Frontier, above_frontier}
use tangentfeed.Storage
use tangentfeed.Storage.{MemoryAdapter, insert_op, sort_ops}
use tangentfeed.Storage.Listing.{Elem-sort_ops, Elem-ops_since}
use tangentfeed.Storage.Strict.{
  IsDistinct, IsKeyed, sort_ops-IsStrict, eq_of_same_Elem, ops_since-IsStrict,
}
use tangentfeed.Compaction.{contains}
use tangentfeed.Sqlite
use tangentfeed.Sqlite.{
  Json, OpRow, SqliteAdapter, insert_row, order_by, all_rows, rows_above_for, op_of_row, above_each,
  absent_from,
}
use tangentfeed.Sqlite.Queries.{above_ops, is_absent, both, both-IsDistinct, Elem-both}

module _ (json : Json) where
  abbrev of_row : OpRow → Op
  of_row r = op_of_row json r

  map-insert_row :
      (by : OpRow → Text) (r : OpRow) (rows : List OpRow)
      → by r ≡ r.hlc
      → All (λ (x : OpRow). by x ≡ x.hlc) rows
      → map of_row (insert_row by r rows) ≡ insert_op (of_row r) (map of_row rows)
  unfolding insert_row insert_op op_of_row
  map-insert_row by r [] h a = refl
  map-insert_row by r (x ∷ rows) h a = elim (Bool-cases (text_ltb (by x) (by r))) [
    | inl q ↦
        let q' : text_ltb x.hlc r.hlc ≡ true = rw (a.0, h) at q in
        rw (q, q') (ap (λ os. of_row x ∷ os) (map-insert_row by r rows h a.1))
    | inr q ↦ let q' : text_ltb x.hlc r.hlc ≡ false = rw (a.0, h) at q in rw (q, q') refl
  ]

  All-insert_row :
      (by : OpRow → Text) (r : OpRow) (rows : List OpRow)
      → by r ≡ r.hlc
      → All (λ (x : OpRow). by x ≡ x.hlc) rows
      → All (λ (x : OpRow). by x ≡ x.hlc) (insert_row by r rows)
  unfolding insert_row
  All-insert_row by r [] h a = (h, tt)
  All-insert_row by r (x ∷ rows) h a = elim (Bool-cases (text_ltb (by x) (by r))) [
    | inl q ↦ rw q (a.0, All-insert_row by r rows h a.1)
    | inr q ↦ rw q (h, a)
  ]

  -- Ordering the rows by their timestamps is sorting their operations.
  map-order_by :
      (by : OpRow → Text) (rows : List OpRow)
      → All (λ (x : OpRow). by x ≡ x.hlc) rows
      → (map of_row (order_by by rows) ≡ sort_ops (map of_row rows))
        × All (λ (x : OpRow). by x ≡ x.hlc) (order_by by rows)
  unfolding order_by sort_ops
  map-order_by by [] a = (refl, tt)
  map-order_by by (x ∷ rows) a =
      let (same, kept) = map-order_by by rows a.1 in
      (
        map-insert_row by x (order_by by rows) a.0 kept ∙ ap (insert_op (of_row x)) same,
        All-insert_row by x (order_by by rows) a.0 kept,
      )

  map-filter :
      (p : OpRow → Bool) (q : Op → Bool) (rows : List OpRow)
      → ((r : OpRow) → p r ≡ q (of_row r))
      → map of_row (filter p rows) ≡ filter q (map of_row rows)
  unfolding filter
  map-filter p q [] h = refl
  map-filter p q (r ∷ rows) h = elim (Bool-cases (p r)) [
    | inl t ↦
        let t' : q (of_row r) ≡ true = sym (h r) ∙ t in
        rw (t, t') (ap (λ os. of_row r ∷ os) (map-filter p q rows h))
    | inr t ↦ let t' : q (of_row r) ≡ false = sym (h r) ∙ t in rw (t, t') (map-filter p q rows h)
  ]

All_rows : (rows : List OpRow) → All (λ (x : OpRow). x.hlc ≡ x.hlc) rows
All_rows [] = tt
All_rows (x ∷ rows) = (refl, All_rows rows)

module _ (json : Json) where
  map-rows_above_for :
      (d h : Text) (rows : List OpRow)
      → map (op_of_row json) (rows_above_for d h rows)
        ≡ sort_ops (
            filter
              (λ (o : Op). text_eqb o.device d && text_ltb h o.hlc)
              (map (op_of_row json) rows))
  unfolding rows_above_for op_of_row
  map-rows_above_for d h rows =
      let p = λ (r : OpRow). text_eqb r.device d && text_ltb h r.hlc in
      let q = λ (o : Op). text_eqb o.device d && text_ltb h o.hlc in
      (map-order_by json (λ r. r.hlc) (filter p rows) (All_rows (filter p rows))).0
      ∙ ap sort_ops (map-filter json p q rows (λ r. refl))

  above_each-above_ops :
      (rows : List OpRow) (f : Frontier)
      → above_each json rows f ≡ above_ops (map (op_of_row json) rows) f
  unfolding above_each
  above_each-above_ops rows [] = refl
  above_each-above_ops rows ((d, h) ∷ f) =
      ap₂ (λ a b. a ++ b) (map-rows_above_for d h rows) (above_each-above_ops rows f)

module _ (json : Json) (db : SqliteAdapter) (st : MemoryAdapter)
    (same : (x : Op)
      → Elem x (map (op_of_row json) db.ops) ↔ ((k : Text) × (get k st.ops_by_id ≡ some x)))
    (by_id : All (λ (r : OpRow). r.id ≡ r.hlc) db.ops)
    (distinct : IsDistinct (map (op_of_row json) db.ops)) (unique : IsUnique st.ops_by_id)
    (keyed : IsKeyed st.ops_by_id) where
  abbrev logged : List Op
  logged = map (op_of_row json) db.ops

  abbrev sorted_logged : map (op_of_row json) (all_rows db.ops) ≡ sort_ops logged
  unfolding all_rows
  sorted_logged = (map-order_by json (λ r. r.id) db.ops by_id).0

  ids_of :
      (rows : List OpRow)
      → All (λ (r : OpRow). r.id ≡ r.hlc) rows
      → (x : Op) → Elem x (map (op_of_row json) rows)
      → x.id ≡ x.hlc
  unfolding op_of_row
  ids_of [] a x e = absurd e
  ids_of (r ∷ rows) a x (inl q) = ap (λ (o : Op). o.id) q ∙ a.0 ∙ sym (ap (λ (o : Op). o.hlc) q)
  ids_of (r ∷ rows) a x (inr e) = ids_of rows a.1 x e

  ops_since-sorted :
      (d h : Text) (f : Frontier)
      → Sqlite.ops_since json ((d, h) ∷ f) db ≡ sort_ops (both logged ((d, h) ∷ f))
  unfolding Sqlite.ops_since absent_from op_of_row
  ops_since-sorted d h f =
      let g = (d, h) ∷ f in
      let seen = above_each json db.ops g in
      let p = λ (r : OpRow).
        not (is_some (get r.device g)) && not (contains (map (λ (o : Op). o.id) seen) r.id) in
      let above = above_each-above_ops json db.ops g in
      let absent : map (op_of_row json) (filter p (all_rows db.ops))
          ≡ filter (is_absent g seen) (sort_ops logged) =
        map-filter json p (is_absent g seen) (all_rows db.ops) (λ r. refl)
        ∙ ap (filter (is_absent g seen)) sorted_logged in
      ap (λ os. sort_ops (seen ++ os)) absent
      ∙ ap (λ s. sort_ops (s ++ filter (is_absent g s) (sort_ops logged))) above

  -- A database whose rows are what an adapter in memory has logged, each row once and under its own timestamp,
  -- returns the same operations above a frontier in the same order, when the frontier has each device once.
  pub ops_since-Matches :
      (f : Frontier) → IsUnique f → Sqlite.ops_since json f db ≡ Storage.ops_since f st
  unfolding Sqlite.ops_since above_frontier get
  ops_since-Matches [] u =
      sorted_logged
      ∙ eq_of_same_Elem (sort_ops logged) (Storage.ops_since [] st)
          (sort_ops-IsStrict logged distinct) (ops_since-IsStrict [] st unique keyed)
          (λ x. (
            λ e.
                (Elem-ops_since [] st x unique).1 ((same x).0 ((Elem-sort_ops x logged).0 e), refl),
            λ e. (Elem-sort_ops x logged).1 ((same x).1 ((Elem-ops_since [] st x unique).0 e).0),
          ))
  ops_since-Matches ((d, h) ∷ f) u =
      let g = (d, h) ∷ f in
      ops_since-sorted d h f
      ∙ eq_of_same_Elem (sort_ops (both logged g)) (Storage.ops_since g st)
          (sort_ops-IsStrict (both logged g) (both-IsDistinct logged g distinct u))
          (ops_since-IsStrict g st unique keyed)
          (λ x.
            let found = Elem-both logged g distinct u x (ids_of db.ops by_id) in
            (
              λ e.
                  let (m, above) = found.0 ((Elem-sort_ops x (both logged g)).0 e) in
                  (Elem-ops_since g st x unique).1 ((same x).0 m, above),
              λ e.
                  let (m, above) = (Elem-ops_since g st x unique).0 e in
                  (Elem-sort_ops x (both logged g)).1 (found.1 ((same x).1 m, above)),
            ))
