-- ===== src/Idb/Rows.antt =====
-- The row that the adapter of packages/adapter-idb/src/index.ts reads by a range of keys.
use tangentfeed.Prelude.{
  ℕ, ◌≡◌, refl, sym, ap, ◌∙◌, inl, inr, true, false, Option, none, some, [], ◌∷◌, ◌++◌,
  append_assoc, arith, Text, text_ltb, text_leb, text_eqb, text_compare, eqb_iff, lt_irrefl, Map,
  get, set, has, or_else, or_some, get-set, IsUnique, get_of_Elem, Elem-of_get, All, Elem, length,
  drop, drop-append, Bool-cases, Option-cases,
}
use tangentfeed.Op.{Op}
use tangentfeed.Storage.{MemoryAdapter, cell_key, cell_of, sep}
use tangentfeed.Storage.Keys.{AreParts}
use tangentfeed.Idb
use tangentfeed.Idb.{
  Factory, IdbAdapter, high, range_of, columns_from, row_from, row_prefix, range_scan,
}
use tangentfeed.Idb.Documented.{AreDocumented, IsKeyOrdered, is_in_range}
use tangentfeed.Idb.Writes.{Agrees}

has-above :
    {V : Type 0} (k : Text) (m : Map V)
    → All (λ (e : Text × V). text_ltb k e.0 ≡ true) m
    → has k m ≡ false
unfolding get
has-above k [] a = refl
has-above k ((j, v) ∷ m) a =
    let apart : text_eqb j k ≡ false = elim (Bool-cases (text_eqb j k)) [
      | inl h ↦ absurd (ground (arith, a.0, lt_irrefl k, (eqb_iff j k).0 h))
      | inr h ↦ h
    ] in
    rw apart (has-above k m a.1)

pub IsKeyOrdered-IsUnique : {V : Type 0} (m : Map V) → IsKeyOrdered m → IsUnique m
IsKeyOrdered-IsUnique [] o = tt
IsKeyOrdered-IsUnique ((k, v) ∷ m) o = (has-above k m o.0, IsKeyOrdered-IsUnique m o.1)

-- A key in the range of a prefix has the prefix.
prefix_of_range :
    (p k : Text) → text_leb p k ≡ true → text_leb k (p ++ high) ≡ true → p ++ drop (length p) k ≡ k
unfolding text_compare
prefix_of_range [] k lo hi = refl
prefix_of_range (x ∷ p) [] lo hi = absurd (ground arith)
prefix_of_range (x ∷ p) (y ∷ k) lo hi = ground (arith, prefix_of_range p k)

-- The last entry of a column wins, and there is one at most.
get-columns_from :
    (p c : Text) (entries out : Map Op)
    → IsUnique entries
    → ((k : Text) (op : Op) → Elem (k, op) entries → p ++ drop (length p) k ≡ k)
    → get c (columns_from (length p) entries out) ≡ or_some (get (p ++ c) entries) (get c out)
unfolding columns_from get
get-columns_from p c [] out u h = refl
get-columns_from p c ((k, op) ∷ entries) out u h =
    let here = h k op (inl refl) in
    get-columns_from p c entries (set (drop (length p) k) op out) u.1 (λ j v e. h j v (inr e))
    ∙ elim (Bool-cases (text_eqb (drop (length p) k) c)) [
      | inl q ↦
          let cut : drop (length p) k ≡ c = (eqb_iff _ c).0 q in
          let whole : k ≡ p ++ c = sym here ∙ ap (λ s. p ++ s) cut in
          ground (arith, get-set (drop (length p) k) c op out, eqb_iff k (p ++ c), u.0)
      | inr q ↦
          let back : drop (length p) (p ++ c) ≡ c = drop-append (length p) p c refl in
          let apart : text_eqb k (p ++ c) ≡ false = elim (Bool-cases (text_eqb k (p ++ c))) [
            | inl r ↦ absurd (
                ground (
                  arith,
                  eqb_iff (drop (length p) k) c,
                  ap (drop (length p)) ((eqb_iff k (p ++ c)).0 r),
                ))
            | inr r ↦ r
          ] in
          rw (apart, get-set (drop (length p) k) c op out, q) refl
    ]

compare-common : (p a b : Text) → text_compare (p ++ a) (p ++ b) ≡ text_compare a b
unfolding text_compare
compare-common [] a b = refl
compare-common (x ∷ p) a b = ground (arith, compare-common p a b)

leb_prefix : (p a : Text) → text_leb p (p ++ a) ≡ true
unfolding text_compare
leb_prefix [] [] = refl
leb_prefix [] (x ∷ a) = refl
leb_prefix (x ∷ p) a = ground (arith, leb_prefix p a)

cell_key-prefix : (t r c : Text) → row_prefix t r ++ c ≡ cell_key t r c
unfolding cell_key
cell_key-prefix t r c =
    append_assoc t (sep ∷ (r ++ sep ∷ [])) c ∙ ap (λ s. t ++ sep ∷ s) (append_assoc r (sep ∷ []) c)

get_of_row :
    (n : ℕ) (c : Text) (entries : Map Op)
    → get c (or_else (row_from n entries) []) ≡ get c (columns_from n entries [])
unfolding columns_from
get_of_row n c [] = refl
get_of_row n c (e ∷ entries) = refl

range_of_prefix :
    (t r : Text) → range_of (row_prefix t r) ≡ some (row_prefix t r, row_prefix t r ++ high)
range_of_prefix [] r = refl
range_of_prefix (x ∷ t) r = refl

module _ (factory : Factory) (laws : AreDocumented factory) (db : IdbAdapter factory)
    (st : MemoryAdapter) (same : Agrees factory laws db st) where
  get-cursor :
      (range : Option (Text × Text)) (k : Text)
      → is_in_range range k ≡ true
      → get k (factory.cells.cursor range db.cells) ≡ factory.cells.get_at k db.cells
  get-cursor range k inside =
      let entries = factory.cells.cursor range db.cells in
      let unique = IsKeyOrdered-IsUnique entries (laws.cells_store.ordered range db.cells) in
      elim (Option-cases (factory.cells.get_at k db.cells)) [
        | inr (op, at) ↦
            get_of_Elem k op entries unique
              ((laws.cells_store.visits range k op db.cells).1 (at, inside))
            ∙ sym at
        | inl gone ↦ elim (Option-cases (get k entries)) [
          | inl q ↦ q ∙ sym gone
          | inr (op, q) ↦
              let there =
                ((laws.cells_store.visits range k op db.cells).0 (Elem-of_get k op entries q)).0 in
              absurd (ground arith)
        ]
      ]

  or_some_nothing : (c : Text) (o : Option Op) → or_some o (get c []) ≡ o
  unfolding get
  or_some_nothing c none = refl
  or_some_nothing c (some op) = refl

  -- In a database that holds what an adapter in memory does, a row has in each column what the cell holds,
  -- when the names are without the separator, for columns that are not above the bound of the range, which no
  -- name of a column is.
  pub get-get_row :
      (t r c : Text)
      → AreParts t r c
      → text_leb c high ≡ true
      → get c (or_else (Idb.get_row factory t r db) []) ≡ cell_of t r c st.tables
  unfolding Idb.get_row range_scan
  get-get_row t r c parts low =
      let p = row_prefix t r in
      let range : Option (Text × Text) = some (p, p ++ high) in
      let entries = factory.cells.cursor range db.cells in
      let unique = IsKeyOrdered-IsUnique entries (laws.cells_store.ordered range db.cells) in
      let read = get-columns_from p c entries [] unique (λ k op e.
        let q = ((laws.cells_store.visits range k op db.cells).0 e).1 in
        prefix_of_range p k (ground arith) (ground arith)) in
      let inside : is_in_range range (p ++ c) ≡ true =
        ground (arith, leb_prefix p c, compare-common p high c) in
      ap (λ x. get c (or_else (row_from (length p) (factory.cells.cursor x db.cells)) []))
        (range_of_prefix t r)
      ∙ get_of_row (length p) c entries
      ∙ read
      ∙ or_some_nothing c (get (p ++ c) entries)
      ∙ get-cursor range (p ++ c) inside
      ∙ ap (λ k. factory.cells.get_at k db.cells) (cell_key-prefix t r c)
      ∙ same.same_cells t r c parts
