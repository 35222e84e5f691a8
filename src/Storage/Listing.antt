-- ===== src/Storage/Listing.antt =====
-- `opsSince` of packages/core/src/storage.ts: which operations it returns, and in which order.
use tangentfeed.Prelude.{
  ◌≡◌, ◌↔◌, ◌⊎◌, inl, inr, true, some, List, [], ◌∷◌, arith, Text, text_ltb, text_leb, eqb_iff,
  leb_trans, leb_of_lt, Map, get, values, IsUnique, get_of_Elem, Elem-of_get, All, Elem,
  Elem-filter, Elem-filter_inv, Bool-cases,
}
use tangentfeed.Op.{Op, Frontier, above_frontier, advance_frontier}
use tangentfeed.Op.Frontiers.{above-advance_frontier}
use tangentfeed.Storage.{MemoryAdapter, insert_op, sort_ops, ops_since}

-- Every operation is followed by none that is older.
abbrev pub IsAscending : List Op → Type 0
IsAscending [] = Unit
IsAscending (x ∷ xs) = All (λ (y : Op). text_leb x.hlc y.hlc ≡ true) xs × IsAscending xs

pub Elem-insert_op : (x op : Op) (xs : List Op) → Elem x (insert_op op xs) ↔ ((x ≡ op) ⊎ Elem x xs)
unfolding insert_op
Elem-insert_op x op [] = (λ e. e, λ e. e)
Elem-insert_op x op (y ∷ ys) = elim (Bool-cases (text_ltb y.hlc op.hlc)) [
  | inr h ↦ rw h (λ e. e, λ e. e)
  | inl h ↦ rw h (
    λ e. elim e [
      | inl q ↦ inr (inl q)
      | inr m ↦ elim ((Elem-insert_op x op ys).0 m) [ inl q ↦ inl q | inr n ↦ inr (inr n) ]
    ],
    λ e. elim e [
      | inl q ↦ inr ((Elem-insert_op x op ys).1 (inl q))
      | inr (inl q) ↦ inl q
      | inr (inr n) ↦ inr ((Elem-insert_op x op ys).1 (inr n))
    ],
  )
]

pub Elem-sort_ops : (x : Op) (xs : List Op) → Elem x (sort_ops xs) ↔ Elem x xs
unfolding sort_ops
Elem-sort_ops x [] = (λ e. e, λ e. e)
Elem-sort_ops x (y ∷ ys) = (
  λ e. elim ((Elem-insert_op x y (sort_ops ys)).0 e) [
    | inl q ↦ inl q
    | inr m ↦ inr ((Elem-sort_ops x ys).0 m)
  ],
  λ e.
      (Elem-insert_op x y (sort_ops ys)).1
        (elim e [ inl q ↦ inl q | inr m ↦ inr ((Elem-sort_ops x ys).1 m) ]),
)

All-insert_op :
    (lo : Text) (op : Op) (xs : List Op)
    → text_leb lo op.hlc ≡ true
    → All (λ (y : Op). text_leb lo y.hlc ≡ true) xs
    → All (λ (y : Op). text_leb lo y.hlc ≡ true) (insert_op op xs)
unfolding insert_op
All-insert_op lo op [] h a = (h, tt)
All-insert_op lo op (y ∷ ys) h a = elim (Bool-cases (text_ltb y.hlc op.hlc)) [
  | inl p ↦ rw p (a.0, All-insert_op lo op ys h a.1)
  | inr p ↦ rw p (h, a)
]

All-leb :
    (lo hi : Text) (xs : List Op)
    → text_leb lo hi ≡ true
    → All (λ (y : Op). text_leb hi y.hlc ≡ true) xs
    → All (λ (y : Op). text_leb lo y.hlc ≡ true) xs
All-leb lo hi [] h a = tt
All-leb lo hi (y ∷ ys) h a = (leb_trans lo hi y.hlc h a.0, All-leb lo hi ys h a.1)

insert_op-IsAscending : (op : Op) (xs : List Op) → IsAscending xs → IsAscending (insert_op op xs)
unfolding insert_op
insert_op-IsAscending op [] a = (tt, tt)
insert_op-IsAscending op (y ∷ ys) a = elim (Bool-cases (text_ltb y.hlc op.hlc)) [
  | inl p ↦
      rw p
        (All-insert_op y.hlc op ys (leb_of_lt y.hlc op.hlc p) a.0, insert_op-IsAscending op ys a.1)
  | inr p ↦
      let q : text_leb op.hlc y.hlc ≡ true = ground arith in
      rw p ((q, All-leb op.hlc y.hlc ys q a.0), a)
]

pub sort_ops-IsAscending : (xs : List Op) → IsAscending (sort_ops xs)
unfolding sort_ops
sort_ops-IsAscending [] = tt
sort_ops-IsAscending (x ∷ xs) = insert_op-IsAscending x (sort_ops xs) (sort_ops-IsAscending xs)

pub Elem-values : (x : Op) (m : Map Op) → Elem x (values m) → (k : Text) × Elem (k, x) m
Elem-values x [] e = absurd e
Elem-values x ((k, v) ∷ m) (inl q) = (k, inl (cc))
Elem-values x ((k, v) ∷ m) (inr e) = let (j, f) = Elem-values x m e in (j, inr f)

pub values_of_Elem : (k : Text) (x : Op) (m : Map Op) → Elem (k, x) m → Elem x (values m)
values_of_Elem k x [] e = e
values_of_Elem k x ((j, v) ∷ m) (inl q) = inl (ground arith)
values_of_Elem k x ((j, v) ∷ m) (inr e) = inr (values_of_Elem k x m e)

-- The operations are returned in ascending order of their timestamps.
pub ops_since-IsAscending : (f : Frontier) (st : MemoryAdapter) → IsAscending (ops_since f st)
unfolding ops_since
ops_since-IsAscending f st = sort_ops-IsAscending _

module _ (f : Frontier) (st : MemoryAdapter) (op : Op) where
  -- From a log without repeated ids, exactly the logged operations above the frontier are returned.
  pub Elem-ops_since :
      IsUnique st.ops_by_id
      → Elem op (ops_since f st)
        ↔ (((k : Text) × (get k st.ops_by_id ≡ some op)) × (above_frontier op f ≡ true))
  unfolding ops_since
  Elem-ops_since unique = (
    λ e.
        let (m, above) =
          Elem-filter_inv (λ (o : Op). above_frontier o f) op (values st.ops_by_id)
            ((Elem-sort_ops op _).0 e) in
        let (k, at) = Elem-values op st.ops_by_id m in
        ((k, get_of_Elem k op st.ops_by_id unique at), above),
    λ h.
        let m = values_of_Elem h.0.0 op st.ops_by_id (Elem-of_get h.0.0 op st.ops_by_id h.0.1) in
        (Elem-sort_ops op _).1
          (Elem-filter (λ (o : Op). above_frontier o f) op (values st.ops_by_id) m h.1),
  )

  -- An operation is not returned for a frontier that was advanced by one of the same device with the
  -- same or a later timestamp.
  pub ops_since-advanced :
      (later : Op)
      → later.device ≡ op.device
      → text_leb op.hlc later.hlc ≡ true
      → ¬ Elem op (ops_since (advance_frontier f later) st)
  unfolding ops_since
  ops_since-advanced later device older e =
      let g = advance_frontier f later in
      let above =
        (Elem-filter_inv (λ (o : Op). above_frontier o g) op (values st.ops_by_id)
          ((Elem-sort_ops op _).0 e)).1 in
      absurd
        (ground (arith, above, above-advance_frontier op later f, eqb_iff later.device op.device))
