-- ===== src/Samples/Sorted.antt =====
-- An object store that behaves as packages/adapter-idb/src/index.ts relies on: the writes, newest first, and the
-- records sorted when they are visited.
use tangentfeed.Prelude.{
  ◌≡◌, refl, sym, ◌∙◌, subst, inl, inr, Bool, true, Option, none, some, [], ◌∷◌, arith, Text,
  text_ltb, text_eqb, eqb_iff, lt_trans, lt_connected, Map, get, delete, get-delete, get_of_Elem,
  Elem-of_get, All, Elem-filter, Elem-filter_inv, filter, length, is_some, Bool-cases,
  if◌then◌else◌,
}
use tangentfeed.Idb.{ObjectStore, Factory}
use tangentfeed.Idb.Documented.{IsKeyOrdered, is_in_range, IsDocumented, AreDocumented}
use tangentfeed.Idb.Rows.{IsKeyOrdered-IsUnique}

module _ {V : Type 0} where
  put_sorted : Text → V → Map V → Map V
  put_sorted k v [] = (k, v) ∷ []
  put_sorted k v ((j, w) ∷ m) =
      let rest = put_sorted k v m in
      if text_eqb j k
      then (k, v) ∷ m
      else if text_ltb j k
      then (j, w) ∷ rest
      else (k, v) ∷ (j, w) ∷ m

  sorted : Map V → Map V
  unfolding put_sorted
  sorted [] = []
  sorted ((k, v) ∷ m) = put_sorted k v (sorted m)

  get-put_sorted :
      (k j : Text) (v : V) (m : Map V)
      → get j (put_sorted k v m) ≡ (if text_eqb k j then some v else get j m)
  unfolding put_sorted get
  get-put_sorted k j v [] = refl
  get-put_sorted k j v ((i, w) ∷ m) =
      ground (arith, eqb_iff i k, eqb_iff k j, eqb_iff i j, get-put_sorted k j v m)

  get-sorted : (k : Text) (m : Map V) → get k (sorted m) ≡ get k m
  unfolding sorted get
  get-sorted k [] = refl
  get-sorted k ((j, v) ∷ m) = get-put_sorted j k v (sorted m) ∙ ground (arith, get-sorted k m)

  All-put_sorted :
      (lo k : Text) (v : V) (m : Map V)
      → text_ltb lo k ≡ true
      → All (λ (e : Text × V). text_ltb lo e.0 ≡ true) m
      → All (λ (e : Text × V). text_ltb lo e.0 ≡ true) (put_sorted k v m)
  unfolding put_sorted
  All-put_sorted lo k v [] h a = (h, tt)
  All-put_sorted lo k v ((j, w) ∷ m) h a = elim (Bool-cases (text_eqb j k)) [
    | inl p ↦ rw p (h, a.1)
    | inr p ↦ elim (Bool-cases (text_ltb j k)) [
      | inl q ↦ rw (p, q) (a.0, All-put_sorted lo k v m h a.1)
      | inr q ↦ rw (p, q) (h, a)
    ]
  ]

  All-lower :
      (lo hi : Text) (m : Map V)
      → text_ltb lo hi ≡ true
      → All (λ (e : Text × V). text_ltb hi e.0 ≡ true) m
      → All (λ (e : Text × V). text_ltb lo e.0 ≡ true) m
  All-lower lo hi [] h a = tt
  All-lower lo hi (e ∷ m) h a = (lt_trans lo hi e.0 h a.0, All-lower lo hi m h a.1)

  put_sorted-IsKeyOrdered :
      (k : Text) (v : V) (m : Map V) → IsKeyOrdered m → IsKeyOrdered (put_sorted k v m)
  unfolding put_sorted
  put_sorted-IsKeyOrdered k v [] o = (tt, tt)
  put_sorted-IsKeyOrdered k v ((j, w) ∷ m) o = elim (Bool-cases (text_eqb j k)) [
    | inl p ↦
        let same : j ≡ k = (eqb_iff j k).0 p in
        rw p (subst (λ i. All (λ (e : Text × V). text_ltb i e.0 ≡ true) m) same o.0, o.1)
    | inr p ↦ elim (Bool-cases (text_ltb j k)) [
      | inl q ↦ rw (p, q) (All-put_sorted j k v m q o.0, put_sorted-IsKeyOrdered k v m o.1)
      | inr q ↦
          let below : text_ltb k j ≡ true = elim (Bool-cases (text_ltb k j)) [
            | inl r ↦ r
            | inr r ↦ absurd (ground (arith, eqb_iff j k, lt_connected j k q r))
          ] in
          rw (p, q) ((below, All-lower k j m below o.0), o)
    ]
  ]

  sorted-IsKeyOrdered : (m : Map V) → IsKeyOrdered (sorted m)
  unfolding sorted
  sorted-IsKeyOrdered [] = tt
  sorted-IsKeyOrdered ((k, v) ∷ m) = put_sorted-IsKeyOrdered k v (sorted m) (sorted-IsKeyOrdered m)

  All-filter :
      (lo : Text) (p : Text × V → Bool) (m : Map V)
      → All (λ (e : Text × V). text_ltb lo e.0 ≡ true) m
      → All (λ (e : Text × V). text_ltb lo e.0 ≡ true) (filter p m)
  unfolding filter
  All-filter lo p [] a = tt
  All-filter lo p (e ∷ m) a = elim (Bool-cases (p e)) [
    | inl h ↦ rw h (a.0, All-filter lo p m a.1)
    | inr h ↦ rw h (All-filter lo p m a.1)
  ]

  filter-IsKeyOrdered :
      (p : Text × V → Bool) (m : Map V) → IsKeyOrdered m → IsKeyOrdered (filter p m)
  unfolding filter
  filter-IsKeyOrdered p [] o = tt
  filter-IsKeyOrdered p (e ∷ m) o = elim (Bool-cases (p e)) [
    | inl h ↦ rw h (All-filter e.0 p m o.0, filter-IsKeyOrdered p m o.1)
    | inr h ↦ rw h (filter-IsKeyOrdered p m o.1)
  ]

  abbrev pub in_range : Option (Text × Text) → Text × V → Bool
  in_range r e = is_in_range r e.0

  abbrev pub sorted_store : ObjectStore V
  unfolding sorted
  sorted_store = record {
    State = Map V;
    blank = [];
    get_at = get;
    put_at = λ k v s. (k, v) ∷ s;
    delete_at = delete;
    count_at = λ k s. if is_some (get k s) then 1 else 0;
    count = λ s. length (filter (in_range none) (sorted s));
    cursor = λ r s. filter (in_range r) (sorted s);
  }

  pub sorted_store-IsDocumented : IsDocumented sorted_store
  unfolding get sorted_store
  sorted_store-IsDocumented = record {
    get_blank = λ k. refl;
    get_put = λ k j v s. refl;
    get_delete = λ k j s. get-delete k j s;
    counted_at = λ k s. refl;
    counted = λ s. refl;
    ordered = λ r s. filter-IsKeyOrdered (in_range r) (sorted s) (sorted-IsKeyOrdered s);
    visits = λ r k v s.
        let unique = IsKeyOrdered-IsUnique (sorted s) (sorted-IsKeyOrdered s) in
        (
          λ e.
              let (m, inside) = Elem-filter_inv (in_range r) (k, v) (sorted s) e in
              (sym (get-sorted k s) ∙ get_of_Elem k v (sorted s) unique m, inside),
          λ t.
              Elem-filter (in_range r) (k, v) (sorted s)
                (Elem-of_get k v (sorted s) (get-sorted k s ∙ t.0)) t.1,
        );
  }

abbrev pub sorted_factory : Factory
unfolding sorted_store
sorted_factory = record { ops = sorted_store; cells = sorted_store; meta = sorted_store }

pub sorted_factory-AreDocumented : AreDocumented sorted_factory
unfolding sorted_factory sorted_store
sorted_factory-AreDocumented = record {
  ops_store = sorted_store-IsDocumented;
  cells_store = sorted_store-IsDocumented;
  meta_store = sorted_store-IsDocumented;
}
