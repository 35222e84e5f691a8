-- ===== src/Storage/Strict.antt =====
-- Lists of operations in strictly ascending order of their timestamps, as `opsSince` of packages/core/src/storage.ts
-- gives them from a log that has each under its own timestamp.
use tangentfeed.Prelude.{
  ◌≡◌, refl, sym, ap, ap₂, ◌∙◌, subst, ◌↔◌, ◌⊎◌, inl, inr, Option-cases, none, some, get,
  Elem-of_get, Bool, true, false, List, [], ◌∷◌, arith, Text, text_ltb, text_eqb, eqb_iff, lt_trans,
  lt_irrefl, lt_asymm, lt_connected, Map, values, IsUnique, get_of_Elem, All, Elem, Elem-filter_inv,
  filter, Bool-cases,
}
use tangentfeed.Op.{Op, Frontier, above_frontier}
use tangentfeed.Storage.{MemoryAdapter, insert_op, sort_ops, ops_since}
use tangentfeed.Storage.Listing.{Elem-insert_op, Elem-sort_ops, Elem-values, Elem-ops_since}

abbrev pub IsStrict : List Op → Type 0
IsStrict [] = Unit
IsStrict (x ∷ xs) = All (λ (y : Op). text_ltb x.hlc y.hlc ≡ true) xs × IsStrict xs

-- No two have the same timestamp.
abbrev pub IsDistinct : List Op → Type 0
IsDistinct [] = Unit
IsDistinct (x ∷ xs) = All (λ (y : Op). text_eqb x.hlc y.hlc ≡ false) xs × IsDistinct xs

pub All-Elem : (P : Op → Type 0) (xs : List Op) (x : Op) → All P xs → Elem x xs → P x
All-Elem P [] x a e = absurd e
All-Elem P (y ∷ xs) x a (inl q) = subst P (sym q) a.0
All-Elem P (y ∷ xs) x a (inr e) = All-Elem P xs x a.1 e

pub All_of_Elem : (P : Op → Type 0) (xs : List Op) → ((x : Op) → Elem x xs → P x) → All P xs
All_of_Elem P [] h = tt
All_of_Elem P (y ∷ xs) h = (h y (inl refl), All_of_Elem P xs (λ x e. h x (inr e)))

insert_op-IsStrict :
    (op : Op) (xs : List Op)
    → All (λ (y : Op). text_eqb op.hlc y.hlc ≡ false) xs
    → IsStrict xs
    → IsStrict (insert_op op xs)
unfolding insert_op
insert_op-IsStrict op [] d s = (tt, tt)
insert_op-IsStrict op (y ∷ ys) d s = elim (Bool-cases (text_ltb y.hlc op.hlc)) [
  | inl p ↦ rw p (
    All_of_Elem (λ z. text_ltb y.hlc z.hlc ≡ true) (insert_op op ys)
        (λ z e. elim ((Elem-insert_op z op ys).0 e) [
          | inl q ↦ subst (λ (x : Op). text_ltb y.hlc x.hlc ≡ true) (sym q) p
          | inr m ↦ All-Elem (λ z. text_ltb y.hlc z.hlc ≡ true) ys z s.0 m
        ]),
    insert_op-IsStrict op ys d.1 s.1,
  )
  | inr p ↦
      let below : text_ltb op.hlc y.hlc ≡ true = elim (Bool-cases (text_ltb op.hlc y.hlc)) [
        | inl q ↦ q
        | inr q ↦
            let same : op.hlc ≡ y.hlc = lt_connected op.hlc y.hlc q p in
            absurd (ground (arith, d.0, eqb_iff op.hlc y.hlc))
      ] in
      rw p (
        (
          below,
          All_of_Elem (λ z. text_ltb op.hlc z.hlc ≡ true) ys
              (λ z e.
                lt_trans op.hlc y.hlc z.hlc below
                  (All-Elem (λ z. text_ltb y.hlc z.hlc ≡ true) ys z s.0 e)),
        ),
        s,
      )
]

pub sort_ops-IsStrict : (xs : List Op) → IsDistinct xs → IsStrict (sort_ops xs)
unfolding sort_ops
sort_ops-IsStrict [] d = tt
sort_ops-IsStrict (x ∷ xs) d =
    insert_op-IsStrict x (sort_ops xs)
      (All_of_Elem (λ y. text_eqb x.hlc y.hlc ≡ false) (sort_ops xs)
        (λ y e. All-Elem (λ y. text_eqb x.hlc y.hlc ≡ false) xs y d.0 ((Elem-sort_ops y xs).0 e)))
      (sort_ops-IsStrict xs d.1)

-- Each operation stands under its own timestamp.
abbrev pub IsKeyed : Map Op → Type 0
IsKeyed m = (k : Text) (op : Op) → Elem (k, op) m → op.hlc ≡ k

Elem-filter_self : (p : Op → Bool) (x : Op) (xs : List Op) → Elem x (filter p xs) → Elem x xs
Elem-filter_self p x xs e = (Elem-filter_inv p x xs e).0

values-IsDistinct :
    (p : Op → Bool) (m : Map Op) → IsUnique m → IsKeyed m → IsDistinct (filter p (values m))
unfolding filter
values-IsDistinct p [] u k = tt
values-IsDistinct p ((j, v) ∷ m) u k =
    let rest = values-IsDistinct p m u.1 (λ i op e. k i op (inr e)) in
    elim (Bool-cases (p v)) [
      | inr h ↦ rw h rest
      | inl h ↦ rw h (
        All_of_Elem (λ y. text_eqb v.hlc y.hlc ≡ false) (filter p (values m))
            (λ y e.
              let (i, at) = Elem-values y m (Elem-filter_self p y (values m) e) in
              let here = k j v (inl refl) in
              let there = k i y (inr at) in
              let found = get_of_Elem i y m u.1 at in ground (arith, eqb_iff v.hlc y.hlc, u.0)),
        rest,
      )
    ]

-- An element after the first is not the first.
not_first :
    (x y z : Op) (xs ys : List Op)
    → x ≡ y
    → All (λ (w : Op). text_ltb x.hlc w.hlc ≡ true) xs
    → Elem z xs
    → Elem z (y ∷ ys)
    → Elem z ys
not_first x y z xs ys same above e (inr f) = f
not_first x y z xs ys same above e (inl q) =
    let later = All-Elem (λ w. text_ltb x.hlc w.hlc ≡ true) xs z above e in
    let here : z ≡ x = q ∙ sym same in
    absurd (ground (arith, lt_irrefl x.hlc, ap (λ (o : Op). o.hlc) here))

-- Two lists in strict order that have the same elements are the same.
pub eq_of_same_Elem :
    (xs ys : List Op) → IsStrict xs → IsStrict ys → ((x : Op) → Elem x xs ↔ Elem x ys) → xs ≡ ys
eq_of_same_Elem [] [] s t h = refl
eq_of_same_Elem [] (y ∷ ys) s t h = absurd ((h y).1 (inl refl))
eq_of_same_Elem (x ∷ xs) [] s t h = absurd ((h x).0 (inl refl))
eq_of_same_Elem (x ∷ xs) (y ∷ ys) s t h =
    let same : x ≡ y = elim ((h x).0 (inl refl)) [
      | inl q ↦ q
      | inr e ↦ elim ((h y).1 (inl refl)) [
        | inl q ↦ sym q
        | inr f ↦
            let below = All-Elem (λ z. text_ltb y.hlc z.hlc ≡ true) ys x t.0 e in
            let above = All-Elem (λ z. text_ltb x.hlc z.hlc ≡ true) xs y s.0 f in
            absurd (ground (arith, lt_asymm x.hlc y.hlc))
      ]
    ] in
    ap₂ (λ a as'. a ∷ as') same
      (eq_of_same_Elem xs ys s.1 t.1 (λ z. (
        λ e. not_first x y z xs ys same s.0 e ((h z).0 (inr e)),
        λ e. not_first y x z ys xs (sym same) t.0 e ((h z).1 (inr e)),
      )))

-- What `opsSince` gives from such a log is in strict order.
pub ops_since-IsStrict :
    (f : Frontier) (st : MemoryAdapter)
    → IsUnique st.ops_by_id
    → IsKeyed st.ops_by_id
    → IsStrict (ops_since f st)
unfolding ops_since
ops_since-IsStrict f st u k =
    sort_ops-IsStrict _ (values-IsDistinct (λ op. above_frontier op f) st.ops_by_id u k)

-- The frontier has no timestamp of the operation's device, or an older one.
abbrev pub IsNews : Frontier → Op → Type 0
IsNews f op =
    (get op.device f ≡ none)
    ⊎ ((seen : Text) × (get op.device f ≡ some seen) × (text_ltb seen op.hlc ≡ true))

above-IsNews : (f : Frontier) (op : Op) → (above_frontier op f ≡ true) ↔ IsNews f op
unfolding above_frontier
above-IsNews f op = (
  λ h. elim (Option-cases (get op.device f)) [
    | inl q ↦ inl q
    | inr (seen, q) ↦ inr (seen, q, ground arith)
  ],
  λ h. elim h [ inl q ↦ ground arith | inr (seen, q, later) ↦ ground arith ],
)

-- From a log that has each operation once, under its own timestamp, `opsSince` returns the logged operations for
-- whose device the frontier has no timestamp or an older one, and no others, each once and in strictly ascending
-- order of their timestamps.
pub ops_since-Selects :
    (f : Frontier) (st : MemoryAdapter)
    → IsUnique st.ops_by_id
    → IsKeyed st.ops_by_id
    → IsStrict (ops_since f st)
      × ((op : Op) → Elem op (ops_since f st) ↔ ((get op.hlc st.ops_by_id ≡ some op) × IsNews f op))
ops_since-Selects f st u k = (
  ops_since-IsStrict f st u k,
  λ op. (
    λ e.
        let ((j, at), above) = (Elem-ops_since f st op u).0 e in
        let own = k j op (Elem-of_get j op st.ops_by_id at) in
        (subst (λ i. get i st.ops_by_id ≡ some op) (sym own) at, (above-IsNews f op).0 above),
    λ (at, news). (Elem-ops_since f st op u).1 ((op.hlc, at), (above-IsNews f op).1 news),
  ),
)
