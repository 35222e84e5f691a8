-- ===== src/Sqlite/Queries.antt =====
-- Lists of operations with distinct timestamps, and the two parts that `opsSince` of
-- packages/adapter-sqlite/src/index.ts puts together, as lists of operations.
use tangentfeed.Prelude.{
  ◌≡◌, refl, sym, ap, ◌∙◌, subst, ◌↔◌, inl, inr, Bool, true, false, not, ◌&&◌, none, some, is_some,
  List, [], ◌∷◌, ◌++◌, map, arith, Text, text_ltb, text_eqb, eqb_iff, lt_irrefl, get, get_of_Elem,
  Elem-of_get, IsUnique, Elem, Elem-append-left, Elem-append-right, Elem-append_inv, Elem-filter,
  Elem-filter_inv, filter, any, Bool-cases, Option-cases,
}
use tangentfeed.Op.{Op, Frontier, above_frontier}
use tangentfeed.Storage.{sort_ops}
use tangentfeed.Storage.Listing.{Elem-sort_ops}
use tangentfeed.Storage.Strict.{IsStrict, IsDistinct, All-Elem, All_of_Elem, sort_ops-IsStrict}
use tangentfeed.Compaction.{contains}

apart_of_lt : (a b : Text) → text_ltb a b ≡ true → text_eqb a b ≡ false
apart_of_lt a b h = elim (Bool-cases (text_eqb a b)) [
  | inl q ↦ absurd (ground (arith, eqb_iff a b, lt_irrefl a))
  | inr q ↦ q
]

pub IsStrict-IsDistinct : (xs : List Op) → IsStrict xs → IsDistinct xs
IsStrict-IsDistinct [] s = tt
IsStrict-IsDistinct (x ∷ xs) s = (
  All_of_Elem (λ y. text_eqb x.hlc y.hlc ≡ false) xs
      (λ y e. apart_of_lt x.hlc y.hlc (All-Elem (λ y. text_ltb x.hlc y.hlc ≡ true) xs y s.0 e)),
  IsStrict-IsDistinct xs s.1,
)

append-IsDistinct :
    (xs ys : List Op)
    → IsDistinct xs
    → IsDistinct ys
    → ((x y : Op) → Elem x xs → Elem y ys → text_eqb x.hlc y.hlc ≡ false)
    → IsDistinct (xs ++ ys)
append-IsDistinct [] ys d d' h = d'
append-IsDistinct (x ∷ xs) ys d d' h = (
  All_of_Elem (λ y. text_eqb x.hlc y.hlc ≡ false) (xs ++ ys)
      (λ y e. elim (Elem-append_inv y xs ys e) [
        | inl i ↦ All-Elem (λ y. text_eqb x.hlc y.hlc ≡ false) xs y d.0 i
        | inr j ↦ h x y (inl refl) j
      ]),
  append-IsDistinct xs ys d.1 d' (λ z y i j. h z y (inr i) j),
)

-- Of distinct operations, those with one timestamp are the same.
same_of_hlc :
    (xs : List Op) (x y : Op) → IsDistinct xs → Elem x xs → Elem y xs → x.hlc ≡ y.hlc → x ≡ y
same_of_hlc [] x y d i j q = absurd i
same_of_hlc (z ∷ xs) x y d (inl a) (inl b) q = a ∙ sym b
same_of_hlc (z ∷ xs) x y d (inl a) (inr j) q =
    let apart = All-Elem (λ w. text_eqb z.hlc w.hlc ≡ false) xs y d.0 j in
    absurd (ground (arith, eqb_iff z.hlc y.hlc, ap (λ (o : Op). o.hlc) a))
same_of_hlc (z ∷ xs) x y d (inr i) (inl b) q =
    let apart = All-Elem (λ w. text_eqb z.hlc w.hlc ≡ false) xs x d.0 i in
    absurd (ground (arith, eqb_iff z.hlc x.hlc, ap (λ (o : Op). o.hlc) b))
same_of_hlc (z ∷ xs) x y d (inr i) (inr j) q = same_of_hlc xs x y d.1 i j q

filter-IsDistinct : (p : Op → Bool) (xs : List Op) → IsDistinct xs → IsDistinct (filter p xs)
unfolding filter
filter-IsDistinct p [] d = tt
filter-IsDistinct p (x ∷ xs) d = elim (Bool-cases (p x)) [
  | inl h ↦ rw h (
    All_of_Elem (λ y. text_eqb x.hlc y.hlc ≡ false) (filter p xs)
        (λ y e. All-Elem (λ y. text_eqb x.hlc y.hlc ≡ false) xs y d.0 (Elem-filter_inv p y xs e).0),
    filter-IsDistinct p xs d.1,
  )
  | inr h ↦ rw h (filter-IsDistinct p xs d.1)
]

-- What the query for each device finds, of the operations of the rows.
abbrev pub above_ops : List Op → Frontier → List Op
above_ops xs [] = []
above_ops xs ((d, h) ∷ f) =
    sort_ops (filter (λ (o : Op). text_eqb o.device d && text_ltb h o.hlc) xs) ++ above_ops xs f

Elem-above_ops :
    (xs : List Op) (f : Frontier) (x : Op)
    → Elem x (above_ops xs f)
    → Elem x xs × ((h : Text) × Elem (x.device, h) f × (text_ltb h x.hlc ≡ true))
Elem-above_ops xs [] x e = absurd e
Elem-above_ops xs ((d, h) ∷ f) x e =
    let p = λ (o : Op). text_eqb o.device d && text_ltb h o.hlc in
    elim (Elem-append_inv x (sort_ops (filter p xs)) (above_ops xs f) e) [
      | inl i ↦
          let (m, q) = Elem-filter_inv p x xs ((Elem-sort_ops x (filter p xs)).0 i) in
          let own : x.device ≡ d = ground (arith, eqb_iff x.device d) in
          let above : text_ltb h x.hlc ≡ true = ground arith in
          (m, (h, inl (ap (λ k. (k, h)) own), above))
      | inr j ↦ let (m, (h', at, above)) = Elem-above_ops xs f x j in (m, (h', inr at, above))
    ]

above_ops_of_Elem :
    (xs : List Op) (f : Frontier) (x : Op) (h : Text)
    → Elem x xs
    → Elem (x.device, h) f
    → text_ltb h x.hlc ≡ true
    → Elem x (above_ops xs f)
above_ops_of_Elem xs [] x h m at above = absurd at
above_ops_of_Elem xs ((d, g) ∷ f) x h m (inl q) above =
    let p = λ (o : Op). text_eqb o.device d && text_ltb g o.hlc in
    let own : x.device ≡ d = ap (λ e. e.0) q in
    let same : h ≡ g = ap (λ e. e.1) q in
    let found : p x ≡ true = ground (arith, eqb_iff x.device d) in
    Elem-append-left x (sort_ops (filter p xs)) (above_ops xs f)
      ((Elem-sort_ops x (filter p xs)).1 (Elem-filter p x xs m found))
above_ops_of_Elem xs ((d, g) ∷ f) x h m (inr at) above =
    let p = λ (o : Op). text_eqb o.device d && text_ltb g o.hlc in
    Elem-append-right x (sort_ops (filter p xs)) (above_ops xs f)
      (above_ops_of_Elem xs f x h m at above)

pub above_ops-IsDistinct :
    (xs : List Op) (f : Frontier) → IsDistinct xs → IsUnique f → IsDistinct (above_ops xs f)
above_ops-IsDistinct xs [] d u = tt
above_ops-IsDistinct xs ((k, h) ∷ f) d u =
    let p = λ (o : Op). text_eqb o.device k && text_ltb h o.hlc in
    append-IsDistinct (sort_ops (filter p xs)) (above_ops xs f)
      (IsStrict-IsDistinct (sort_ops (filter p xs))
        (sort_ops-IsStrict (filter p xs) (filter-IsDistinct p xs d)))
      (above_ops-IsDistinct xs f d u.1)
      (λ x y i j.
        let (m, q) = Elem-filter_inv p x xs ((Elem-sort_ops x (filter p xs)).0 i) in
        let own : x.device ≡ k = ground (arith, eqb_iff x.device k) in
        let (n, (g, at, above)) = Elem-above_ops xs f y j in
        elim (Bool-cases (text_eqb x.hlc y.hlc)) [
          | inr apart ↦ apart
          | inl meet ↦
              let same = same_of_hlc xs x y d m n ((eqb_iff x.hlc y.hlc).0 meet) in
              let other : y.device ≡ k = ap (λ (o : Op). o.device) (sym same) ∙ own in
              let found = get_of_Elem y.device g f u.1 at in
              let found' : get k f ≡ some g = ap (λ z. get z f) (sym other) ∙ found in
              absurd (ground (arith, u.0))
        ])

id_of_contains :
    (ys : List Op) (k : Text)
    → contains (map (λ (o : Op). o.id) ys) k ≡ true
    → (y : Op) × Elem y ys × (y.id ≡ k)
unfolding any
id_of_contains [] k h = absurd (ground arith)
id_of_contains (y ∷ ys) k h = elim (Bool-cases (text_eqb y.id k)) [
  | inl q ↦ (y, inl refl, (eqb_iff y.id k).0 q)
  | inr q ↦ let (z, e, same) = id_of_contains ys k (rw q at h) in (z, inr e, same)
]

contains_of_Elem :
    (ys : List Op) (y : Op) → Elem y ys → contains (map (λ (o : Op). o.id) ys) y.id ≡ true
unfolding any
contains_of_Elem [] y e = absurd e
contains_of_Elem (z ∷ ys) y (inl q) =
    let same : text_eqb z.id y.id ≡ true = (eqb_iff z.id y.id).1 (ap (λ (o : Op). o.id) (sym q)) in
    rw same refl
contains_of_Elem (z ∷ ys) y (inr e) = elim (Bool-cases (text_eqb z.id y.id)) [
  | inl q ↦ rw q refl
  | inr q ↦ rw q (contains_of_Elem ys y e)
]

-- The operations of the devices that the frontier lacks, without those seen.
abbrev pub is_absent : Frontier → List Op → Op → Bool
is_absent f seen o =
    not (is_some (get o.device f)) && not (contains (map (λ (o : Op). o.id) seen) o.id)

-- Both parts of the answer, of the operations of the rows.
abbrev pub both : List Op → Frontier → List Op
both xs f = above_ops xs f ++ filter (is_absent f (above_ops xs f)) (sort_ops xs)

module _ (xs : List Op) (f : Frontier) (distinct : IsDistinct xs) (unique : IsUnique f) where
  -- No operation of a device that the frontier lacks was seen.
  not_seen :
      (x : Op)
      → ((y : Op) → Elem y xs → y.id ≡ y.hlc)
      → Elem x xs
      → get x.device f ≡ none
      → contains (map (λ (o : Op). o.id) (above_ops xs f)) x.id ≡ false
  not_seen x by_id m lacks =
      elim (Bool-cases (contains (map (λ (o : Op). o.id) (above_ops xs f)) x.id)) [
        | inr q ↦ q
        | inl q ↦
            let (y, e, same_id) = id_of_contains (above_ops xs f) x.id q in
            let (n, (h, at, above)) = Elem-above_ops xs f y e in
            let same = same_of_hlc xs y x distinct n m (sym (by_id y n) ∙ same_id ∙ by_id x m) in
            let found = get_of_Elem y.device h f unique at in
            let found' : get x.device f ≡ some h =
              ap (λ (o : Op). get o.device f) (sym same) ∙ found in
            absurd (ground (arith, lacks, found'))
      ]

  pub both-IsDistinct : IsDistinct (both xs f)
  both-IsDistinct =
      let q = is_absent f (above_ops xs f) in
      append-IsDistinct (above_ops xs f) (filter q (sort_ops xs))
        (above_ops-IsDistinct xs f distinct unique)
        (filter-IsDistinct q (sort_ops xs)
          (IsStrict-IsDistinct (sort_ops xs) (sort_ops-IsStrict xs distinct)))
        (λ x y i j.
          let (m, (h, at, above)) = Elem-above_ops xs f x i in
          let (n, lacks) = Elem-filter_inv q y (sort_ops xs) j in
          elim (Bool-cases (text_eqb x.hlc y.hlc)) [
            | inr apart ↦ apart
            | inl meet ↦
                let same =
                  same_of_hlc xs x y distinct m ((Elem-sort_ops y xs).0 n)
                    ((eqb_iff x.hlc y.hlc).0 meet) in
                let seen = contains_of_Elem (above_ops xs f) x i in
                let seen' : contains (map (λ (o : Op). o.id) (above_ops xs f)) y.id ≡ true =
                  subst (λ (o : Op). contains (map (λ (o : Op). o.id) (above_ops xs f)) o.id ≡ true)
                    same seen in
                absurd (ground arith)
          ])

  pub Elem-both :
      (x : Op)
      → ((y : Op) → Elem y xs → y.id ≡ y.hlc)
      → Elem x (both xs f) ↔ (Elem x xs × (above_frontier x f ≡ true))
  unfolding above_frontier
  Elem-both x by_id =
      let q = is_absent f (above_ops xs f) in
      (
        λ e. elim (Elem-append_inv x (above_ops xs f) (filter q (sort_ops xs)) e) [
          | inl i ↦
              let (m, (h, at, above)) = Elem-above_ops xs f x i in
              let found = get_of_Elem x.device h f unique at in (m, ground arith)
          | inr j ↦
              let (n, lacks) = Elem-filter_inv q x (sort_ops xs) j in
              ((Elem-sort_ops x xs).0 n, ground arith)
        ],
        λ e. elim (Option-cases (get x.device f)) [
          | inl lacks ↦
              let fresh = not_seen x by_id e.0 lacks in
              let kept : q x ≡ true = ground arith in
              Elem-append-right x (above_ops xs f) (filter q (sort_ops xs))
                (Elem-filter q x (sort_ops xs) ((Elem-sort_ops x xs).1 e.0) kept)
          | inr (h, found) ↦
              let above : text_ltb h x.hlc ≡ true = ground arith in
              Elem-append-left x (above_ops xs f) (filter q (sort_ops xs))
                (above_ops_of_Elem xs f x h e.0 (Elem-of_get x.device h f found) above)
        ],
      )
