-- ===== src/Schema/Check/Typing.antt =====
-- Which values a field describes, said without the code, and that `checkValue` of
-- packages/schema/src/validate.ts decides it.
use tangentfeed.Prelude.{
  ℕ, suc, ◌≡◌, refl, sym, subst, ◌↔◌, ◌⊎◌, inl, inr, Bool, true, false, Option, none, some, List,
  [], ◌∷◌, ◌++◌, arith, Text, or_else, or_some, is_some, any, any_of_Elem, Elem, Bool-cases,
  if◌then◌else◌,
}
use tangentfeed.Values.{Value, Items, Fields, nil, item, end, is_finite}
use tangentfeed.Errors.Schemas.{FieldKind, Expected}
use tangentfeed.Schema.{
  Flags, Field, field, Element, no_element, element, Inner, no_shape, shape, Shape, column,
  flags_of,
}
use tangentfeed.Schema.Check.{
  Host, Segment, key, index, Issue, bad, is_null, as_text, as_boolean, as_number, check_number,
  same_value, check_items, as_array, as_fields, check_array, check_object, check_kind, member_of,
  in_shape, unknown_key, check_value, check_element, check_inner, check_shape,
}

abbrev pub AllItems : (Value → Type 0) → Items → Type 0
AllItems P nil = Unit
AllItems P (item v xs) = P v × AllItems P xs

abbrev pub IsKind :
    FieldKind → (Value → Type 0) → (Fields → Type 0) → Option (List Value) → Value → Type 0
IsKind FieldKind.string P Q vs v = (s : Text) × (v ≡ Value.string s)
IsKind FieldKind.boolean P Q vs v = (b : Bool) × (v ≡ Value.boolean b)
IsKind FieldKind.number P Q vs v = (n : ℕ) × (v ≡ Value.number n) × (is_finite n ≡ true)
IsKind FieldKind.enum P Q vs v = (a : Value) × Elem a (or_else vs []) × (same_value a v ≡ true)
IsKind FieldKind.array P Q vs v = (xs : Items) × (v ≡ Value.array xs) × AllItems P xs
IsKind FieldKind.object P Q vs v = (fs : Fields) × (v ≡ Value.object fs) × Q fs

-- A declared key: what the object has under it, or nothing if the field is optional.
abbrev pub InColumn : (Value → Type 0) → Bool → Option Value → Type 0
InColumn P is_optional none = is_optional ≡ true
InColumn P is_optional (some v) = P v

some_injective {ℓ} : {A : Type ℓ} (a b : A) → some a ≡ some b → a ≡ b
some_injective a b h = ground arith

Elem-of_any :
    (p : Value → Bool) (vs : List Value) → any p vs ≡ true → (a : Value) × Elem a vs × (p a ≡ true)
unfolding any
Elem-of_any p [] h = absurd (ground arith)
Elem-of_any p (a ∷ vs) h = elim (Bool-cases (p a)) [
  | inl q ↦ (a, inl refl, q)
  | inr q ↦ let (b, m, r) = Elem-of_any p vs (ground arith) in (b, inr m, r)
]

null_of : (v : Value) → is_null v ≡ true → v ≡ Value.null
null_of v h = ground arith

value_of {ℓ} : {A : Type ℓ} (o : Option A) → is_some o ≡ true → (a : A) × (o ≡ some a)
value_of none h = absurd (ground arith)
value_of (some a) h = (a, refl)

module _ (host : Host) where
  -- Every own key is declared, or inherited by every object.
  abbrev pub AllKnown : Shape → Fields → Type 0
  AllKnown s end = Unit
  AllKnown s (Fields.field k v fs) = (in_shape host k s ≡ true) × AllKnown s fs

  unfoldable mutual
    pub HasType : Field → Value → Type 0
    HasType (field k fl e i vs) v =
        ((v ≡ Value.null) × (fl.is_nullable ≡ true))
        ⊎ ((is_null v ≡ false) × IsKind k (ElementType e) (InnerType i) vs v)

    pub ElementType : Element → Value → Type 0
    ElementType no_element v = Unit
    ElementType (element f) v = HasType f v

    pub InnerType : Inner → Fields → Type 0
    InnerType no_shape fs = Unit
    InnerType (shape s) fs = AllKnown s fs × ShapeType s fs

    pub ShapeType : Shape → Fields → Type 0
    ShapeType Shape.nil fs = Unit
    ShapeType (column k f s) fs =
        InColumn (λ v. HasType f v) (flags_of f).is_optional (member_of host k fs) × ShapeType s fs

  -- A check that may be missing accepts everything.
  abbrev run {ℓ} :
      {A : Type ℓ} → Option (A → List Segment → Option Issue) → A → List Segment → Option Issue
  run none a path = none
  run (some check) a path = check a path

  or_some-none : (a b : Option Issue) → (or_some a b ≡ none) ↔ ((a ≡ none) × (b ≡ none))
  or_some-none a b = ground arith

  all_items_none :
      (i : ℕ) (path : List Segment) (xs : Items) → check_items (λ v p. none) i path xs ≡ none
  unfolding check_items
  all_items_none i path nil = refl
  all_items_none i path (item v xs) = all_items_none (suc i) path xs

  check_items_iff :
      (check : Value → List Segment → Option Issue) (P : Value → Type 0)
      → ((v : Value) (path : List Segment) → (check v path ≡ none) ↔ P v)
      → (i : ℕ) (path : List Segment) (xs : Items)
      → (check_items check i path xs ≡ none) ↔ AllItems P xs
  unfolding check_items
  check_items_iff check P h i path nil = (λ e. tt, λ t. refl)
  check_items_iff check P h i path (item v xs) =
      let first = h v (path ++ index i ∷ []) in
      let rest = check_items_iff check P h (suc i) path xs in
      let split =
        or_some-none (check v (path ++ index i ∷ [])) (check_items check (suc i) path xs) in
      (λ e. (first.0 (split.0 e).0, rest.0 (split.0 e).1), λ t. split.1 (first.1 t.0, rest.1 t.1))

  as_text_iff : (v : Value) (x : Text) → (as_text v ≡ some x) ↔ (v ≡ Value.string x)
  as_text_iff v x = ground arith

  as_boolean_iff : (v : Value) (x : Bool) → (as_boolean v ≡ some x) ↔ (v ≡ Value.boolean x)
  as_boolean_iff v x = ground arith

  as_number_iff : (v : Value) (x : ℕ) → (as_number v ≡ some x) ↔ (v ≡ Value.number x)
  as_number_iff v x = ground arith

  check_number_iff :
      (path : List Segment) (o : Option ℕ)
      → (check_number path o ≡ none) ↔ ((n : ℕ) × (o ≡ some n) × (is_finite n ≡ true))
  check_number_iff path none = ((λ q. absurd (ground arith)), λ t. absurd (ground arith))
  check_number_iff path (some n) = (
    λ q. (n, refl, ground arith),
    λ t. let e : n ≡ t.0 = some_injective _ _ t.1 in rw (e, t.2) refl,
  )

  as_array_iff : (v : Value) (xs : Items) → (as_array v ≡ some xs) ↔ (v ≡ Value.array xs)
  as_array_iff v xs = ground arith

  pub as_fields_iff : (v : Value) (fs : Fields) → (as_fields v ≡ some fs) ↔ (v ≡ Value.object fs)
  as_fields_iff v fs = ground arith

  check_array_iff :
      (e : Option (Value → List Segment → Option Issue)) (P : Value → Type 0)
      → ((v : Value) (path : List Segment) → (run e v path ≡ none) ↔ P v)
      → (path : List Segment) (o : Option Items)
      → (check_array e path o ≡ none) ↔ ((xs : Items) × (o ≡ some xs) × AllItems P xs)
  check_array_iff e P h path none = ((λ q. absurd (ground arith)), λ t. absurd (ground arith))
  check_array_iff none P h path (some xs) = (
    λ q. (xs, refl, (check_items_iff (λ v p. none) P h 0 path xs).0 (all_items_none 0 path xs)),
    λ t. refl,
  )
  check_array_iff (some check) P h path (some xs) = (
    λ q. (xs, refl, (check_items_iff check P h 0 path xs).0 q),
    λ t.
        (check_items_iff check P h 0 path xs).1
          (subst (AllItems P) (sym (some_injective _ _ t.1)) t.2),
  )

  check_object_iff :
      (i : Option (Fields → List Segment → Option Issue)) (Q : Fields → Type 0)
      → ((fs : Fields) (path : List Segment) → (run i fs path ≡ none) ↔ Q fs)
      → (path : List Segment) (o : Option Fields)
      → (check_object i path o ≡ none) ↔ ((fs : Fields) × (o ≡ some fs) × Q fs)
  check_object_iff i Q h path none = ((λ q. absurd (ground arith)), λ t. absurd (ground arith))
  check_object_iff none Q h path (some fs) = (λ q. (fs, refl, (h fs path).0 refl), λ t. refl)
  check_object_iff (some check) Q h path (some fs) = (
    λ q. (fs, refl, (h fs path).0 q),
    λ t. (h fs path).1 (subst Q (sym (some_injective _ _ t.1)) t.2),
  )

  any_iff :
      (p : Value → Bool) (vs : List Value)
      → (any p vs ≡ true) ↔ ((a : Value) × Elem a vs × (p a ≡ true))
  any_iff p vs = (Elem-of_any p vs, λ t. any_of_Elem p t.0 vs t.1 t.2)

  check_kind_iff :
      (k : FieldKind) (e : Option (Value → List Segment → Option Issue)) (P : Value → Type 0)
      → ((v : Value) (path : List Segment) → (run e v path ≡ none) ↔ P v)
      → (i : Option (Fields → List Segment → Option Issue)) (Q : Fields → Type 0)
      → ((fs : Fields) (path : List Segment) → (run i fs path ≡ none) ↔ Q fs)
      → (vs : Option (List Value)) (path : List Segment) (v : Value)
      → (check_kind k e i vs path v ≡ none) ↔ IsKind k P Q vs v
  unfolding check_kind
  check_kind_iff FieldKind.string e P he i Q hi vs path v = (
    λ q. let (x, at) = value_of (as_text v) (ground arith) in (x, (as_text_iff v x).0 at),
    λ t. rw ((as_text_iff v t.0).1 t.1) refl,
  )
  check_kind_iff FieldKind.boolean e P he i Q hi vs path v = (
    λ q. let (x, at) = value_of (as_boolean v) (ground arith) in (x, (as_boolean_iff v x).0 at),
    λ t. rw ((as_boolean_iff v t.0).1 t.1) refl,
  )
  check_kind_iff FieldKind.number e P he i Q hi vs path v = (
    λ q.
        let t = (check_number_iff path (as_number v)).0 q in
        (t.0, (as_number_iff v t.0).0 t.1, t.2),
    λ t. (check_number_iff path (as_number v)).1 (t.0, (as_number_iff v t.0).1 t.1, t.2),
  )
  check_kind_iff FieldKind.enum e P he i Q hi vs path v =
      let h = any_iff (λ a. same_value a v) (or_else vs []) in
      (λ q. h.0 (ground arith), λ t. rw (h.1 t) refl)
  check_kind_iff FieldKind.array e P he i Q hi vs path v =
      let h = check_array_iff e P he path (as_array v) in
      (
        λ q. let t = h.0 q in (t.0, (as_array_iff v t.0).0 t.1, t.2),
        λ t. h.1 (t.0, (as_array_iff v t.0).1 t.1, t.2),
      )
  check_kind_iff FieldKind.object e P he i Q hi vs path v =
      let h = check_object_iff i Q hi path (as_fields v) in
      (
        λ q. let t = h.0 q in (t.0, (as_fields_iff v t.0).0 t.1, t.2),
        λ t. h.1 (t.0, (as_fields_iff v t.0).1 t.1, t.2),
      )

  null_iff :
      (k : FieldKind) (fl : Flags) (path : List Segment) (v : Value) (o : Option Issue) (K : Type 0)
      → ((o ≡ none) ↔ K)
      → ((if is_null v then (if fl.is_nullable then none else bad path (Expected.kind k)) else o)
          ≡ none)
        ↔ (((v ≡ Value.null) × (fl.is_nullable ≡ true)) ⊎ ((is_null v ≡ false) × K))
  null_iff k fl path v o K h = elim (Bool-cases (is_null v)) [
    | inl q ↦ (
      λ e. inl (null_of v q, ground arith),
      λ t. elim t [ inl n ↦ rw (q, n.1) refl | inr n ↦ absurd (ground arith) ],
    )
    | inr q ↦ (
      λ e. inr (q, h.0 (ground arith)),
      λ t. elim t [ inl n ↦ absurd (ground arith) | inr n ↦ rw q (h.1 n.1) ],
    )
  ]

  unknown_key_iff :
      (s : Shape) (path : List Segment) (fs : Fields)
      → (unknown_key host s path fs ≡ none) ↔ AllKnown s fs
  unfolding unknown_key
  unknown_key_iff s path end = (λ q. tt, λ t. refl)
  unknown_key_iff s path (Fields.field k v fs) =
      let h = unknown_key_iff s path fs in
      (λ q. (ground arith, h.0 (ground arith)), λ t. rw t.0 (h.1 t.1))

  InColumn-iff :
      (check : Value → List Segment → Option Issue) (P : Value → Type 0)
      → ((v : Value) (path : List Segment) → (check v path ≡ none) ↔ P v)
      → (b : Bool) (x : Issue) (path : List Segment) (later : Option Issue) (o : Option Value)
      → ((elim o [ none ↦ if b then later else some x | some v ↦ or_some (check v path) later ])
          ≡ none)
        ↔ (InColumn P b o × (later ≡ none))
  InColumn-iff check P h b x path later none = ground arith
  InColumn-iff check P h b x path later (some v) =
      let split = or_some-none (check v path) later in
      let first = h v path in
      (λ q. (first.0 (split.0 q).0, (split.0 q).1), λ t. split.1 (first.1 t.0, t.1))

  mutual
    unfolding check_value check_element check_inner check_shape HasType ElementType InnerType
        ShapeType

    value_iff :
        (f : Field) (v : Value) (path : List Segment)
        → (check_value host f v path ≡ none) ↔ HasType f v
    value_iff (field k fl e i vs) v path =
        let h =
          check_kind_iff k (check_element host e) (ElementType e) (element_iff e)
            (check_inner host i) (InnerType i) (inner_iff i) vs path v in
        null_iff k fl path v _ _ h

    element_iff :
        (e : Element) (v : Value) (path : List Segment)
        → (run (check_element host e) v path ≡ none) ↔ ElementType e v
    element_iff no_element v path = (λ q. tt, λ t. refl)
    element_iff (element f) v path = value_iff f v path

    inner_iff :
        (i : Inner) (fs : Fields) (path : List Segment)
        → (run (check_inner host i) fs path ≡ none) ↔ InnerType i fs
    inner_iff no_shape fs path = (λ q. tt, λ t. refl)
    inner_iff (shape s) fs path =
        let split = or_some-none (unknown_key host s path fs) (check_shape host s fs path) in
        let known = unknown_key_iff s path fs in
        let typed = shape_iff s fs path in
        (
          λ q. (known.0 (split.0 q).0, typed.0 (split.0 q).1),
          λ t. split.1 (known.1 t.0, typed.1 t.1),
        )

    shape_iff :
        (s : Shape) (fs : Fields) (path : List Segment)
        → (check_shape host s fs path ≡ none) ↔ ShapeType s fs
    shape_iff Shape.nil fs path = (λ q. tt, λ t. refl)
    shape_iff (column k f s) fs path =
        let rest = shape_iff s fs path in
        let here =
          InColumn-iff (λ v p. check_value host f v p) (λ v. HasType f v) (value_iff f)
            (flags_of f).is_optional _ (path ++ key k ∷ []) (check_shape host s fs path)
            (member_of host k fs) in
        (λ q. let t = here.0 q in (t.0, rest.0 t.1), λ t. here.1 (t.0, rest.1 t.1))

  -- A value passes the check against a field exactly if the field describes it.
  pub check_value-HasType :
      (f : Field) (v : Value) (path : List Segment)
      → (check_value host f v path ≡ none) ↔ HasType f v
  check_value-HasType f v path = value_iff f v path
