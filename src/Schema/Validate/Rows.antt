-- ===== src/Schema/Validate/Rows.antt =====
-- Which rows `parseRow` of packages/schema/src/validate.ts accepts.
use tangentfeed.Prelude.{
  ◌≡◌, refl, sym, subst, ◌↔◌, ◌⊎◌, inl, true, Option, none, some, List, [], ◌∷◌, ◌++◌, arith, Text,
  codes, text_eqb,
}
use tangentfeed.Values.{Value, Fields, end}
use tangentfeed.Schema.{Field, Shape, column, flags_of}
use tangentfeed.Schema.Check.{Host, key, in_shape, member_of, as_fields}
use tangentfeed.Schema.Check.Typing.{
  HasType, ShapeType, InColumn, check_value-HasType, as_fields_iff,
}
use tangentfeed.Schema.Validate.{
  ParseIssue, unknown_columns, column_issues, declared_issues, row_issues, parsed, parse_row,
}

append-nil {ℓ} : {A : Type ℓ} (xs ys : List A) → (xs ++ ys ≡ []) ↔ ((xs ≡ []) × (ys ≡ []))
append-nil [] ys = ground arith
append-nil (x ∷ xs) ys = ground arith

module _ (host : Host) where
  -- Every key but `id` is declared, or inherited by every object.
  abbrev pub RowKnown : Shape → Fields → Type 0
  RowKnown s end = Unit
  RowKnown s (Fields.field k v fs) =
      ((text_eqb k (codes "id") ≡ true) ⊎ (in_shape host k s ≡ true)) × RowKnown s fs

  unknown_columns_iff : (s : Shape) (fs : Fields) → (unknown_columns host s fs ≡ []) ↔ RowKnown s fs
  unfolding unknown_columns
  unknown_columns_iff s end = (λ q. tt, λ t. refl)
  unknown_columns_iff s (Fields.field k v fs) =
      let h = unknown_columns_iff s fs in
      (
        λ q. (ground arith, h.0 (ground arith)),
        λ t. let r = h.1 t.1 in let k' = t.0 in ground arith,
      )

  column_issues_iff :
      (c : Text) (f : Field) (o : Option Value)
      → (column_issues host c f o ≡ [])
        ↔ InColumn (λ v. HasType host f v) (flags_of f).is_optional o
  unfolding column_issues
  column_issues_iff c f none = ground arith
  column_issues_iff c f (some v) =
      let h = check_value-HasType host f v (key c ∷ []) in
      (λ q. h.0 (ground arith), λ t. let q = h.1 t in ground arith)

  declared_issues_iff :
      (s : Shape) (fs : Fields) → (declared_issues host s fs ≡ []) ↔ ShapeType host s fs
  unfolding declared_issues ShapeType
  declared_issues_iff Shape.nil fs = (λ q. tt, λ t. refl)
  declared_issues_iff (column c f s) fs =
      let here = column_issues_iff c f (member_of host c fs) in
      let rest = declared_issues_iff s fs in
      let split =
        append-nil (column_issues host c f (member_of host c fs)) (declared_issues host s fs) in
      (λ q. (here.0 (split.0 q).0, rest.0 (split.0 q).1), λ t. split.1 (here.1 t.0, rest.1 t.1))

  parsed_iff :
      (o : Option Fields) (issues : List ParseIssue) (fs : Fields)
      → (parsed o issues ≡ inl fs) ↔ ((o ≡ some fs) × (issues ≡ []))
  parsed_iff (some gs) [] fs = ground arith
  parsed_iff none [] fs = ground arith
  parsed_iff none (i ∷ issues) fs = ground arith
  parsed_iff (some gs) (i ∷ issues) fs = ground arith

  -- A row is accepted, as the properties it has, exactly if it is an object whose keys other than `id` are
  -- declared or inherited by every object, and under each declared key it has a value that the field
  -- describes, or nothing and the field is optional.
  pub parse_row_accepts :
      (s : Shape) (row : Value) (fs : Fields)
      → (parse_row host s row ≡ inl fs)
        ↔ ((row ≡ Value.object fs) × RowKnown s fs × ShapeType host s fs)
  unfolding parse_row row_issues
  parse_row_accepts s row fs =
      let whole = parsed_iff (as_fields row) (row_issues host s (as_fields row) row) fs in
      let split = append-nil (unknown_columns host s fs) (declared_issues host s fs) in
      let known = unknown_columns_iff s fs in
      let typed = declared_issues_iff s fs in
      (
        λ q.
            let (at, clean) = whole.0 q in
            let clean' = split.0 (subst (λ o. row_issues host s o row ≡ []) at clean) in
            ((as_fields_iff host row fs).0 at, known.0 clean'.0, typed.0 clean'.1),
        λ t.
            let at = (as_fields_iff host row fs).1 t.0 in
            whole.1 (
              at,
              subst (λ o. row_issues host s o row ≡ []) (sym at)
                  (split.1 (known.1 t.1, typed.1 t.2)),
            ),
      )
