-- ===== src/Schema/Validate/Writes.antt =====
-- What packages/schema/src/validate.ts lets through as a local write, and what it writes.
use tangentfeed.Prelude.{
  ◌≡◌, refl, sym, ap, ◌∙◌, subst, ◌⊎◌, inl, inr, true, false, Option, none, some, [], ◌∷◌, arith,
  Text, text_eqb, eqb_iff, eqb_refl, Map, get, has, or_else, or_some, is_some, get-set,
  set-IsUnique, IsUnique, Bool-cases, Option-cases, if◌then◌else◌,
}
use tangentfeed.Values.{Value}
use tangentfeed.Errors.{ok, ◌>>=◌, >>=-eq-ok}
use tangentfeed.Schema.{Field, Shape, column, Schema, flags_of, own_field}
use tangentfeed.Schema.Check.{Host, key}
use tangentfeed.Schema.Check.Typing.{HasType, check_value-HasType}
use tangentfeed.Schema.Validate.{
  Found, declared, Prototype, Out, new_out, in_prototype, proto, assign, table_shape, column_of,
  check_column, check_columns, fill_column, fill_columns, fill_found, validate_insert, is_empty,
  validate_update,
}

get-assign :
    (k c : Text) (v : Value) (out : Out)
    → text_eqb c proto ≡ false
    → get c (assign k v out).own ≡ (if text_eqb k c then some v else get c out.own)
unfolding assign
get-assign k c v out h =
    ground (arith, get-set k c v out.own, eqb_iff k c, eqb_iff k proto, eqb_iff c proto)

assign-prototype :
    (k : Text) (v : Value) (out : Out)
    → text_eqb k proto ≡ false
    → (assign k v out).prototype ≡ out.prototype
unfolding assign
assign-prototype k v out h = rw h refl

absent_key : (k : Text) (m : Map Value) → has k m ≡ false → get k m ≡ none
absent_key k m h = ground arith

or_some-none : (o : Option Value) → or_some o none ≡ o
or_some-none none = refl
or_some-none (some v) = refl

abbrev pub default_of : Option Field → Option Value
default_of none = none
default_of (some f) =
    if (flags_of f).has_default
    then some (or_else (flags_of f).default_value Value.undefined)
    else none

-- No column is declared twice.
abbrev pub IsUniqueShape : Shape → Type 0
IsUniqueShape Shape.nil = Unit
IsUniqueShape (column k f t) = (own_field k t ≡ none) × IsUniqueShape t

assign-IsUnique :
    (c : Text) (v : Value) (out : Out) → IsUnique out.own → IsUnique (assign c v out).own
unfolding assign
assign-IsUnique c v out u = ground (arith, set-IsUnique c v out.own u)

check_columns-IsUnique :
    (host : Host) (found : Found) (table : Text) (values : Map Value) (out out' : Out)
    → IsUnique out.own
    → check_columns host found table values out ≡ ok out'
    → IsUnique out'.own
unfolding check_columns
check_columns-IsUnique host found table [] out out' u h =
    let same : out ≡ out' = ground arith in subst (λ (m : Out). IsUnique m.own) same u
check_columns-IsUnique host found table ((c, v) ∷ values) out out' u h =
    let (done, checked, rest) = >>=-eq-ok (check_column host found table c v) _ h in
    check_columns-IsUnique host found table values (assign c v out) out' (assign-IsUnique c v out u)
      rest

has-assign :
    (k c : Text) (v : Value) (out : Out)
    → has c (assign k v out).own ≡ true
    → (text_eqb k c ≡ true) ⊎ (has c out.own ≡ true)
unfolding assign
has-assign k c v out h = ground (arith, get-set k c v out.own)

has-check_columns :
    (host : Host) (found : Found) (table c : Text) (values : Map Value) (out out' : Out)
    → check_columns host found table values out ≡ ok out'
    → has c out'.own ≡ true
    → (has c values ≡ true) ⊎ (has c out.own ≡ true)
unfolding check_columns get
has-check_columns host found table c [] out out' h t =
    let same : out ≡ out' = ground arith in
    inr (subst (λ (m : Out). has c m.own ≡ true) (sym same) t)
has-check_columns host found table c ((k, v) ∷ values) out out' h t =
    let (done, checked, rest) = >>=-eq-ok (check_column host found table k v) _ h in
    elim (has-check_columns host found table c values (assign k v out) out' rest t) [
      | inl q ↦ inl (ground arith)
      | inr q ↦ elim (has-assign k c v out q) [ inl r ↦ inl (rw r refl) | inr r ↦ inr r ]
    ]

-- The object that an update's values are read off.
updated_from :
    (host : Host) (found : Found) (table : Text) (values out : Map Value)
    → (check_columns host found table values new_out >>= λ made. ok made.own) ≡ ok out
    → (made : Out) × (check_columns host found table values new_out ≡ ok made) × (made.own ≡ out)
updated_from host found table values out h =
    let (made, checked, rest) = >>=-eq-ok (check_columns host found table values new_out) _ h in
    (made, checked, ground arith)

-- No value under `__proto__` leaves the prototype as it was.
check_columns-prototype :
    (host : Host) (found : Found) (table : Text) (values : Map Value) (out out' : Out)
    → has proto values ≡ false
    → check_columns host found table values out ≡ ok out'
    → out'.prototype ≡ out.prototype
unfolding check_columns get
check_columns-prototype host found table [] out out' n h =
    let same : out ≡ out' = ground arith in ap (λ (o : Out). o.prototype) (sym same)
check_columns-prototype host found table ((k, v) ∷ values) out out' n h =
    let (done, checked, rest) = >>=-eq-ok (check_column host found table k v) _ h in
    let other : text_eqb k proto ≡ false = ground arith in
    let none_later : has proto values ≡ false = ground arith in
    check_columns-prototype host found table values (assign k v out) out' none_later rest
    ∙ assign-prototype k v out other

-- What is let through was given.
pub has-validate_update :
    (host : Host) (schema : Schema) (table c : Text) (values out : Map Value)
    → validate_update host schema table values ≡ ok out
    → has c out ≡ true
    → has c values ≡ true
unfolding validate_update get
has-validate_update host schema table c values out h t =
    let (found, looked, rest) = >>=-eq-ok (table_shape host schema table) _ h in
    let (made, checked, same) = updated_from host found table values out (ground arith) in
    elim (has-check_columns host found table c values new_out made checked
      (subst (λ m. has c m ≡ true) (sym same) t)) [ inl q ↦ q | inr q ↦ absurd (ground arith) ]

-- What is let through has no column twice.
pub validate_update-IsUnique :
    (host : Host) (schema : Schema) (table : Text) (values out : Map Value)
    → validate_update host schema table values ≡ ok out
    → IsUnique out
unfolding validate_update
validate_update-IsUnique host schema table values out h =
    let (found, looked, rest) = >>=-eq-ok (table_shape host schema table) _ h in
    let (made, checked, same) = updated_from host found table values out (ground arith) in
    subst (λ m. IsUnique m) same
      (check_columns-IsUnique host found table values new_out made tt checked)

module _ (host : Host) (s : Shape) (table c : Text) (plain : text_eqb c proto ≡ false)
    (own : host.inherited c ≡ none) where
  -- A column that passes is declared, and its value is one that its field describes.
  check_column-known :
      (v : Value)
      → check_column host (declared s) table c v ≡ ok tt
      → (f : Field) × (own_field c s ≡ some f) × HasType host f v
  unfolding check_column column_of
  check_column-known v h = elim (Option-cases (own_field c s)) [
    | inl q ↦ absurd (ground arith)
    | inr (f, q) ↦ (f, q, (check_value-HasType host f v (key c ∷ [])).0 (ground arith))
  ]

  get-check_columns :
      (values : Map Value) (out out' : Out)
      → IsUnique values
      → check_columns host (declared s) table values out ≡ ok out'
      → get c out'.own ≡ or_some (get c values) (get c out.own)
  unfolding check_columns get
  get-check_columns [] out out' u h = ground arith
  get-check_columns ((k, v) ∷ values) out out' u h =
      let (done, checked, rest) = >>=-eq-ok (check_column host (declared s) table k v) _ h in
      get-check_columns values (assign k v out) out' u.1 rest ∙ elim (Bool-cases (text_eqb k c)) [
        | inl e ↦
            let gone : get c values ≡ none =
              absent_key c values (subst (λ j. has j values ≡ false) ((eqb_iff k c).0 e) u.0) in
            rw (e, gone) (get-assign k c v out plain ∙ rw e refl)
        | inr e ↦ rw e (ap (λ o. or_some (get c values) o) (get-assign k c v out plain ∙ rw e refl))
      ]

  -- Every column that is let through has a value that its field describes.
  checked_columns :
      (values : Map Value) (out out' : Out)
      → check_columns host (declared s) table values out ≡ ok out'
      → (v : Value) → get c values ≡ some v
      → (f : Field) × (own_field c s ≡ some f) × HasType host f v
  unfolding check_columns get
  checked_columns [] out out' h v g = absurd (ground arith)
  checked_columns ((k, w) ∷ values) out out' h v g =
      let (done, checked, rest) = >>=-eq-ok (check_column host (declared s) table k w) _ h in
      elim (Bool-cases (text_eqb k c)) [
        | inl e ↦
            let same : w ≡ v = ground arith in
            check_column-known v (
              subst (λ x. check_column host (declared s) table c x ≡ ok tt) same
                (subst (λ j. check_column host (declared s) table j w ≡ ok tt) ((eqb_iff k c).0 e)
                  checked))
        | inr e ↦ checked_columns values (assign k w out) out' rest v (ground arith)
      ]

  -- What `fill_columns` finds for a column, by the field that declares it.
  declared_filled :
      (out out' : Out)
      → fill_found host table (declared s) out ≡ ok out'
      → fill_columns host table s out ≡ ok out'
  unfolding fill_found
  declared_filled out out' h = h

  no_more : (o : Option Value) → or_some o (get c []) ≡ o
  unfolding get
  no_more o = or_some-none o

  get-fill_column_self :
      (f : Field) (out next : Out)
      → out.prototype ≡ Prototype.ordinary
      → fill_column host table c f out ≡ ok next
      → (get c next.own ≡ or_some (get c out.own) (default_of (some f)))
        × ((is_some (get c next.own) ≡ true) ⊎ ((flags_of f).is_optional ≡ true))
  unfolding fill_column in_prototype
  get-fill_column_self f out next usual h =
      let reached : in_prototype host c out.prototype ≡ false =
        ap (in_prototype host c) usual ∙ ap is_some own in
      let g = get-assign c c (or_else (flags_of f).default_value Value.undefined) out plain in
      (ground (arith, eqb_refl c), ground (arith, eqb_refl c))

  get-fill_column_other :
      (k : Text) (f : Field) (out next : Out)
      → text_eqb k c ≡ false
      → fill_column host table k f out ≡ ok next
      → get c next.own ≡ get c out.own
  unfolding fill_column
  get-fill_column_other k f out next e h =
      let g = get-assign k c (or_else (flags_of f).default_value Value.undefined) out plain in
      ground arith

  fill_column-prototype :
      (k : Text) (f : Field) (out next : Out)
      → text_eqb k proto ≡ false
      → fill_column host table k f out ≡ ok next
      → next.prototype ≡ out.prototype
  unfolding fill_column
  fill_column-prototype k f out next other h =
      let kept =
        assign-prototype k (or_else (flags_of f).default_value Value.undefined) out other in
      ground arith

  get-fill_columns :
      (t : Shape) (out out' : Out)
      → out.prototype ≡ Prototype.ordinary
      → own_field proto t ≡ none
      → IsUniqueShape t
      → fill_columns host table t out ≡ ok out'
      → (get c out'.own ≡ or_some (get c out.own) (default_of (own_field c t)))
        × ((f : Field)
            → own_field c t ≡ some f
            → (is_some (get c out'.own) ≡ true) ⊎ ((flags_of f).is_optional ≡ true))
  unfolding fill_columns own_field
  get-fill_columns Shape.nil out out' usual lacks u h = (ground arith, λ f q. absurd (ground arith))
  get-fill_columns (column k f t) out out' usual lacks u h =
      let (next, filled, rest) = >>=-eq-ok (fill_column host table k f out) _ h in
      let other : text_eqb k proto ≡ false = ground arith in
      let (later, needed) =
        get-fill_columns t next out' (fill_column-prototype k f out next other filled ∙ usual)
          (ground arith) u.1 rest in
      elim (Bool-cases (text_eqb k c)) [
        | inl e ↦
            let q : k ≡ c = (eqb_iff k c).0 e in
            let gone : own_field c t ≡ none = subst (λ j. own_field j t ≡ none) q u.0 in
            let (now, there) =
              get-fill_column_self f out next usual
                (subst (λ j. fill_column host table j f out ≡ ok next) q filled) in
            let kept : get c out'.own ≡ get c next.own =
              later ∙ rw gone (or_some-none (get c next.own)) in
            (
              kept ∙ now ∙ rw e refl,
              λ g p.
                  let same : f ≡ g = ground arith in
                  subst
                    (λ (x : Field).
                      (is_some (get c out'.own) ≡ true) ⊎ ((flags_of x).is_optional ≡ true))
                    same
                    (subst
                      (λ (o : Option Value). (is_some o ≡ true) ⊎ ((flags_of f).is_optional ≡ true))
                      (sym kept) there),
            )
        | inr e ↦
            let same = get-fill_column_other k f out next e filled in
            (
              later ∙ rw e (ap (λ o. or_some o (default_of (own_field c t))) same),
              λ g p. needed g (ground arith),
            )
      ]

  -- What `validateInsert` lets through into a declared table, column by column: the value given, which
  -- is one that the column's field describes, or else the field's default; and only an optional column is
  -- left out. The columns are those that no object inherits, neither the values nor the table have
  -- one twice, and neither has one under the name __proto__.
  pub get-validate_insert :
      (schema : Schema) (values out : Map Value)
      → get table schema ≡ some s
      → IsUniqueShape s
      → IsUnique values
      → has proto values ≡ false
      → own_field proto s ≡ none
      → validate_insert host schema table values ≡ ok out
      → (get c out ≡ or_some (get c values) (default_of (own_field c s)))
        × ((v : Value)
            → get c values ≡ some v
            → (f : Field) × (own_field c s ≡ some f) × HasType host f v)
        × ((f : Field)
            → own_field c s ≡ some f
            → (is_some (get c out) ≡ true) ⊎ ((flags_of f).is_optional ≡ true))
  unfolding validate_insert table_shape
  get-validate_insert schema values out at us uv unset undeclared h =
      let (found, looked, rest) = >>=-eq-ok (table_shape host schema table) _ h in
      let is : declared s ≡ found = ground arith in
      let (mid, checked, filled) =
        >>=-eq-ok (check_columns host found table values new_out) _ rest in
      let (full, all_filled, last) = >>=-eq-ok (fill_found host table found mid) _ filled in
      let same : full.own ≡ out = ground arith in
      let checked' =
        subst (λ x. check_columns host x table values new_out ≡ ok mid) (sym is) checked in
      let filled' = subst (λ x. fill_found host table x mid ≡ ok full) (sym is) all_filled in
      let usual =
        check_columns-prototype host (declared s) table values new_out mid unset checked' in
      let (now, needed) =
        get-fill_columns s mid full usual undeclared us (declared_filled mid full filled') in
      (
        ap (get c) (sym same)
            ∙ now
            ∙ ap (λ o. or_some o (default_of (own_field c s)))
                (get-check_columns values new_out mid uv checked' ∙ no_more (get c values)),
        checked_columns values new_out mid checked',
        subst
            (λ m.
              (f : Field)
              → own_field c s ≡ some f
              → (is_some (get c m) ≡ true) ⊎ ((flags_of f).is_optional ≡ true))
            same needed,
      )

  -- What `validateUpdate` lets through is not empty, and is what was given: no default is filled in; each
  -- value is one that its column's field describes. The conditions are those of an insert.
  pub get-validate_update :
      (schema : Schema) (values out : Map Value)
      → get table schema ≡ some s
      → IsUnique values
      → validate_update host schema table values ≡ ok out
      → (is_empty values ≡ false)
        × (get c out ≡ get c values)
        × ((v : Value)
            → get c values ≡ some v
            → (f : Field) × (own_field c s ≡ some f) × HasType host f v)
  unfolding validate_update table_shape
  get-validate_update schema values out at uv h =
      let (found, looked, rest) = >>=-eq-ok (table_shape host schema table) _ h in
      let is : declared s ≡ found = ground arith in
      let some_given : is_empty values ≡ false = ground arith in
      let (made, checked, same) = updated_from host found table values out (ground arith) in
      let checked' =
        subst (λ x. check_columns host x table values new_out ≡ ok made) (sym is) checked in
      (
        some_given,
        ap (get c) (sym same)
            ∙ get-check_columns values new_out made uv checked'
            ∙ no_more (get c values),
        checked_columns values new_out made checked',
      )
