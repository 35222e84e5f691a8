-- ===== src/Schema/Check.antt =====
-- `checkValue` of packages/schema/src/validate.ts.
pub mod Typing
use tangentfeed.Prelude.{
  ℕ, suc, ◌+◌, ◌*◌, ◌^◌, Bool, true, false, not, ◌&&◌, ◌||◌, Option, none, some, List, [], ◌∷◌,
  ◌++◌, Text, or_else, or_some, is_some, text_eqb, any, ltb, ◌==◌, ◌%◌, if◌then◌else◌,
}
use tangentfeed.Values.{Value, Items, Fields, nil, item, end, is_finite, property}
use tangentfeed.Errors.Schemas.{FieldKind, Expected}
use tangentfeed.Schema.{
  Flags, Field, field, Element, no_element, element, Inner, no_shape, shape, Shape, column,
  flags_of, kind_of, own_field,
}

-- What every object has by inheritance, and what the object has that it inherits under a name; and whether
-- `name in value` for a value that is an array or a function.
pub record Host : Type 0 where
  pub inherited : Text → Option Value
  pub member : Text → Text → Bool
  pub in_value : Value → Text → Bool

-- A step of the path to the value that is wrong.
pub data Segment : Type 0 where
  key : Text → Segment
  index : ℕ → Segment

pub record Issue : Type 0 where
  pub path : List Segment
  pub expected : Expected

abbrev pub bad : List Segment → Expected → Option Issue
bad path expected = some (record { path = path; expected = expected })

abbrev pub is_null : Value → Bool
is_null Value.null = true
is_null _ = false

-- `typeof value === "string"`, and of the other two, with what the value is
abbrev pub as_text : Value → Option Text
as_text (Value.string s) = some s
as_text _ = none

abbrev pub as_boolean : Value → Option Bool
as_boolean (Value.boolean b) = some b
as_boolean _ = none

abbrev pub as_number : Value → Option ℕ
as_number (Value.number n) = some n
as_number _ = none

abbrev pub check_number : List Segment → Option ℕ → Option Issue
check_number path none = bad path (Expected.kind FieldKind.number)
check_number path (some n) = if not (is_finite n) then bad path Expected.finite_number else none

-- The two zeros are one number for `includes`, and so are the values that are not a number.
pub same_number : ℕ → ℕ → Bool
same_number a b =
    a == b
    || (a % 2 ^ 63 == 0 && b % 2 ^ 63 == 0)
    || (ltb (2047 * 2 ^ 52) (a % 2 ^ 63) && ltb (2047 * 2 ^ 52) (b % 2 ^ 63))

-- The equality of `includes` on texts and numbers.
unfoldable pub same_value : Value → Value → Bool
unfolding same_number
same_value (Value.string s) (Value.string t) = text_eqb s t
same_value (Value.number a) (Value.number b) = same_number a b
same_value _ _ = false

-- The loop over the items of an array.
pub check_items : (Value → List Segment → Option Issue) → ℕ → List Segment → Items → Option Issue
check_items check i path nil = none
check_items check i path (item v xs) =
    or_some (check v (path ++ index i ∷ [])) (check_items check (suc i) path xs)

-- `Array.isArray(value)`, with the items
abbrev pub as_array : Value → Option Items
as_array (Value.array xs) = some xs
as_array _ = none

-- `typeof value === "object"` of a value that is neither null nor an array, with the properties
abbrev pub as_fields : Value → Option Fields
as_fields (Value.object fs) = some fs
as_fields _ = none

abbrev pub check_array :
    Option (Value → List Segment → Option Issue) → List Segment → Option Items → Option Issue
check_array check path none = bad path (Expected.kind FieldKind.array)
check_array none path (some xs) = none
check_array (some check) path (some xs) = check_items check 0 path xs

abbrev pub check_object :
    Option (Fields → List Segment → Option Issue) → List Segment → Option Fields → Option Issue
check_object check path none = bad path (Expected.kind FieldKind.object)
check_object none path (some fs) = none
check_object (some check) path (some fs) = check fs path

-- The `switch`, with what is checked inside an array or an object.
pub check_kind :
    FieldKind
    → Option (Value → List Segment → Option Issue)
    → Option (Fields → List Segment → Option Issue)
    → Option (List Value)
    → List Segment
    → Value
    → Option Issue
unfolding check_items
check_kind FieldKind.string e i vs path v =
    if is_some (as_text v) then none else bad path (Expected.kind FieldKind.string)
check_kind FieldKind.boolean e i vs path v =
    if is_some (as_boolean v) then none else bad path (Expected.kind FieldKind.boolean)
check_kind FieldKind.number e i vs path v = check_number path (as_number v)
check_kind FieldKind.enum e i vs path v =
    if any (λ a. same_value a v) (or_else vs [])
    then none
    else bad path (Expected.one_of_values (or_else vs []))
check_kind FieldKind.array e i vs path v = check_array e path (as_array v)
check_kind FieldKind.object e i vs path v = check_object i path (as_fields v)

module _ (host : Host) where
  -- `record[name]`, where `none` is that `name in record` is false
  unfoldable pub member_of : Text → Fields → Option Value
  member_of name fs = or_some (property name fs) (host.inherited name)

  -- `name in shape`
  unfoldable pub in_shape : Text → Shape → Bool
  in_shape name s = is_some (own_field name s) || is_some (host.inherited name)

  -- The loop over the keys of an object.
  pub unknown_key : Shape → List Segment → Fields → Option Issue
  unfolding in_shape
  unknown_key s path end = none
  unknown_key s path (Fields.field k v fs) =
      if not (in_shape k s)
      then bad (path ++ key k ∷ []) Expected.no_such_key
      else unknown_key s path fs

  unfoldable mutual
    unfolding check_kind member_of unknown_key

    pub check_value : Field → Value → List Segment → Option Issue
    check_value (field k fl e i vs) v path =
        if is_null v
        then (if fl.is_nullable then none else bad path (Expected.kind k))
        else check_kind k (check_element e) (check_inner i) vs path v

    pub check_element : Element → Option (Value → List Segment → Option Issue)
    check_element no_element = none
    check_element (element f) = some (λ v path. check_value f v path)

    pub check_inner : Inner → Option (Fields → List Segment → Option Issue)
    check_inner no_shape = none
    check_inner (shape s) =
        some (λ fs path. or_some (unknown_key s path fs) (check_shape s fs path))

    -- The loop over the entries of the shape.
    pub check_shape : Shape → Fields → List Segment → Option Issue
    check_shape Shape.nil fs path = none
    check_shape (column k f s) fs path =
        let later = check_shape s fs path in
        elim (member_of k fs) [
          | none ↦
              if (flags_of f).is_optional
              then later
              else bad (path ++ key k ∷ []) (Expected.missing (kind_of f))
          | some v ↦ or_some (check_value f v (path ++ key k ∷ [])) later
        ]
