-- ===== src/Tests/Schemas.antt =====
-- Schemas of packages/schema/src at a table of tasks.
use tangentfeed.Prelude.{
  ◌≡◌, refl, ◌↔◌, ◌⊎◌, inl, true, false, none, some, [], ◌∷◌, Text, codes, text_compare, Map, get,
  text_eqb, is_some, or_some, if◌then◌else◌,
}
use tangentfeed.Values.{Value, Items, Fields, end, property}
use tangentfeed.Errors.{ok}
use tangentfeed.Errors.Schemas.{FieldKind, Expected}
use tangentfeed.Schema.{
  Field, Shape, column, Schema, flags_of, string, boolean, array, optional, nullable, default,
  own_field,
}
use tangentfeed.Schema.Check.{Host, check_value}
use tangentfeed.Schema.Check.Typing.{HasType, ShapeType, check_value-HasType}
use tangentfeed.Schema.Validate.{validate_insert, validate_update, parse_row}
use tangentfeed.Schema.Validate
use tangentfeed.Schema.Validate.Writes.{default_of, get-validate_insert}
use tangentfeed.Schema.Validate.Rows.{RowKnown, parse_row_accepts}

-- Of what every object inherits, two names.
abbrev pub host : Host
host = record {
  inherited = λ n.
      if text_eqb n (codes "constructor")
      then some Value.other
      else if text_eqb n (codes "__proto__")
      then some Value.null
      else none;
  member = λ t n. false;
  in_value = λ v n. text_eqb n (codes "constructor");
}

abbrev pub title : Text
title = codes "title"

abbrev pub done : Text
done = codes "done"

abbrev pub tasks : Shape
tasks = column title string (
    column done (default (Value.boolean false) boolean)
      (column (codes "tags") (optional (nullable (array string))) Shape.nil))

abbrev pub schema : Schema
schema = (codes "tasks", tasks) ∷ []

abbrev pub given : Map Value
given = (title, Value.string (codes "write")) ∷ []

abbrev row : Fields
row = Fields.field (codes "id") (Value.string (codes "r")) (
    Fields.field title (Value.string (codes "write")) (Fields.field done (Value.boolean false) end))

-- A missing title is refused, and so is a number in its place.
refused :
    (validate_insert host schema (codes "tasks") []
      ≡ Validate.fail
          (codes "tasks")
          (some title)
          (Expected.kind FieldKind.string)
          (codes "undefined"))
    × (validate_update host schema (codes "tasks") ((title, Value.number 0) ∷ [])
        ≡ Validate.fail
            (codes "tasks")
            (some title)
            (Expected.kind FieldKind.string)
            (codes "number"))
unfolding Validate.program text_compare
refused = (refl, refl)

check_value-HasType_example :
    (check_value host (array string) (Value.array (Items.item (Value.number 1) Items.nil)) []
      ≡ none)
    ↔ HasType host (array string) (Value.array (Items.item (Value.number 1) Items.nil))
check_value-HasType_example =
    check_value-HasType host (array string) (Value.array (Items.item (Value.number 1) Items.nil)) []

get-validate_insert_example :
    (get done ((title, Value.string (codes "write")) ∷ (done, Value.boolean false) ∷ [])
      ≡ or_some (get done given) (default_of (own_field done tasks)))
    × ((v : Value)
        → get done given ≡ some v
        → (f : Field) × (own_field done tasks ≡ some f) × HasType host f v)
    × ((f : Field)
        → own_field done tasks ≡ some f
        → (is_some
              (get done ((title, Value.string (codes "write")) ∷ (done, Value.boolean false) ∷ []))
            ≡ true)
          ⊎ ((flags_of f).is_optional ≡ true))
unfolding Validate.program text_compare
get-validate_insert_example =
    get-validate_insert host tasks (codes "tasks") done refl refl schema given
      ((title, Value.string (codes "write")) ∷ (done, Value.boolean false) ∷ []) refl
      (refl, (refl, (refl, tt))) (refl, tt) refl refl refl

-- An object under `__proto__` becomes the prototype, where `in` finds the required title.
inherited_title :
    validate_insert host schema (codes "tasks") (
      (codes "__proto__", Value.object (Fields.field title (Value.string (codes "write")) end))
      ∷ [])
    ≡ ok ((done, Value.boolean false) ∷ [])
unfolding Validate.program text_compare property
inherited_title = refl

parse_row_accepts_example :
    (parse_row host tasks (Value.object row) ≡ inl row)
    ↔ ((Value.object row ≡ Value.object row) × RowKnown host tasks row × ShapeType host tasks row)
parse_row_accepts_example = parse_row_accepts host tasks (Value.object row) row
