-- ===== src/Schema.antt =====
-- packages/schema/src/builders.ts: field descriptors and their builders. What the type parameters of the
-- source track is not there when the code runs.
pub mod Check
pub mod Validate
use tangentfeed.Prelude.{
  Bool, true, false, Option, none, some, List, Text, Map, text_eqb, if◌then◌else◌,
}
use tangentfeed.Values.{Value}
use tangentfeed.Errors.Schemas.{FieldKind}

pub record Flags : Type 0 where
  pub is_optional : Bool
  pub is_nullable : Bool
  pub has_default : Bool
  pub default_value : Option Value

-- `element` and `shape` may be missing from a descriptor, and so may the values of an enum.
mutual
  pub data Field : Type 0 where
    field : FieldKind → Flags → Element → Inner → Option (List Value) → Field

  pub data Element : Type 0 where
    no_element : Element
    element : Field → Element

  pub data Inner : Type 0 where
    no_shape : Inner
    shape : Shape → Inner

  -- `Record<string, AnyField>`, in the order of its keys
  pub data Shape : Type 0 where
    nil : Shape
    column : Text → Field → Shape → Shape

abbrev pub Schema : Type 0
Schema = Map Shape

abbrev pub flags_of : Field → Flags
flags_of (field k fl e i vs) = fl

abbrev pub kind_of : Field → FieldKind
kind_of (field k fl e i vs) = k

-- The constructor, with none of the options given.
abbrev pub plain : Flags
plain = record {
  is_optional = false;
  is_nullable = false;
  has_default = false;
  default_value = none;
}

-- `clone` with another set of flags.
abbrev pub with_flags : Field → Flags → Field
with_flags (field k fl e i vs) fl' = field k fl' e i vs

abbrev pub optional : Field → Field
optional f = with_flags f (record (flags_of f) { is_optional = true })

abbrev pub nullable : Field → Field
nullable f = with_flags f (record (flags_of f) { is_nullable = true })

abbrev pub default : Value → Field → Field
default v f = with_flags f (record (flags_of f) { has_default = true; default_value = some v })

abbrev pub string : Field
string = field FieldKind.string plain no_element no_shape none

abbrev pub number : Field
number = field FieldKind.number plain no_element no_shape none

abbrev pub boolean : Field
boolean = field FieldKind.boolean plain no_element no_shape none

abbrev pub array : Field → Field
array f = field FieldKind.array plain (element f) no_shape none

abbrev pub object : Shape → Field
object s = field FieldKind.object plain no_element (shape s) none

abbrev pub enum : List Value → Field
enum vs = field FieldKind.enum plain no_element no_shape (some vs)

-- `shape[name]`, of the shape's own properties.
unfoldable pub own_field : Text → Shape → Option Field
own_field name nil = none
own_field name (column k f s) = if text_eqb k name then some f else own_field name s
