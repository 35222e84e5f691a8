-- ===== src/Errors/Schemas.antt =====
-- `SchemaError` of packages/schema/src/validate.ts, as data: what was expected is kept as the case and the
-- names that its text is made of.
use tangentfeed.Prelude.{Option, List, Text}
use tangentfeed.Values.{Value}

pub data FieldKind : Type 0 where
  string number boolean array object enum : FieldKind

pub data Expected : Type 0 where
  kind missing : FieldKind → Expected
  one_of_values : List Value → Expected
  one_of_names : List Text → Expected
  finite_number no_such_key no_such_column one_column no_kind : Expected

pub record SchemaError : Type 0 where
  pub table : Text
  pub column : Option Text
  pub expected : Expected
  pub received : Text
