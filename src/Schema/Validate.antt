-- ===== src/Schema/Validate.antt =====
-- Local writes and read rows against a schema: the rest of packages/schema/src/validate.ts.
pub mod Writes
pub mod Rows
use tangentfeed.Prelude.{
  ℕ, Bool, true, false, not, ◌&&◌, ◌||◌, Option, none, some, List, [], ◌∷◌, ◌++◌, Text, codes, Map,
  get, set, has, keys, or_else, or_some, is_some, text_eqb, ◌⊎◌, inl, inr, if◌then◌else◌,
}
use tangentfeed.Values.{Value, Items, Fields, end, property}
use tangentfeed.Errors.{Result, ok, err, Error, schema_error, ◌>>=◌, ◌>>◌}
use tangentfeed.Errors.Schemas.{FieldKind, Expected, SchemaError}
use tangentfeed.Schema.{Flags, Field, Shape, column, Schema, flags_of, kind_of, own_field}
use tangentfeed.Schema.Check.{
  Host, Segment, key, Issue, check_value, in_shape, member_of, as_fields,
}

-- `describe`. The values that the model does not tell apart are functions here.
pub describe : Value → Text
describe Value.null = codes "null"
describe (Value.array xs) = codes "array"
describe Value.undefined = codes "undefined"
describe (Value.boolean b) = codes "boolean"
describe (Value.number n) = codes "number"
describe (Value.string s) = codes "string"
describe (Value.object fs) = codes "object"
describe Value.other = codes "function"

-- `schema[table]`: an own property, or what every object inherits under the name, which has no
-- entries of its own.
pub data Found : Type 0 where
  declared : Shape → Found
  foreign : Text → Found

-- `shape[column]`: a field, or something else that is there, or nothing.
pub data Column : Type 0 where
  known : Field → Column
  inherited absent : Column

abbrev pub fail {ℓ} : {A : Type ℓ} → Text → Option Text → Expected → Text → Result A
fail table c expected received =
    err (
      schema_error (record { table = table; column = c; expected = expected; received = received }))

pub shape_keys : Shape → List Text
shape_keys Shape.nil = []
shape_keys (column k f s) = k ∷ shape_keys s

abbrev pub found_keys : Found → List Text
unfolding shape_keys
found_keys (declared s) = shape_keys s
found_keys (foreign t) = []

-- What `out` inherits from: what every object does, nothing, or a value that it was given under `__proto__`.
pub data Prototype : Type 0 where
  ordinary no_prototype : Prototype
  set_to : Value → Prototype

-- The object `out`, by its own properties and its prototype.
pub record Out : Type 0 where
  pub own : Map Value
  pub prototype : Prototype

abbrev pub new_out : Out
new_out = record { own = []; prototype = Prototype.ordinary }

abbrev pub proto : Text
proto = codes "__proto__"

-- Whether `out.__proto__` is the accessor that every object inherits.
abbrev pub has_accessor : Prototype → Bool
has_accessor Prototype.ordinary = true
has_accessor Prototype.no_prototype = false
has_accessor (set_to (Value.object fs)) = not (is_some (property proto fs))
has_accessor (set_to v) = true

-- What the accessor makes of a value: one that is no object leaves the prototype as it is.
abbrev pub next_prototype : Value → Prototype → Prototype
next_prototype Value.null old = Prototype.no_prototype
next_prototype (Value.object fs) old = set_to (Value.object fs)
next_prototype (Value.array xs) old = set_to (Value.array xs)
next_prototype Value.other old = set_to Value.other
next_prototype v old = old

-- `out[column] = value`
unfoldable pub assign : Text → Value → Out → Out
assign c v out =
    if text_eqb c proto && not (has proto out.own) && has_accessor out.prototype
    then record out { prototype = next_prototype v out.prototype }
    else record out { own = set c v out.own }

abbrev pub is_empty : Map Value → Bool
is_empty [] = true
is_empty (e ∷ m) = false

module _ (host : Host) where
  unfoldable pub table_shape : Schema → Text → Result Found
  table_shape schema table = elim (get table schema) [
    | some s ↦ ok (declared s)
    | none ↦
        if is_some (host.inherited table)
        then ok (foreign table)
        else fail table none (Expected.one_of_names (keys schema)) table
  ]

  pub column_of : Found → Text → Column
  column_of (declared s) c = elim (own_field c s) [
    | some f ↦ known f
    | none ↦ if is_some (host.inherited c) then inherited else absent
  ]
  column_of (foreign t) c = if host.member t c then inherited else absent

  -- `checkValue` on something that is no field: it has no flag and no kind, so that only null fails.
  abbrev pub foreign_issue : Value → Option Expected
  foreign_issue Value.null = some Expected.no_kind
  foreign_issue _ = none

  -- One round of the loop of `checkColumns`.
  unfoldable pub check_column : Found → Text → Text → Value → Result (Unit {0})
  unfolding column_of describe
  check_column found table c v = elim (column_of found c) [
    | absent ↦ fail table (some c) (Expected.one_of_names (found_keys found)) c
    | known f ↦ elim (check_value host f v (key c ∷ [])) [
      | none ↦ ok tt
      | some i ↦ fail table (some c) i.expected (describe v)
    ]
    | inherited ↦ elim (foreign_issue v) [
      | none ↦ ok tt
      | some expected ↦ fail table (some c) expected (describe v)
    ]
  ]

  unfoldable pub check_columns : Found → Text → Map Value → Out → Result Out
  unfolding check_column assign
  check_columns found table [] out = ok out
  check_columns found table ((c, v) ∷ values) out =
      check_column found table c v >> check_columns found table values (assign c v out)

  -- `column in out`
  pub in_prototype : Text → Prototype → Bool
  in_prototype c Prototype.ordinary = is_some (host.inherited c)
  in_prototype c Prototype.no_prototype = false
  in_prototype c (set_to (Value.object fs)) = is_some (property c fs) || is_some (host.inherited c)
  in_prototype c (set_to v) = host.in_value v c

  abbrev pub in_out : Text → Out → Bool
  unfolding in_prototype
  in_out c out = has c out.own || in_prototype c out.prototype

  -- One round of the loop of `validateInsert`.
  unfoldable pub fill_column : Text → Text → Field → Out → Result Out
  unfolding assign in_prototype
  fill_column table c f out =
      if in_out c out
      then ok out
      else if (flags_of f).has_default
      then ok (assign c (or_else (flags_of f).default_value Value.undefined) out)
      else if (flags_of f).is_optional
      then ok out
      else fail table (some c) (Expected.kind (kind_of f)) (codes "undefined")

  -- The loop over the declared columns.
  unfoldable pub fill_columns : Text → Shape → Out → Result Out
  unfolding fill_column
  fill_columns table Shape.nil out = ok out
  fill_columns table (column c f s) out =
      fill_column table c f out >>= λ next. fill_columns table s next

  pub fill_found : Text → Found → Out → Result Out
  unfolding fill_columns
  fill_found table (declared s) out = fill_columns table s out
  fill_found table (foreign t) out = ok out

  -- The result by its own properties, which are what `Object.entries` reads of it.
  unfoldable pub validate_insert : Schema → Text → Map Value → Result (Map Value)
  unfolding table_shape check_columns fill_found
  validate_insert schema table values = do
    found ← table_shape schema table
    out ← check_columns found table values new_out
    filled ← fill_found table found out
    ok filled.own

  unfoldable pub validate_update : Schema → Text → Map Value → Result (Map Value)
  unfolding table_shape check_columns
  validate_update schema table values = do
    found ← table_shape schema table
    if is_empty values
        then fail table none Expected.one_column (codes "{}")
        else (check_columns found table values new_out >>= λ out. ok out.own)

pub record ParseIssue : Type 0 where
  pub path : List Segment
  pub expected : Expected
  pub received : Text

-- `issues.length === 0 ? … : …`
abbrev pub parsed : Option Fields → List ParseIssue → Fields ⊎ List ParseIssue
parsed (some fs) [] = inl fs
parsed none [] = inr []
parsed o (i ∷ issues) = inr (i ∷ issues)

module _ (host : Host) where
  -- The keys of the row that the shape does not have; `id` is the engine's.
  pub unknown_columns : Shape → Fields → List ParseIssue
  unfolding describe
  unknown_columns s end = []
  unknown_columns s (Fields.field k v fs) =
      let rest = unknown_columns s fs in
      if not (text_eqb k (codes "id")) && not (in_shape host k s)
      then record { path = key k ∷ []; expected = Expected.no_such_column; received = describe v }
        ∷ rest
      else rest

  pub column_issues : Text → Field → Option Value → List ParseIssue
  unfolding describe
  column_issues c f none =
      if (flags_of f).is_optional
      then []
      else record {
        path = key c ∷ [];
        expected = Expected.kind (kind_of f);
        received = codes "undefined";
      }
        ∷ []
  column_issues c f (some v) = elim (check_value host f v (key c ∷ [])) [
    | none ↦ []
    | some i ↦ record { path = i.path; expected = i.expected; received = describe v } ∷ []
  ]

  -- The loop over the declared columns.
  pub declared_issues : Shape → Fields → List ParseIssue
  unfolding column_issues
  declared_issues Shape.nil fs = []
  declared_issues (column c f s) fs =
      column_issues c f (member_of host c fs) ++ declared_issues s fs

  pub row_issues : Shape → Option Fields → Value → List ParseIssue
  unfolding unknown_columns declared_issues describe
  row_issues s none row =
      record { path = []; expected = Expected.kind FieldKind.object; received = describe row } ∷ []
  row_issues s (some fs) row = unknown_columns s fs ++ declared_issues s fs

  -- `parseRow`: the row, or every issue.
  unfoldable pub parse_row : Shape → Value → Fields ⊎ List ParseIssue
  unfolding row_issues
  parse_row s row = parsed (as_fields row) (row_issues s (as_fields row) row)

-- Opened as a whole by the tests that run the checks.
unfoldable pub program : Unit {0}
unfolding validate_insert validate_update table_shape check_columns check_column column_of
    check_value own_field assign in_prototype fill_found fill_columns fill_column describe get set
    parse_row shape_keys
program = tt
