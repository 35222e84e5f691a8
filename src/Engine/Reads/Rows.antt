-- ===== src/Engine/Reads/Rows.antt =====
-- What a row read by packages/core/src/engine.ts shows of its cells.
use tangentfeed.Prelude.{◌||◌, Option, none, some, Text, text_eqb, Map, get, if◌then◌else◌}
use tangentfeed.Errors.{ok, err}
use tangentfeed.Values.{Value}
use tangentfeed.Op.{Op, tombstone_column}
use tangentfeed.Engine.{Cipher}
use tangentfeed.Engine.Reads.{opened_value, is_null, proto}

module _ (cipher : Option Cipher) where
  -- What a cell shows under its column.
  abbrev pub visible : Text → Op → Option Value
  visible column op =
      if text_eqb column tombstone_column || text_eqb column proto
      then none
      else elim (opened_value cipher op) [
        | err x ↦ none
        | ok value ↦ if is_null value then none else some value
      ]

  abbrev pub visible_of : Text → Option Op → Option Value
  visible_of column none = none
  visible_of column (some op) = visible column op

  abbrev pub visible_in : Text → Map Op → Option Value
  visible_in column cells = visible_of column (get column cells)
