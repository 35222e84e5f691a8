-- ===== src/Engine/Reads.antt =====
-- The reads of packages/core/src/engine.ts (`get` and `list`), with `isEncryptedValue` of
-- packages/core/src/cipher.ts. The cipher is a parameter.
pub mod Rows
use tangentfeed.Prelude.{
  ℕ, ◌+◌, ◌%◌, ◌^◌, max, Bool, true, false, not, ◌&&◌, ◌||◌, Option, none, some, List, [], ◌∷◌,
  ◌++◌, Text, codes, Map, get, set, or_else, text_eqb, length, take, if◌then◌else◌,
}
use tangentfeed.Errors.{Error, Result, ok, err, ◌>>=◌}
use tangentfeed.Values.{Value, boolean, string, null}
use tangentfeed.Op.{Op, tombstone_column}
use tangentfeed.Storage.{MemoryAdapter, get_row, list_rows, list_tables}
use tangentfeed.Compaction.{sort_texts, is_true}
use tangentfeed.Engine.{SyncEngine, Cipher}

abbrev pub cipher_prefix : Text
cipher_prefix = codes "e1:"

-- `typeof v === "string" && v.startsWith(CIPHER_PREFIX)`
abbrev pub is_encrypted_value : Value → Bool
is_encrypted_value (string s) = text_eqb (take 3 s) cipher_prefix
is_encrypted_value _ = false

abbrev pub is_null : Value → Bool
is_null null = true
is_null _ = false

-- `cells.get(TOMBSTONE_COLUMN)?.value === true`
unfoldable pub is_tombstoned : Map Op → Bool
is_tombstoned cells = elim (get tombstone_column cells) [
  | none ↦ false
  | some op ↦ is_true op.value
]

-- `{ ...base, ...out }`
unfoldable pub spread : Map Value → Map Value → Map Value
spread base [] = base
spread base ((k, v) ∷ out) = spread (set k v base) out

abbrev pub proto : Text
proto = codes "__proto__"

module _ (cipher : Option Cipher) where
  -- `this.cipher && isEncryptedValue(op.value) ? this.cipher.decrypt(op.value, op.id) : op.value`
  pub opened_value : Op → Result Value
  opened_value op = elim cipher [
    | none ↦ ok op.value
    | some c ↦ if is_encrypted_value op.value then c.decrypt op.value op.id else ok op.value
  ]

  -- One round of the loop of `materialize`. Assigning `out["__proto__"]` adds no property.
  pub show_cell : Text → Op → Map Value → Result (Map Value)
  unfolding opened_value
  show_cell column op out =
      if text_eqb column tombstone_column then ok out else elim (opened_value op) [
        | err x ↦ err x
        | ok value ↦
            ok (if is_null value || text_eqb column proto then out else set column value out)
      ]

  unfoldable pub columns : Map Op → Map Value → Result (Map Value)
  unfolding show_cell
  columns [] out = ok out
  columns ((column, op) ∷ cells) out = show_cell column op out >>= λ next. columns cells next

  -- `{ id: row, ...out }`, in which a column named `id` takes the place of the row's id.
  unfoldable pub materialize : Text → Map Op → Result (Map Value)
  unfolding columns
  materialize row cells = do out ← columns cells []; ok (spread ((codes "id", string row) ∷ []) out)

  unfoldable pub get_visible : Text → Text → SyncEngine → Result (Option (Map Value))
  unfolding materialize
  get_visible table row e = elim (get_row table row e.storage) [
    | none ↦ ok none
    | some cells ↦
        if is_tombstoned cells
        then ok none
        else (materialize row cells >>= λ found. ok (some found))
  ]

  -- The loop of `list` over the sorted rows.
  pub list_from : Text → List Text → SyncEngine → Result (List (Map Value))
  unfolding get_visible
  list_from table [] e = ok []
  list_from table (row ∷ rows) e = do
    shown ← get_visible table row e
    rest ← list_from table rows e
    ok (elim shown [ none ↦ rest | some found ↦ found ∷ rest ])

  unfoldable pub list_visible : Text → SyncEngine → Result (List (Map Value))
  unfolding list_from
  list_visible table e = list_from table (sort_texts (list_rows table e.storage)) e
