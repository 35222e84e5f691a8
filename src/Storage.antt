-- ===== src/Storage.antt =====
-- packages/core/src/storage.ts: the `MemoryAdapter`, the reference behind the `StorageAdapter`
-- interface. A method that writes returns the new state.
pub mod Keys
pub mod Cells
pub mod Batches
pub mod Listing
pub mod Writes
pub mod Strict
use tangentfeed.Prelude.{
  ℕ, zero, suc, Bool, true, false, Option, none, some, List, [], ◌∷◌, ◌++◌, foldl, Text, Map, get,
  set, delete, or_else, is_some, has, keys, values, text_ltb, filter, length, ◌==◌, if◌then◌else◌,
}
use tangentfeed.Signing.{DeviceKey}
use tangentfeed.Op.{Op, Frontier, above_frontier}

pub record ClockState : Type 0 where
  pub millis : ℕ
  pub counter : ℕ

pub record BatchWrite : Type 0 where
  pub ops : List Op
  pub winners : Map Op
  pub frontier : Frontier
  pub clock : ClockState

pub record CompactionWrite : Type 0 where
  pub op_ids : List Text
  pub cell_keys : List Text

-- table, then row, then column, then the winning operation
abbrev pub Tables : Type 0
Tables = Map (Map (Map Op))

pub record MemoryAdapter : Type 0 where
  pub ops_by_id : Map Op
  pub tables : Tables
  pub frontier : Frontier
  pub clock : Option ClockState
  pub device_key : Option DeviceKey
  pub peer_frontiers : Map Frontier

abbrev pub empty_store : MemoryAdapter
empty_store = record {
  ops_by_id = [];
  tables = [];
  frontier = [];
  clock = none;
  device_key = none;
  peer_frontiers = [];
}

-- "\u0000"
abbrev pub sep : ℕ
sep = 0

unfoldable pub cell_key : Text → Text → Text → Text
cell_key table row column = table ++ sep ∷ (row ++ sep ∷ column)

abbrev pub cons_head : ℕ → List Text → List Text
cons_head c [] = []
cons_head c (s ∷ ss) = (c ∷ s) ∷ ss

-- `key.split(SEP)`
unfoldable pub split : Text → List Text
split [] = [] ∷ []
split (c ∷ s) = let rest = split s in if c == sep then [] ∷ rest else cons_head c rest

-- `const [table, row, column] = …`. The source would read `undefined` from a key with fewer parts,
-- which `cell_key` never gives; here that reads as the empty text.
abbrev pub three : List Text → Text × Text × Text
three [] = ([], [], [])
three (t ∷ []) = (t, [], [])
three (t ∷ r ∷ []) = (t, r, [])
three (t ∷ r ∷ c ∷ rest) = (t, r, c)

-- One round of the loop of `applyBatch` over the winners.
pub set_cell : Text → Text → Text → Op → Tables → Tables
set_cell table row column op tables =
    let rows = or_else (get table tables) [] in
    let cells = or_else (get row rows) [] in set table (set row (set column op cells) rows) tables

abbrev is_empty {ℓ} : {V : Type ℓ} → Map V → Bool
is_empty [] = true
is_empty (e ∷ m) = false

-- One round of the loop of `compact` over the cells.
pub delete_cell : Text → Text → Text → Tables → Tables
delete_cell table row column tables =
    let rows = or_else (get table tables) [] in
    let cells = delete column (or_else (get row rows) []) in
    let rows' = if is_empty cells then delete row rows else set row cells rows in
    if is_empty rows' then delete table tables else set table rows' tables

-- A round with the key taken apart.
pub set_cell_at : Text → Op → Tables → Tables
set_cell_at key op tables = let (t, r, c) = three (split key) in set_cell t r c op tables

unfoldable pub delete_cell_at : Text → Tables → Tables
delete_cell_at key tables = let (t, r, c) = three (split key) in delete_cell t r c tables

unfoldable pub set_ops : List Op → Map Op → Map Op
set_ops [] m = m
set_ops (op ∷ ops) m = set_ops ops (set op.id op m)

unfoldable pub set_cells : Map Op → Tables → Tables
set_cells [] tables = tables
set_cells ((key, op) ∷ winners) tables = set_cells winners (set_cell_at key op tables)

unfoldable pub delete_ops : List Text → Map Op → Map Op
delete_ops [] m = m
delete_ops (id ∷ ids) m = delete_ops ids (delete id m)

unfoldable pub delete_cells : List Text → Tables → Tables
delete_cells [] tables = tables
delete_cells (key ∷ ks) tables = delete_cells ks (delete_cell_at key tables)

-- `out.sort((a, b) => a.hlc < b.hlc ? -1 : a.hlc > b.hlc ? 1 : 0)`, which is stable
unfoldable pub insert_op : Op → List Op → List Op
insert_op op [] = op ∷ []
insert_op op (x ∷ xs) = if text_ltb x.hlc op.hlc then x ∷ insert_op op xs else op ∷ x ∷ xs

unfoldable pub sort_ops : List Op → List Op
sort_ops [] = []
sort_ops (x ∷ xs) = insert_op x (sort_ops xs)

unfoldable pub get_row : Text → Text → MemoryAdapter → Option (Map Op)
get_row table row st = elim (get table st.tables) [ none ↦ none | some rows ↦ get row rows ]

unfoldable pub list_rows : Text → MemoryAdapter → List Text
list_rows table st = keys (or_else (get table st.tables) [])

unfoldable pub list_tables : MemoryAdapter → List Text
list_tables st = keys st.tables

unfoldable pub has_op : Text → MemoryAdapter → Bool
has_op id st = has id st.ops_by_id

-- The winner in nested maps; `getWinner` reads it off the state.
unfoldable pub cell_of : Text → Text → Text → Tables → Option Op
cell_of table row column tables = elim (get table tables) [
  | none ↦ none
  | some rows ↦ elim (get row rows) [ none ↦ none | some cells ↦ get column cells ]
]

unfoldable pub get_winner : Text → Text → Text → MemoryAdapter → Option Op
get_winner table row column st = cell_of table row column st.tables

unfoldable pub ops_since : Frontier → MemoryAdapter → List Op
ops_since frontier st = sort_ops (filter (λ op. above_frontier op frontier) (values st.ops_by_id))

unfoldable pub all_ops : MemoryAdapter → List Op
all_ops st = sort_ops (values st.ops_by_id)

unfoldable pub op_count : MemoryAdapter → ℕ
op_count st = length st.ops_by_id

unfoldable pub set_device_key : DeviceKey → MemoryAdapter → MemoryAdapter
set_device_key key st = record st { device_key = some key }

unfoldable pub set_peer_frontier : Text → Frontier → MemoryAdapter → MemoryAdapter
set_peer_frontier peer frontier st = record st {
  peer_frontiers = set peer frontier st.peer_frontiers;
}

unfoldable pub compact : CompactionWrite → MemoryAdapter → MemoryAdapter
compact write st = record st {
  ops_by_id = delete_ops write.op_ids st.ops_by_id;
  tables = delete_cells write.cell_keys st.tables;
}

unfoldable pub apply_batch : BatchWrite → MemoryAdapter → MemoryAdapter
apply_batch batch st = record st {
  ops_by_id = set_ops batch.ops st.ops_by_id;
  tables = set_cells batch.winners st.tables;
  frontier = batch.frontier;
  clock = some batch.clock;
}

-- Opened as a whole by the tests that run the adapter.
unfoldable pub program : Unit {0}
unfolding get set delete filter cell_key split set_cell delete_cell set_cell_at delete_cell_at
    set_ops set_cells delete_ops delete_cells insert_op sort_ops get_row list_rows list_tables
    has_op cell_of get_winner ops_since all_ops op_count set_device_key set_peer_frontier compact
    apply_batch above_frontier
program = tt
