-- ===== src/Idb.antt =====
-- packages/adapter-idb/src/index.ts: the adapter over IndexedDB. A transaction that writes commits as a
-- whole. Every method that writes is one such transaction, but for setPeerFrontier, which reads in one and writes in
-- another.
pub mod Documented
pub mod Writes
pub mod Listing
pub mod Rows
use tangentfeed.Prelude.{
  ℕ, ◌+◌, ◌<◌, zero, Bool, true, false, Option, none, some, List, [], ◌∷◌, ◌++◌, Text, codes, Map,
  set, or_else, is_some, values, filter, length, drop, ltb, ◌==◌, if◌then◌else◌,
}
use tangentfeed.Signing.{DeviceKey}
use tangentfeed.Op.{Op, Frontier, above_frontier}
use tangentfeed.Storage.{ClockState, BatchWrite, CompactionWrite, sep, cell_key}
use tangentfeed.Compaction.{add, but_last}

-- An object store of IndexedDB: its records by their keys, and what its requests give. A cursor visits the
-- records whose keys are in a range, both ends included.
pub record ObjectStore (V : Type 0) : Type 1 where
  pub State : Type 0
  pub blank : State
  pub get_at : Text → State → Option V
  pub put_at : Text → V → State → State
  pub delete_at : Text → State → State
  pub count_at : Text → State → ℕ
  pub count : State → ℕ
  pub cursor : Option (Text × Text) → State → Map V

-- What the store "meta" has under "frontier", "clock", "deviceKey" and "peers".
pub data Meta : Type 0 where
  frontier_value : Frontier → Meta
  clock_value : ClockState → Meta
  key_value : DeviceKey → Meta
  peers_value : Map Frontier → Meta

-- The stores of `createObjectStore`. A record of the cells is its key with its operation.
pub record Factory : Type 1 where
  pub ops : ObjectStore Op
  pub cells : ObjectStore Op
  pub meta : ObjectStore Meta

-- "\uffff"
abbrev pub high : Text
high = 65535 ∷ []

abbrev pub is_blank : Text → Bool
is_blank [] = true
is_blank (c ∷ s) = false

-- `IDBKeyRange.bound(prefix, prefix + HIGH)`
abbrev pub range_of : Text → Option (Text × Text)
range_of prefix = if is_blank prefix then none else some (prefix, prefix ++ high)

abbrev pub as_frontier : Option Meta → Option Frontier
as_frontier (some (frontier_value f)) = some f
as_frontier _ = none

abbrev pub as_clock : Option Meta → Option ClockState
as_clock (some (clock_value c)) = some c
as_clock _ = none

abbrev pub as_key : Option Meta → Option DeviceKey
as_key (some (key_value k)) = some k
as_key _ = none

abbrev pub as_peers : Option Meta → Option (Map Frontier)
as_peers (some (peers_value m)) = some m
as_peers _ = none

-- What stands before the first separator.
pub before_sep : Text → Option Text
before_sep [] = none
before_sep (c ∷ s) =
    let rest = before_sep s in
    if c == sep then some [] else elim rest [ none ↦ none | some t ↦ some (c ∷ t) ]

-- `s.slice(0, s.indexOf(SEP))`, where an index of -1 leaves out the last unit
unfoldable pub until_sep : Text → Text
unfolding before_sep
until_sep s = or_else (before_sep s) (but_last s)

-- The loop of `getRow`.
pub columns_from : ℕ → Map Op → Map Op → Map Op
columns_from n [] out = out
columns_from n ((key, op) ∷ entries) out = columns_from n entries (set (drop n key) op out)

-- The loop of `listRows`.
pub rows_from : ℕ → Map Op → List Text → List Text
unfolding until_sep
rows_from n [] rows = rows
rows_from n ((key, op) ∷ entries) rows = rows_from n entries (add rows (until_sep (drop n key)))

-- The loop of `listTables`.
pub tables_from : Map Op → List Text → List Text
unfolding until_sep
tables_from [] tables = tables
tables_from ((key, op) ∷ entries) tables = tables_from entries (add tables (until_sep key))

abbrev pub row_from : ℕ → Map Op → Option (Map Op)
unfolding columns_from
row_from n [] = none
row_from n (e ∷ entries) = some (columns_from n (e ∷ entries) [])

abbrev pub row_prefix : Text → Text → Text
row_prefix table row = table ++ sep ∷ (row ++ sep ∷ [])

abbrev pub table_prefix : Text → Text
table_prefix table = table ++ sep ∷ []

module _ (factory : Factory) where
  pub record IdbAdapter : Type 0 where
    pub ops : factory.ops.State
    pub cells : factory.cells.State
    pub meta : factory.meta.State

  abbrev pub new_database : IdbAdapter
  new_database = record {
    ops = factory.ops.blank;
    cells = factory.cells.blank;
    meta = factory.meta.blank;
  }

  unfoldable pub range_scan : Text → IdbAdapter → Map Op
  range_scan prefix db = factory.cells.cursor (range_of prefix) db.cells

  unfoldable pub get_row : Text → Text → IdbAdapter → Option (Map Op)
  unfolding range_scan columns_from
  get_row table row db =
      let prefix = row_prefix table row in row_from (length prefix) (range_scan prefix db)

  unfoldable pub list_rows : Text → IdbAdapter → List Text
  unfolding range_scan rows_from
  list_rows table db =
      let prefix = table_prefix table in rows_from (length prefix) (range_scan prefix db) []

  unfoldable pub list_tables : IdbAdapter → List Text
  unfolding range_scan tables_from
  list_tables db = tables_from (range_scan [] db) []

  unfoldable pub has_op : Text → IdbAdapter → Bool
  has_op id db = ltb 0 (factory.ops.count_at id db.ops)

  unfoldable pub get_winner : Text → Text → Text → IdbAdapter → Option Op
  get_winner table row column db = factory.cells.get_at (cell_key table row column) db.cells

  unfoldable pub ops_since : Frontier → IdbAdapter → List Op
  ops_since frontier db =
      filter (λ op. above_frontier op frontier) (values (factory.ops.cursor none db.ops))

  unfoldable pub get_meta : Text → IdbAdapter → Option Meta
  get_meta name db = factory.meta.get_at name db.meta

  unfoldable pub get_frontier : IdbAdapter → Frontier
  unfolding get_meta
  get_frontier db = or_else (as_frontier (get_meta (codes "frontier") db)) []

  unfoldable pub get_clock : IdbAdapter → Option ClockState
  unfolding get_meta
  get_clock db = as_clock (get_meta (codes "clock") db)

  unfoldable pub get_device_key : IdbAdapter → Option DeviceKey
  unfolding get_meta
  get_device_key db = as_key (get_meta (codes "deviceKey") db)

  unfoldable pub put_meta : Text → Meta → IdbAdapter → IdbAdapter
  put_meta name value db = record db { meta = factory.meta.put_at name value db.meta }

  unfoldable pub set_device_key : DeviceKey → IdbAdapter → IdbAdapter
  unfolding put_meta
  set_device_key key db = put_meta (codes "deviceKey") (key_value key) db

  unfoldable pub op_count : IdbAdapter → ℕ
  op_count db = factory.ops.count db.ops

  unfoldable pub all_ops : IdbAdapter → List Op
  all_ops db = values (factory.ops.cursor none db.ops)

  unfoldable pub get_peer_frontiers : IdbAdapter → Map Frontier
  unfolding get_meta
  get_peer_frontiers db = or_else (as_peers (get_meta (codes "peers") db)) []

  -- The transaction of `setPeerFrontier` that writes; `current` is what the one before it has read.
  unfoldable pub put_peer : Text → Frontier → Map Frontier → IdbAdapter → IdbAdapter
  unfolding put_meta
  put_peer peer frontier current db =
      put_meta (codes "peers") (peers_value (set peer frontier current)) db

  -- The two transactions with no other between them; one that came between them with another peer would be
  -- overwritten.
  unfoldable pub set_peer_frontier : Text → Frontier → IdbAdapter → IdbAdapter
  unfolding put_peer get_peer_frontiers
  set_peer_frontier peer frontier db = put_peer peer frontier (get_peer_frontiers db) db

  pub put_ops : List Op → factory.ops.State → factory.ops.State
  put_ops [] s = s
  put_ops (op ∷ ops) s = put_ops ops (factory.ops.put_at op.id op s)

  pub put_cells : Map Op → factory.cells.State → factory.cells.State
  put_cells [] s = s
  put_cells ((key, op) ∷ winners) s = put_cells winners (factory.cells.put_at key op s)

  pub remove_ops : List Text → factory.ops.State → factory.ops.State
  remove_ops [] s = s
  remove_ops (id ∷ ids) s = remove_ops ids (factory.ops.delete_at id s)

  pub remove_cells : List Text → factory.cells.State → factory.cells.State
  remove_cells [] s = s
  remove_cells (key ∷ ks) s = remove_cells ks (factory.cells.delete_at key s)

  unfoldable pub compact : CompactionWrite → IdbAdapter → IdbAdapter
  unfolding remove_ops remove_cells
  compact write db = record db {
    ops = remove_ops write.op_ids db.ops;
    cells = remove_cells write.cell_keys db.cells;
  }

  unfoldable pub apply_batch : BatchWrite → IdbAdapter → IdbAdapter
  unfolding put_ops put_cells
  apply_batch batch db = record {
    ops = put_ops batch.ops db.ops;
    cells = put_cells batch.winners db.cells;
    meta =
        factory.meta.put_at (codes "clock") (clock_value batch.clock)
          (factory.meta.put_at (codes "frontier") (frontier_value batch.frontier) db.meta);
  }
