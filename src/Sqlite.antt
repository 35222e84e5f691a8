-- ===== src/Sqlite.antt =====
-- packages/adapter-sqlite/src/index.ts: the adapter over SQLite. A table is the list of its rows, and each prepared
-- statement is a function of it; where a query has no ORDER BY the order is that of the list. Texts that are ordered
-- are ASCII, for which the order of SQLite is that of the code units.
pub mod Queries
pub mod Listing
use tangentfeed.Prelude.{
  ℕ, ◌+◌, Bool, true, false, not, ◌&&◌, ◌||◌, Option, none, some, List, [], ◌∷◌, ◌++◌, map, Text,
  codes, Map, get, set, keys, or_else, is_some, filter, any, length, text_eqb, text_ltb,
  if◌then◌else◌,
}
use tangentfeed.Values.{Value}
use tangentfeed.Signing.{Bytes, DeviceKey, hex}
use tangentfeed.Replicator.{unhex}
use tangentfeed.Op.{Op, Frontier}
use tangentfeed.Storage.{ClockState, BatchWrite, CompactionWrite, split, three, sort_ops}
use tangentfeed.Compaction.{add, contains}

-- `JSON.stringify` and `JSON.parse` of what the adapter stores; it parses only what it has stored.
pub record Json : Type 0 where
  pub of_value : Value → Text
  pub to_value : Text → Value
  pub of_op : Op → Text
  pub to_op : Text → Op
  pub of_frontier : Frontier → Text
  pub to_frontier : Text → Frontier
  pub of_clock : ClockState → Text
  pub to_clock : Text → ClockState
  pub of_peers : Map Frontier → Text
  pub to_peers : Text → Map Frontier
  -- a pair of texts, under `publicKey` and `privateKey`
  pub of_keys : Text × Text → Text
  pub to_keys : Text → Text × Text

pub record OpRow : Type 0 where
  pub id : Text
  pub table_name : Text
  pub row_id : Text
  pub column_name : Text
  pub value : Text
  pub hlc : Text
  pub device : Text
  pub sig : Text

pub record CellRow : Type 0 where
  pub table_name : Text
  pub row_id : Text
  pub column_name : Text
  pub op_json : Text

pub record SqliteAdapter : Type 0 where
  pub ops : List OpRow
  pub cells : List CellRow
  pub meta : Map Text

abbrev pub new_adapter : SqliteAdapter
new_adapter = record { ops = []; cells = []; meta = [] }

-- `INSERT OR IGNORE INTO ops`, whose primary key is the id
unfoldable pub insert_op_row : OpRow → List OpRow → List OpRow
insert_op_row r rows = if any (λ (x : OpRow). text_eqb x.id r.id) rows then rows else rows ++ r ∷ []

-- `DELETE FROM ops WHERE id = ?`
unfoldable pub delete_op_row : Text → List OpRow → List OpRow
delete_op_row id rows = filter (λ (x : OpRow). not (text_eqb x.id id)) rows

-- `table_name = ? AND row_id = ? AND column_name = ?`
abbrev pub is_cell : Text → Text → Text → CellRow → Bool
is_cell t r c x = text_eqb x.table_name t && text_eqb x.row_id r && text_eqb x.column_name c

-- `INSERT INTO cells … ON CONFLICT … DO UPDATE`
unfoldable pub upsert_cell : CellRow → List CellRow → List CellRow
upsert_cell cell [] = cell ∷ []
upsert_cell cell (x ∷ rows) =
    let rest = upsert_cell cell rows in
    if is_cell cell.table_name cell.row_id cell.column_name x then cell ∷ rows else x ∷ rest

unfoldable pub delete_cell_row : Text → Text → Text → List CellRow → List CellRow
delete_cell_row t r c rows = filter (λ x. not (is_cell t r c x)) rows

-- `SELECT op_json FROM cells WHERE …`
unfoldable pub get_cell : Text → Text → Text → List CellRow → Option Text
get_cell t r c [] = none
get_cell t r c (x ∷ rows) = if is_cell t r c x then some x.op_json else get_cell t r c rows

-- `SELECT column_name, op_json FROM cells WHERE table_name = ? AND row_id = ?`
unfoldable pub row_cells : Text → Text → List CellRow → List CellRow
row_cells t r rows = filter (λ (x : CellRow). text_eqb x.table_name t && text_eqb x.row_id r) rows

-- `SELECT DISTINCT …`
pub distinct : List Text → List Text → List Text
distinct seen [] = seen
distinct seen (x ∷ xs) = distinct (add seen x) xs

-- `ORDER BY`, by a column
pub insert_row : (OpRow → Text) → OpRow → List OpRow → List OpRow
insert_row by r [] = r ∷ []
insert_row by r (x ∷ xs) =
    let rest = insert_row by r xs in if text_ltb (by x) (by r) then x ∷ rest else r ∷ x ∷ xs

pub order_by : (OpRow → Text) → List OpRow → List OpRow
unfolding insert_row
order_by by [] = []
order_by by (x ∷ xs) = insert_row by x (order_by by xs)

-- `SELECT * FROM ops ORDER BY id`
unfoldable pub all_rows : List OpRow → List OpRow
unfolding order_by
all_rows rows = order_by (λ r. r.id) rows

-- `SELECT * FROM ops WHERE device = ? AND hlc > ? ORDER BY hlc`
unfoldable pub rows_above_for : Text → Text → List OpRow → List OpRow
unfolding order_by
rows_above_for device hlc rows =
    order_by (λ r. r.hlc)
      (filter (λ (r : OpRow). text_eqb r.device device && text_ltb hlc r.hlc) rows)

module _ (json : Json) where
  unfoldable pub op_of_row : OpRow → Op
  op_of_row r = record {
    id = r.id;
    table = r.table_name;
    row = r.row_id;
    column = r.column_name;
    value = json.to_value r.value;
    hlc = r.hlc;
    device = r.device;
    sig = r.sig;
  }

  unfoldable pub row_of_op : Op → OpRow
  row_of_op op = record {
    id = op.id;
    table_name = op.table;
    row_id = op.row;
    column_name = op.column;
    value = json.of_value op.value;
    hlc = op.hlc;
    device = op.device;
    sig = op.sig;
  }

  -- The loop of `getRow`.
  pub columns_of : List CellRow → Map Op → Map Op
  columns_of [] out = out
  columns_of (x ∷ rows) out = columns_of rows (set x.column_name (json.to_op x.op_json) out)

  abbrev pub row_of : List CellRow → Option (Map Op)
  unfolding columns_of
  row_of [] = none
  row_of (x ∷ rows) = some (columns_of (x ∷ rows) [])

  unfoldable pub get_row : Text → Text → SqliteAdapter → Option (Map Op)
  unfolding row_cells columns_of
  get_row table row db = row_of (row_cells table row db.cells)

  unfoldable pub list_rows : Text → SqliteAdapter → List Text
  unfolding distinct
  list_rows table db = distinct [] (
      map (λ (x : CellRow). x.row_id)
        (filter (λ (x : CellRow). text_eqb x.table_name table) db.cells))

  unfoldable pub list_tables : SqliteAdapter → List Text
  unfolding distinct
  list_tables db = distinct [] (map (λ (x : CellRow). x.table_name) db.cells)

  unfoldable pub has_op : Text → SqliteAdapter → Bool
  has_op id db = any (λ (x : OpRow). text_eqb x.id id) db.ops

  unfoldable pub get_winner : Text → Text → Text → SqliteAdapter → Option Op
  unfolding get_cell
  get_winner table row column db = elim (get_cell table row column db.cells) [
    | none ↦ none
    | some text ↦ some (json.to_op text)
  ]

  -- The loop over the devices of the frontier: the operations, and `seen`.
  pub above_each : List OpRow → Frontier → List Op
  unfolding rows_above_for op_of_row
  above_each rows [] = []
  above_each rows ((device, hlc) ∷ frontier) =
      map op_of_row (rows_above_for device hlc rows) ++ above_each rows frontier

  -- The loop over every operation, for those of devices that the frontier does not have.
  unfoldable pub absent_from : Frontier → List Text → List OpRow → List Op
  unfolding op_of_row
  absent_from frontier seen rows = map op_of_row (
      filter (λ (r : OpRow). not (is_some (get r.device frontier)) && not (contains seen r.id))
        rows)

  unfoldable pub ops_since : Frontier → SqliteAdapter → List Op
  unfolding all_rows above_each absent_from op_of_row
  ops_since [] db = map op_of_row (all_rows db.ops)
  ops_since (e ∷ frontier) db =
      let above = above_each db.ops (e ∷ frontier) in
      sort_ops
        (above ++ absent_from (e ∷ frontier) (map (λ (o : Op). o.id) above) (all_rows db.ops))

  unfoldable pub get_frontier : SqliteAdapter → Frontier
  get_frontier db = elim (get (codes "frontier") db.meta) [
    | none ↦ []
    | some t ↦ json.to_frontier t
  ]

  unfoldable pub get_clock : SqliteAdapter → Option ClockState
  get_clock db = elim (get (codes "clock") db.meta) [
    | none ↦ none
    | some t ↦ some (json.to_clock t)
  ]

  abbrev key_of : Text × Text → DeviceKey
  key_of (public, private) = record { public_key = unhex public; private_key = unhex private }

  unfoldable pub get_device_key : SqliteAdapter → Option DeviceKey
  get_device_key db = elim (get (codes "deviceKey") db.meta) [
    | none ↦ none
    | some t ↦ some (key_of (json.to_keys t))
  ]

  unfoldable pub write_meta : Text → Text → SqliteAdapter → SqliteAdapter
  write_meta key value db = record db { meta = set key value db.meta }

  unfoldable pub set_device_key : DeviceKey → SqliteAdapter → SqliteAdapter
  unfolding write_meta
  set_device_key key db =
      write_meta (codes "deviceKey") (json.of_keys (hex key.public_key, hex key.private_key)) db

  unfoldable pub op_count : SqliteAdapter → ℕ
  op_count db = length db.ops

  unfoldable pub all_ops : SqliteAdapter → List Op
  unfolding all_rows op_of_row
  all_ops db = map op_of_row (all_rows db.ops)

  unfoldable pub get_peer_frontiers : SqliteAdapter → Map Frontier
  get_peer_frontiers db = elim (get (codes "peers") db.meta) [
    | none ↦ []
    | some t ↦ json.to_peers t
  ]

  -- Nothing comes between the read and the write, which two statements outside a transaction make.
  unfoldable pub set_peer_frontier : Text → Frontier → SqliteAdapter → SqliteAdapter
  unfolding write_meta get_peer_frontiers
  set_peer_frontier peer frontier db =
      write_meta (codes "peers") (json.of_peers (set peer frontier (get_peer_frontiers db))) db

  pub delete_ops : List Text → List OpRow → List OpRow
  unfolding delete_op_row
  delete_ops [] rows = rows
  delete_ops (id ∷ ids) rows = delete_ops ids (delete_op_row id rows)

  pub delete_cells : List Text → List CellRow → List CellRow
  unfolding delete_cell_row split
  delete_cells [] rows = rows
  delete_cells (key ∷ ks) rows =
      let (t, r, c) = three (split key) in delete_cells ks (delete_cell_row t r c rows)

  -- The transaction commits as a whole.
  unfoldable pub compact : CompactionWrite → SqliteAdapter → SqliteAdapter
  unfolding delete_ops delete_cells
  compact write db = record db {
    ops = delete_ops write.op_ids db.ops;
    cells = delete_cells write.cell_keys db.cells;
  }

  pub insert_ops : List Op → List OpRow → List OpRow
  unfolding insert_op_row row_of_op
  insert_ops [] rows = rows
  insert_ops (op ∷ ops) rows = insert_ops ops (insert_op_row (row_of_op op) rows)

  pub upsert_cells : Map Op → List CellRow → List CellRow
  unfolding upsert_cell split
  upsert_cells [] rows = rows
  upsert_cells ((key, op) ∷ winners) rows =
      let (t, r, c) = three (split key) in
      upsert_cells winners (
        upsert_cell
          (record { table_name = t; row_id = r; column_name = c; op_json = json.of_op op }) rows)

  unfoldable pub apply_batch : BatchWrite → SqliteAdapter → SqliteAdapter
  unfolding insert_ops upsert_cells
  apply_batch batch db = record {
    ops = insert_ops batch.ops db.ops;
    cells = upsert_cells batch.winners db.cells;
    meta =
        set (codes "clock") (json.of_clock batch.clock)
          (set (codes "frontier") (json.of_frontier batch.frontier) db.meta);
  }
