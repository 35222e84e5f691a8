-- ===== src/Compaction.antt =====
-- packages/core/src/compaction.ts: the horizon, the peers that hold it back, and the plan of what to
-- remove. A `Set` is the list of its members in order of insertion.
pub mod Horizon
pub mod Safety
use tangentfeed.Prelude.{
  ℕ, ◌+◌, Bool, true, false, not, ◌&&◌, ◌||◌, Option, none, some, List, [], ◌∷◌, ◌++◌, foldl, Text,
  Map, get, or_else, keys, values, text_ltb, text_leb, text_eqb, any, filter, length, ◌==◌,
  if◌then◌else◌,
}
use tangentfeed.Values.{Value, boolean}
use tangentfeed.Op.{Op, Frontier, tombstone_column}
use tangentfeed.Storage.{MemoryAdapter, sep, cell_key, list_tables, list_rows, get_row}
use tangentfeed.Prelude.{set}

pub record CompactionOptions : Type 0 where
  pub include_tombstones : Bool
  pub dry_run : Bool

pub record CompactionStats : Type 0 where
  pub scanned : ℕ
  pub removed : ℕ
  pub rows_reclaimed : ℕ
  pub retained_winners : ℕ
  pub retained_above_horizon : ℕ

-- `frontier[device] ?? ZERO_HLC`
abbrev pub seen_of : Frontier → Text → Text
seen_of frontier device = or_else (get device frontier) []

-- One peer's round: every entry of the horizon is lowered to what the peer has seen.
pub lower : Frontier → Frontier → Frontier
lower frontier [] = []
lower frontier ((device, h) ∷ horizon) =
    let seen = seen_of frontier device in
    (device, if text_ltb seen h then seen else h) ∷ lower frontier horizon

unfoldable pub compaction_horizon : Frontier → Map Frontier → Frontier
unfolding lower
compaction_horizon own [] = own
compaction_horizon own ((peer, frontier) ∷ peers) = compaction_horizon (lower frontier own) peers

-- Whether the peer lags on one of our devices.
pub lags : Frontier → Frontier → Bool
lags frontier [] = false
lags frontier ((device, ours) ∷ own) = text_ltb (seen_of frontier device) ours || lags frontier own

pub insert_text : Text → List Text → List Text
insert_text x [] = x ∷ []
insert_text x (y ∷ ys) = if text_ltb y x then y ∷ insert_text x ys else x ∷ y ∷ ys

-- `sort()` of texts
unfoldable pub sort_texts : List Text → List Text
unfolding insert_text
sort_texts [] = []
sort_texts (x ∷ xs) = insert_text x (sort_texts xs)

pub blockers : Frontier → Map Frontier → List Text
blockers own [] = []
blockers own ((peer, frontier) ∷ peers) =
    let rest = blockers own peers in if lags frontier own then peer ∷ rest else rest

unfoldable pub blocking_peers : Frontier → Map Frontier → List Text
unfolding lags sort_texts blockers
blocking_peers own peers = sort_texts (blockers own peers)

abbrev pub contains : List Text → Text → Bool
contains xs x = any (λ y. text_eqb y x) xs

-- `set.add(x)`
abbrev pub add : List Text → Text → List Text
add xs x = if contains xs x then xs else xs ++ x ∷ []

pub row_key_of : Op → Text
row_key_of op = op.table ++ sep ∷ op.row

-- `key.slice(0, key.lastIndexOf(SEP))`; without a separator `slice(0, -1)` drops the last unit.
pub last_sep : Text → Option Text
last_sep [] = none
last_sep (c ∷ s) = elim (last_sep s) [
  | some front ↦ some (c ∷ front)
  | none ↦ if c == sep then some [] else none
]

pub but_last : Text → Text
but_last [] = []
but_last (c ∷ []) = []
but_last (c ∷ d ∷ s) = c ∷ but_last (d ∷ s)

pub row_part : Text → Text
unfolding last_sep but_last
row_part key = or_else (last_sep key) (but_last key)

abbrev pub is_true : Value → Bool
is_true (boolean true) = true
is_true _ = false

-- `op.hlc <= (horizon[op.device] ?? ZERO_HLC)`
pub below : Frontier → Op → Bool
below horizon op = text_leb op.hlc (seen_of horizon op.device)

-- The rows whose tombstone won and is below the horizon.
pub candidates : Frontier → Map Op → List Text → List Text
candidates horizon [] rows = rows
candidates horizon ((key, winner) ∷ cells) rows = candidates horizon cells (
    if text_eqb winner.column tombstone_column && is_true winner.value && below horizon winner
    then add rows (row_part key)
    else rows)

-- The rows with an operation above the horizon.
pub blocked_rows : Frontier → List Op → List Text → List Text
blocked_rows horizon [] rows = rows
blocked_rows horizon (op ∷ ops) rows =
    blocked_rows horizon ops (if not (below horizon op) then add rows (row_key_of op) else rows)

pub doomed_rows : CompactionOptions → List Op → Map Op → Frontier → List Text
unfolding candidates blocked_rows
doomed_rows opts ops winning horizon =
    if opts.include_tombstones
    then filter (λ row. not (contains (blocked_rows horizon ops []) row))
        (candidates horizon winning [])
    else []

pub record Plan : Type 0 where
  pub op_ids : List Text
  pub cell_keys : List Text
  pub removed : ℕ
  pub retained_winners : ℕ
  pub retained_above_horizon : ℕ

abbrev empty_plan : Plan
empty_plan = record {
  op_ids = [];
  cell_keys = [];
  removed = 0;
  retained_winners = 0;
  retained_above_horizon = 0;
}

-- One round of the second pass.
pub plan_op : List Text → List Text → Frontier → Plan → Op → Plan
plan_op doomed winner_ids horizon plan op =
    if contains doomed (row_key_of op)
    then record plan {
      op_ids = plan.op_ids ++ op.id ∷ [];
      cell_keys = add plan.cell_keys (cell_key op.table op.row op.column);
      removed = plan.removed + 1;
    }
    else if not (below horizon op)
    then record plan { retained_above_horizon = plan.retained_above_horizon + 1 }
    else if not (contains winner_ids op.id)
    then record plan { op_ids = plan.op_ids ++ op.id ∷ []; removed = plan.removed + 1 }
    else record plan { retained_winners = plan.retained_winners + 1 }

pub plan_ops : List Text → List Text → Frontier → Plan → List Op → Plan
unfolding plan_op
plan_ops doomed winner_ids horizon plan [] = plan
plan_ops doomed winner_ids horizon plan (op ∷ ops) =
    plan_ops doomed winner_ids horizon (plan_op doomed winner_ids horizon plan op) ops

-- The sweep over the cells of doomed rows.
pub sweep : List Text → Map Op → List Text → List Text
sweep doomed [] ks = ks
sweep doomed ((key, op) ∷ cells) ks =
    sweep doomed cells (if contains doomed (row_part key) then add ks key else ks)

abbrev pub ids : List Op → List Text
ids [] = []
ids (op ∷ ops) = op.id ∷ ids ops

unfoldable pub plan_compaction :
    List Op → Map Op → Frontier → CompactionOptions → List Text × List Text × CompactionStats
plan_compaction ops winning horizon opts =
    let doomed = doomed_rows opts ops winning horizon in
    let plan = plan_ops doomed (ids (values winning)) horizon empty_plan ops in
    (
      plan.op_ids,
      sweep doomed winning plan.cell_keys,
      record {
        scanned = length ops;
        removed = plan.removed;
        rows_reclaimed = length doomed;
        retained_winners = plan.retained_winners;
        retained_above_horizon = plan.retained_above_horizon;
      },
    )

-- The loops of `winningCells`.
pub row_cells : Text → Text → Map Op → Map Op → Map Op
row_cells table row [] out = out
row_cells table row ((column, op) ∷ cells) out =
    row_cells table row cells (set (cell_key table row column) op out)

pub table_cells : Text → MemoryAdapter → List Text → Map Op → Map Op
table_cells table st [] out = out
table_cells table st (row ∷ rows) out =
    table_cells table st rows (row_cells table row (or_else (get_row table row st) []) out)

pub all_cells : MemoryAdapter → List Text → Map Op → Map Op
all_cells st [] out = out
all_cells st (table ∷ tables) out =
    all_cells st tables (table_cells table st (list_rows table st) out)

unfoldable pub winning_cells : MemoryAdapter → Map Op
unfolding row_cells table_cells all_cells
winning_cells st = all_cells st (list_tables st) []

-- Opened as a whole by the tests that run compaction.
unfoldable pub program : Unit {0}
unfolding compaction_horizon blocking_peers plan_compaction doomed_rows plan_ops sweep winning_cells
    row_part row_key_of below any
program = tt
