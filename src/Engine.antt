-- ===== src/Engine.antt =====
-- packages/core/src/engine.ts: one space's replica. The mutex makes each locked section one step, so
-- an operation is a function of the whole state; the state comes back beside an error too.
pub mod Local
pub mod Remote
pub mod Commit
pub mod Convergence
pub mod Reads
pub mod Sync
pub mod Ahead
use tangentfeed.Prelude.{
  ℕ, ◌+◌, ◌%◌, ◌^◌, max, Bool, true, false, not, ◌&&◌, ◌||◌, Option, none, some, List, [], ◌∷◌,
  ◌++◌, Text, Map, get, set, or_else, or_some, is_some, text_ltb, text_eqb, length, any, ltb,
  if◌then◌else◌,
}
use tangentfeed.Errors.{
  BadOp, Error, Result, ok, err, bad_op, ◌>>=◌, ◌>>◌, guard, batch_too_large, unknown_device,
  bad_signature,
}
use tangentfeed.Values.{Value, boolean, string}
use tangentfeed.Hlc.{Hlc, Clock, encode_hlc, decode_hlc, now, receive, new_clock}
use tangentfeed.Signing.{Platform, Bytes, DeviceKey, device_id_from_public_key, sign_payload}
use tangentfeed.Op.{
  Op, Frontier, max_batch_ops, tombstone_column, validate_op, op_value, signed_payload, verify_op,
  advance_frontier,
}
use tangentfeed.Storage
use tangentfeed.Storage.{
  MemoryAdapter, ClockState, BatchWrite, sep, cell_key, split, get_winner, has_op, apply_batch,
  set_peer_frontier, set_device_key,
}
use tangentfeed.Compaction.{
  CompactionOptions, CompactionStats, compaction_horizon, blocking_peers, plan_compaction,
  winning_cells, add,
}

pub record RowChange : Type 0 where
  pub table : Text
  pub row : Text

pub data Origin : Type 0 where
  local remote : Origin

pub record ChangeEvent : Type 0 where
  pub changes : List RowChange
  pub ops : List Op
  pub origin : Origin

-- A subscriber: the events that it has been called with, in order, and what a call throws, which may depend on
-- these.
pub record Subscriber : Type 0 where
  pub called : List ChangeEvent
  pub throws : List ChangeEvent → ChangeEvent → Option Error

abbrev pub told : ChangeEvent → Subscriber → Subscriber
told event s = record s { called = s.called ++ event ∷ [] }

-- `for (const cb of this.subscribers) cb(event)`: a call that throws ends the loop.
unfoldable pub notify : ChangeEvent → List Subscriber → Result (Unit {0}) × List Subscriber
notify event [] = (ok tt, [])
notify event (s ∷ subscribers) =
    let rest = notify event subscribers in
    elim (s.throws s.called event) [
      | some x ↦ (err x, told event s ∷ subscribers)
      | none ↦ (rest.0, told event s ∷ rest.1)
    ]

-- packages/core/src/cipher.ts; `decrypt` may throw.
pub record Cipher : Type 0 where
  pub encrypt : Value → Text → Text
  pub decrypt : Value → Text → Result Value

-- `readings` counts the readings of the physical clock, which is a parameter.
pub record SyncEngine : Type 0 where
  pub device_id : Text
  pub storage : MemoryAdapter
  pub clock : Clock
  pub device_key : DeviceKey
  pub keys : Map Bytes
  pub subscribers : List Subscriber
  pub readings : ℕ

abbrev pub clock_state : Clock → ClockState
clock_state c = record { millis = c.millis; counter = c.counter }

-- The pending winners and the frontier while `commit` loops over a batch.
pub record Pending : Type 0 where
  pub winners : Map Op
  pub frontier : Frontier

-- `if (current === undefined || op.hlc > current.hlc) … else if (pending === undefined) …`
pub settle : Text → Op → Option Op → Option Op → Map Op → Map Op
settle key op pending none winners = set key op winners
settle key op pending (some current) winners =
    if text_ltb current.hlc op.hlc
    then set key op winners
    else if not (is_some pending)
    then set key current winners
    else winners

pub commit_op : MemoryAdapter → Pending → Op → Pending
unfolding settle
commit_op st w op =
    let key = cell_key op.table op.row op.column in
    let pending = get key w.winners in
    let current = or_some pending (get_winner op.table op.row op.column st) in
    record {
      winners = settle key op pending current w.winners;
      frontier = advance_frontier w.frontier op;
    }

pub commit_ops : MemoryAdapter → Pending → List Op → Pending
unfolding commit_op
commit_ops st w [] = w
commit_ops st w (op ∷ ops) = commit_ops st (commit_op st w op) ops

-- `[...new Set(ops.map((o) => o.table + "\u0000" + o.row))]`
pub row_keys : List Op → List Text → List Text
row_keys [] ks = ks
row_keys (op ∷ ops) ks = row_keys ops (add ks (op.table ++ sep ∷ op.row))

abbrev pub two : List Text → RowChange
two [] = record { table = []; row = [] }
two (t ∷ []) = record { table = t; row = [] }
two (t ∷ r ∷ rest) = record { table = t; row = r }

pub row_changes : List Text → List RowChange
row_changes [] = []
row_changes (k ∷ ks) = two (split k) ∷ row_changes ks

abbrev pub event_of : List Op → Origin → ChangeEvent
unfolding row_keys row_changes
event_of ops origin = record { changes = row_changes (row_keys ops []); ops = ops; origin = origin }

-- `subscribe`, of a callback that is not subscribed yet.
unfoldable pub subscribe : Subscriber → SyncEngine → SyncEngine
subscribe s e = record e { subscribers = e.subscribers ++ s ∷ [] }

-- The single mutation path. The store is written before the subscribers are called.
unfoldable pub commit : List Op → Origin → SyncEngine → Result (Unit {0}) × SyncEngine
unfolding commit_ops row_keys row_changes notify
commit ops origin e =
    let w = commit_ops e.storage (record { winners = []; frontier = e.storage.frontier }) ops in
    let batch : BatchWrite = record {
      ops = ops;
      winners = w.winners;
      frontier = w.frontier;
      clock = clock_state e.clock;
    } in
    let called = notify (event_of ops origin) e.subscribers in
    (called.0, record e { storage = apply_batch batch e.storage; subscribers = called.1 })

-- The batch that only persists the clock.
pub persist_clock : SyncEngine → SyncEngine
persist_clock e =
    let batch : BatchWrite = record {
      ops = [];
      winners = [];
      frontier = e.storage.frontier;
      clock = clock_state e.clock;
    } in
    record e { storage = apply_batch batch e.storage }

-- The newest timestamp of a batch: `ops.reduce((m, o) => m === null || o.hlc > m.hlc ? o : m, null)`.
pub max_op : Option Op → List Op → Option Op
max_op m [] = m
max_op none (o ∷ ops) = max_op (some o) ops
max_op (some m) (o ∷ ops) = max_op (some (if text_ltb m.hlc o.hlc then o else m)) ops

-- Not stored, and not in the batch before.
pub fresh_ops : MemoryAdapter → List Op → List Op → List Op
fresh_ops st [] fresh = fresh
fresh_ops st (op ∷ ops) fresh = fresh_ops st ops (
    if not (has_op op.id st) && not (any (λ f. text_eqb f.id op.id) fresh)
    then fresh ++ op ∷ []
    else fresh)

unfoldable pub record_peer_frontier : Text → Frontier → SyncEngine → SyncEngine
record_peer_frontier peer frontier e =
    if text_eqb peer e.device_id
    then e
    else record e { storage = set_peer_frontier peer frontier e.storage }

unfoldable pub compact : CompactionOptions → SyncEngine → CompactionStats × List Text × SyncEngine
compact opts e =
    let own = e.storage.frontier in
    let peers = e.storage.peer_frontiers in
    let horizon = compaction_horizon own peers in
    let winners = winning_cells e.storage in
    let ops = Storage.all_ops e.storage in
    let (op_ids, cell_keys, stats) = plan_compaction ops winners horizon opts in
    (
      stats,
      blocking_peers own peers,
      if not opts.dry_run && (ltb 0 (length op_ids) || ltb 0 (length cell_keys))
          then record e {
            storage = Storage.compact (record { op_ids = op_ids; cell_keys = cell_keys }) e.storage;
          }
          else e,
    )

module _ (p : Platform) where
  unfoldable pub learn_key : Text → Bytes → SyncEngine → Bool × SyncEngine
  learn_key device_id public_key e =
      if not (text_eqb (device_id_from_public_key p public_key) device_id)
      then (false, e)
      else (true, record e { keys = set device_id public_key e.keys })

  -- `open`, where `generated` is what `generateDeviceKey` would give.
  unfoldable pub open_engine : DeviceKey → MemoryAdapter → Result SyncEngine
  open_engine generated st =
      let key = or_else st.device_key generated in
      let st' : MemoryAdapter = elim st.device_key [
        | none ↦ set_device_key generated st
        | some k ↦ st
      ] in
      let persisted : Option (ℕ × ℕ) = elim st.clock [
        | none ↦ none
        | some c ↦ some (c.millis, c.counter)
      ] in
      do
        clock ← new_clock (device_id_from_public_key p key.public_key) persisted
        ok (record {
          device_id = clock.device_id;
          storage = st';
          clock = clock;
          device_key = key;
          keys = set clock.device_id key.public_key [];
          subscribers = [];
          readings = 0;
        })
