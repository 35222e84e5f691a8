-- ===== src/Engine/Sync.antt =====
-- `dump` and `syncOnce` of packages/core/src/engine.ts.
use tangentfeed.Prelude.{
  ℕ, Option, none, some, List, [], ◌∷◌, Text, codes, Map, get, set, delete, is_some, map,
  if◌then◌else◌,
}
use tangentfeed.Errors.{Result, ok, err, ◌>>=◌}
use tangentfeed.Values.{Value}
use tangentfeed.Signing.{Platform, Bytes}
use tangentfeed.Op.{Op, op_value}
use tangentfeed.Storage.{ops_since, get_row, list_rows, list_tables}
use tangentfeed.Compaction.{sort_texts}
use tangentfeed.Schema.Check.{Host}
use tangentfeed.Engine.{SyncEngine, Cipher, learn_key, record_peer_frontier}
use tangentfeed.Engine.Remote.{apply_remote_ops}
use tangentfeed.Engine.Reads.{is_tombstoned, materialize}

-- table, then row, then column
abbrev pub Dump : Type 0
Dump = Map (Map (Map Value))

-- `(state[table] ??= {})[row] = cols`: a table under whose name every object inherits something
-- leaves `state` as it is.
unfoldable pub put_row : Host → Text → Text → Map Value → Dump → Dump
put_row host table row cols state = elim (get table state) [
  | some rows ↦ set table (set row cols rows) state
  | none ↦ if is_some (host.inherited table) then state else set table ((row, cols) ∷ []) state
]

module _ (host : Host) (cipher : Option Cipher) where
  -- One round of the inner loop.
  unfoldable pub dump_row : Text → Text → SyncEngine → Dump → Result Dump
  unfolding put_row materialize get_row
  dump_row table row e state = elim (get_row table row e.storage) [
    | none ↦ ok state
    | some cells ↦
        if is_tombstoned cells
        then ok state
        else (materialize cipher row cells >>= λ shown.
            ok (put_row host table row (delete (codes "id") shown) state))
  ]

  pub dump_rows : Text → List Text → SyncEngine → Dump → Result Dump
  unfolding dump_row
  dump_rows table [] e state = ok state
  dump_rows table (row ∷ rows) e state =
      dump_row table row e state >>= λ next. dump_rows table rows e next

  pub dump_tables : List Text → SyncEngine → Dump → Result Dump
  unfolding dump_rows
  dump_tables [] e state = ok state
  dump_tables (table ∷ tables) e state =
      dump_rows table (sort_texts (list_rows table e.storage)) e state >>= λ next.
      dump_tables tables e next

  unfoldable pub dump : SyncEngine → Result Dump
  unfolding dump_tables
  dump e = dump_tables (sort_texts (list_tables e.storage)) e []

module _ (p : Platform) where
  -- `for (const [id, k] of keys) engine.learnKey(id, k)`
  unfoldable pub learn_all : Map Bytes → SyncEngine → SyncEngine
  learn_all [] e = e
  learn_all ((id, k) ∷ ks) e = learn_all ks (learn_key p id k e).1

module _ (p : Platform) (clock_a clock_b : ℕ → ℕ) where
  -- `if (ops.length) await engine.applyRemoteOps(ops)`
  unfoldable pub apply_some : (ℕ → ℕ) → List Op → SyncEngine → Result ℕ × SyncEngine
  apply_some clock [] e = (ok 0, e)
  apply_some clock (op ∷ ops) e = apply_remote_ops p clock (map op_value (op ∷ ops)) e

  -- The acks: each side records the frontier that the other has come to.
  unfoldable pub exchange_acks : SyncEngine → SyncEngine → SyncEngine × SyncEngine
  exchange_acks a b =
      let a' = record_peer_frontier b.device_id b.storage.frontier a in
      (a', record_peer_frontier a'.device_id a'.storage.frontier b)

  -- After both have been given what they lack; an error ends it.
  unfoldable pub after_first :
      Result ℕ × SyncEngine → List Op → SyncEngine → Result (Unit {0}) × SyncEngine × SyncEngine
  unfolding exchange_acks apply_some
  after_first (err x, b) b_to_a a = (err x, a, b)
  after_first (ok n, b) b_to_a a = elim (apply_some clock_a b_to_a a).0 [
    | err x ↦ (err x, (apply_some clock_a b_to_a a).1, b)
    | ok n ↦ let (a', b') = exchange_acks (apply_some clock_a b_to_a a).1 b in (ok tt, a', b')
  ]

  unfoldable pub sync_once : SyncEngine → SyncEngine → Result (Unit {0}) × SyncEngine × SyncEngine
  unfolding learn_all apply_some after_first
  sync_once a b =
      let b1 = learn_all p a.keys b in
      let a1 = learn_all p b1.keys a in
      let a_to_b = ops_since b1.storage.frontier a1.storage in
      let b_to_a = ops_since a1.storage.frontier b1.storage in
      after_first (apply_some clock_b a_to_b b1) b_to_a a1
