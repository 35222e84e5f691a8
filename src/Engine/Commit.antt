-- ===== src/Engine/Commit.antt =====
-- `commit` of packages/core/src/engine.ts, over the nested maps of the adapter, implements the merge of
-- the specification.
use tangentfeed.Prelude.{
  ◌≡◌, refl, ap, ◌∙◌, inl, inr, false, Option, none, some, List, [], ◌∷◌, arith, Text, All, Elem,
  text_eqb, text_ltb, eqb_iff, eqb_refl, Map, get, set, or_some, get-set, IsUnique, set-IsUnique,
  if◌then◌else◌, Bool-cases,
}
use tangentfeed.Op.{Op, advance_frontier}
use tangentfeed.Op.Valid.{IsValid}
use tangentfeed.Storage.{
  MemoryAdapter, empty_store, cell_key, get_winner, cell_of, set_ops, set_cells, apply_batch,
}
use tangentfeed.Storage.Keys.{AreParts, IsValid-AreParts}
use tangentfeed.Storage.Cells.{same_cell}
use tangentfeed.Storage.Batches.{IsKey, eqb-cell_key, cell_of-set_cells}
use tangentfeed.Replica.{Replica, empty_replica, newer, merge, merge_all}
use tangentfeed.Engine.{
  SyncEngine, Origin, Pending, settle, commit_op, commit_ops, commit, persist_clock,
}

-- The adapter holds what the specification says.
pub record Refines (st : MemoryAdapter) (s : Replica) : Type 0 where
  pub same_log : (k : Text) → get k st.ops_by_id ≡ s.log k
  pub same_winner : (t r c : Text) → AreParts t r c → get_winner t r c st ≡ s.winner t r c
  pub same_frontier : st.frontier ≡ s.frontier

-- The same of the loop's variables over the state before the batch.
record Tracks (st : MemoryAdapter) (w : Pending) (s : Replica) : Type 0 where
  unique : IsUnique w.winners
  made : All (λ (e : Text × Op). IsKey e.0) w.winners
  cells :
      (t r c : Text)
      → AreParts t r c
      → or_some (get (cell_key t r c) w.winners) (get_winner t r c st) ≡ s.winner t r c
  frontier : w.frontier ≡ s.frontier

All-set :
    (key : Text) (op : Op) (m : Map Op)
    → IsKey key
    → All (λ (e : Text × Op). IsKey e.0) m
    → All (λ (e : Text × Op). IsKey e.0) (set key op m)
unfolding set
All-set key op [] k h = (k, tt)
All-set key op ((j, v) ∷ m) k h = elim (Bool-cases (text_eqb j key)) [
  | inl p ↦ rw p (h.0, h.1)
  | inr p ↦ rw p (h.0, All-set key op m k h.1)
]

module _ (key : Text) (op : Op) (winners : Map Op) where
  settled : Option Op → Option Op → Map Op
  settled pending old = settle key op pending (or_some pending old) winners

  -- Under its key `settle` leaves the newer of the cell's winner and the operation.
  settle_self :
      (pending old : Option Op)
      → get key winners ≡ pending
      → or_some (get key (settled pending old)) old ≡ newer (or_some pending old) op
  unfolding settled settle
  settle_self (some v) old e = ground (arith, get-set key key op winners, eqb_refl key)
  settle_self none none e = ground (arith, get-set key key op winners, eqb_refl key)
  settle_self none (some v) e =
      ground (arith, get-set key key op winners, get-set key key v winners, eqb_refl key)

  -- Other keys it leaves alone.
  settle_other :
      (k : Text) (pending old : Option Op)
      → text_eqb key k ≡ false
      → get k (settled pending old) ≡ get k winners
  unfolding settled settle
  settle_other k (some v) old e = ground (arith, get-set key k op winners)
  settle_other k none none e = ground (arith, get-set key k op winners)
  settle_other k none (some v) e = ground (arith, get-set key k op winners, get-set key k v winners)

  settle-IsUnique : (pending old : Option Op) → IsUnique winners → IsUnique (settled pending old)
  unfolding settled settle
  settle-IsUnique (some v) old u = ground (arith, set-IsUnique key op winners u)
  settle-IsUnique none none u = set-IsUnique key op winners u
  settle-IsUnique none (some v) u =
      ground (arith, set-IsUnique key op winners u, set-IsUnique key v winners u)

  settle-made :
      (pending old : Option Op)
      → IsKey key
      → All (λ (e : Text × Op). IsKey e.0) winners
      → All (λ (e : Text × Op). IsKey e.0) (settled pending old)
  unfolding settled settle
  settle-made (some v) old k h = elim (Bool-cases (text_ltb v.hlc op.hlc)) [
    | inl p ↦ rw p (All-set key op winners k h)
    | inr p ↦ rw p h
  ]
  settle-made none none k h = All-set key op winners k h
  settle-made none (some v) k h = elim (Bool-cases (text_ltb v.hlc op.hlc)) [
    | inl p ↦ rw p (All-set key op winners k h)
    | inr p ↦ rw p (All-set key v winners k h)
  ]

module _ (st : MemoryAdapter) (w : Pending) (s : Replica) (op : Op)
    (own : AreParts op.table op.row op.column) (h : Tracks st w s) where
  abbrev key : Text
  key = cell_key op.table op.row op.column

  abbrev pending : Option Op
  pending = get key w.winners

  abbrev stored : Option Op
  stored = get_winner op.table op.row op.column st

  commit_op_cells :
      (t r c : Text)
      → AreParts t r c
      → or_some
          (get (cell_key t r c) (settled key op w.winners pending stored))
          (get_winner t r c st)
        ≡ (if same_cell op.table op.row op.column t r c
            then newer (s.winner t r c) op
            else s.winner t r c)
  commit_op_cells t r c parts = elim (Bool-cases (same_cell op.table op.row op.column t r c)) [
    | inl p ↦
        let et : op.table ≡ t = ground (arith, eqb_iff op.table t) in
        let er : op.row ≡ r = ground (arith, eqb_iff op.row r) in
        let ec : op.column ≡ c = ground (arith, eqb_iff op.column c) in
        rw (p, ← et, ← er, ← ec)
          (settle_self key op w.winners pending stored refl
            ∙ ap (λ o. newer o op) (h.cells op.table op.row op.column own))
    | inr p ↦
        let apart = eqb-cell_key op.table op.row op.column t r c own parts ∙ p in
        rw (p, settle_other key op w.winners (cell_key t r c) pending stored apart)
          (h.cells t r c parts)
  ]

  commit_op-Tracks : Tracks st (commit_op st w op) (merge s op)
  unfolding commit_op merge settled
  commit_op-Tracks = record {
    unique = settle-IsUnique key op w.winners pending stored h.unique;
    made =
        settle-made key op w.winners pending stored
          (record { table = op.table; row = op.row; column = op.column; parts = own; made = refl })
          h.made;
    cells = commit_op_cells;
    frontier = ap (λ f. advance_frontier f op) h.frontier;
  }

commit_ops-Tracks :
    (st : MemoryAdapter) (w : Pending) (s : Replica) (ops : List Op)
    → ((x : Op) → Elem x ops → IsValid x)
    → Tracks st w s
    → Tracks st (commit_ops st w ops) (merge_all s ops)
unfolding commit_ops merge_all
commit_ops-Tracks st w s [] valid h = h
commit_ops-Tracks st w s (op ∷ ops) valid h =
    commit_ops-Tracks st (commit_op st w op) (merge s op) ops (λ x e. valid x (inr e))
      (commit_op-Tracks st w s op (IsValid-AreParts op (valid op (inl refl))) h)

set_ops-log :
    (m : Map Op) (s : Replica) (ops : List Op)
    → ((k : Text) → get k m ≡ s.log k)
    → (k : Text) → get k (set_ops ops m) ≡ (merge_all s ops).log k
unfolding set_ops merge_all merge
set_ops-log m s [] h k = h k
set_ops-log m s (op ∷ ops) h k =
    set_ops-log (set op.id op m) (merge s op) ops
      (λ j. get-set op.id j op m ∙ ap (λ o. if text_eqb op.id j then some op else o) (h j)) k

start-Tracks :
    (st : MemoryAdapter) (s : Replica)
    → Refines st s
    → Tracks st (record { winners = []; frontier = st.frontier }) s
unfolding get
start-Tracks st s h = record {
  unique = tt;
  made = tt;
  cells = h.same_winner;
  frontier = h.same_frontier;
}

-- A store that refines a replica refines, once `commit` has written a list of valid operations,
-- the replica with these merged in their order.
pub commit-Refines :
    (ops : List Op) (origin : Origin) (e : SyncEngine) (s : Replica)
    → ((x : Op) → Elem x ops → IsValid x)
    → Refines e.storage s
    → Refines (commit ops origin e).1.storage (merge_all s ops)
unfolding commit apply_batch get_winner
commit-Refines ops origin e s valid h =
    let start : Pending = record { winners = []; frontier = e.storage.frontier } in
    let t = commit_ops-Tracks e.storage start s ops valid (start-Tracks e.storage s h) in
    record {
      same_log = set_ops-log e.storage.ops_by_id s ops h.same_log;
      same_winner = λ t' r c parts.
          cell_of-set_cells t' r c parts _ e.storage.tables t.unique t.made ∙ t.cells t' r c parts;
      same_frontier = t.frontier;
    }

-- Persisting the clock changes nothing that a replica holds.
pub persist_clock-Refines :
    (e : SyncEngine) (s : Replica) → Refines e.storage s → Refines (persist_clock e).storage s
unfolding persist_clock apply_batch set_ops set_cells get_winner
persist_clock-Refines e s h = record {
  same_log = h.same_log;
  same_winner = h.same_winner;
  same_frontier = h.same_frontier;
}

pub empty-Refines : Refines empty_store empty_replica
unfolding get get_winner cell_of
empty-Refines = record {
  same_log = λ k. refl;
  same_winner = λ t r c parts. refl;
  same_frontier = refl;
}
