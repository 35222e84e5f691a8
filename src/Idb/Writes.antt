-- ===== src/Idb/Writes.antt =====
-- The adapter of packages/adapter-idb/src/index.ts holds what the one in memory holds, whatever is written.
use tangentfeed.Prelude.{
  ◌≡◌, refl, sym, ap, ◌∙◌, subst, inl, inr, some, List, [], ◌∷◌, arith, Text, codes, text_compare,
  text_eqb, eqb_iff, Map, get, set, delete, or_some, get-set, get-delete, IsUnique, All, Bool-cases,
}
use tangentfeed.Signing.{DeviceKey}
use tangentfeed.Op.{Op, Frontier}
use tangentfeed.Storage
use tangentfeed.Storage.{
  MemoryAdapter, BatchWrite, CompactionWrite, Tables, empty_store, cell_key, split, cell_of,
  set_ops, set_cells, delete_ops, delete_cells, delete_cell_at,
}
use tangentfeed.Storage.Keys.{AreParts}
use tangentfeed.Storage.Batches.{IsKey, cell_of-set_cells}
use tangentfeed.Storage.Writes.{
  Write, batch, compaction, device_key, peer_frontier, write, write_all, IsProper,
  cell_of-delete_cell_at,
}
use tangentfeed.Idb
use tangentfeed.Idb.{
  Factory, IdbAdapter, new_database, put_ops, put_cells, remove_ops, remove_cells, get_meta,
  put_meta, get_frontier, get_clock, get_device_key, get_peer_frontiers,
}
use tangentfeed.Idb.Documented.{AreDocumented}

module _ (factory : Factory) (laws : AreDocumented factory) where
  -- What the two adapters have is the same; of the cells, those whose names are without the separator,
  -- and the database has no others.
  pub record Agrees (db : IdbAdapter factory) (st : MemoryAdapter) : Type 0 where
    pub same_ops : (k : Text) → factory.ops.get_at k db.ops ≡ get k st.ops_by_id
    pub same_cells :
        (t r c : Text)
        → AreParts t r c
        → factory.cells.get_at (cell_key t r c) db.cells ≡ cell_of t r c st.tables
    pub only_cells : (k : Text) (op : Op) → factory.cells.get_at k db.cells ≡ some op → IsKey k
    pub same_frontier : get_frontier factory db ≡ st.frontier
    pub same_clock : get_clock factory db ≡ st.clock
    pub same_key : get_device_key factory db ≡ st.device_key
    pub same_peers : get_peer_frontiers factory db ≡ st.peer_frontiers

  get-put_ops :
      (ops : List Op) (s : factory.ops.State) (m : Map Op)
      → ((k : Text) → factory.ops.get_at k s ≡ get k m)
      → (k : Text) → factory.ops.get_at k (put_ops factory ops s) ≡ get k (set_ops ops m)
  unfolding put_ops set_ops
  get-put_ops [] s m h k = h k
  get-put_ops (op ∷ ops) s m h k =
      get-put_ops ops (factory.ops.put_at op.id op s) (set op.id op m)
        (λ j. laws.ops_store.get_put op.id j op s ∙ rw (h j) (sym (get-set op.id j op m))) k

  get-remove_ops :
      (ids : List Text) (s : factory.ops.State) (m : Map Op)
      → ((k : Text) → factory.ops.get_at k s ≡ get k m)
      → (k : Text) → factory.ops.get_at k (remove_ops factory ids s) ≡ get k (delete_ops ids m)
  unfolding remove_ops delete_ops
  get-remove_ops [] s m h k = h k
  get-remove_ops (id ∷ ids) s m h k =
      get-remove_ops ids (factory.ops.delete_at id s) (delete id m)
        (λ j. laws.ops_store.get_delete id j s ∙ rw (h j) (sym (get-delete id j m))) k

  get-put_cells :
      (key : Text) (winners : Map Op) (s : factory.cells.State)
      → IsUnique winners
      → factory.cells.get_at key (put_cells factory winners s)
        ≡ or_some (get key winners) (factory.cells.get_at key s)
  unfolding put_cells get
  get-put_cells key [] s u = refl
  get-put_cells key ((k, op) ∷ winners) s u =
      get-put_cells key winners (factory.cells.put_at k op s) u.1
      ∙ ground (arith, laws.cells_store.get_put k key op s, eqb_iff k key, u.0)

  put_cells-only :
      (winners : Map Op) (s : factory.cells.State)
      → All (λ (e : Text × Op). IsKey e.0) winners
      → ((k : Text) (op : Op) → factory.cells.get_at k s ≡ some op → IsKey k)
      → (k : Text) (op : Op) → factory.cells.get_at k (put_cells factory winners s) ≡ some op
      → IsKey k
  unfolding put_cells
  put_cells-only [] s made h = h
  put_cells-only ((key, v) ∷ winners) s made h =
      put_cells-only winners (factory.cells.put_at key v s) made.1 (λ k op at.
        elim (Bool-cases (text_eqb key k)) [
          | inl p ↦ subst IsKey ((eqb_iff key k).0 p) made.0
          | inr p ↦ h k op (ground (arith, laws.cells_store.get_put key k v s))
        ])

  get-remove_cells :
      (t r c : Text) (parts : AreParts t r c) (keys : List Text) (s : factory.cells.State)
      (tables : Tables)
      → All (λ k. IsKey k) keys
      → factory.cells.get_at (cell_key t r c) s ≡ cell_of t r c tables
      → factory.cells.get_at (cell_key t r c) (remove_cells factory keys s)
        ≡ cell_of t r c (delete_cells keys tables)
  unfolding remove_cells delete_cells
  get-remove_cells t r c parts [] s tables made h = h
  get-remove_cells t r c parts (key ∷ keys) s tables made h =
      get-remove_cells t r c parts keys (factory.cells.delete_at key s) (delete_cell_at key tables)
        made.1
        (laws.cells_store.get_delete key (cell_key t r c) s
          ∙ rw h (sym (cell_of-delete_cell_at t r c parts key tables made.0)))

  remove_cells-only :
      (keys : List Text) (s : factory.cells.State)
      → ((k : Text) (op : Op) → factory.cells.get_at k s ≡ some op → IsKey k)
      → (k : Text) (op : Op) → factory.cells.get_at k (remove_cells factory keys s) ≡ some op
      → IsKey k
  unfolding remove_cells
  remove_cells-only [] s h = h
  remove_cells-only (key ∷ keys) s h =
      remove_cells-only keys (factory.cells.delete_at key s)
        (λ k op at. h k op (ground (arith, laws.cells_store.get_delete key k s)))

  blank-Agrees : Agrees (new_database factory) empty_store
  unfolding get_frontier get_clock get_device_key get_peer_frontiers get_meta get cell_of
  blank-Agrees = record {
    same_ops = λ k. laws.ops_store.get_blank k;
    same_cells = λ t r c parts. laws.cells_store.get_blank (cell_key t r c);
    only_cells = λ k op at. absurd (ground (arith, laws.cells_store.get_blank k));
    same_frontier = rw (laws.meta_store.get_blank (codes "frontier")) refl;
    same_clock = rw (laws.meta_store.get_blank (codes "clock")) refl;
    same_key = rw (laws.meta_store.get_blank (codes "deviceKey")) refl;
    same_peers = rw (laws.meta_store.get_blank (codes "peers")) refl;
  }

  batch-Agrees :
      (b : BatchWrite) (db : IdbAdapter factory) (st : MemoryAdapter)
      → IsUnique b.winners
      → All (λ (e : Text × Op). IsKey e.0) b.winners
      → Agrees db st
      → Agrees (Idb.apply_batch factory b db) (Storage.apply_batch b st)
  unfolding get_frontier get_clock get_device_key get_peer_frontiers get_meta Idb.apply_batch
      Storage.apply_batch text_compare
  batch-Agrees b db st u made h = record {
    same_ops = get-put_ops b.ops db.ops st.ops_by_id h.same_ops;
    same_cells = λ t r c parts.
        get-put_cells (cell_key t r c) b.winners db.cells u
        ∙ rw (h.same_cells t r c parts)
            (sym (cell_of-set_cells t r c parts b.winners st.tables u made));
    only_cells = put_cells-only b.winners db.cells made h.only_cells;
    same_frontier =
        rw
          (
            laws.meta_store.get_put (codes "clock") (codes "frontier"),
            laws.meta_store.get_put (codes "frontier") (codes "frontier"),
          )
          refl;
    same_clock = rw (laws.meta_store.get_put (codes "clock") (codes "clock")) refl;
    same_key =
        rw
          (
            laws.meta_store.get_put (codes "clock") (codes "deviceKey"),
            laws.meta_store.get_put (codes "frontier") (codes "deviceKey"),
          )
          h.same_key;
    same_peers =
        rw
          (
            laws.meta_store.get_put (codes "clock") (codes "peers"),
            laws.meta_store.get_put (codes "frontier") (codes "peers"),
          )
          h.same_peers;
  }

  compaction-Agrees :
      (c : CompactionWrite) (db : IdbAdapter factory) (st : MemoryAdapter)
      → All (λ k. IsKey k) c.cell_keys
      → Agrees db st
      → Agrees (Idb.compact factory c db) (Storage.compact c st)
  unfolding get_frontier get_clock get_device_key get_peer_frontiers get_meta Idb.compact
      Storage.compact
  compaction-Agrees c db st made h = record {
    same_ops = get-remove_ops c.op_ids db.ops st.ops_by_id h.same_ops;
    same_cells = λ t r x parts.
        get-remove_cells t r x parts c.cell_keys db.cells st.tables made (h.same_cells t r x parts);
    only_cells = remove_cells-only c.cell_keys db.cells h.only_cells;
    same_frontier = h.same_frontier;
    same_clock = h.same_clock;
    same_key = h.same_key;
    same_peers = h.same_peers;
  }

  device_key-Agrees :
      (k : DeviceKey) (db : IdbAdapter factory) (st : MemoryAdapter)
      → Agrees db st
      → Agrees (Idb.set_device_key factory k db) (Storage.set_device_key k st)
  unfolding get_frontier get_clock get_device_key get_peer_frontiers get_meta put_meta
      Idb.set_device_key Storage.set_device_key text_compare
  device_key-Agrees k db st h = record {
    same_ops = h.same_ops;
    same_cells = h.same_cells;
    only_cells = h.only_cells;
    same_frontier =
        rw (laws.meta_store.get_put (codes "deviceKey") (codes "frontier")) h.same_frontier;
    same_clock = rw (laws.meta_store.get_put (codes "deviceKey") (codes "clock")) h.same_clock;
    same_key = rw (laws.meta_store.get_put (codes "deviceKey") (codes "deviceKey")) refl;
    same_peers = rw (laws.meta_store.get_put (codes "deviceKey") (codes "peers")) h.same_peers;
  }

  peer_frontier-Agrees :
      (p : Text) (f : Frontier) (db : IdbAdapter factory) (st : MemoryAdapter)
      → Agrees db st
      → Agrees (Idb.set_peer_frontier factory p f db) (Storage.set_peer_frontier p f st)
  unfolding get_frontier get_clock get_device_key get_peer_frontiers get_meta put_meta
      Idb.set_peer_frontier Storage.set_peer_frontier text_compare
  peer_frontier-Agrees p f db st h = record {
    same_ops = h.same_ops;
    same_cells = h.same_cells;
    only_cells = h.only_cells;
    same_frontier = rw (laws.meta_store.get_put (codes "peers") (codes "frontier")) h.same_frontier;
    same_clock = rw (laws.meta_store.get_put (codes "peers") (codes "clock")) h.same_clock;
    same_key = rw (laws.meta_store.get_put (codes "peers") (codes "deviceKey")) h.same_key;
    same_peers =
        rw (laws.meta_store.get_put (codes "peers") (codes "peers"))
          (ap (λ m. set p f m) h.same_peers);
  }

  -- A write, as the database takes it.
  unfoldable pub write_database : Write → IdbAdapter factory → IdbAdapter factory
  write_database (batch b) db = Idb.apply_batch factory b db
  write_database (compaction c) db = Idb.compact factory c db
  write_database (device_key k) db = Idb.set_device_key factory k db
  write_database (peer_frontier p f) db = Idb.set_peer_frontier factory p f db

  unfoldable pub write_database_all : List Write → IdbAdapter factory → IdbAdapter factory
  unfolding write_database
  write_database_all [] db = db
  write_database_all (w ∷ ws) db = write_database_all ws (write_database w db)

  write-Agrees :
      (w : Write) (db : IdbAdapter factory) (st : MemoryAdapter)
      → IsProper w
      → Agrees db st
      → Agrees (write_database w db) (write w st)
  unfolding write_database write
  write-Agrees (batch b) db st p h = batch-Agrees b db st p.0 p.1 h
  write-Agrees (compaction c) db st p h = compaction-Agrees c db st p h
  write-Agrees (device_key k) db st p h = device_key-Agrees k db st h
  write-Agrees (peer_frontier q f) db st p h = peer_frontier-Agrees q f db st h

  writes-Agree :
      (ws : List Write) (db : IdbAdapter factory) (st : MemoryAdapter)
      → All (λ w. IsProper w) ws
      → Agrees db st
      → Agrees (write_database_all ws db) (write_all ws st)
  unfolding write_database_all write_all
  writes-Agree [] db st p h = h
  writes-Agree (w ∷ ws) db st p h =
      writes-Agree ws (write_database w db) (write w st) p.1 (write-Agrees w db st p.0 h)

  -- A new database and a new adapter in memory hold the same after the same writes, whatever they are, when
  -- the keys of cells that they carry are keys of cells and none stands twice in a batch: the log, the cells
  -- whose names are without the separator, the frontier, the clock, the device key and the peers' frontiers.
  pub write_database_all-Agrees :
      (ws : List Write)
      → All (λ w. IsProper w) ws
      → Agrees (write_database_all ws (new_database factory)) (write_all ws empty_store)
  write_database_all-Agrees ws p = writes-Agree ws (new_database factory) empty_store p blank-Agrees
