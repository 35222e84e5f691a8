-- ===== src/Storage/Writes.antt =====
-- The writes of the `StorageAdapter` of packages/core/src/storage.ts as data, and a run of them in memory; other
-- adapters are compared with it.
use tangentfeed.Prelude.{
  ◌≡◌, sym, ap, ◌∙◌, none, List, [], ◌∷◌, Text, text_eqb, IsUnique, All, if◌then◌else◌,
}
use tangentfeed.Signing.{DeviceKey}
use tangentfeed.Op.{Op, Frontier}
use tangentfeed.Storage.{
  MemoryAdapter, BatchWrite, CompactionWrite, Tables, apply_batch, compact, set_device_key,
  set_peer_frontier, cell_key, split, cell_of, delete_cell_at,
}
use tangentfeed.Storage.Keys.{AreParts, split-cell_key}
use tangentfeed.Storage.Cells.{cell_of-delete_cell}
use tangentfeed.Storage.Batches.{IsKey, eqb-cell_key}

pub data Write : Type 0 where
  batch : BatchWrite → Write
  compaction : CompactionWrite → Write
  device_key : DeviceKey → Write
  peer_frontier : Text → Frontier → Write

unfoldable pub write : Write → MemoryAdapter → MemoryAdapter
write (batch b) st = apply_batch b st
write (compaction c) st = compact c st
write (device_key k) st = set_device_key k st
write (peer_frontier p f) st = set_peer_frontier p f st

unfoldable pub write_all : List Write → MemoryAdapter → MemoryAdapter
unfolding write
write_all [] st = st
write_all (w ∷ ws) st = write_all ws (write w st)

-- The keys of cells are keys, and a batch has each once.
abbrev pub IsProper : Write → Type 0
IsProper (batch b) = IsUnique b.winners × All (λ (e : Text × Op). IsKey e.0) b.winners
IsProper (compaction c) = All (λ k. IsKey k) c.cell_keys
IsProper (device_key k) = Unit
IsProper (peer_frontier p f) = Unit

-- After a cell is deleted by its key, that cell alone reads differently.
pub cell_of-delete_cell_at :
    (t r c : Text) (parts : AreParts t r c) (key : Text) (tables : Tables)
    → IsKey key
    → cell_of t r c (delete_cell_at key tables)
      ≡ (if text_eqb key (cell_key t r c) then none else cell_of t r c tables)
unfolding delete_cell_at
cell_of-delete_cell_at t r c parts key tables k =
    let cut : split key ≡ k.table ∷ k.row ∷ k.column ∷ [] =
      ap split k.made ∙ split-cell_key k.table k.row k.column k.parts in
    rw (cut, k.made)
      (cell_of-delete_cell k.table k.row k.column t r c tables
        ∙ ap (λ b. if b then none else cell_of t r c tables)
            (sym (eqb-cell_key k.table k.row k.column t r c k.parts parts)))
