-- ===== src/Storage/Cells.antt =====
-- Writing and deleting one cell of the nested maps of packages/core/src/storage.ts.
use tangentfeed.Prelude.{
  ◌≡◌, refl, Bool, true, false, ◌&&◌, Option, none, some, [], ◌∷◌, arith, Text, text_eqb, eqb_iff,
  get, set, delete, get-set, get-delete, or_else, if◌then◌else◌, Map,
}
use tangentfeed.Op.{Op}
use tangentfeed.Storage.{Tables, cell_of, set_cell, delete_cell, is_empty}

abbrev pub same_cell : Text → Text → Text → Text → Text → Text → Bool
same_cell t r c t' r' c' = text_eqb t t' && text_eqb r r' && text_eqb c c'

or_else-if {ℓ} :
    {V : Type ℓ} (b : Bool) (o o' : Option V) (d : V)
    → or_else (if b then o else o') d ≡ (if b then or_else o d else or_else o' d)
or_else-if true o o' d = refl
or_else-if false o o' d = refl

-- The map under a key, empty if there is none.
abbrev under {ℓ} : {V : Type ℓ} → Text → Map (Map V) → Map V
under k m = or_else (get k m) []

-- The chain `tables.get(t)?.get(r)?.get(c)`.
pub cell_of-under :
    (t r c : Text) (tables : Tables) → cell_of t r c tables ≡ get c (under r (under t tables))
unfolding cell_of get
cell_of-under t r c tables = ground arith

under-set {ℓ} :
    {V : Type ℓ} (k k' : Text) (v : Map V) (m : Map (Map V))
    → under k' (set k v m) ≡ (if text_eqb k k' then v else under k' m)
under-set k k' v m = rw get-set (or_else-if (text_eqb k k') (some v) (get k' m) [])

-- Storing a map, or dropping the key if the map is empty.
under-put {ℓ} :
    {V : Type ℓ} (k k' : Text) (v : Map V) (m : Map (Map V))
    → under k' (if is_empty v then delete k m else set k v m)
      ≡ (if text_eqb k k' then v else under k' m)
under-put k k' [] m = rw get-delete (or_else-if (text_eqb k k') none (get k' m) [])
under-put k k' (e ∷ v) m = under-set k k' (e ∷ v) m

module _ (t r c t' r' c' : Text) (tables : Tables) where
  -- A change of one cell, level by level.
  change_one :
      (x : Option Op) (cells : Map Op) (rows : Map (Map Op)) (after : Tables)
      → get c' cells ≡ (if text_eqb c c' then x else get c' (under r (under t tables)))
      → under r' rows ≡ (if text_eqb r r' then cells else under r' (under t tables))
      → under t' after ≡ (if text_eqb t t' then rows else under t' tables)
      → cell_of t' r' c' after ≡ (if same_cell t r c t' r' c' then x else cell_of t' r' c' tables)
  change_one x cells rows after h k l =
      simp cell_of-under (ground (arith, eqb_iff t t', eqb_iff r r'))

  abbrev old_rows : Map (Map Op)
  old_rows = under t tables

  abbrev old_cells : Map Op
  old_cells = under r old_rows

  -- After a cell is written, it reads as the operation, and every other cell as before.
  pub cell_of-set_cell :
      (op : Op)
      → cell_of t' r' c' (set_cell t r c op tables)
        ≡ (if same_cell t r c t' r' c' then some op else cell_of t' r' c' tables)
  unfolding set_cell
  cell_of-set_cell op =
      let cells = set c op old_cells in
      let rows = set r cells old_rows in
      change_one (some op) cells rows (set t rows tables) (get-set c c' op old_cells)
        (under-set r r' cells old_rows) (under-set t t' rows tables)

  -- After a cell is deleted, with the maps that this leaves empty, that cell alone reads differently.
  pub cell_of-delete_cell :
      cell_of t' r' c' (delete_cell t r c tables)
      ≡ (if same_cell t r c t' r' c' then none else cell_of t' r' c' tables)
  unfolding delete_cell
  cell_of-delete_cell =
      let cells = delete c old_cells in
      let rows = (if is_empty cells then delete r old_rows else set r cells old_rows) in
      change_one none cells rows _ (get-delete c c' old_cells) (under-put r r' cells old_rows)
        (under-put t t' rows tables)
