-- ===== src/Storage/Batches.antt =====
-- What `applyBatch` of packages/core/src/storage.ts makes of a batch: the log and the cells.
use tangentfeed.Prelude.{
  ◌≡◌, refl, sym, ap, ◌∙◌, inl, inr, some, [], ◌∷◌, arith, Text, text_eqb, eqb_iff, eqb_refl, Map,
  get, or_some, IsUnique, All, if◌then◌else◌, Bool-cases,
}
use tangentfeed.Op.{Op}
use tangentfeed.Storage.{Tables, cell_key, split, cell_of, set_cell_at, set_cells}
use tangentfeed.Storage.Keys.{AreParts, split-cell_key, cell_key-injective}
use tangentfeed.Storage.Cells.{same_cell, cell_of-set_cell}

-- A text that `cell_key` makes of names without separators.
pub record IsKey (key : Text) : Type 0 where
  pub table : Text
  pub row : Text
  pub column : Text
  pub parts : AreParts table row column
  pub made : key ≡ cell_key table row column

-- Keys are equal exactly if the cells are.
pub eqb-cell_key :
    (t r c t' r' c' : Text)
    → AreParts t r c
    → AreParts t' r' c'
    → text_eqb (cell_key t r c) (cell_key t' r' c') ≡ same_cell t r c t' r' c'
eqb-cell_key t r c t' r' c' p q =
    elim (Bool-cases (text_eqb (cell_key t r c) (cell_key t' r' c'))) [
      | inl h ↦
          let (et, er, ec) = cell_key-injective t r c t' r' c' p q ((eqb_iff _ _).0 h) in
          h ∙ sym (rw (et, er, ec) (rw (eqb_refl t', eqb_refl r', eqb_refl c')))
      | inr h ↦ elim (Bool-cases (same_cell t r c t' r' c')) [
        | inl k ↦
            let et : t ≡ t' = ground (arith, eqb_iff t t') in
            let er : r ≡ r' = ground (arith, eqb_iff r r') in
            let ec : c ≡ c' = ground (arith, eqb_iff c c') in
            absurd (
              ground (
                arith,
                eqb_iff (cell_key t r c) (cell_key t' r' c'),
                cc_key t r c t' r' c' et er ec,
              ))
        | inr k ↦ h ∙ sym k
      ]
    ]
  where
    cc_key : (t r c t' r' c' : Text) → t ≡ t' → r ≡ r' → c ≡ c' → cell_key t r c ≡ cell_key t' r' c'
    cc_key t r c t' r' c' et er ec = cc

module _ (t r c : Text) (parts : AreParts t r c) where
  cell_of-set_cell_at :
      (key : Text) (op : Op) (tables : Tables)
      → IsKey key
      → cell_of t r c (set_cell_at key op tables)
        ≡ (if text_eqb key (cell_key t r c) then some op else cell_of t r c tables)
  unfolding set_cell_at
  cell_of-set_cell_at key op tables k =
      let cut : split key ≡ k.table ∷ k.row ∷ k.column ∷ [] =
        ap split k.made ∙ split-cell_key k.table k.row k.column k.parts in
      rw (cut, k.made)
        (cell_of-set_cell k.table k.row k.column t r c tables op
          ∙ ap (λ b. if b then some op else cell_of t r c tables)
              (sym (eqb-cell_key k.table k.row k.column t r c k.parts parts)))

  -- A cell holds what the batch has under its key, or else what it held, when the keys of the batch
  -- are cell keys without repetition.
  pub cell_of-set_cells :
      (winners : Map Op) (tables : Tables)
      → IsUnique winners
      → All (λ (e : Text × Op). IsKey e.0) winners
      → cell_of t r c (set_cells winners tables)
        ≡ or_some (get (cell_key t r c) winners) (cell_of t r c tables)
  unfolding set_cells get
  cell_of-set_cells [] tables u k = refl
  cell_of-set_cells ((key, op) ∷ winners) tables u k =
      cell_of-set_cells winners (set_cell_at key op tables) u.1 k.1
      ∙ ground (arith, cell_of-set_cell_at key op tables k.0, eqb_iff key (cell_key t r c), u.0)
