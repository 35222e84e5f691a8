-- ===== src/Storage/Keys.antt =====
-- The text keys of cells (`cellKey` of packages/core/src/storage.ts) and their parts.
use tangentfeed.Prelude.{◌≡◌, refl, ap, ◌∙◌, true, [], ◌∷◌, ◌++◌, arith, Text, all}
use tangentfeed.Op.{Op}
use tangentfeed.Op.Names.{no_sep, name_no_sep, ulid_no_sep, column_no_sep}
use tangentfeed.Op.Valid.{IsValid}
use tangentfeed.Storage.{sep, cell_key, split}

split-part : (a rest : Text) → no_sep a ≡ true → split (a ++ sep ∷ rest) ≡ a ∷ split rest
unfolding split no_sep all
split-part [] rest h = refl
split-part (c ∷ a) rest h = ground (arith, split-part a rest)

split-last : (a : Text) → no_sep a ≡ true → split a ≡ a ∷ []
unfolding split no_sep all
split-last [] h = refl
split-last (c ∷ a) h = ground (arith, split-last a)

pub record AreParts (table row column : Text) : Type 0 where
  pub table_part : no_sep table ≡ true
  pub row_part : no_sep row ≡ true
  pub column_part : no_sep column ≡ true

-- The key of a table, a row and a column without the separator splits into these three.
pub split-cell_key : (t r c : Text) → AreParts t r c → split (cell_key t r c) ≡ t ∷ r ∷ c ∷ []
unfolding cell_key
split-cell_key t r c p =
    split-part t _ p.table_part
    ∙ ap (λ ss. t ∷ ss) (split-part r c p.row_part ∙ ap (λ ss. r ∷ ss) (split-last c p.column_part))

pub cell_key-injective :
    (t r c t' r' c' : Text)
    → AreParts t r c
    → AreParts t' r' c'
    → cell_key t r c ≡ cell_key t' r' c'
    → (t ≡ t') × (r ≡ r') × (c ≡ c')
cell_key-injective t r c t' r' c' p q e =
    let same = ap split e in
    let left = split-cell_key t r c p in let right = split-cell_key t' r' c' q in (cc, cc, cc)

-- The names of a valid operation are parts of a key.
pub IsValid-AreParts : (op : Op) → IsValid op → AreParts op.table op.row op.column
IsValid-AreParts op v = record {
  table_part = name_no_sep op.table v.table_name;
  row_part = ulid_no_sep op.row v.row_ulid;
  column_part = column_no_sep op.column v.column_name;
}
