-- ===== src/Tests/Stores.antt =====
-- The adapter of packages/core/src/storage.ts at concrete states.
use tangentfeed.Prelude.{
  ◌≡◌, refl, inl, inr, arith, ◌↔◌, true, some, [], ◌∷◌, Text, text_compare, text_leb, get, IsUnique,
  Elem,
}
use tangentfeed.Op.{Op, advance_frontier}
use tangentfeed.Storage
use tangentfeed.Storage.{
  MemoryAdapter, empty_store, cell_key, split, cell_of, set_cell, delete_cell, set_cells, ops_since,
}
use tangentfeed.Storage.Listing
use tangentfeed.Storage.Listing.{IsAscending}
use tangentfeed.Storage.Strict.{IsStrict, IsKeyed, IsNews, ops_since-Selects}
use tangentfeed.Samples.{first_op, second_op, early_text, late_text}

abbrev key : Text
key = cell_key first_op.table first_op.row first_op.column

abbrev two_ops : MemoryAdapter
two_ops = record empty_store { ops_by_id = (late_text, second_op) ∷ (early_text, first_op) ∷ [] }

two_ops-IsUnique : IsUnique two_ops.ops_by_id
unfolding get text_compare
two_ops-IsUnique = (refl, (refl, tt))

two_ops-IsKeyed : IsKeyed two_ops.ops_by_id
two_ops-IsKeyed k op e = elim e [
  | inl q ↦ ground arith
  | inr (inl q) ↦ ground arith
  | inr (inr q) ↦ absurd q
]

ops_since-Selects_example :
    IsStrict (ops_since [] two_ops)
    × ((op : Op)
        → Elem op (ops_since [] two_ops)
          ↔ ((get op.hlc two_ops.ops_by_id ≡ some op) × IsNews [] op))
ops_since-Selects_example = ops_since-Selects [] two_ops two_ops-IsUnique two_ops-IsKeyed

-- Once the later operation has arrived, the earlier one is not sent any more.
early_leb_late : text_leb first_op.hlc second_op.hlc ≡ true
unfolding text_compare
early_leb_late = refl

ops_since-advanced_example : ¬ Elem first_op (ops_since (advance_frontier [] second_op) two_ops)
ops_since-advanced_example =
    Listing.ops_since-advanced [] two_ops first_op second_op refl early_leb_late

ops_in_order : ops_since [] two_ops ≡ first_op ∷ second_op ∷ []
unfolding Storage.program text_compare
ops_in_order = refl
