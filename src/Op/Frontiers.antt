-- ===== src/Op/Frontiers.antt =====
-- Frontiers of packages/core/src/op.ts: what advancing one does to the set of operations above it.
use tangentfeed.Prelude.{
  ◌≡◌, refl, not, ◌&&◌, Option, none, some, arith, Text, text_eqb, text_leb, get, get-set, eqb_iff,
  compare_flip, lt_trans, eq_of_compare,
}
use tangentfeed.Op.{Op, Frontier, above_frontier, advance_frontier}

module _ (x op : Op) (f : Frontier) where
  -- The frontier's entry for the operation's device, whichever it is.
  above_by_entry :
      (seen : Option Text)
      → get op.device f ≡ seen
      → above_frontier x (advance_frontier f op)
        ≡ (above_frontier x f && not (text_eqb op.device x.device && text_leb x.hlc op.hlc))
  unfolding above_frontier advance_frontier
  above_by_entry none e = ground (
    arith,
    get-set op.device x.device op.hlc f,
    eqb_iff op.device x.device,
    compare_flip x.hlc op.hlc,
  )
  above_by_entry (some s) e = ground (
    arith,
    get-set op.device x.device op.hlc f,
    eqb_iff op.device x.device,
    compare_flip s x.hlc,
    compare_flip op.hlc s,
    compare_flip op.hlc x.hlc,
    lt_trans op.hlc s x.hlc,
    lt_trans s op.hlc x.hlc,
    eq_of_compare op.hlc s,
    eq_of_compare op.hlc x.hlc,
  )

  -- The advanced frontier passes exactly what it passed before, and the operations of that device
  -- up to the new timestamp.
  pub above-advance_frontier :
      above_frontier x (advance_frontier f op)
      ≡ (above_frontier x f && not (text_eqb op.device x.device && text_leb x.hlc op.hlc))
  above-advance_frontier = above_by_entry (get op.device f) refl
