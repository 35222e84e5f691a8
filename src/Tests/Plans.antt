-- ===== src/Tests/Plans.antt =====
-- Compaction of packages/core/src/compaction.ts at concrete logs.
use tangentfeed.Prelude.{
  ◌≡◌, refl, ◌↔◌, ◌⊎◌, true, false, ◌&&◌, List, [], ◌∷◌, Text, Map, text_compare, values, all, Elem,
  get, codes,
}
use tangentfeed.Op.{Op, Frontier}
use tangentfeed.Compaction
use tangentfeed.Compaction.{
  CompactionOptions, CompactionStats, compaction_horizon, below, contains, ids, row_key_of,
  doomed_rows, plan_compaction,
}
use tangentfeed.Compaction.Horizon
use tangentfeed.Compaction.Safety
use tangentfeed.Samples.{first_op, second_op, device, early_text, late_text}

abbrev own : Frontier
own = (device, late_text) ∷ []

abbrev peers : Map Frontier
peers = (codes "peer", (device, early_text) ∷ []) ∷ []

abbrev log : List Op
log = first_op ∷ second_op ∷ []

abbrev winning : Map Op
winning = (codes "cell", second_op) ∷ []

abbrev opts : CompactionOptions
opts = record { include_tombstones = false; dry_run = false }

below-compaction_horizon_example :
    below (compaction_horizon own peers) first_op
    ≡ (below own first_op && all (λ (e : Text × Frontier). below e.1 first_op) peers)
below-compaction_horizon_example = Horizon.below-compaction_horizon own peers first_op

Elem-plan_compaction_example : Elem early_text (plan_compaction log winning own opts).0 ↔ (
    (op : Op) × Elem op log
    × (op.id ≡ early_text)
    × (below own op ≡ true)
    × ((contains (doomed_rows opts log winning own) (row_key_of op) ≡ true)
        ⊎ (contains (ids (values winning)) early_text ≡ false)))
Elem-plan_compaction_example = Safety.Elem-plan_compaction log winning own opts early_text

-- The superseded operation goes, the winner stays.
superseded : (plan_compaction log winning own opts).0 ≡ early_text ∷ []
unfolding Compaction.program text_compare get
superseded = refl

-- A peer that has seen the first operation only holds the second back, not the first.
peer_horizon : compaction_horizon own peers ≡ (device, early_text) ∷ []
unfolding Compaction.program text_compare get
peer_horizon = refl
