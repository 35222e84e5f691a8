-- ===== src/Compaction/Horizon.antt =====
-- `compactionHorizon` of packages/core/src/compaction.ts is the minimum of the frontiers.
use tangentfeed.Prelude.{
  ◌≡◌, ◌≢◌, refl, ◌∙◌, inl, inr, false, not, ◌&&◌, [], ◌∷◌, arith, Text, text_ltb, text_leb,
  text_eqb, text_compare, eqb_iff, compare_flip, lt_trans, eq_of_compare, Map, get, all,
  if◌then◌else◌, Bool-cases,
}
use tangentfeed.Op.{Op, Frontier, above_frontier}
use tangentfeed.Compaction.{seen_of, lower, compaction_horizon, below}

smaller : Text → Text → Text
smaller seen h = if text_ltb seen h then seen else h

leb-smaller : (x seen h : Text) → text_leb x (smaller seen h) ≡ (text_leb x h && text_leb x seen)
unfolding smaller
leb-smaller x seen h = ground (
  arith,
  compare_flip seen x,
  compare_flip h x,
  compare_flip seen h,
  lt_trans seen h x,
  lt_trans h seen x,
  eq_of_compare seen h,
  lt_trans seen x h,
  lt_trans h x seen,
)

leb-empty : (x : Text) (y : Text) → text_leb x [] ≡ (text_leb x [] && text_leb x y)
unfolding text_compare
leb-empty [] [] = refl
leb-empty [] (c ∷ y) = refl
leb-empty (c ∷ x) y = refl

leb-seen_of-lower :
    (f own : Frontier) (d x : Text)
    → text_leb x (seen_of (lower f own) d)
      ≡ (text_leb x (seen_of own d) && text_leb x (seen_of f d))
unfolding lower get smaller
leb-seen_of-lower f [] d x = leb-empty x (seen_of f d)
leb-seen_of-lower f ((e, h) ∷ own) d x = elim (Bool-cases (text_eqb e d)) [
  | inl p ↦ rw (p, (eqb_iff e d).0 p) (leb-smaller x (seen_of f d) h)
  | inr p ↦ rw p (leb-seen_of-lower f own d x)
]

-- An operation is below the horizon exactly if it is below our frontier and every known peer's.
pub below-compaction_horizon :
    (own : Frontier) (peers : Map Frontier) (op : Op)
    → below (compaction_horizon own peers) op
      ≡ (below own op && all (λ (e : Text × Frontier). below e.1 op) peers)
unfolding compaction_horizon below all
below-compaction_horizon own [] op = ground arith
below-compaction_horizon own ((peer, f) ∷ peers) op =
    below-compaction_horizon (lower f own) peers op
    ∙ ground (arith, leb-seen_of-lower f own op.device op.hlc)

leb_nonempty : (x : Text) → x ≢ [] → text_leb x [] ≡ false
unfolding text_compare
leb_nonempty [] h = absurd (h refl)
leb_nonempty (c ∷ x) h = refl

-- Below a frontier is not above it.
pub below-above_frontier :
    (f : Frontier) (op : Op) → op.hlc ≢ [] → below f op ≡ not (above_frontier op f)
unfolding below above_frontier
below-above_frontier f op h = ground (arith, leb_nonempty op.hlc h)
