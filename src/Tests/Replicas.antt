-- ===== src/Tests/Replicas.antt =====
-- The specification of replicas at concrete operations.
use tangentfeed.Prelude.{inl, inr, [], ◌∷◌, Elem}
use tangentfeed.Op.{Op}

pub swap : (x a b : Op) → Elem x (a ∷ b ∷ []) → Elem x (b ∷ a ∷ [])
swap x a b (inl e) = inr (inl e)
swap x a b (inr (inl e)) = inl e
swap x a b (inr (inr n)) = absurd n
