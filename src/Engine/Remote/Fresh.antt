-- ===== src/Engine/Remote/Fresh.antt =====
-- `applyRemoteOps` of packages/core/src/engine.ts drops an operation of a batch only if the store or the
-- batch before it has its id.
use tangentfeed.Prelude.{
  ◌≡◌, refl, sym, subst, ◌⊎◌, inl, inr, Bool, true, false, not, ◌&&◌, ◌||◌, List, [], ◌∷◌, ◌++◌,
  arith, Text, any, Elem, text_eqb, eqb_refl, if◌then◌else◌,
}
use tangentfeed.Op.{Op}
use tangentfeed.Storage.{MemoryAdapter, has_op}
use tangentfeed.Engine.{fresh_ops}

-- Some operation of the list has the id.
abbrev pub has_id : Text → List Op → Bool
has_id id ops = any (λ (f : Op). text_eqb f.id id) ops

has_id-append :
    (id : Text) (xs ys : List Op) → has_id id (xs ++ ys) ≡ (has_id id xs || has_id id ys)
unfolding any
has_id-append id [] ys = refl
has_id-append id (x ∷ xs) ys = ground (arith, has_id-append id xs ys)

grown :
    (b : Bool) (id : Text) (op : Op) (acc : List Op)
    → has_id id acc ≡ true
    → has_id id (if b then acc ++ op ∷ [] else acc) ≡ true
grown true id op acc h = ground (arith, has_id-append id acc (op ∷ []))
grown false id op acc h = h

added : (op : Op) (acc : List Op) → has_id op.id (acc ++ op ∷ []) ≡ true
unfolding any
added op acc = ground (arith, has_id-append op.id acc (op ∷ []), eqb_refl op.id)

module _ (st : MemoryAdapter) where
  has_id-fresh_ops :
      (id : Text) (ops acc : List Op)
      → has_id id acc ≡ true
      → has_id id (fresh_ops st ops acc) ≡ true
  unfolding fresh_ops
  has_id-fresh_ops id [] acc h = h
  has_id-fresh_ops id (op ∷ ops) acc h =
      has_id-fresh_ops id ops _
        (grown (not (has_op op.id st) && not (has_id op.id acc)) id op acc h)

  -- What the first round leaves, by the two tests.
  first_known :
      (known seen : Bool) (op : Op) (ops acc : List Op)
      → has_op op.id st ≡ known
      → has_id op.id acc ≡ seen
      → (has_op op.id st ≡ true)
        ⊎ (has_id op.id (fresh_ops st ops (if not known && not seen then acc ++ op ∷ [] else acc))
            ≡ true)
  first_known true seen op ops acc h k = inl h
  first_known false true op ops acc h k = inr (has_id-fresh_ops op.id ops acc k)
  first_known false false op ops acc h k =
      inr (has_id-fresh_ops op.id ops (acc ++ op ∷ []) (added op acc))

  -- An operation of the batch is known to the store, or its id is among the new ones.
  pub fresh_ops_complete :
      (ops acc : List Op) (x : Op)
      → Elem x ops
      → (has_op x.id st ≡ true) ⊎ (has_id x.id (fresh_ops st ops acc) ≡ true)
  unfolding fresh_ops
  fresh_ops_complete (op ∷ ops) acc x (inl e) =
      subst
        (λ (y : Op). (has_op y.id st ≡ true) ⊎ (has_id y.id (fresh_ops st (op ∷ ops) acc) ≡ true))
        (sym e) (first_known (has_op op.id st) (has_id op.id acc) op ops acc refl refl)
  fresh_ops_complete (op ∷ ops) acc x (inr m) = fresh_ops_complete ops _ x m
  fresh_ops_complete [] acc x m = absurd m
