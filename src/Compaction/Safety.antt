-- ===== src/Compaction/Safety.antt =====
-- What `planCompaction` of packages/core/src/compaction.ts removes.
use tangentfeed.Prelude.{
  ◌+◌, ◌≡◌, refl, sym, ap, ◌∙◌, subst, ◌↔◌, ◌⊎◌, inl, inr, Bool, true, false, not, ◌&&◌, ◌||◌, List,
  [], ◌∷◌, ◌++◌, arith, Text, text_eqb, eqb_iff, eqb_refl, Map, values, length, any, any_of_Elem,
  Elem, Elem-append-left, Elem-append-right, Elem-append_inv, filter, Elem-filter_inv,
  if◌then◌else◌, Bool-cases,
}
use tangentfeed.Op.{Op, Frontier}
use tangentfeed.Compaction.{
  CompactionOptions, CompactionStats, contains, add, ids, row_key_of, below, blocked_rows,
  candidates, doomed_rows, Plan, plan_op, plan_ops, plan_compaction, empty_plan,
}

-- Membership in a set is membership in its list.
Elem-of_contains : (xs : List Text) (x : Text) → contains xs x ≡ true → Elem x xs
unfolding any
Elem-of_contains [] x h = absurd (ground arith)
Elem-of_contains (y ∷ ys) x h = elim (Bool-cases (text_eqb y x)) [
  | inl p ↦ inl (sym ((eqb_iff y x).0 p))
  | inr p ↦ inr (Elem-of_contains ys x (ground arith))
]

contains_of_Elem : (xs : List Text) (x : Text) → Elem x xs → contains xs x ≡ true
contains_of_Elem xs x e = any_of_Elem (λ y. text_eqb y x) x xs e (eqb_refl x)

Elem-add_kept : (xs : List Text) (x y : Text) → Elem y xs → Elem y (add xs x)
Elem-add_kept xs x y e = elim (Bool-cases (contains xs x)) [
  | inl p ↦ rw p e
  | inr p ↦ rw p (Elem-append-left y xs (x ∷ []) e)
]

Elem-add_self : (xs : List Text) (x : Text) → Elem x (add xs x)
Elem-add_self xs x = elim (Bool-cases (contains xs x)) [
  | inl p ↦ rw p (Elem-of_contains xs x p)
  | inr p ↦ rw p (Elem-append-right x xs (x ∷ []) (inl refl))
]

-- A row stays blocked, and a row with an operation above the horizon is.
blocked_kept :
    (h : Frontier) (ops : List Op) (rows : List Text) (row : Text)
    → Elem row rows
    → Elem row (blocked_rows h ops rows)
unfolding blocked_rows
blocked_kept h [] rows row e = e
blocked_kept h (op ∷ ops) rows row e = elim (Bool-cases (below h op)) [
  | inl p ↦ rw p (blocked_kept h ops rows row e)
  | inr p ↦ rw p (blocked_kept h ops _ row (Elem-add_kept rows (row_key_of op) row e))
]

above_blocks :
    (h : Frontier) (ops : List Op) (rows : List Text) (op : Op)
    → Elem op ops
    → below h op ≡ false
    → Elem (row_key_of op) (blocked_rows h ops rows)
unfolding blocked_rows
above_blocks h [] rows op e b = absurd e
above_blocks h (x ∷ ops) rows op (inl q) b =
    let b' : below h x ≡ false = ap (below h) (sym q) ∙ b in
    rw b' (
      blocked_kept h ops _ (row_key_of op) (
        subst (λ y. Elem (row_key_of y) (add rows (row_key_of x))) (sym q)
          (Elem-add_self rows (row_key_of x))))
above_blocks h (x ∷ ops) rows op (inr e) b = above_blocks h ops _ op e b

-- Every operation of a doomed row is below the horizon.
doomed_below :
    (opts : CompactionOptions) (ops : List Op) (winning : Map Op) (h : Frontier) (op : Op)
    → Elem op ops
    → contains (doomed_rows opts ops winning h) (row_key_of op) ≡ true
    → below h op ≡ true
unfolding doomed_rows
doomed_below opts ops winning h op e d = elim (Bool-cases opts.include_tombstones) [
  | inr off ↦ absurd (Elem-of_contains [] (row_key_of op) (rw off at d))
  | inl on ↦
      let m = Elem-of_contains (filter _ (candidates h winning [])) (row_key_of op) (rw on at d) in
      let free = (Elem-filter_inv _ (row_key_of op) (candidates h winning []) m).1 in
      elim (Bool-cases (below h op)) [
        | inl b ↦ b
        | inr a ↦
            let blocked =
              contains_of_Elem (blocked_rows h ops []) (row_key_of op)
                (above_blocks h ops [] op e a) in
            absurd (ground (arith, free, blocked))
      ]
]

-- Whether the second pass removes an operation.
removes : List Text → List Text → Frontier → Op → Bool
removes doomed winner_ids h op =
    contains doomed (row_key_of op) || (below h op && not (contains winner_ids op.id))

module _ (doomed winner_ids : List Text) (h : Frontier) where
  plan_op-ids :
      (plan : Plan) (op : Op)
      → (plan_op doomed winner_ids h plan op).op_ids
        ≡ (if removes doomed winner_ids h op then plan.op_ids ++ op.id ∷ [] else plan.op_ids)
  unfolding plan_op removes
  plan_op-ids plan op = ground arith

  -- One round counts its operation once, and lists it if it removes it.
  plan_op-counts :
      (plan : Plan) (op : Op)
      → (let q : Plan = plan_op doomed winner_ids h plan op in
          q.removed + q.retained_winners + q.retained_above_horizon)
        ≡ plan.removed + plan.retained_winners + plan.retained_above_horizon + 1
  unfolding plan_op
  plan_op-counts plan op = ground arith

  -- The ids that the second pass lists are those of the operations that it removes.
  Elem-plan_ops :
      (plan : Plan) (ops : List Op) (id : Text)
      → Elem id (plan_ops doomed winner_ids h plan ops).op_ids
      → Elem id plan.op_ids
        ⊎ ((op : Op) × Elem op ops × (op.id ≡ id) × (removes doomed winner_ids h op ≡ true))
  unfolding plan_ops
  Elem-plan_ops plan [] id e = inl e
  Elem-plan_ops plan (op ∷ ops) id e =
      elim (Elem-plan_ops (plan_op doomed winner_ids h plan op) ops id e) [
        | inr (x, m, q, r) ↦ inr (x, inr m, q, r)
        | inl m ↦ added plan op ops id (rw plan_op-ids at m)
      ]
    where
      added :
          (plan : Plan) (op : Op) (ops : List Op) (id : Text)
          → Elem id
              (if removes doomed winner_ids h op then plan.op_ids ++ op.id ∷ [] else plan.op_ids)
          → Elem id plan.op_ids
            ⊎ ((x : Op) × Elem x (op ∷ ops) × (x.id ≡ id) × (removes doomed winner_ids h x ≡ true))
      added plan op ops id e = elim (Bool-cases (removes doomed winner_ids h op)) [
        | inr n ↦ inl (rw n at e)
        | inl y ↦ elim (Elem-append_inv id plan.op_ids (op.id ∷ []) (rw y at e)) [
          | inl l ↦ inl l
          | inr (inl q) ↦ inr (op, inl refl, sym q, y)
          | inr (inr n) ↦ absurd n
        ]
      ]

  -- Everything that is to be removed is listed.
  plan_ops-Elem :
      (plan : Plan) (ops : List Op) (id : Text)
      → Elem id plan.op_ids
        ⊎ ((op : Op) × Elem op ops × (op.id ≡ id) × (removes doomed winner_ids h op ≡ true))
      → Elem id (plan_ops doomed winner_ids h plan ops).op_ids
  unfolding plan_ops
  plan_ops-Elem plan [] id (inl e) = e
  plan_ops-Elem plan [] id (inr (x, m, q, r)) = absurd m
  plan_ops-Elem plan (op ∷ ops) id (inl e) =
      plan_ops-Elem (plan_op doomed winner_ids h plan op) ops id
        (inl (rw plan_op-ids (kept (removes doomed winner_ids h op))))
    where
      kept : (b : Bool) → Elem id (if b then plan.op_ids ++ op.id ∷ [] else plan.op_ids)
      kept true = Elem-append-left id plan.op_ids (op.id ∷ []) e
      kept false = e
  plan_ops-Elem plan (op ∷ ops) id (inr (x, inr m, q, r)) =
      plan_ops-Elem (plan_op doomed winner_ids h plan op) ops id (inr (x, m, q, r))
  plan_ops-Elem plan (op ∷ ops) id (inr (x, inl s, q, r)) =
      let r' : removes doomed winner_ids h op ≡ true =
        ap (removes doomed winner_ids h) (sym s) ∙ r in
      let q' : id ≡ op.id = sym q ∙ ap (λ (y : Op). y.id) s in
      plan_ops-Elem (plan_op doomed winner_ids h plan op) ops id
        (inl (rw (plan_op-ids, r') (Elem-append-right id plan.op_ids (op.id ∷ []) (inl q'))))

  counts :
      (plan : Plan) (ops : List Op)
      → (let q : Plan = plan_ops doomed winner_ids h plan ops in
          q.removed + q.retained_winners + q.retained_above_horizon)
        ≡ plan.removed + plan.retained_winners + plan.retained_above_horizon + length ops
  unfolding plan_ops
  counts plan [] = omega arith
  counts plan (op ∷ ops) =
      let step = plan_op-counts plan op in
      let rest = counts (plan_op doomed winner_ids h plan op) ops in omega (arith, step, rest)

module _ (ops : List Op) (winning : Map Op) (h : Frontier) (opts : CompactionOptions) where
  abbrev doomed : List Text
  doomed = doomed_rows opts ops winning h

  abbrev winner_ids : List Text
  winner_ids = ids (values winning)

  removed_because :
      (op : Op) (id : Text)
      → Elem op ops
      → op.id ≡ id
      → removes doomed winner_ids h op ≡ true
      → (below h op ≡ true)
        × ((contains doomed (row_key_of op) ≡ true) ⊎ (contains winner_ids id ≡ false))
  unfolding removes
  removed_because op id m q r = elim (Bool-cases (contains doomed (row_key_of op))) [
    | inl d ↦ (doomed_below opts ops winning h op m d, inl d)
    | inr n ↦ (ground arith, inr (ap (contains winner_ids) (sym q) ∙ ground arith))
  ]

  because_removes :
      (op : Op) (id : Text)
      → op.id ≡ id
      → below h op ≡ true
      → (contains doomed (row_key_of op) ≡ true) ⊎ (contains winner_ids id ≡ false)
      → removes doomed winner_ids h op ≡ true
  unfolding removes
  because_removes op id q b (inl d) = rw d refl
  because_removes op id q b (inr n) =
      let n' : contains winner_ids op.id ≡ false = ap (contains winner_ids) q ∙ n in ground arith

  -- An id is planned for removal exactly if an operation has it that is below the horizon and is
  -- no winner, or whose row is doomed; the operations of a doomed row are below the horizon too.
  pub Elem-plan_compaction :
      (id : Text)
      → Elem id (plan_compaction ops winning h opts).0 ↔ (
          (op : Op) × Elem op ops
          × (op.id ≡ id)
          × (below h op ≡ true)
          × ((contains (doomed_rows opts ops winning h) (row_key_of op) ≡ true)
              ⊎ (contains (ids (values winning)) id ≡ false)))
  unfolding plan_compaction
  Elem-plan_compaction id = (
    λ e. elim (Elem-plan_ops (doomed_rows opts ops winning h) (ids (values winning)) h _ ops id e) [
      | inl n ↦ absurd n
      | inr (op, m, q, r) ↦ let (b, why) = removed_because op id m q r in (op, m, q, b, why)
    ],
    λ t.
        plan_ops-Elem (doomed_rows opts ops winning h) (ids (values winning)) h _ ops id
          (inr (t.0, t.1, t.2, because_removes t.0 id t.2 t.3 t.4)),
  )

  -- Every scanned operation is counted once.
  pub plan_compaction-counts :
      (let stats : CompactionStats = (plan_compaction ops winning h opts).2 in
        stats.removed + stats.retained_winners + stats.retained_above_horizon)
      ≡ (plan_compaction ops winning h opts).2.scanned
  unfolding plan_compaction
  plan_compaction-counts =
      omega (arith, counts (doomed_rows opts ops winning h) (ids (values winning)) h empty_plan ops)
