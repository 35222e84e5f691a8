-- ===== src/Engine/Remote/Filter.antt =====
-- What the filter of `applyRemoteOps` in packages/core/src/engine.ts keeps of a batch.
use tangentfeed.Prelude.{
  ◌≡◌, ◌≢◌, sym, ap, ◌∙◌, inl, inr, ◌⊎◌, Bool, true, false, not, ◌&&◌, List, [], ◌∷◌, ◌++◌,
  text_eqb, eqb_iff, Elem, any, any_of_Elem, Elem-append_inv, if◌then◌else◌, Bool-cases,
}
use tangentfeed.Op.{Op}
use tangentfeed.Storage.{MemoryAdapter, has_op}
use tangentfeed.Engine.{fresh_ops}

-- What the filter of a batch against the store and against itself keeps.
pub record IsFresh (st : MemoryAdapter) (fresh : List Op) : Type 0 where
  pub unknown : (x : Op) → Elem x fresh → has_op x.id st ≡ false
  pub apart : (x y : Op) → Elem x fresh → Elem y fresh → x.id ≡ y.id → x ≡ y

module _ (st : MemoryAdapter) (fresh : List Op) (h : IsFresh st fresh) (op : Op)
    (unknown : has_op op.id st ≡ false)
    (apart : any (λ (f : Op). text_eqb f.id op.id) fresh ≡ false) where
  not_twice : (x : Op) → Elem x fresh → x.id ≢ op.id
  not_twice x e q =
      let twice =
        any_of_Elem (λ (f : Op). text_eqb f.id op.id) x fresh e ((eqb_iff x.id op.id).1 q) in
      cc

  added-IsFresh : IsFresh st (fresh ++ op ∷ [])
  added-IsFresh = record {
    unknown = λ x e. elim (Elem-append_inv x fresh (op ∷ []) e) [
      | inl l ↦ h.unknown x l
      | inr (inl q) ↦ ap (λ (y : Op). has_op y.id st) q ∙ unknown
      | inr (inr n) ↦ absurd n
    ];
    apart = λ x y e f q. elim (Elem-append_inv x fresh (op ∷ []) e) [
      | inl l ↦ elim (Elem-append_inv y fresh (op ∷ []) f) [
        | inl m ↦ h.apart x y l m q
        | inr (inl r) ↦ absurd (not_twice x l (q ∙ ap (λ (z : Op). z.id) r))
        | inr (inr n) ↦ absurd n
      ]
      | inr (inl p) ↦ elim (Elem-append_inv y fresh (op ∷ []) f) [
        | inl m ↦ absurd (not_twice y m (sym q ∙ ap (λ (z : Op). z.id) p))
        | inr (inl r) ↦ p ∙ sym r
        | inr (inr n) ↦ absurd n
      ]
      | inr (inr n) ↦ absurd n
    ];
  }

pub fresh_ops-IsFresh :
    (st : MemoryAdapter) (ops fresh : List Op)
    → IsFresh st fresh
    → IsFresh st (fresh_ops st ops fresh)
unfolding fresh_ops
fresh_ops-IsFresh st [] fresh h = h
fresh_ops-IsFresh st (op ∷ ops) fresh h = elim (Bool-cases (has_op op.id st)) [
  | inl k ↦ rw k (fresh_ops-IsFresh st ops fresh h)
  | inr u ↦ elim (Bool-cases (any (λ (f : Op). text_eqb f.id op.id) fresh)) [
    | inl k ↦ rw (u, k) (fresh_ops-IsFresh st ops fresh h)
    | inr a ↦
        rw (u, a) (fresh_ops-IsFresh st ops (fresh ++ op ∷ []) (added-IsFresh st fresh h op u a))
  ]
]

pub fresh_ops-subset :
    (st : MemoryAdapter) (ops fresh : List Op) (x : Op)
    → Elem x (fresh_ops st ops fresh)
    → Elem x fresh ⊎ Elem x ops
unfolding fresh_ops
fresh_ops-subset st [] fresh x e = inl e
fresh_ops-subset st (op ∷ ops) fresh x e = elim (fresh_ops-subset st ops _ x e) [
  | inr m ↦ inr (inr m)
  | inl m ↦ kept (not (has_op op.id st) && not (any (λ (f : Op). text_eqb f.id op.id) fresh)) m
]
  where
    kept :
        (b : Bool)
        → Elem x (if b then fresh ++ op ∷ [] else fresh)
        → Elem x fresh ⊎ (Elem x (op ∷ ops))
    kept false m = inl m
    kept true m = elim (Elem-append_inv x fresh (op ∷ []) m) [
      | inl l ↦ inl l
      | inr (inl q) ↦ inr (inl q)
      | inr (inr n) ↦ absurd n
    ]
