-- ===== src/Replica/Convergence.antt =====
-- Strong convergence of the merge rules of PROTOCOL.md §5: what a replica shows is determined by which
-- operations it has received.
use tangentfeed.Prelude.{
  ◌≡◌, refl, sym, ap, ◌∙◌, subst, ◌↔◌, ◌⊎◌, true, inl, inr, some, List, [], ◌∷◌, arith, Text, Elem,
  text_eqb, text_leb, eqb_iff, leb_antisymm, Bool-cases, Option-cases,
}
use tangentfeed.Op.{Op}
use tangentfeed.Op.Valid.{IsValid}
use tangentfeed.Replica.{Replica, empty_replica, merge, merge_all}
use tangentfeed.Replica.Coherence.{IsCoherent, Agrees, at_least, merge-IsCoherent, empty-IsCoherent}

module _ (a b : Replica) (ha : IsCoherent a) (hb : IsCoherent b)
    (same : (k : Text) → a.log k ≡ b.log k) where
  -- A winner that one replica logs is matched in the other.
  at_least_other :
      (t r c : Text) (w : Op) → a.winner t r c ≡ some w → at_least (b.winner t r c) w ≡ true
  at_least_other t r c w e =
      let l = ha.winner_logged t r c w e in
      let n = hb.winner_newest w.id w (sym (same w.id) ∙ l.stored) in
      subst (λ x. at_least (b.winner x r c) w ≡ true) l.in_table
        (subst (λ x. at_least (b.winner w.table x c) w ≡ true) l.in_row
          (subst (λ x. at_least (b.winner w.table w.row x) w ≡ true) l.in_column n))

module _ (a b : Replica) (ha : IsCoherent a) (hb : IsCoherent b)
    (same : (k : Text) → a.log k ≡ b.log k) where
  both_win : (t r c : Text) (v w : Op) → a.winner t r c ≡ some v → b.winner t r c ≡ some w → v ≡ w
  both_win t r c v w ev ew =
      let lv = ha.winner_logged t r c v ev in
      let lw = hb.winner_logged t r c w ew in
      let (iv, valid_v) = ha.log_valid v.id v lv.stored in
      let (iw, valid_w) = hb.log_valid w.id w lw.stored in
      let p : text_leb v.hlc w.hlc ≡ true =
        ground (arith, at_least_other a b ha hb same t r c v ev) in
      let q : text_leb w.hlc v.hlc ≡ true =
        ground (arith, at_least_other b a hb ha (λ k. sym (same k)) t r c w ew) in
      let hlcs : v.hlc ≡ w.hlc = leb_antisymm v.hlc w.hlc p q in
      let stamps : v.id ≡ w.id = valid_v.id_hlc ∙ hlcs ∙ sym valid_w.id_hlc in
      let logged : some v ≡ some w = sym lv.stored ∙ ap a.log stamps ∙ same w.id ∙ lw.stored in cc

  -- Coherent replicas with one log show the same winner in every cell.
  pub winner-eq_of_log : (t r c : Text) → a.winner t r c ≡ b.winner t r c
  winner-eq_of_log t r c = elim (Option-cases (a.winner t r c)) [
    | inl p ↦ elim (Option-cases (b.winner t r c)) [
      | inl q ↦ p ∙ sym q
      | inr (w, q) ↦ absurd (ground (arith, at_least_other b a hb ha (λ k. sym (same k)) t r c w q))
    ]
    | inr (v, p) ↦ elim (Option-cases (b.winner t r c)) [
      | inl q ↦ absurd (ground (arith, at_least_other a b ha hb same t r c v p))
      | inr (w, q) ↦ p ∙ ap some (both_win t r c v w p q) ∙ sym q
    ]
  ]

-- Valid operations of which no two share an id.
pub record IsDelivery (ops : List Op) : Type 0 where
  pub valid : (x : Op) → Elem x ops → IsValid x
  pub one_each : (x y : Op) → Elem x ops → Elem y ops → x.id ≡ y.id → x ≡ y

rest-IsDelivery : (op : Op) (ops : List Op) → IsDelivery (op ∷ ops) → IsDelivery ops
rest-IsDelivery op ops d = record {
  valid = λ x e. d.valid x (inr e);
  one_each = λ x y e f. d.one_each x y (inr e) (inr f);
}

merge-Agrees :
    (s : Replica) (op x : Op) → (op.id ≡ x.id → op ≡ x) → Agrees s x → Agrees (merge s op) x
unfolding merge
merge-Agrees s op x one agrees z e = elim (Bool-cases (text_eqb op.id x.id)) [
  | inl p ↦ let q : op ≡ z = ground arith in sym q ∙ one ((eqb_iff op.id x.id).0 p)
  | inr p ↦ agrees z (ground arith)
]

-- Merging valid operations keeps a replica coherent, when an id names one operation at most among
-- them and the logged ones.
pub merge_all-IsCoherent :
    (s : Replica) (ops : List Op)
    → IsCoherent s
    → IsDelivery ops
    → ((x : Op) → Elem x ops → Agrees s x)
    → IsCoherent (merge_all s ops)
unfolding merge_all
merge_all-IsCoherent s [] h d agrees = h
merge_all-IsCoherent s (op ∷ ops) h d agrees =
    merge_all-IsCoherent (merge s op) ops
      (merge-IsCoherent s op h (d.valid op (inl refl)) (agrees op (inl refl)))
      (rest-IsDelivery op ops d)
      λ x e. merge-Agrees s op x (d.one_each op x (inl refl) (inr e)) (agrees x (inr e))

-- What is logged was logged before or has been delivered.
pub log-merge_all :
    (s : Replica) (ops : List Op) (k : Text) (x : Op)
    → (merge_all s ops).log k ≡ some x
    → (s.log k ≡ some x) ⊎ (Elem x ops × (x.id ≡ k))
unfolding merge_all merge
log-merge_all s [] k x e = inl e
log-merge_all s (op ∷ ops) k x e = elim (log-merge_all (merge s op) ops k x e) [
  | inl p ↦ elim (Bool-cases (text_eqb op.id k)) [
    | inl q ↦
        let same : op ≡ x = ground arith in
        inr (inl (sym same), ap (λ (o : Op). o.id) (sym same) ∙ (eqb_iff op.id k).0 q)
    | inr q ↦ inl (ground arith)
  ]
  | inr p ↦ inr (inr p.0, p.1)
]

merged_known :
    (s : Replica) (op x : Op)
    → (op.id ≡ x.id → op ≡ x)
    → (x ≡ op) ⊎ (s.log x.id ≡ some x)
    → (merge s op).log x.id ≡ some x
unfolding merge
merged_known s op x one known = elim (Bool-cases (text_eqb op.id x.id)) [
  | inl p ↦ rw p (ap some (one ((eqb_iff op.id x.id).0 p)))
  | inr p ↦ elim known [
    | inl e ↦ absurd (ground (arith, eqb_iff op.id x.id, ap (λ (o : Op). o.id) e))
    | inr k ↦ rw p k
  ]
]

-- What has been delivered is logged.
delivered-log :
    (s : Replica) (ops : List Op) (x : Op)
    → ((y : Op) → Elem y ops → y.id ≡ x.id → y ≡ x)
    → (Elem x ops) ⊎ (s.log x.id ≡ some x)
    → (merge_all s ops).log x.id ≡ some x
unfolding merge_all
delivered-log s [] x one (inr e) = e
delivered-log s [] x one (inl e) = absurd e
delivered-log s (op ∷ ops) x one (inl (inr e)) =
    delivered-log (merge s op) ops x (λ y f. one y (inr f)) (inl e)
delivered-log s (op ∷ ops) x one (inl (inl e)) =
    delivered-log (merge s op) ops x (λ y f. one y (inr f))
      (inr (merged_known s op x (one op (inl refl)) (inl e)))
delivered-log s (op ∷ ops) x one (inr k) =
    delivered-log (merge s op) ops x (λ y f. one y (inr f))
      (inr (merged_known s op x (one op (inl refl)) (inr k)))

log_transfer :
    (xs ys : List Op)
    → IsDelivery ys
    → ((x : Op) → Elem x xs → Elem x ys)
    → (k : Text) (x : Op) → (merge_all empty_replica xs).log k ≡ some x
    → (merge_all empty_replica ys).log k ≡ some x
log_transfer xs ys dy sub k x e = elim (log-merge_all empty_replica xs k x e) [
  | inl p ↦ absurd (ground arith)
  | inr p ↦
      let m = sub x p.0 in
      subst (λ i. (merge_all empty_replica ys).log i ≡ some x) p.1
        (delivered-log empty_replica ys x (λ y f. dy.one_each y x f m) (inl m))
]

delivered_logs :
    (xs ys : List Op)
    → IsDelivery xs
    → IsDelivery ys
    → ((x : Op) → Elem x xs ↔ Elem x ys)
    → (k : Text) → (merge_all empty_replica xs).log k ≡ (merge_all empty_replica ys).log k
delivered_logs xs ys dx dy same k = elim (Option-cases ((merge_all empty_replica xs).log k)) [
  | inr (x, p) ↦ p ∙ sym (log_transfer xs ys dy (λ x. (same x).0) k x p)
  | inl p ↦ elim (Option-cases ((merge_all empty_replica ys).log k)) [
    | inl q ↦ p ∙ sym q
    | inr (y, q) ↦ p ∙ sym p ∙ log_transfer ys xs dx (λ x. (same x).1) k y q ∙ sym q
  ]
]

delivery-IsCoherent : (xs : List Op) → IsDelivery xs → IsCoherent (merge_all empty_replica xs)
delivery-IsCoherent xs d =
    merge_all-IsCoherent empty_replica xs empty-IsCoherent d (λ x e z h. absurd (ground arith))

-- Two replicas that started empty and merged the same operations, in whatever order and however
-- often, have the same winner in every cell, when the operations are valid and an id names one of
-- them at most.
pub winner_delivery :
    (xs ys : List Op)
    → IsDelivery xs
    → IsDelivery ys
    → ((x : Op) → Elem x xs ↔ Elem x ys)
    → (t r c : Text)
    → (merge_all empty_replica xs).winner t r c ≡ (merge_all empty_replica ys).winner t r c
winner_delivery xs ys dx dy same t r c =
    winner-eq_of_log (merge_all empty_replica xs) (merge_all empty_replica ys)
      (delivery-IsCoherent xs dx) (delivery-IsCoherent ys dy) (delivered_logs xs ys dx dy same) t r
      c
