-- ===== src/Replica/Coherence.antt =====
-- The invariant of a replica: its winners are logged and newest, and its frontier passes its log.
use tangentfeed.Prelude.{
  ◌≡◌, sym, ap, ◌∙◌, subst, Bool, true, false, ◌⊎◌, inl, inr, Option, none, some, arith, Text,
  text_eqb, text_ltb, text_leb, eqb_iff, eqb_refl, leb_trans, leb_refl, leb_of_lt, Bool-cases,
}
use tangentfeed.Op.{Op, above_frontier}
use tangentfeed.Op.Frontiers.{above-advance_frontier}
use tangentfeed.Op.Valid.{IsValid}
use tangentfeed.Storage.Cells.{same_cell}
use tangentfeed.Replica.{Replica, empty_replica, newer, merge}

-- The winner is at least as new as the operation.
abbrev pub at_least : Option Op → Op → Bool
at_least none op = false
at_least (some w) op = text_leb op.hlc w.hlc

pub record IsLogged (s : Replica) (t r c : Text) (w : Op) : Type 0 where
  pub stored : s.log w.id ≡ some w
  pub in_table : w.table ≡ t
  pub in_row : w.row ≡ r
  pub in_column : w.column ≡ c

pub record IsCoherent (s : Replica) : Type 0 where
  pub log_valid : (k : Text) (op : Op) → s.log k ≡ some op → (op.id ≡ k) × IsValid op
  pub winner_logged : (t r c : Text) (w : Op) → s.winner t r c ≡ some w → IsLogged s t r c w
  pub winner_newest :
      (k : Text) (op : Op)
      → s.log k ≡ some op
      → at_least (s.winner op.table op.row op.column) op ≡ true
  pub covered : (k : Text) (op : Op) → s.log k ≡ some op → above_frontier op s.frontier ≡ false

pub empty-IsCoherent : IsCoherent empty_replica
empty-IsCoherent = record {
  log_valid = λ k op h. absurd (ground arith);
  winner_logged = λ t r c w h. absurd (ground arith);
  winner_newest = λ k op h. absurd (ground arith);
  covered = λ k op h. absurd (ground arith);
}

-- An operation under a known id is the known one.
abbrev pub Agrees : Replica → Op → Type 0
Agrees s op = (x : Op) → s.log op.id ≡ some x → x ≡ op

newer_self : (o : Option Op) (op : Op) → at_least (newer o op) op ≡ true
newer_self none op = leb_refl op.hlc
newer_self (some w) op = ground (arith, leb_refl op.hlc)

newer_keeps : (o : Option Op) (op x : Op) → at_least o x ≡ true → at_least (newer o op) x ≡ true
newer_keeps none op x h = absurd (ground arith)
newer_keeps (some w) op x h = ground (arith, leb_trans x.hlc w.hlc op.hlc, leb_of_lt w.hlc op.hlc)

-- What `newer` returns is one of the two.
newer_inv : (o : Option Op) (op w : Op) → newer o op ≡ some w → (w ≡ op) ⊎ (o ≡ some w)
newer_inv none op w h = inl (ground arith)
newer_inv (some v) op w h = elim (Bool-cases (text_ltb v.hlc op.hlc)) [
  | inl p ↦ inl (ground arith)
  | inr p ↦ inr (ground arith)
]

same_cell_self : (t r c : Text) → same_cell t r c t r c ≡ true
same_cell_self t r c = rw (eqb_refl t, eqb_refl r, eqb_refl c)

module _ (s : Replica) (op : Op) (h : IsCoherent s) (valid : IsValid op)
    (agrees : Agrees s op) where
  merged_log-IsValid : (k : Text) (x : Op) → (merge s op).log k ≡ some x → (x.id ≡ k) × IsValid x
  unfolding merge
  merged_log-IsValid k x e = elim (Bool-cases (text_eqb op.id k)) [
    | inl p ↦
        let q : op ≡ x = ground arith in
        subst (λ y. (y.id ≡ k) × IsValid y) q ((eqb_iff op.id k).0 p, valid)
    | inr p ↦ h.log_valid k x (ground arith)
  ]

  kept-IsLogged : (t r c : Text) (w : Op) → IsLogged s t r c w → IsLogged (merge s op) t r c w
  unfolding merge
  kept-IsLogged t r c w l = record {
    stored = elim (Bool-cases (text_eqb op.id w.id)) [
      | inl p ↦
          let known : s.log op.id ≡ some w = ap s.log ((eqb_iff op.id w.id).0 p) ∙ l.stored in
          rw p (ap some (sym (agrees w known)))
      | inr p ↦ rw p l.stored
    ];
    in_table = l.in_table;
    in_row = l.in_row;
    in_column = l.in_column;
  }

  merged_winner-IsLogged :
      (t r c : Text) (w : Op) → (merge s op).winner t r c ≡ some w → IsLogged (merge s op) t r c w
  unfolding merge
  merged_winner-IsLogged t r c w e = elim (Bool-cases (same_cell op.table op.row op.column t r c)) [
    | inl p ↦ elim (newer_inv (s.winner t r c) op w (ground arith)) [
      | inl q ↦ subst (IsLogged (merge s op) t r c) (sym q) (record {
        stored = rw eqb_refl;
        in_table = ground (arith, eqb_iff op.table t);
        in_row = ground (arith, eqb_iff op.row r);
        in_column = ground (arith, eqb_iff op.column c);
      })
      | inr q ↦ kept-IsLogged t r c w (h.winner_logged t r c w q)
    ]
    | inr p ↦ kept-IsLogged t r c w (h.winner_logged t r c w (ground arith))
  ]

  merged_winner_newest :
      (k : Text) (x : Op)
      → (merge s op).log k ≡ some x
      → at_least ((merge s op).winner x.table x.row x.column) x ≡ true
  unfolding merge
  merged_winner_newest k x e = elim (Bool-cases (text_eqb op.id k)) [
    | inl p ↦
        let q : op ≡ x = ground arith in
        subst (λ y. at_least ((merge s op).winner y.table y.row y.column) y ≡ true) q
          (rw (same_cell_self op.table op.row op.column) (newer_self _ op))
    | inr p ↦
        let old = h.winner_newest k x (ground arith) in
        ground (arith, newer_keeps (s.winner x.table x.row x.column) op x old)
  ]

  merged_covered :
      (k : Text) (x : Op)
      → (merge s op).log k ≡ some x
      → above_frontier x (merge s op).frontier ≡ false
  unfolding merge
  merged_covered k x e = rw above-advance_frontier (elim (Bool-cases (text_eqb op.id k)) [
    | inl p ↦
        let q : op ≡ x = ground arith in ground (arith, eqb_iff op.device x.device, leb_refl op.hlc)
    | inr p ↦ ground (arith, h.covered k x (ground arith))
  ])

  -- Merging a valid operation keeps a replica coherent, when an operation logged under the same id
  -- is the same.
  pub merge-IsCoherent : IsCoherent (merge s op)
  merge-IsCoherent = record {
    log_valid = merged_log-IsValid;
    winner_logged = merged_winner-IsLogged;
    winner_newest = merged_winner_newest;
    covered = merged_covered;
  }
