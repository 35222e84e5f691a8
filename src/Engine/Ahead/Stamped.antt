-- ===== src/Engine/Ahead/Stamped.antt =====
-- The operations that a local write of packages/core/src/engine.ts makes: after the log, and apart from each other.
use tangentfeed.Prelude.{
  ℕ, ◌+◌, ◌≡◌, refl, sym, ap, ◌∙◌, subst, ◌≢◌, inl, inr, Option, Ordering, List, [], ◌∷◌, arith,
  Text, Map, Elem,
}
use tangentfeed.Errors.{ok, Result-cases}
use tangentfeed.Values.{Value}
use tangentfeed.Signing.{Platform}
use tangentfeed.Hlc.{Hlc, Clock, compare_hlc, encode_hlc, now}
use tangentfeed.Hlc.Codec.{InRange}
use tangentfeed.Op.{Op}
use tangentfeed.Op.Valid.{IsValid}
use tangentfeed.Engine.{SyncEngine, Cipher}
use tangentfeed.Engine.Local.{make_local_op, make_local_ops}
use tangentfeed.Engine.Local.Stamps.{checked_op-eq-ok, make_local_op-IsMade}
use tangentfeed.Engine.Ahead.{
  IsSince, IsSince-trans, lt_of_since, IsClock, now-IsClock, now-IsSince, IsBehind, not_behind,
}

-- Only the clock has moved, and not back.
pub record IsTicked (e e' : SyncEngine) : Type 0 where
  pub stored : e'.storage ≡ e.storage
  pub since : IsSince e.clock e'.clock
  pub sane : IsClock e'.clock

pub IsTicked-trans : (a b c : SyncEngine) → IsTicked a b → IsTicked b c → IsTicked a c
IsTicked-trans a b c p q = record {
  stored = q.stored ∙ p.stored;
  since = IsSince-trans a.clock b.clock c.clock p.since q.since;
  sane = q.sane;
}

-- The timestamp of an operation made between two states.
pub record IsBetween (c c' : Hlc) (op : Op) : Type 0 where
  pub valid : IsValid op
  pub stamp : Hlc
  pub encoded : encode_hlc stamp ≡ op.hlc
  pub in_range : InRange stamp
  pub after : compare_hlc c stamp ≡ Ordering.lt
  pub until : IsSince stamp c'

pub record AreStamped (e e' : SyncEngine) (ops : List Op) : Type 0 where
  pub between : (x : Op) → Elem x ops → IsBetween e.clock e'.clock x
  pub one_each : (x y : Op) → Elem x ops → Elem y ops → x.id ≡ y.id → x ≡ y

now_in_range :
    (pt : ℕ) (c : Clock) (h : Hlc) → IsClock c → (now pt c).0 ≡ ok h → InRange (now pt c).1
unfolding now
now_in_range pt c h k e = record {
  millis_fits = ground arith;
  counter_fits = (now-IsClock pt c k).counter_fits;
  device_valid = (now-IsClock pt c k).device_valid;
}

pub IsBetween-IsBehind : (c c' : Hlc) (op : Op) → IsBetween c c' op → IsBehind op c'
IsBetween-IsBehind c c' op b = record {
  stamp = b.stamp;
  encoded = b.encoded;
  in_range = b.in_range;
  since = b.until;
}

-- An operation is not among those that come after its own timestamp.
apart_from_later :
    (c c' : Hlc) (op x : Op) → IsBehind op c → IsValid op → IsBetween c c' x → op.id ≡ x.id → ⊥
apart_from_later c c' op x b v i same =
    not_behind op c i.stamp b i.after i.in_range
      (sym v.id_hlc ∙ same ∙ i.valid.id_hlc ∙ sym i.encoded)

module _ (p : Platform) (physical_clock : ℕ → ℕ) (cipher : Option Cipher) (table row : Text) where
  make_local_op-IsTicked :
      (column : Text) (value : Value) (e : SyncEngine)
      → IsClock e.clock
      → IsTicked e (make_local_op p physical_clock cipher table row column value e).1
  unfolding make_local_op
  make_local_op-IsTicked column value e k = record {
    stored = refl;
    since = now-IsSince (physical_clock e.readings) e.clock;
    sane = now-IsClock (physical_clock e.readings) e.clock k;
  }

  -- The operation that is made has the clock's new state, which is in range.
  made-IsBetween :
      (column : Text) (value : Value) (e e' : SyncEngine) (op : Op)
      → IsClock e.clock
      → make_local_op p physical_clock cipher table row column value e ≡ (ok op, e')
      → IsBetween e.clock e'.clock op
  unfolding make_local_op
  made-IsBetween column value e e' op k q =
      let a = now (physical_clock e.readings) e.clock in
      let e1 : SyncEngine = record e { clock = a.1; readings = e.readings + 1 } in
      let (h, at, valid, rest) =
        checked_op-eq-ok p physical_clock cipher table row column value e1 a.0 op
          (ap (λ r. r.0) q) in
      let m = make_local_op-IsMade p physical_clock cipher table row column value e e' op q in
      record {
        valid = m.valid;
        stamp = e'.clock;
        encoded = sym m.stamped;
        in_range =
            subst InRange (ap (λ r. r.1.clock) q)
              (now_in_range (physical_clock e.readings) e.clock h k at);
        after = m.later;
        until = inr refl;
      }

  made-AreStamped :
      (e e1 e' : SyncEngine) (op : Op) (ops : List Op)
      → IsBetween e.clock e1.clock op
      → IsTicked e e1
      → IsTicked e1 e'
      → AreStamped e1 e' ops
      → AreStamped e e' (op ∷ ops)
  made-AreStamped e e1 e' op ops b t t' s =
      let later : (x : Op) → Elem x ops → op.id ≢ x.id = λ x m q.
        apart_from_later e1.clock e'.clock op x (IsBetween-IsBehind e.clock e1.clock op b) b.valid
          (s.between x m) q in
      record {
        between = λ x m. elim m [
          | inl q ↦ subst (IsBetween e.clock e'.clock) (sym q) (record {
            valid = b.valid;
            stamp = b.stamp;
            encoded = b.encoded;
            in_range = b.in_range;
            after = b.after;
            until = IsSince-trans b.stamp e1.clock e'.clock b.until t'.since;
          })
          | inr n ↦
              let i = s.between x n in
              record {
                valid = i.valid;
                stamp = i.stamp;
                encoded = i.encoded;
                in_range = i.in_range;
                after = lt_of_since e.clock e1.clock i.stamp t.since i.after;
                until = i.until;
              }
        ];
        one_each = λ x y m n q. elim m [
          | inl a ↦ elim n [
            | inl c ↦ a ∙ sym c
            | inr c ↦ absurd (later y c (sym (ap (λ (o : Op). o.id) a) ∙ q))
          ]
          | inr a ↦ elim n [
            | inl c ↦ absurd (later x a (sym (ap (λ (o : Op). o.id) c) ∙ sym q))
            | inr c ↦ s.one_each x y a c q
          ]
        ];
      }

  -- Whether or not an operation throws, only the clock has moved; and the operations made are stamped one
  -- after the other, after the clock's first state.
  pub make_local_ops-AreStamped :
      (values : Map Value) (e : SyncEngine)
      → IsClock e.clock
      → IsTicked e (make_local_ops p physical_clock cipher table row values e).1
        × ((ops : List Op)
            → (make_local_ops p physical_clock cipher table row values e).0 ≡ ok ops
            → AreStamped e (make_local_ops p physical_clock cipher table row values e).1 ops)
  unfolding make_local_ops
  make_local_ops-AreStamped [] e k = (
    record { stored = refl; since = inr refl; sane = k },
    λ ops q.
        let same : [] ≡ ops = ground arith in
        subst (AreStamped e e) same
          (record { between = λ x m. absurd m; one_each = λ x y m n q. absurd m }),
  )
  make_local_ops-AreStamped ((column, value) ∷ values) e k =
      let e1 = (make_local_op p physical_clock cipher table row column value e).1 in
      let t = make_local_op-IsTicked column value e k in
      let (t', rest) = make_local_ops-AreStamped values e1 t.sane in
      elim (Result-cases (make_local_op p physical_clock cipher table row column value e).0) [
        | inl (x, q) ↦ rw (q, make_local_ops) (t, λ ops h. absurd (ground arith))
        | inr (op, q) ↦
            rw (q, make_local_ops)
              (
                IsTicked-trans e e1 (make_local_ops p physical_clock cipher table row values e1).1 t
                    t',
                λ ops h.
                    let e2 = (make_local_ops p physical_clock cipher table row values e1).1 in
                    elim (Result-cases
                      (make_local_ops p physical_clock cipher table row values e1).0) [
                        | inl (x, r) ↦ absurd (ground arith)
                        | inr (os, r) ↦
                            let b = made-IsBetween column value e e1 op k (ap (λ y. (y, e1)) q) in
                            let same : op ∷ os ≡ ops = ground arith in
                            subst (AreStamped e e2) same
                              (made-AreStamped e e1 e2 op os b t t' (rest os r))
                      ],
              )
      ]
