-- ===== src/Engine/Ahead.antt =====
-- The clock of an engine of packages/core/src/engine.ts stays ahead of its log.
pub mod Stamped
pub mod Writes
pub mod Batches
pub mod Reach
use tangentfeed.Prelude.{
  ℕ, ◌+◌, ◌≤◌, ◌<◌, ◌≡◌, ◌≢◌, refl, sym, ap, ◌∙◌, subst, ◌⊎◌, inl, inr, Bool, true, false, Option,
  none, some, Ordering, List, [], ◌∷◌, arith, Text, Map, get, Bool-cases, ltb,
}
use tangentfeed.Errors.{Result, ok, err, Result-cases}
use tangentfeed.Hlc.{
  Hlc, Clock, compare_hlc, encode_hlc, decode_hlc, now, receive, is_valid_device_id, max_counter,
  max_millis, max_drift_ms,
}
use tangentfeed.Hlc.Ticks.{lt_of_parts}
use tangentfeed.Hlc.Codec.{InRange, decode_hlc-encode_hlc}
use tangentfeed.Hlc.Order.{compare_hlc_trans, compare_hlc_refl, compare_hlc-then}
use tangentfeed.Op.{Op}
use tangentfeed.Engine.{SyncEngine}

-- `b` is `a` or later.
abbrev pub IsSince : Hlc → Hlc → Type 0
IsSince a b = (compare_hlc a b ≡ Ordering.lt) ⊎ (a ≡ b)

pub IsSince-trans : (a b c : Hlc) → IsSince a b → IsSince b c → IsSince a c
IsSince-trans a b c (inl p) (inl q) = inl (compare_hlc_trans a b c p q)
IsSince-trans a b c (inl p) (inr q) = inl (subst (λ x. compare_hlc a x ≡ Ordering.lt) q p)
IsSince-trans a b c (inr p) (inl q) = inl (subst (λ x. compare_hlc x c ≡ Ordering.lt) (sym p) q)
IsSince-trans a b c (inr p) (inr q) = inr (p ∙ q)

pub lt_of_since :
    (a b c : Hlc) → IsSince a b → compare_hlc b c ≡ Ordering.lt → compare_hlc a c ≡ Ordering.lt
lt_of_since a b c (inl p) q = compare_hlc_trans a b c p q
lt_of_since a b c (inr p) q = subst (λ x. compare_hlc x c ≡ Ordering.lt) (sym p) q

-- A clock's counter and device are those of a timestamp; its milliseconds may have passed their bound.
pub record IsClock (c : Clock) : Type 0 where
  pub counter_fits : c.counter ≤ max_counter
  pub device_valid : is_valid_device_id c.device_id ≡ true

pub now-IsClock : (pt : ℕ) (c : Clock) → IsClock c → IsClock (now pt c).1
unfolding now
now-IsClock pt c k = record {
  counter_fits = ground (arith, k.counter_fits);
  device_valid = ground (arith, k.device_valid);
}

pub now-IsSince : (pt : ℕ) (c : Clock) → IsSince c (now pt c).1
unfolding now
now-IsSince pt c = inl (lt_of_parts c (now pt c).1 (ground arith))

pub receive-IsClock :
    (pt : ℕ) (remote : Hlc) (c : Clock) → IsClock c → IsClock (receive pt remote c).1
unfolding receive
receive-IsClock pt remote c k = record {
  counter_fits = ground (arith, k.counter_fits);
  device_valid = ground (arith, k.device_valid);
}

pub receive-IsSince : (pt : ℕ) (remote : Hlc) (c : Clock) → IsSince c (receive pt remote c).1
unfolding receive
receive-IsSince pt remote c = elim (Bool-cases (ltb (pt + max_drift_ms) remote.millis)) [
  | inl h ↦ inr (ground arith)
  | inr h ↦ inl (lt_of_parts c (receive pt remote c).1 (ground arith))
]

-- An operation's timestamp is in range, and the clock has reached it.
pub record IsBehind (op : Op) (c : Hlc) : Type 0 where
  pub stamp : Hlc
  pub encoded : encode_hlc stamp ≡ op.hlc
  pub in_range : InRange stamp
  pub since : IsSince stamp c

pub later-IsBehind : (op : Op) (c c' : Hlc) → IsSince c c' → IsBehind op c → IsBehind op c'
later-IsBehind op c c' s b = record {
  stamp = b.stamp;
  encoded = b.encoded;
  in_range = b.in_range;
  since = IsSince-trans b.stamp c c' b.since s;
}

-- The clock has reached every operation of the log.
pub record IsAhead (e : SyncEngine) : Type 0 where
  pub sane : IsClock e.clock
  pub behind : (k : Text) (op : Op) → get k e.storage.ops_by_id ≡ some op → IsBehind op e.clock

-- A timestamp of `now` after those of a log is none of theirs.
pub not_behind :
    (op : Op) (c h : Hlc)
    → IsBehind op c
    → compare_hlc c h ≡ Ordering.lt
    → InRange h
    → op.hlc ≢ encode_hlc h
not_behind op c h b later range same =
    let e : encode_hlc b.stamp ≡ encode_hlc h = b.encoded ∙ same in
    let equal : b.stamp ≡ h = ok_injective _ _ (
      sym (decode_hlc-encode_hlc b.stamp b.in_range)
      ∙ ap decode_hlc e
      ∙ decode_hlc-encode_hlc h range) in
    let less = lt_of_since b.stamp c h b.since later in
    absurd (ground (arith, ap (λ x. compare_hlc x h) equal, compare_hlc_refl h))
  where
    ok_injective : (x y : Hlc) → ok x ≡ ok y → x ≡ y
    ok_injective x y q = ground arith
