-- ===== src/Hlc/Ticks.antt =====
-- What `now` and `receive` of packages/core/src/hlc.ts do to the clock.
use tangentfeed.Prelude.{ℕ, ◌+◌, ◌≤◌, ◌<◌, ◌≡◌, ◌⊎◌, ◌↔◌, Ordering, arith}
use tangentfeed.Errors.{ok, err, clock_drift}
use tangentfeed.Hlc.{Hlc, Clock, max_counter, max_millis, max_drift_ms, compare_hlc, now, receive}
use tangentfeed.Hlc.Codec.{InRange}
use tangentfeed.Hlc.Order.{compare_hlc-then}

-- What holds of a clock between calls: `check_bounds` is past and the counter has rolled over.
pub lt_of_parts :
    (a b : Hlc)
    → (a.millis < b.millis) ⊎ ((a.millis ≡ b.millis) × (a.counter < b.counter))
    → compare_hlc a b ≡ Ordering.lt
lt_of_parts a b h = ground (arith, compare_hlc-then a b)

-- A timestamp that `now` issues is the clock's new state and is greater than the old one.
pub now_increases :
    (pt : ℕ) (c : Clock) (h : Hlc) (c' : Clock)
    → now pt c ≡ (ok h, c')
    → (h ≡ c') × (compare_hlc c h ≡ Ordering.lt) × (h.device_id ≡ c.device_id)
unfolding now
now_increases pt c h c' e = (ground arith, lt_of_parts c h (ground arith), ground arith)

-- The timestamp that `now` issues from a clock in range is in range.
pub now-InRange :
    (pt : ℕ) (c : Clock) (h : Hlc) (c' : Clock) → InRange c → now pt c ≡ (ok h, c') → InRange h
unfolding now
now-InRange pt c h c' r e = record {
  millis_fits = ground arith;
  counter_fits = ground arith;
  device_valid = ground arith;
}

-- `now` issues a timestamp when the physical time fits 48 bits and the clock is not at its last
-- counter of the last millisecond.
pub now_total :
    (pt : ℕ) (c : Clock)
    → pt ≤ max_millis
    → (c.millis < max_millis) ⊎ ((c.millis ≤ max_millis) × (c.counter < max_counter))
    → now pt c ≡ (ok (now pt c).1, (now pt c).1)
unfolding now
now_total pt c p q = ground arith

module _ (pt : ℕ) (remote : Hlc) (c : Clock) where
  -- A timestamp that `receive` returns is the clock's new state, greater than both inputs.
  pub receive_increases :
      (h : Hlc) (c' : Clock)
      → receive pt remote c ≡ (ok h, c')
      → (h ≡ c')
        × (compare_hlc c h ≡ Ordering.lt)
        × (compare_hlc remote h ≡ Ordering.lt)
        × (h.device_id ≡ c.device_id)
  unfolding receive
  receive_increases h c' e = (
    ground arith,
    lt_of_parts c h (ground arith),
    lt_of_parts remote h (ground arith),
    ground arith,
  )

  -- The timestamp that `receive` returns from a clock in range is in range.
  pub receive-InRange :
      (h : Hlc) (c' : Clock) → InRange c → receive pt remote c ≡ (ok h, c') → InRange h
  unfolding receive
  receive-InRange h c' r e = record {
    millis_fits = ground arith;
    counter_fits = ground arith;
    device_valid = ground arith;
  }

  -- `receive` returns a timestamp when the remote is within the drift bound and the three times are
  -- below the last millisecond.
  pub receive_total :
      remote.millis ≤ pt + max_drift_ms
      → pt < max_millis
      → remote.millis < max_millis
      → c.millis < max_millis
      → receive pt remote c ≡ (ok (receive pt remote c).1, (receive pt remote c).1)
  unfolding receive
  receive_total near p q r = ground arith

  -- The drift check: exactly a remote that is too far ahead is refused so, with the clock kept.
  pub receive_drift :
      (receive pt remote c ≡ (err (clock_drift remote.millis pt), c))
      ↔ (pt + max_drift_ms < remote.millis)
  unfolding receive
  receive_drift = (λ e. ground arith, λ h. ground arith)
