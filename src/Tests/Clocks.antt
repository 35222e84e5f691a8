-- ===== src/Tests/Clocks.antt =====
-- The clock of packages/core/src/hlc.ts at concrete timestamps.
use tangentfeed.Prelude.{◌≡◌, refl, Ordering, arith, text_compare}
use tangentfeed.Errors.{ok}
use tangentfeed.Hlc
use tangentfeed.Hlc.{Hlc, Clock, encode_hlc, decode_hlc, compare_hlc, now, receive, max_drift_ms}
use tangentfeed.Hlc.Codec
use tangentfeed.Hlc.Codec.{InRange}
use tangentfeed.Hlc.Order
use tangentfeed.Hlc.Ticks
use tangentfeed.Samples.{early, late, late_text, early-InRange, late-InRange}

compare-encode_hlc_example :
    text_compare (encode_hlc early) (encode_hlc late) ≡ compare_hlc early late
compare-encode_hlc_example = Order.compare-encode_hlc early late early-InRange late-InRange

decode_hlc-encode_hlc_example : decode_hlc (encode_hlc late) ≡ ok late
decode_hlc-encode_hlc_example = Codec.decode_hlc-encode_hlc late late-InRange

decode_late : decode_hlc late_text ≡ ok late
unfolding decode_hlc Hlc.matches_hlc Hlc.hex_value
decode_late = refl

encode_hlc-decode_hlc_example : InRange late × (encode_hlc late ≡ late_text)
encode_hlc-decode_hlc_example = Codec.encode_hlc-decode_hlc late_text late decode_late

-- At millisecond 5 the counter of `early` goes on.
abbrev ticked : Hlc
ticked = record early { counter = 2 }

now-early : now 5 early ≡ (ok ticked, ticked)
unfolding now
now-early = refl

now_increases_example :
    (ticked ≡ ticked)
    × (compare_hlc early ticked ≡ Ordering.lt)
    × (ticked.device_id ≡ early.device_id)
now_increases_example = Ticks.now_increases 5 early ticked ticked now-early

now-InRange_example : InRange ticked
now-InRange_example = Ticks.now-InRange 5 early ticked ticked early-InRange now-early

abbrev received : Hlc
received = record early { millis = 6; counter = 1 }

receive-late : receive 5 late early ≡ (ok received, received)
unfolding receive
receive-late = refl

receive_increases_example :
    (received ≡ received)
    × (compare_hlc early received ≡ Ordering.lt)
    × (compare_hlc late received ≡ Ordering.lt)
    × (received.device_id ≡ early.device_id)
receive_increases_example = Ticks.receive_increases 5 late early received received receive-late

receive-InRange_example : InRange received
receive-InRange_example =
    Ticks.receive-InRange 5 late early received received early-InRange receive-late

receive_total_example :
    receive 5 late early ≡ (ok (receive 5 late early).1, (receive 5 late early).1)
receive_total_example =
    Ticks.receive_total 5 late early (omega arith) (omega arith) (omega arith) (omega arith)
