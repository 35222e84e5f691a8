-- ===== src/Hlc/Order.antt =====
-- `compareHlc` of packages/core/src/hlc.ts, against the comparison of encoded timestamps as text.
use tangentfeed.Prelude.{
  ℕ, ◌^◌, ◌<◌, ◌≡◌, sym, ap, ◌∙◌, [], ◌∷◌, ◌++◌, Ordering, compare, arith, Text, text_compare,
  compare_refl, eq_of_compare, compare_flip, compare-append, flip, and_then, lt_trans,
}
use tangentfeed.Hlc.{Hlc, encode_hlc, compare_hlc}
use tangentfeed.Hlc.Hex.{fixed, compare-fixed, length-fixed}
use tangentfeed.Hlc.Codec.{InRange, encode-fixed}

-- Milliseconds, then counter, then device.
pub compare_hlc-then :
    (a b : Hlc)
    → compare_hlc a b
      ≡ and_then
          (compare a.millis b.millis)
          (and_then (compare a.counter b.counter) (text_compare a.device_id b.device_id))
unfolding compare_hlc
compare_hlc-then a b = ground arith

pub compare_hlc_refl : (a : Hlc) → compare_hlc a a ≡ Ordering.eq
compare_hlc_refl a = ground (arith, compare_hlc-then a a, compare_refl a.device_id)

pub eq_of_compare_hlc : (a b : Hlc) → compare_hlc a b ≡ Ordering.eq → a ≡ b
eq_of_compare_hlc a b h =
    ground (arith, compare_hlc-then a b, eq_of_compare a.device_id b.device_id)

pub compare_hlc-flip : (a b : Hlc) → compare_hlc b a ≡ flip (compare_hlc a b)
compare_hlc-flip a b =
    ground (arith, compare_hlc-then a b, compare_hlc-then b a, compare_flip a.device_id b.device_id)

pub compare_hlc_trans :
    (a b c : Hlc)
    → compare_hlc a b ≡ Ordering.lt
    → compare_hlc b c ≡ Ordering.lt
    → compare_hlc a c ≡ Ordering.lt
compare_hlc_trans a b c h k = ground (
  arith,
  compare_hlc-then a b,
  compare_hlc-then b c,
  compare_hlc-then a c,
  lt_trans a.device_id b.device_id c.device_id,
)

compare_digits :
    (k a b : ℕ) (r s : Text)
    → a < 16 ^ k
    → b < 16 ^ k
    → text_compare (fixed k a [] ++ b'-' ∷ r) (fixed k b [] ++ b'-' ∷ s)
      ≡ and_then (compare a b) (text_compare r s)
unfolding text_compare
compare_digits k a b r s ha hb =
    compare-append (fixed k a []) (fixed k b []) (b'-' ∷ r) (b'-' ∷ s)
      (length-fixed k a [] ∙ sym (length-fixed k b []))
    ∙ ground (arith, compare-fixed k a b [] [] ha hb)

-- For timestamps in range, the text order is the order of timestamps.
pub compare-encode_hlc :
    (a b : Hlc)
    → InRange a
    → InRange b
    → text_compare (encode_hlc a) (encode_hlc b) ≡ compare_hlc a b
compare-encode_hlc a b ra rb =
    rw
      (
        encode-fixed a ra.millis_fits ra.counter_fits,
        encode-fixed b rb.millis_fits rb.counter_fits,
        compare_hlc-then,
      )
      (compare_digits 12 a.millis b.millis _ _ (omega arith) (omega arith)
        ∙ ap (and_then (compare a.millis b.millis))
            (compare_digits 4 a.counter b.counter _ _ (omega arith) (omega arith)))
