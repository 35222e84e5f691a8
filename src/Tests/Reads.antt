-- ===== src/Tests/Reads.antt =====
-- Reads of packages/core/src/engine.ts and row ids of packages/core/src/ulid.ts, run.
use tangentfeed.Prelude.{
  ◌≡◌, Ordering, refl, arith, ℕ, true, [], ◌∷◌, Text, Map, codes, replicate, text_compare,
}
use tangentfeed.Errors.{ok}
use tangentfeed.Values.{Value, boolean, null}
use tangentfeed.Signing.{Bytes}
use tangentfeed.Op.{Op, is_ulid}
use tangentfeed.Ulid.{ulid}
use tangentfeed.Ulid.Shape
use tangentfeed.Ulid.Order
use tangentfeed.Engine.Reads.Rows
use tangentfeed.Samples.{second_op}

abbrev cells : Map Op
cells = (codes "done", second_op) ∷ (codes "title", record second_op { value = null }) ∷ []

abbrev shown : Map Value
shown = (codes "done", boolean true) ∷ []

abbrev bytes : ℕ → Bytes
bytes n = replicate n 255

ulid-is_ulid_example : (s : Text) × (ulid 1469918176385 bytes ≡ ok s) × (is_ulid s ≡ true)
ulid-is_ulid_example = Shape.ulid-is_ulid 1469918176385 bytes (omega arith) refl

ulid_run : ulid 1469918176385 bytes ≡ ok (codes "01ARYZ6S41ZZZZZZZZZZZZZZZZ")
unfolding ulid
ulid_run = refl

abbrev zeros : ℕ → Bytes
zeros n = replicate n 0

ulid_later : ulid 1469918176386 zeros ≡ ok (codes "01ARYZ6S420000000000000000")
unfolding ulid
ulid_later = refl

ulid_increases_example :
    text_compare (codes "01ARYZ6S41ZZZZZZZZZZZZZZZZ") (codes "01ARYZ6S420000000000000000")
    ≡ Ordering.lt
ulid_increases_example =
    Order.ulid_increases 1469918176385 1469918176386 bytes zeros
      (codes "01ARYZ6S41ZZZZZZZZZZZZZZZZ") (codes "01ARYZ6S420000000000000000") (omega arith)
      ulid_run ulid_later
