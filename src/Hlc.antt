-- ===== src/Hlc.antt =====
-- The hybrid logical clock of packages/core/src/hlc.ts. The physical clock's reading is an argument
-- of `now` and `receive`; a number that the source compares is a natural number of milliseconds.
mod Hex
pub mod Codec
pub mod Order
pub mod Ticks
use tangentfeed.Prelude.{
  ℕ, suc, zero, ◌+◌, ◌-◌, ◌*◌, ◌^◌, ◌≤◌, ◌≡◌, Bool, true, false, not, ◌&&◌, ◌||◌, Option, none,
  some, List, [], ◌∷◌, ◌++◌, Ordering, compare, max, Text, text_compare, text_eqb, text_ltb, length,
  take, drop, all, ltb, leb, ◌==◌, if◌then◌else◌, is_some,
}
use tangentfeed.Errors.{
  Error, Result, ok, err, clock_drift, millis_out_of_range, invalid_device_id, malformed_hlc_string,
  ◌>>◌,
}
unfoldable pub use Hex.{pad_start, to_hex, hex_value, is_hex}

abbrev pub max_counter : ℕ
max_counter = 0xffff

abbrev pub max_millis : ℕ
max_millis = 2 ^ 48 - 1

abbrev pub max_drift_ms : ℕ
max_drift_ms = 300_000

pub record Hlc : Type 0 where
  pub millis : ℕ
  pub counter : ℕ
  pub device_id : Text

-- `/^[0-9a-f]{32}$/`
unfoldable pub is_valid_device_id : Text → Bool
unfolding is_hex
is_valid_device_id s = length s == 32 && all is_hex s

-- What is left behind `[0-9a-f]{n}`, and behind a dash.
pub hex_run : ℕ → Text → Option Text
unfolding is_hex
hex_run zero s = some s
hex_run (suc n) [] = none
hex_run (suc n) (c ∷ s) = let rest = hex_run n s in if is_hex c then rest else none

pub dash : Text → Option Text
dash [] = none
dash (c ∷ s) = if c == b'-' then some s else none

-- The next part of the pattern, on what is left.
abbrev pub followed_by : Option Text → (Text → Option Text) → Option Text
followed_by none f = none
followed_by (some s) f = f s

-- `/^[0-9a-f]{12}-[0-9a-f]{4}-[0-9a-f]{32}$/`
abbrev pub at_end : Option Text → Bool
at_end (some []) = true
at_end _ = false

unfoldable pub matches_hlc : Text → Bool
unfolding hex_run dash
matches_hlc s = at_end (
    followed_by (followed_by (followed_by (followed_by (hex_run 12 s) dash) (hex_run 4)) dash)
      (hex_run 32))

unfoldable pub encode_hlc : Hlc → Text
unfolding pad_start to_hex
encode_hlc h =
    pad_start 12 (to_hex h.millis) ++ b'-' ∷ (pad_start 4 (to_hex h.counter) ++ b'-' ∷ h.device_id)

unfoldable pub decode_hlc : Text → Result Hlc
decode_hlc s =
    if matches_hlc s
    then ok (record {
      millis = hex_value 0 (take 12 s);
      counter = hex_value 0 (take 4 (drop 13 s));
      device_id = drop 18 s;
    })
    else err malformed_hlc_string

-- The sign of the number that the source returns: `lt` is -1, `eq` is 0, `gt` is 1.
unfoldable pub compare_hlc : Hlc → Hlc → Ordering
compare_hlc a b =
    if not (a.millis == b.millis)
    then (if ltb a.millis b.millis then Ordering.lt else Ordering.gt)
    else if not (a.counter == b.counter)
    then (if ltb a.counter b.counter then Ordering.lt else Ordering.gt)
    else if not (text_eqb a.device_id b.device_id)
    then (if text_ltb a.device_id b.device_id then Ordering.lt else Ordering.gt)
    else Ordering.eq

-- The clock object: its state is a timestamp. What a method wrote before it throws stays written,
-- so the state comes back beside the error too.
abbrev pub Clock : Type 0
Clock = Hlc

unfoldable pub check_bounds : Clock → Result (Unit {0})
check_bounds c = if ltb max_millis c.millis then err millis_out_of_range else ok tt

-- The constructor, with `millis` and `counter` as persisted, or zero.
unfoldable pub new_clock : Text → Option (ℕ × ℕ) → Result Clock
unfolding is_valid_device_id check_bounds
new_clock device_id persisted =
    if not (is_valid_device_id device_id)
    then err invalid_device_id
    else let c : Clock = elim persisted [
      | none ↦ record { millis = 0; counter = 0; device_id = device_id }
      | some (m, n) ↦ record { millis = m; counter = n; device_id = device_id }
    ] in
      check_bounds c >> ok c

-- `checkBounds(); return this.state()`
pub bounded_state : Clock → Result Hlc × Clock
unfolding check_bounds
bounded_state c = (check_bounds c >> ok c, c)

-- One tick of the counter, which rolls over into the milliseconds.
pub roll_over : Clock → Clock
roll_over c =
    if ltb max_counter c.counter then record c { millis = c.millis + 1; counter = 0 } else c

unfoldable pub now : ℕ → Clock → Result Hlc × Clock
unfolding bounded_state roll_over
now pt c =
    if ltb c.millis pt
    then bounded_state (record c { millis = pt; counter = 0 })
    else bounded_state (roll_over (record c { counter = c.counter + 1 }))

-- The counter that `receive` chooses at the new milliseconds `m`.
pub received_counter : ℕ → Clock → Hlc → ℕ
received_counter m c remote =
    if (m == c.millis) && (m == remote.millis)
    then max c.counter remote.counter + 1
    else if m == c.millis
    then c.counter + 1
    else if m == remote.millis
    then remote.counter + 1
    else 0

unfoldable pub receive : ℕ → Hlc → Clock → Result Hlc × Clock
unfolding bounded_state roll_over received_counter
receive pt remote c =
    if ltb (pt + max_drift_ms) remote.millis
    then (err (clock_drift remote.millis pt), c)
    else let m = max (max c.millis remote.millis) pt in
      bounded_state (roll_over (record c { millis = m; counter = received_counter m c remote }))
