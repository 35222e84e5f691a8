-- ===== src/Hlc/Codec.antt =====
-- The fifty characters of a timestamp: `encodeHlc` and `decodeHlc` of packages/core/src/hlc.ts.
use tangentfeed.Prelude.{
  ℕ, zero, suc, ◌^◌, ◌≤◌, ◌<◌, ◌≡◌, refl, sym, ap, ◌∙◌, inl, inr, true, ◌&&◌, Option, none, some,
  [], ◌∷◌, ◌++◌, arith, Text, length, take, drop, all, ◌==◌, Bool-cases,
}
use mathlib.Core.List.{append-nil}
use mathlib.Core.Path.{subst}
use tangentfeed.Prelude.{take-append, drop-append-cons, drop-drop, all-nil}
use tangentfeed.Hlc.Hex.{all-fixed, length-fixed, fixed_value, hex_value-lt}
use tangentfeed.Errors.{ok}
use tangentfeed.Hlc.{
  Hlc, max_counter, max_millis, is_valid_device_id, hex_run, dash, at_end, followed_by, matches_hlc,
  encode_hlc, decode_hlc,
}
use tangentfeed.Hlc.Hex.{is_hex, fixed, hex_value, pad_start-fixed, hex_value-fixed}

pub record InRange (h : Hlc) : Type 0 where
  pub millis_fits : h.millis ≤ max_millis
  pub counter_fits : h.counter ≤ max_counter
  pub device_valid : is_valid_device_id h.device_id ≡ true

-- The fixed-width form that an encoded timestamp in range has.
pub encode-fixed :
    (h : Hlc)
    → h.millis ≤ max_millis
    → h.counter ≤ max_counter
    → encode_hlc h ≡ fixed 12 h.millis [] ++ b'-' ∷ (fixed 4 h.counter [] ++ b'-' ∷ h.device_id)
unfolding encode_hlc
encode-fixed h p q =
    rw (pad_start-fixed 11 h.millis (omega arith), pad_start-fixed 3 h.counter (omega arith))

-- A run of digits is read off the front, and nothing else is.
pub hex_run-append :
    (xs rest : Text) → all is_hex xs ≡ true → hex_run (length xs) (xs ++ rest) ≡ some rest
unfolding hex_run all
hex_run-append [] rest h = refl
hex_run-append (x ∷ xs) rest h = ground (arith, hex_run-append xs rest)

pub hex_run_inv :
    (n : ℕ) (s rest : Text)
    → hex_run n s ≡ some rest
    → (all is_hex (take n s) ≡ true)
      × (length (take n s) ≡ n)
      × (drop n s ≡ rest)
      × (s ≡ take n s ++ rest)
unfolding hex_run all
hex_run_inv zero s rest h = let e : s ≡ rest = cc in (refl, refl, e, e)
hex_run_inv (suc n) [] rest h = absurd (ground arith)
hex_run_inv (suc n) (c ∷ s) rest h =
    let p : is_hex c ≡ true = ground arith in
    let q : hex_run n s ≡ some rest = ground arith in
    let (digits, size, after, whole) = hex_run_inv n s rest q in
    (ground arith, ap suc size, after, ap (λ xs. c ∷ xs) whole)

dash_inv : (s rest : Text) → dash s ≡ some rest → s ≡ b'-' ∷ rest
unfolding dash
dash_inv [] rest h = cc
dash_inv (c ∷ s) rest h = ground arith

dash-cons : (rest : Text) → dash (b'-' ∷ rest) ≡ some rest
unfolding dash
dash-cons rest = refl

-- A text in the three parts of the pattern.
abbrev joined : Text → Text → Text → Text
joined a b d = a ++ b'-' ∷ (b ++ b'-' ∷ d)

record IsLaidOut (a b d : Text) : Type 0 where
  millis_length : length a ≡ 12
  counter_length : length b ≡ 4
  device_length : length d ≡ 32
  millis_hex : all is_hex a ≡ true
  counter_hex : all is_hex b ≡ true
  device_hex : all is_hex d ≡ true

hex_run-append_of :
    (n : ℕ) (xs rest : Text)
    → length xs ≡ n
    → all is_hex xs ≡ true
    → hex_run n (xs ++ rest) ≡ some rest
hex_run-append_of n xs rest e h = rw (← e) (hex_run-append xs rest h)

hex_run_whole :
    (n : ℕ) (xs : Text) → length xs ≡ n → all is_hex xs ≡ true → at_end (hex_run n xs) ≡ true
hex_run_whole n xs e h = ap at_end (rw append-nil at (hex_run-append_of n xs [] e h))

matches-joined : (a b d : Text) → IsLaidOut a b d → matches_hlc (joined a b d) ≡ true
unfolding matches_hlc
matches-joined a b d l =
    let e : d ≡ d ++ [] = sym (append-nil d) in
    rw
      (
        hex_run-append_of 12 a (b'-' ∷ (b ++ b'-' ∷ d)) l.millis_length l.millis_hex,
        hex_run-append_of 4 b (b'-' ∷ d) l.counter_length l.counter_hex,
      )
      (hex_run_whole 32 d l.device_length l.device_hex)

slices-joined :
    (a b d : Text)
    → IsLaidOut a b d
    → (take 12 (joined a b d) ≡ a)
      × (take 4 (drop 13 (joined a b d)) ≡ b)
      × (drop 18 (joined a b d) ≡ d)
slices-joined a b d l = (
  take-append 12 a _ l.millis_length,
  ap (take 4) after_millis ∙ take-append 4 b (b'-' ∷ d) l.counter_length,
  sym (drop-drop 13 5 (joined a b d))
      ∙ ap (drop 5) after_millis
      ∙ drop-append-cons 4 b b'-' d l.counter_length,
)
  where
    after_millis : drop 13 (joined a b d) ≡ b ++ b'-' ∷ d
    after_millis = drop-append-cons 12 a b'-' (b ++ b'-' ∷ d) l.millis_length

followed_by_inv :
    (o : Option Text) (f : Text → Option Text) {r : Text}
    → followed_by o f ≡ some r
    → (a : Text) × (o ≡ some a) × (f a ≡ some r)
followed_by_inv none f h = cc
followed_by_inv (some a) f h = (a, refl, h)

at_end_inv : (o : Option Text) → at_end o ≡ true → o ≡ some []
at_end_inv (some []) h = refl
at_end_inv (some (c ∷ s)) h = cc
at_end_inv none h = cc

joined_of :
    (s r₁ r₂ r₃ r₄ : Text)
    → hex_run 12 s ≡ some r₁
    → r₁ ≡ b'-' ∷ r₂
    → hex_run 4 r₂ ≡ some r₃
    → r₃ ≡ b'-' ∷ r₄
    → hex_run 32 r₄ ≡ some []
    → (s ≡ joined (take 12 s) (take 4 (drop 13 s)) (drop 18 s))
      × IsLaidOut (take 12 s) (take 4 (drop 13 s)) (drop 18 s)
joined_of s r₁ r₂ r₃ r₄ front first count second device =
    let (hex₁, size₁, after₁, whole₁) = hex_run_inv 12 s r₁ front in
    let (hex₂, size₂, after₂, whole₂) = hex_run_inv 4 r₂ r₃ count in
    let (hex₃, size₃, after₃, whole₃) = hex_run_inv 32 r₄ [] device in
    let to₂ : drop 13 s ≡ r₂ = sym (drop-drop 12 1 s) ∙ ap (drop 1) (after₁ ∙ first) in
    let to₄ : drop 18 s ≡ r₄ =
      sym (drop-drop 13 5 s)
      ∙ ap (drop 5) to₂
      ∙ sym (drop-drop 4 1 r₂)
      ∙ ap (drop 1) (after₂ ∙ second) in
    let all₃ : r₄ ≡ take 32 r₄ = whole₃ ∙ append-nil (take 32 r₄) in
    (
      rw (to₂, to₄)
          (whole₁
            ∙ ap (λ r. take 12 s ++ r)
                (first ∙ ap (λ r. b'-' ∷ r) (whole₂ ∙ ap (λ r. take 4 r₂ ++ r) second))),
      record {
        millis_length = size₁;
        counter_length = rw to₂ size₂;
        device_length = rw to₄ (ap length all₃ ∙ size₃);
        millis_hex = hex₁;
        counter_hex = rw to₂ hex₂;
        device_hex = rw to₄ (ap (all is_hex) all₃ ∙ hex₃);
      },
    )

matches_inv :
    (s : Text)
    → matches_hlc s ≡ true
    → (s ≡ joined (take 12 s) (take 4 (drop 13 s)) (drop 18 s))
      × IsLaidOut (take 12 s) (take 4 (drop 13 s)) (drop 18 s)
unfolding matches_hlc
matches_inv s h =
    let (r₄, before₄, device) = followed_by_inv _ (hex_run 32) (at_end_inv _ h) in
    let (r₃, before₃, second) = followed_by_inv _ dash before₄ in
    let (r₂, before₂, count) = followed_by_inv _ (hex_run 4) before₃ in
    let (r₁, front, first) = followed_by_inv _ dash before₂ in
    joined_of s r₁ r₂ r₃ r₄ front (dash_inv r₁ r₂ first) count (dash_inv r₃ r₄ second) device

IsLaidOut-of_range :
    (h : Hlc) → InRange h → IsLaidOut (fixed 12 h.millis []) (fixed 4 h.counter []) h.device_id
unfolding is_valid_device_id
IsLaidOut-of_range h r =
    let valid : (length h.device_id == 32) && all is_hex h.device_id ≡ true = r.device_valid in
    record {
      millis_length = length-fixed 12 h.millis [];
      counter_length = length-fixed 4 h.counter [];
      device_length = ground arith;
      millis_hex = all-fixed 12 h.millis [] (all-nil is_hex);
      counter_hex = all-fixed 4 h.counter [] (all-nil is_hex);
      device_hex = ground arith;
    }

value_fixed : (k n : ℕ) → n < 16 ^ k → hex_value 0 (fixed k n []) ≡ n
unfolding hex_value
value_fixed k n h = hex_value-fixed k n 0 [] h ∙ (omega arith)

decoded_fields :
    (h : Hlc)
    → InRange h
    → ok (record {
      millis = hex_value 0 (fixed 12 h.millis []);
      counter = hex_value 0 (fixed 4 h.counter []);
      device_id = h.device_id;
    })
      ≡ ok h
decoded_fields h r =
    let m = value_fixed 12 h.millis (omega arith) in
    let c = value_fixed 4 h.counter (omega arith) in rw (m, c)

abbrev sliced : Text → Hlc
sliced s = record {
  millis = hex_value 0 (take 12 s);
  counter = hex_value 0 (take 4 (drop 13 s));
  device_id = drop 18 s;
}

value_lt : (k : ℕ) (xs : Text) → length xs ≡ k → all is_hex xs ≡ true → hex_value 0 xs < 16 ^ k
value_lt k xs e h = rw (← e) (omega (arith, hex_value-lt xs 0 h))

sliced-InRange :
    (s : Text) → IsLaidOut (take 12 s) (take 4 (drop 13 s)) (drop 18 s) → InRange (sliced s)
unfolding is_valid_device_id
sliced-InRange s l =
    let m = value_lt 12 (take 12 s) l.millis_length l.millis_hex in
    let c = value_lt 4 (take 4 (drop 13 s)) l.counter_length l.counter_hex in
    record {
      millis_fits = omega arith;
      counter_fits = omega arith;
      device_valid = rw (l.device_length, l.device_hex);
    }

encode-sliced :
    (s : Text)
    → s ≡ joined (take 12 s) (take 4 (drop 13 s)) (drop 18 s)
    → IsLaidOut (take 12 s) (take 4 (drop 13 s)) (drop 18 s)
    → encode_hlc (sliced s) ≡ s
encode-sliced s whole l =
    let r = sliced-InRange s l in
    encode-fixed (sliced s) r.millis_fits r.counter_fits
    ∙ rw
        (
          fixed_value 12 _ l.millis_length l.millis_hex,
          fixed_value 4 _ l.counter_length l.counter_hex,
        )
        (sym whole)

-- Decoding an encoded timestamp in range gives the timestamp back.
pub decode_hlc-encode_hlc : (h : Hlc) → InRange h → decode_hlc (encode_hlc h) ≡ ok h
unfolding decode_hlc
decode_hlc-encode_hlc h r =
    let l = IsLaidOut-of_range h r in
    let (front, count, device) = slices-joined _ _ _ l in
    rw (encode-fixed h r.millis_fits r.counter_fits, matches-joined _ _ _ l, front, count, device)
      (decoded_fields h r)

-- Whatever decodes is in range, and is the encoding of what it decodes to.
pub encode_hlc-decode_hlc :
    (s : Text) (h : Hlc) → decode_hlc s ≡ ok h → InRange h × (encode_hlc h ≡ s)
unfolding decode_hlc
encode_hlc-decode_hlc s h e = elim (Bool-cases (matches_hlc s)) [
  | inl m ↦
      let (whole, l) = matches_inv s m in
      let q : sliced s ≡ h = ground arith in
      subst (λ g. InRange g × (encode_hlc g ≡ s)) q (sliced-InRange s l, encode-sliced s whole l)
  | inr m ↦ absurd (ground arith)
]
