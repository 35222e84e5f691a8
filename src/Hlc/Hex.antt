-- ===== src/Hlc/Hex.antt =====
-- Hexadecimal text as hlc.ts uses it: `toString(16)`, `padStart(n, "0")`, `parseInt(s, 16)`.
use native.Mathlib.Nat.{pow-suc}
use mathlib.Core.Path.{subst}
use mathlib.Core.List.{append-nil}
use tangentfeed.Prelude.{
  ℕ, zero, suc, ◌+◌, ◌-◌, ◌*◌, ◌/◌, ◌%◌, ◌^◌, ◌≤◌, ◌<◌, ◌≡◌, refl, sym, ap, ◌∙◌, inl, inr, ltb→lt,
  lt→ltb, Bool, true, false, ◌&&◌, ◌||◌, [], ◌∷◌, ◌++◌, append_assoc, compare, arith, Text,
  text_compare, length, replicate, all, ltb, leb, and_then, if◌then◌else◌, replicate-snoc,
  Bool-cases,
}

-- `[0-9a-f]`
unfoldable pub is_hex : ℕ → Bool
is_hex c = (leb b'0' c && leb c b'9') || (leb b'a' c && leb c b'f')

abbrev pub hex_digit : ℕ → ℕ
hex_digit d = if ltb d 10 then d + b'0' else d - 10 + b'a'

-- The digits of `n` before `rest`. The fuel `n` is enough: `n / 16 < n`.
pub to_hex_from : ℕ → ℕ → Text → Text
to_hex_from zero n rest = hex_digit n ∷ rest
to_hex_from (suc f) n rest = elim (ltb n 16) [
  | true ↦ hex_digit n ∷ rest
  | false ↦ to_hex_from f (n / 16) (hex_digit (n % 16) ∷ rest)
]

unfoldable pub to_hex : ℕ → Text
unfolding to_hex_from
to_hex n = to_hex_from n n []

unfoldable pub pad_start : ℕ → Text → Text
pad_start n s = replicate (n - length s) b'0' ++ s

abbrev pub digit_value : ℕ → ℕ
digit_value c = if leb c b'9' then c - b'0' else c - b'a' + 10

-- `parseInt(s, 16)` of a text of lower-case digits, which is what `decode_hlc` gives it.
unfoldable pub hex_value : ℕ → Text → ℕ
hex_value acc [] = acc
hex_value acc (c ∷ s) = hex_value (acc * 16 + digit_value c) s

-- The specification: the last `k` digits of `n`, with leading zeros, before `rest`.
pub fixed : ℕ → ℕ → Text → Text
fixed zero n rest = rest
fixed (suc k) n rest = fixed k (n / 16) (hex_digit (n % 16) ∷ rest)

fixed-zero : (k : ℕ) (rest : Text) → fixed k 0 rest ≡ replicate k b'0' ++ rest
unfolding fixed
fixed-zero zero rest = refl
fixed-zero (suc k) rest =
    fixed-zero k (b'0' ∷ rest)
    ∙ sym (append_assoc (replicate k b'0') (b'0' ∷ []) rest)
    ∙ ap (λ xs. xs ++ rest) (replicate-snoc k b'0')

below_pow : (n k : ℕ) → n < 16 ^ suc k → n / 16 < 16 ^ k
below_pow n k h = let p = pow-suc 16 k in omega arith

scale : (acc k : ℕ) → acc * 16 ^ suc k ≡ acc * 16 ^ k * 16
scale acc k = rw pow-suc (omega arith)

digits_join :
    (m m' n : ℕ) → m' ≡ m * 16 → (m + n / 16) * 16 + digit_value (hex_digit (n % 16)) ≡ m' + n
digits_join m m' n h = ground arith

one_shorter : (k l : ℕ) → suc k + l - suc l ≡ k
one_shorter k l = omega arith

pad_last :
    (k n : ℕ) (rest : Text)
    → n < 16
    → replicate (suc k + length rest - suc (length rest)) b'0' ++ hex_digit n ∷ rest
      ≡ fixed (suc k) n rest
unfolding fixed
pad_last k n rest h =
    let q : n / 16 ≡ 0 = omega arith in
    let r : n % 16 ≡ n = omega arith in
    rw (one_shorter, q, r) (sym (fixed-zero k (hex_digit n ∷ rest)))

to_hex_from-low :
    (f n : ℕ) (rest : Text) → ltb n 16 ≡ true → to_hex_from (suc f) n rest ≡ hex_digit n ∷ rest
unfolding to_hex_from
to_hex_from-low f n rest p = ground arith

to_hex_from-high :
    (f n : ℕ) (rest : Text)
    → ltb n 16 ≡ false
    → to_hex_from (suc f) n rest ≡ to_hex_from f (n / 16) (hex_digit (n % 16) ∷ rest)
unfolding to_hex_from
to_hex_from-high f n rest p = ground arith

not_low : (n : ℕ) → ltb n 16 ≡ false → 16 ≤ n
not_low n p = ground arith

-- Printing and padding give the fixed-width digits.
pad_from :
    (k f n : ℕ) (rest : Text)
    → n < 16 ^ suc k
    → n ≤ f
    → replicate (suc k + length rest - length (to_hex_from f n rest)) b'0' ++ to_hex_from f n rest
      ≡ fixed (suc k) n rest
unfolding to_hex_from fixed
pad_from k zero n rest h g = pad_last k n rest (omega arith)
pad_from zero (suc f) n rest h g =
    rw (to_hex_from-low f n rest (lt→ltb n 16 (omega arith))) (pad_last zero n rest (omega arith))
pad_from (suc j) (suc f) n rest h g = elim (Bool-cases (ltb n 16)) [
  | inl p ↦ rw (to_hex_from-low f n rest p) (pad_last (suc j) n rest (ltb→lt n 16 p))
  | inr p ↦
      let e : suc (suc j) + length rest ≡ suc j + suc (length rest) = omega arith in
      let q : n / 16 ≤ f = omega (arith, not_low n p) in
      rw (to_hex_from-high f n rest p, e)
        (pad_from j f (n / 16) (hex_digit (n % 16) ∷ rest) (below_pow n (suc j) h) q)
]

pub pad_start-fixed : (k n : ℕ) → n < 16 ^ suc k → pad_start (suc k) (to_hex n) ≡ fixed (suc k) n []
unfolding pad_start to_hex
pad_start-fixed k n h =
    subst
      (λ m.
        replicate (m - length (to_hex_from n n [])) b'0' ++ to_hex_from n n [] ≡ fixed (suc k) n [])
      (omega arith) (pad_from k n n [] h (omega arith))

-- Reading the digits gives the number back.
pub hex_value-fixed :
    (k n acc : ℕ) (rest : Text)
    → n < 16 ^ k
    → hex_value acc (fixed k n rest) ≡ hex_value (acc * 16 ^ k + n) rest
unfolding fixed hex_value
hex_value-fixed zero n acc rest h = ap (λ m. hex_value m rest) (omega arith)
hex_value-fixed (suc k) n acc rest h =
    hex_value-fixed k (n / 16) acc (hex_digit (n % 16) ∷ rest) (below_pow n k h)
    ∙ ap (λ m. hex_value m rest) (digits_join (acc * 16 ^ k) (acc * 16 ^ suc k) n (scale acc k))

digit_back :
    (acc c : ℕ)
    → is_hex c ≡ true
    → ((acc * 16 + digit_value c) / 16 ≡ acc) × (hex_digit ((acc * 16 + digit_value c) % 16) ≡ c)
unfolding is_hex
digit_back acc c h = (ground arith, ground arith)

-- Printing what was read gives the digits back.
pub fixed-hex_value :
    (xs : Text) (j acc : ℕ) (rest : Text)
    → all is_hex xs ≡ true
    → fixed (length xs + j) (hex_value acc xs) rest ≡ fixed j acc (xs ++ rest)
unfolding fixed hex_value all is_hex
fixed-hex_value [] j acc rest h = let e : zero + j ≡ j = omega arith in rw e
fixed-hex_value (c ∷ xs) j acc rest h =
    let e : suc (length xs) + j ≡ length xs + suc j = omega arith in
    let p : is_hex c ≡ true = ground arith in
    let q : all is_hex xs ≡ true = ground arith in
    let (a, d) = digit_back acc c p in
    rw e (fixed-hex_value xs (suc j) (acc * 16 + digit_value c) rest q ∙ rw (a, d) refl)

-- Fixed-width digits compare as the numbers, then as what follows.
pub compare-fixed :
    (k a b : ℕ) (r s : Text)
    → a < 16 ^ k
    → b < 16 ^ k
    → text_compare (fixed k a r) (fixed k b s) ≡ and_then (compare a b) (text_compare r s)
unfolding fixed text_compare
compare-fixed zero a b r s ha hb = ground arith
compare-fixed (suc k) a b r s ha hb =
    compare-fixed k (a / 16) (b / 16) (hex_digit (a % 16) ∷ r) (hex_digit (b % 16) ∷ s)
      (below_pow a k ha) (below_pow b k hb)
    ∙ ground arith

hex_digit_hex : (n : ℕ) → n < 16 → is_hex (hex_digit n) ≡ true
unfolding is_hex
hex_digit_hex n h = ground arith

pub all-fixed :
    (k n : ℕ) (rest : Text) → all is_hex rest ≡ true → all is_hex (fixed k n rest) ≡ true
unfolding fixed all
all-fixed zero n rest h = h
all-fixed (suc k) n rest h =
    all-fixed k (n / 16) (hex_digit (n % 16) ∷ rest)
      (ground (arith, hex_digit_hex (n % 16) (omega arith)))

pub length-fixed : (k n : ℕ) (rest : Text) → length (fixed k n rest) ≡ k + length rest
unfolding fixed
length-fixed zero n rest = omega arith
length-fixed (suc k) n rest = omega (arith, length-fixed k (n / 16) (hex_digit (n % 16) ∷ rest))

pub fixed_value :
    (k : ℕ) (xs : Text) → length xs ≡ k → all is_hex xs ≡ true → fixed k (hex_value 0 xs) [] ≡ xs
unfolding fixed
fixed_value k xs e h =
    let p : length xs + 0 ≡ k = omega arith in
    rw (← p) (fixed-hex_value xs 0 0 [] h ∙ append-nil xs)

is_hex-lt : (c : ℕ) → is_hex c ≡ true → digit_value c < 16
unfolding is_hex
is_hex-lt c h = ground arith

widen : (acc v t : ℕ) → v < 16 → (acc * 16 + v + 1) * t ≤ (acc + 1) * (16 * t)
widen acc v t h = grind arith

pub hex_value-lt :
    (xs : Text) (acc : ℕ) → all is_hex xs ≡ true → hex_value acc xs < (acc + 1) * 16 ^ length xs
unfolding hex_value all
hex_value-lt [] acc h = omega arith
hex_value-lt (c ∷ xs) acc h =
    let v : digit_value c < 16 = is_hex-lt c (ground arith) in
    let q : all is_hex xs ≡ true = ground arith in
    rw (pow-suc 16 (length xs)) (
      omega (
        arith,
        hex_value-lt xs (acc * 16 + digit_value c) q,
        widen acc (digit_value c) (16 ^ length xs) v,
      ))
