-- ===== src/Ulid/Order.antt =====
-- The order of the row ids of packages/core/src/ulid.ts: by their time, which is why a list sorted by
-- row id is in the order of insertion.
use tangentfeed.Prelude.{
  ℕ, zero, suc, ◌-◌, ◌/◌, ◌%◌, ◌^◌, ◌≤◌, ◌<◌, ◌≡◌, refl, ap, ◌∙◌, Bool, true, ◌&&◌, [], ◌∷◌, ◌++◌,
  arith, Text, text_compare, length, all, ltb, compare, Ordering, and_then,
}
use tangentfeed.Errors.{ok}
use tangentfeed.Signing.{Bytes}
use tangentfeed.Ulid.{alphabet, char_at, time_chars, random_chars, ulid}

is_rising : Text → Bool
unfolding all
is_rising [] = true
is_rising (c ∷ s) = all (λ d. ltb c d) s && is_rising s

above_all : (c j : ℕ) (s : Text) → all (λ d. ltb c d) s ≡ true → j < length s → c < char_at j s
unfolding all char_at
above_all c j [] a h = absurd (omega arith)
above_all c zero (d ∷ s) a h = ground arith
above_all c (suc j) (d ∷ s) a h = above_all c j s (ground arith) (omega arith)

char_at-lt :
    (i j : ℕ) (s : Text) → is_rising s ≡ true → i < j → j < length s → char_at i s < char_at j s
unfolding is_rising char_at
char_at-lt i j [] r h l = absurd (omega arith)
char_at-lt i zero (c ∷ s) r h l = absurd (omega arith)
char_at-lt zero (suc j) (c ∷ s) r h l = above_all c j s (ground arith) (omega arith)
char_at-lt (suc i) (suc j) (c ∷ s) r h l =
    char_at-lt i j s (ground arith) (omega arith) (omega arith)

alphabet_rising : is_rising alphabet ≡ true
unfolding is_rising all
alphabet_rising = refl

compare_of_order :
    (i j m n : ℕ) → (i < j → m < n) → (j < i → n < m) → (i ≡ j → m ≡ n) → compare m n ≡ compare i j
compare_of_order i j m n below above same = ground arith

compare-char_at :
    (a b : ℕ)
    → compare (char_at (a % 32) alphabet) (char_at (b % 32) alphabet) ≡ compare (a % 32) (b % 32)
compare-char_at a b =
    compare_of_order (a % 32) (b % 32) _ _
      (λ h. char_at-lt (a % 32) (b % 32) alphabet alphabet_rising h (omega arith))
      (λ h. char_at-lt (b % 32) (a % 32) alphabet alphabet_rising h (omega arith))
      (λ q. ap (λ n. char_at n alphabet) q)

compare_div_mod :
    (a b : ℕ) → and_then (compare (a / 32) (b / 32)) (compare (a % 32) (b % 32)) ≡ compare a b
compare_div_mod a b = ground arith

and_then_assoc : (x y z : Ordering) → and_then x (and_then y z) ≡ and_then (and_then x y) z
and_then_assoc x y z = ground arith

below_pow : (a k : ℕ) → a < 32 ^ suc k → a / 32 < 32 ^ k
below_pow a k h = ground arith

compare-time_chars :
    (k a b : ℕ) (r s : Text)
    → a < 32 ^ k
    → b < 32 ^ k
    → text_compare (time_chars k a r) (time_chars k b s) ≡ and_then (compare a b) (text_compare r s)
unfolding time_chars text_compare
compare-time_chars zero a b r s ha hb = ground arith
compare-time_chars (suc k) a b r s ha hb =
    compare-time_chars k (a / 32) (b / 32) _ _ (below_pow a k ha) (below_pow b k hb)
    ∙ ap (λ o. and_then (compare (a / 32) (b / 32)) (and_then o (text_compare r s)))
        (compare-char_at a b)
    ∙ and_then_assoc (compare (a / 32) (b / 32)) (compare (a % 32) (b % 32)) (text_compare r s)
    ∙ ap (λ o. and_then o (text_compare r s)) (compare_div_mod a b)

time_chars-append : (k t : ℕ) (s r : Text) → time_chars k t s ++ r ≡ time_chars k t (s ++ r)
unfolding time_chars
time_chars-append zero t s r = refl
time_chars-append (suc k) t s r = time_chars-append k (t / 32) _ r

compare_lem : (a b : ℕ) → a < b → compare a b ≡ Ordering.lt
compare_lem a b h = ground arith

fits : (a : ℕ) (bytes : ℕ → Bytes) (x : Text) → ulid a bytes ≡ ok x → a < 32 ^ 10
unfolding ulid
fits a bytes x p = let small : a ≤ 2 ^ 48 - 1 = ground arith in omega arith

-- Of two ids that are made, one for an earlier time, this one is the smaller text, whatever the
-- random bytes.
pub ulid_increases :
    (a b : ℕ) (bytes bytes' : ℕ → Bytes) (x y : Text)
    → a < b
    → ulid a bytes ≡ ok x
    → ulid b bytes' ≡ ok y
    → text_compare x y ≡ Ordering.lt
unfolding ulid
ulid_increases a b bytes bytes' x y h p q =
    let r = random_chars (bytes 10) 0 0 in
    let s = random_chars (bytes' 10) 0 0 in
    let px : time_chars 10 a [] ++ r ≡ x = ground arith in
    let qy : time_chars 10 b [] ++ s ≡ y = ground arith in
    rw (← px, ← qy, time_chars-append 10 a [] r, time_chars-append 10 b [] s)
      (compare-time_chars 10 a b r s (fits a bytes x p) (fits b bytes' y q)
        ∙ rw (compare_lem a b h) refl)
