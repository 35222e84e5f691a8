-- ===== src/Ulid/Shape.antt =====
-- What `ulid` of packages/core/src/ulid.ts gives is what packages/core/src/op.ts accepts as a row.
use tangentfeed.Prelude.{
  ℕ, zero, suc, ◌+◌, ◌*◌, ◌/◌, ◌%◌, ◌^◌, ◌≤◌, ◌<◌, ◌≡◌, refl, ◌∙◌, Bool, true, [], ◌∷◌, ◌++◌, arith,
  Text, length, length-append, all,
}
use tangentfeed.Errors.{ok}
use tangentfeed.Hlc.{max_millis}
use tangentfeed.Signing.{Bytes}
use tangentfeed.Op
use tangentfeed.Op.{is_ulid, is_base32}
use tangentfeed.Ulid.{alphabet, char_at, time_chars, drain, bits_left, random_chars, ulid}

all-char_at :
    (p : ℕ → Bool) (n : ℕ) (s : Text) → all p s ≡ true → n < length s → p (char_at n s) ≡ true
unfolding char_at all
all-char_at p n [] a h = absurd (omega arith)
all-char_at p zero (c ∷ s) a h = ground arith
all-char_at p (suc n) (c ∷ s) a h = all-char_at p n s (ground arith) (omega arith)

alphabet_lem : all is_base32 alphabet ≡ true
unfolding Op.program all
alphabet_lem = refl

is_base32-char_at : (n : ℕ) → is_base32 (char_at (n % 32) alphabet) ≡ true
is_base32-char_at n = all-char_at is_base32 (n % 32) alphabet alphabet_lem (omega arith)

all-append : (p : ℕ → Bool) (s r : Text) → all p s ≡ true → all p r ≡ true → all p (s ++ r) ≡ true
unfolding all
all-append p [] r a b = b
all-append p (c ∷ s) r a b = ground (arith, all-append p s r)

all-time_chars :
    (n t : ℕ) (s : Text) → all is_base32 s ≡ true → all is_base32 (time_chars n t s) ≡ true
unfolding time_chars all
all-time_chars zero t s a = a
all-time_chars (suc n) t s a = all-time_chars n (t / 32) _ (rw (is_base32-char_at t) a)

length-time_chars : (n t : ℕ) (s : Text) → length (time_chars n t s) ≡ n + length s
unfolding time_chars
length-time_chars zero t s = omega arith
length-time_chars (suc n) t s =
    omega (arith, length-time_chars n (t / 32) (char_at (t % 32) alphabet ∷ s))

all-drain : (acc bits : ℕ) → all is_base32 (drain acc bits) ≡ true
unfolding drain all
all-drain acc (suc (suc (suc (suc (suc n))))) =
    rw (is_base32-char_at (acc / 2 ^ n)) (all-drain acc n)
all-drain acc zero = refl
all-drain acc (suc zero) = refl
all-drain acc (suc (suc zero)) = refl
all-drain acc (suc (suc (suc zero))) = refl
all-drain acc (suc (suc (suc (suc zero)))) = refl

all-random_chars : (rand : Bytes) (acc bits : ℕ) → all is_base32 (random_chars rand acc bits) ≡ true
unfolding random_chars all
all-random_chars [] acc bits = refl
all-random_chars (b ∷ rand) acc bits =
    all-append is_base32 (drain _ (bits + 8)) _ (all-drain _ (bits + 8)) (all-random_chars rand _ _)

length-drain : (acc bits : ℕ) → length (drain acc bits) ≡ bits / 5
unfolding drain
length-drain acc (suc (suc (suc (suc (suc n))))) = omega (arith, length-drain acc n)
length-drain acc zero = omega arith
length-drain acc (suc zero) = omega arith
length-drain acc (suc (suc zero)) = omega arith
length-drain acc (suc (suc (suc zero))) = omega arith
length-drain acc (suc (suc (suc (suc zero)))) = omega arith

bits_left_lem : (bits : ℕ) → bits_left bits ≡ bits % 5
unfolding bits_left
bits_left_lem (suc (suc (suc (suc (suc n))))) = omega (arith, bits_left_lem n)
bits_left_lem zero = omega arith
bits_left_lem (suc zero) = omega arith
bits_left_lem (suc (suc zero)) = omega arith
bits_left_lem (suc (suc (suc zero))) = omega arith
bits_left_lem (suc (suc (suc (suc zero)))) = omega arith

length-random_chars :
    (rand : Bytes) (acc bits : ℕ)
    → bits < 5
    → length (random_chars rand acc bits) ≡ (bits + 8 * length rand) / 5
unfolding random_chars
length-random_chars [] acc bits h = omega arith
length-random_chars (b ∷ rand) acc bits h =
    let acc' = acc * 256 % 2 ^ 32 + b in
    length-append (drain acc' (bits + 8)) (random_chars rand acc' (bits_left (bits + 8)))
    ∙ omega (
      arith,
      length-drain acc' (bits + 8),
      bits_left_lem (bits + 8),
      length-random_chars rand acc' (bits_left (bits + 8))
          (omega (arith, bits_left_lem (bits + 8))),
    )

is_ulid_lem : (s : Text) → length s ≡ 26 → all is_base32 s ≡ true → is_ulid s ≡ true
unfolding is_ulid
is_ulid_lem s l a = ground arith

-- Whenever the time fits 48 bits and the source of randomness gives the ten bytes that it is asked
-- for, an id is made, and it is one that an operation may have as its row.
pub ulid-is_ulid :
    (time : ℕ) (random_bytes : ℕ → Bytes)
    → time ≤ max_millis
    → length (random_bytes 10) ≡ 10
    → (s : Text) × (ulid time random_bytes ≡ ok s) × (is_ulid s ≡ true)
unfolding ulid all
ulid-is_ulid time random_bytes small ten =
    let front = time_chars 10 time [] in
    let back = random_chars (random_bytes 10) 0 0 in
    (
      front ++ back,
      ground arith,
      is_ulid_lem (front ++ back)
          (length-append front back
            ∙ omega (
              arith,
              length-time_chars 10 time [],
              length-random_chars (random_bytes 10) 0 0 (omega arith),
              ten,
            ))
          (all-append is_base32 front back (all-time_chars 10 time [] refl)
            (all-random_chars (random_bytes 10) 0 0)),
    )
