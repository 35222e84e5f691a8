-- ===== src/Ulid.antt =====
-- packages/core/src/ulid.ts: row ids. The source of random bytes is an argument.
pub mod Shape
pub mod Order
use tangentfeed.Prelude.{
  ℕ, zero, suc, ◌+◌, ◌*◌, ◌/◌, ◌%◌, ◌^◌, Bool, true, false, List, [], ◌∷◌, ◌++◌, Text, codes, ltb,
  if◌then◌else◌,
}
use tangentfeed.Errors.{Result, ok, err, ulid_time}
use tangentfeed.Hlc.{max_millis}
use tangentfeed.Signing.{Bytes}

abbrev pub alphabet : Text
alphabet = codes "0123456789ABCDEFGHJKMNPQRSTVWXYZ"

-- `text[n]`, which the source reads within the text only.
pub char_at : ℕ → Text → ℕ
char_at n [] = 0
char_at zero (c ∷ s) = c
char_at (suc n) (c ∷ s) = char_at n s

-- The loop over `timeChars`, from the last character to the first.
pub time_chars : ℕ → ℕ → Text → Text
unfolding char_at
time_chars zero t s = s
time_chars (suc n) t s = time_chars n (t / 32) (char_at (t % 32) alphabet ∷ s)

-- `while (bits >= 5)`: the characters, and the bits that are left.
pub drain : ℕ → ℕ → Text
unfolding char_at
drain acc (suc (suc (suc (suc (suc n))))) = char_at (acc / 2 ^ n % 32) alphabet ∷ drain acc n
drain acc _ = []

pub bits_left : ℕ → ℕ
bits_left (suc (suc (suc (suc (suc n))))) = bits_left n
bits_left n = n

-- `for (const byte of rand)`; `acc` is the 32-bit number that the shifts see, without its sign.
pub random_chars : Bytes → ℕ → ℕ → Text
unfolding drain bits_left
random_chars [] acc bits = []
random_chars (byte ∷ rand) acc bits =
    let acc' = acc * 256 % 2 ^ 32 + byte in
    drain acc' (bits + 8) ++ random_chars rand acc' (bits_left (bits + 8))

unfoldable pub ulid : ℕ → (ℕ → Bytes) → Result Text
unfolding time_chars random_chars
ulid time random_bytes =
    if ltb max_millis time
    then err ulid_time
    else ok (time_chars 10 time [] ++ random_chars (random_bytes 10) 0 0)
