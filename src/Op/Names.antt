-- ===== src/Op/Names.antt =====
-- The names that packages/core/src/op.ts accepts hold no separator, so that a cell's key can be split.
use tangentfeed.Prelude.{
  ℕ, ◌≡◌, refl, ◌⊎◌, inl, inr, Bool, true, not, [], ◌∷◌, arith, Text, all, ◌==◌,
}
use tangentfeed.Op.{tombstone_column, is_name, is_ulid, is_name_start, is_name_char, is_base32}

-- U+0000 does not occur.
unfoldable pub no_sep : Text → Bool
no_sep s = all (λ c. not (c == 0)) s

all-no_sep :
    (p : ℕ → Bool) (s : Text)
    → ((c : ℕ) → p c ≡ true → not (c == 0) ≡ true)
    → all p s ≡ true
    → no_sep s ≡ true
unfolding no_sep all
all-no_sep p [] f h = refl
all-no_sep p (c ∷ s) f h = ground (arith, f c, all-no_sep p s f)

name_start_no_sep : (c : ℕ) → is_name_start c ≡ true → not (c == 0) ≡ true
unfolding is_name_start
name_start_no_sep c h = ground arith

name_char_no_sep : (c : ℕ) → is_name_char c ≡ true → not (c == 0) ≡ true
unfolding is_name_char
name_char_no_sep c h = ground arith

base32_no_sep : (c : ℕ) → is_base32 c ≡ true → not (c == 0) ≡ true
unfolding is_base32
base32_no_sep c h = ground arith

pub name_no_sep : (s : Text) → is_name s ≡ true → no_sep s ≡ true
unfolding is_name no_sep all
name_no_sep [] h = refl
name_no_sep (c ∷ s) h =
    ground (arith, name_start_no_sep c, all-no_sep is_name_char s name_char_no_sep)

pub ulid_no_sep : (s : Text) → is_ulid s ≡ true → no_sep s ≡ true
unfolding is_ulid
ulid_no_sep s h = all-no_sep is_base32 s base32_no_sep (ground arith)

pub column_no_sep : (s : Text) → (s ≡ tombstone_column) ⊎ (is_name s ≡ true) → no_sep s ≡ true
unfolding no_sep all
column_no_sep s (inl e) = rw e
column_no_sep s (inr h) = name_no_sep s h
