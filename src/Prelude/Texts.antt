-- ===== src/Prelude/Texts.antt =====
-- JavaScript strings as lists of UTF-16 code units. `<`, `>` and `===` compare code unit by code
-- unit, so they are one three-way comparison.
use Prim.Native.Nat.{ℕ, compare, Ordering}
use Prim.Native.Char.{code}
use Prim.Native.String.{String}
use mathlib.Core.Path.{◌≡◌, refl}
use mathlib.Core.Logic.{◌↔◌}
use mathlib.Core.Bool.{Bool, true, false, not}
use mathlib.Core.List.{List, [], ◌∷◌, ◌++◌}
use native.Mathlib.Omega.{arith}
use tangentfeed.Prelude.Branches.{is_lt, is_eq, flip, and_then}
use tangentfeed.Prelude.Lists.{length}

abbrev pub Text : Type 0
Text = List ℕ

-- The code units of an ASCII literal.
abbrev pub codes : String → Text
codes String.[] = []
codes (String.◌∷◌ c s) = code c ∷ codes s

unfoldable pub text_compare : Text → Text → Ordering
text_compare [] [] = Ordering.eq
text_compare [] (y ∷ ys) = Ordering.lt
text_compare (x ∷ xs) [] = Ordering.gt
text_compare (x ∷ xs) (y ∷ ys) = and_then (compare x y) (text_compare xs ys)

abbrev pub text_ltb : Text → Text → Bool
text_ltb a b = is_lt (text_compare a b)

abbrev pub text_eqb : Text → Text → Bool
text_eqb a b = is_eq (text_compare a b)

-- `a <= b`
abbrev pub text_leb : Text → Text → Bool
text_leb a b = not (text_ltb b a)

pub compare_refl : (a : Text) → text_compare a a ≡ Ordering.eq
unfolding text_compare
compare_refl [] = refl
compare_refl (x ∷ xs) = ground (arith, compare_refl xs)

pub eq_of_compare : (a b : Text) → text_compare a b ≡ Ordering.eq → a ≡ b
unfolding text_compare
eq_of_compare [] [] h = refl
eq_of_compare [] (y ∷ ys) h = absurd (ground arith)
eq_of_compare (x ∷ xs) [] h = absurd (ground arith)
eq_of_compare (x ∷ xs) (y ∷ ys) h = ground (arith, eq_of_compare xs ys)

pub compare_flip : (a b : Text) → text_compare b a ≡ flip (text_compare a b)
unfolding text_compare
compare_flip [] [] = refl
compare_flip [] (y ∷ ys) = refl
compare_flip (x ∷ xs) [] = refl
compare_flip (x ∷ xs) (y ∷ ys) = ground (arith, compare_flip xs ys)

pub eqb_iff : (a b : Text) → (text_eqb a b ≡ true) ↔ (a ≡ b)
eqb_iff a b = (λ h. eq_of_compare a b (ground arith), λ e. ground (arith, compare_refl a))

pub eqb_refl : (a : Text) → text_eqb a a ≡ true
eqb_refl a = (eqb_iff a a).1 refl

pub lt_trans : (a b c : Text) → text_ltb a b ≡ true → text_ltb b c ≡ true → text_ltb a c ≡ true
unfolding text_compare
lt_trans [] [] c h k = k
lt_trans [] (y ∷ ys) [] h k = k
lt_trans [] (y ∷ ys) (z ∷ zs) h k = refl
lt_trans (x ∷ xs) [] c h k = absurd (ground arith)
lt_trans (x ∷ xs) (y ∷ ys) [] h k = absurd (ground arith)
lt_trans (x ∷ xs) (y ∷ ys) (z ∷ zs) h k =
    ground (arith, lt_trans xs ys zs, eq_of_compare xs ys, eq_of_compare ys zs)

pub lt_irrefl : (a : Text) → text_ltb a a ≡ false
lt_irrefl a = ground (arith, compare_refl a)

pub lt_asymm : (a b : Text) → text_ltb a b ≡ true → text_ltb b a ≡ false
lt_asymm a b h = ground (arith, compare_flip a b)

pub lt_connected : (a b : Text) → text_ltb a b ≡ false → text_ltb b a ≡ false → a ≡ b
lt_connected a b h k = ground (arith, compare_flip a b, eq_of_compare a b)

-- `text_leb b a ≡ false` is the strict order; the mixed transitivities.
pub leb_trans : (a b c : Text) → text_leb a b ≡ true → text_leb b c ≡ true → text_leb a c ≡ true
leb_trans a b c h k = ground (
  arith,
  lt_trans c a b,
  compare_flip a b,
  compare_flip b c,
  eq_of_compare a b,
  eq_of_compare b c,
)

pub leb_refl : (a : Text) → text_leb a a ≡ true
leb_refl a = ground (arith, compare_refl a)

pub leb_antisymm : (a b : Text) → text_leb a b ≡ true → text_leb b a ≡ true → a ≡ b
leb_antisymm a b h k = lt_connected a b (ground arith) (ground arith)

pub leb_of_lt : (a b : Text) → text_ltb a b ≡ true → text_leb a b ≡ true
leb_of_lt a b h = ground (arith, compare_flip a b)

-- Texts of one length in front decide first.
pub compare-append :
    (xs xs' ys ys' : Text)
    → length xs ≡ length xs'
    → text_compare (xs ++ ys) (xs' ++ ys') ≡ and_then (text_compare xs xs') (text_compare ys ys')
unfolding text_compare
compare-append [] [] ys ys' h = refl
compare-append [] (x ∷ xs') ys ys' h = absurd (omega arith)
compare-append (x ∷ xs) [] ys ys' h = absurd (omega arith)
compare-append (x ∷ xs) (x' ∷ xs') ys ys' h =
    ground (arith, compare-append xs xs' ys ys' (omega arith))
