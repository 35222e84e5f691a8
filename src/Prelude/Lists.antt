-- ===== src/Prelude/Lists.antt =====
-- Lists measured by native numbers, under the library's names, and predicates on lists by recursion.
use Prim.Native.Nat.{ℕ, zero, suc, ◌+◌}
use mathlib.Core.Path.{◌≡◌, refl, ap, ◌∙◌}
use mathlib.Core.Logic.{◌⊎◌, inl, inr}
use mathlib.Core.Bool.{Bool, true, false, ◌||◌, ◌&&◌}
use mathlib.Core.List.{List, [], ◌∷◌, ◌++◌}
use native.Mathlib.Omega.{arith}
use tangentfeed.Prelude.Branches.{if◌then◌else◌, Bool-cases}

module _ {ℓ} {A : Type ℓ} where
  abbrev pub length : List A → ℕ
  length [] = 0
  length (x ∷ xs) = suc (length xs)

  abbrev pub take : ℕ → List A → List A
  take zero xs = []
  take (suc n) [] = []
  take (suc n) (x ∷ xs) = x ∷ take n xs

  abbrev pub drop : ℕ → List A → List A
  drop zero xs = xs
  drop (suc n) [] = []
  drop (suc n) (x ∷ xs) = drop n xs

  abbrev pub replicate : ℕ → A → List A
  replicate zero a = []
  replicate (suc n) a = a ∷ replicate n a

  -- Boolean `filter`, `some` and `every` of a JavaScript array.
  unfoldable pub filter : (A → Bool) → List A → List A
  filter p [] = []
  filter p (x ∷ xs) = let rest = filter p xs in if p x then x ∷ rest else rest

  unfoldable pub any : (A → Bool) → List A → Bool
  any p [] = false
  any p (x ∷ xs) = p x || any p xs

  unfoldable pub all : (A → Bool) → List A → Bool
  all p [] = true
  all p (x ∷ xs) = p x && all p xs

  abbrev pub All {κ} : (A → Type κ) → List A → Type κ
  All P [] = Unit
  All P (x ∷ xs) = P x × All P xs

  pub length-append : (xs ys : List A) → length (xs ++ ys) ≡ length xs + length ys
  length-append [] ys = omega arith
  length-append (x ∷ xs) ys = omega (arith, length-append xs ys)

  pub length-replicate : (n : ℕ) (a : A) → length (replicate n a) ≡ n
  length-replicate zero a = refl
  length-replicate (suc n) a = ap suc (length-replicate n a)

  pub replicate-snoc : (n : ℕ) (a : A) → replicate n a ++ a ∷ [] ≡ replicate (suc n) a
  replicate-snoc zero a = refl
  replicate-snoc (suc n) a = ap (λ xs. a ∷ xs) (replicate-snoc n a)

pub all-nil {ℓ} : {A : Type ℓ} (p : A → Bool) → all p [] ≡ true
unfolding all
all-nil p = refl

module _ {ℓ} {A : Type ℓ} where
  pub take-append : (n : ℕ) (xs ys : List A) → length xs ≡ n → take n (xs ++ ys) ≡ xs
  take-append zero [] ys h = refl
  take-append zero (x ∷ xs) ys h = absurd (omega arith)
  take-append (suc n) [] ys h = absurd (omega arith)
  take-append (suc n) (x ∷ xs) ys h = ap (λ zs. x ∷ zs) (take-append n xs ys (omega arith))

  pub drop-append : (n : ℕ) (xs ys : List A) → length xs ≡ n → drop n (xs ++ ys) ≡ ys
  drop-append zero [] ys h = refl
  drop-append zero (x ∷ xs) ys h = absurd (omega arith)
  drop-append (suc n) [] ys h = absurd (omega arith)
  drop-append (suc n) (x ∷ xs) ys h = drop-append n xs ys (omega arith)

  pub drop-append-cons :
      (n : ℕ) (xs : List A) (y : A) (ys : List A) → length xs ≡ n → drop (suc n) (xs ++ y ∷ ys) ≡ ys
  drop-append-cons n [] y ys h = rw (← h)
  drop-append-cons zero (x ∷ xs) y ys h = absurd (omega arith)
  drop-append-cons (suc n) (x ∷ xs) y ys h = drop-append-cons n xs y ys (omega arith)

  pub drop-drop : (m n : ℕ) (xs : List A) → drop n (drop m xs) ≡ drop (m + n) xs
  drop-drop zero n xs = let e : zero + n ≡ n = omega arith in rw e
  drop-drop (suc m) zero [] = let e : suc m + zero ≡ suc m = omega arith in rw e
  drop-drop (suc m) (suc n) [] = let e : suc m + suc n ≡ suc (m + suc n) = omega arith in rw e
  drop-drop (suc m) n (x ∷ xs) =
      let e : suc m + n ≡ suc (m + n) = omega arith in rw e (drop-drop m n xs)

-- `a` is an element of the list; by recursion, so that the tactics read it.
abbrev pub Elem : {A : Type 0} → A → List A → Type 0
Elem a [] = ⊥
Elem a (x ∷ xs) = (a ≡ x) ⊎ Elem a xs

module _ {A : Type 0} where
  pub Elem-append-left : (a : A) (xs ys : List A) → Elem a xs → Elem a (xs ++ ys)
  Elem-append-left a [] ys e = absurd e
  Elem-append-left a (x ∷ xs) ys (inl e) = inl e
  Elem-append-left a (x ∷ xs) ys (inr e) = inr (Elem-append-left a xs ys e)

  pub Elem-append-right : (a : A) (xs ys : List A) → Elem a ys → Elem a (xs ++ ys)
  Elem-append-right a [] ys e = e
  Elem-append-right a (x ∷ xs) ys e = inr (Elem-append-right a xs ys e)

  pub Elem-append_inv : (a : A) (xs ys : List A) → Elem a (xs ++ ys) → Elem a xs ⊎ Elem a ys
  Elem-append_inv a [] ys e = inr e
  Elem-append_inv a (x ∷ xs) ys (inl e) = inl (inl e)
  Elem-append_inv a (x ∷ xs) ys (inr e) = elim (Elem-append_inv a xs ys e) [
    | inl l ↦ inl (inr l)
    | inr r ↦ inr r
  ]

  pub any_of_Elem : (p : A → Bool) (a : A) (xs : List A) → Elem a xs → p a ≡ true → any p xs ≡ true
  unfolding any
  any_of_Elem p a [] e h = absurd e
  any_of_Elem p a (x ∷ xs) (inl e) h = let q : p x ≡ true = ground arith in rw q
  any_of_Elem p a (x ∷ xs) (inr e) h = ground (arith, any_of_Elem p a xs e h)

  pub Elem-filter :
      (p : A → Bool) (a : A) (xs : List A) → Elem a xs → p a ≡ true → Elem a (filter p xs)
  unfolding filter
  Elem-filter p a [] e h = e
  Elem-filter p a (x ∷ xs) (inl e) h = let q : p x ≡ true = ground arith in rw q (inl e)
  Elem-filter p a (x ∷ xs) (inr e) h =
      elim (p x) as (λ b. Elem a (if b then x ∷ filter p xs else filter p xs)) [
        | true ↦ inr (Elem-filter p a xs e h)
        | false ↦ Elem-filter p a xs e h
      ]

  pub Elem-filter_inv :
      (p : A → Bool) (a : A) (xs : List A) → Elem a (filter p xs) → Elem a xs × (p a ≡ true)
  unfolding filter
  Elem-filter_inv p a [] e = absurd e
  Elem-filter_inv p a (x ∷ xs) e = elim (Bool-cases (p x)) [
    | inl h ↦ elim (rw h at e) [
      | inl q ↦ (inl q, ap p q ∙ h)
      | inr r ↦ let (m, t) = Elem-filter_inv p a xs r in (inr m, t)
    ]
    | inr h ↦ let (m, t) = Elem-filter_inv p a xs (rw h at e) in (inr m, t)
  ]
