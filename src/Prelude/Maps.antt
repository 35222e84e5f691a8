-- ===== src/Prelude/Maps.antt =====
-- A JavaScript `Map` (or a plain object used as one) with text keys: the entries in order of
-- insertion. `set` on a key that is there keeps its place, as in JavaScript.
use mathlib.Core.Path.{◌≡◌, refl}
use mathlib.Core.Logic.{inl, inr}
use mathlib.Core.Bool.{Bool, true, false}
use mathlib.Core.Option.{Option, none, some}
use mathlib.Core.List.{List, [], ◌∷◌}
use native.Mathlib.Omega.{arith}
use tangentfeed.Prelude.Branches.{if◌then◌else◌}
use tangentfeed.Prelude.Lists.{Elem}
use tangentfeed.Prelude.Texts.{Text, text_eqb, eqb_iff}

abbrev pub Map {ℓ} : Type ℓ → Type ℓ
Map V = List (Text × V)

module _ {ℓ} {V : Type ℓ} where
  unfoldable pub get : Text → Map V → Option V
  get k [] = none
  get k ((j, v) ∷ m) = if text_eqb j k then some v else get k m

  unfoldable pub set : Text → V → Map V → Map V
  set k v [] = (k, v) ∷ []
  set k v ((j, w) ∷ m) = if text_eqb j k then (j, v) ∷ m else (j, w) ∷ set k v m

  unfoldable pub delete : Text → Map V → Map V
  delete k [] = []
  delete k ((j, v) ∷ m) = let rest = delete k m in if text_eqb j k then rest else (j, v) ∷ rest

  abbrev pub is_some : Option V → Bool
  is_some none = false
  is_some (some v) = true

  -- `a ?? b`
  abbrev pub or_else : Option V → V → V
  or_else none d = d
  or_else (some v) d = v

  -- `a ?? b`, where `b` may be missing too
  abbrev pub or_some : Option V → Option V → Option V
  or_some none o = o
  or_some (some v) o = some v

  abbrev pub has : Text → Map V → Bool
  has k m = is_some (get k m)

  abbrev pub keys : Map V → List Text
  keys [] = []
  keys ((k, v) ∷ m) = k ∷ keys m

  abbrev pub values : Map V → List V
  values [] = []
  values ((k, v) ∷ m) = v ∷ values m

  pub get-set :
      (k j : Text) (v : V) (m : Map V)
      → get j (set k v m) ≡ (if text_eqb k j then some v else get j m)
  unfolding get set
  get-set k j v [] = refl
  get-set k j v ((i, w) ∷ m) =
      ground (arith, eqb_iff k j, eqb_iff i k, eqb_iff i j, get-set k j v m)

  pub get-delete :
      (k j : Text) (m : Map V) → get j (delete k m) ≡ (if text_eqb k j then none else get j m)
  unfolding get delete
  get-delete k j [] = ground arith
  get-delete k j ((i, w) ∷ m) =
      ground (arith, eqb_iff k j, eqb_iff i k, eqb_iff i j, get-delete k j m)

  -- No key stands twice.
  abbrev pub IsUnique : Map V → Type 0
  IsUnique [] = Unit
  IsUnique ((k, v) ∷ m) = (has k m ≡ false) × IsUnique m

  pub set-IsUnique : (k : Text) (v : V) (m : Map V) → IsUnique m → IsUnique (set k v m)
  unfolding get set
  set-IsUnique k v [] u = (refl, tt)
  set-IsUnique k v ((j, w) ∷ m) u =
      ground (arith, eqb_iff j k, eqb_iff k j, get-set k j v m, set-IsUnique k v m u.1)

  pub delete-IsUnique : (k : Text) (m : Map V) → IsUnique m → IsUnique (delete k m)
  unfolding get delete
  delete-IsUnique k [] u = tt
  delete-IsUnique k ((j, w) ∷ m) u = ground (arith, get-delete k j m, delete-IsUnique k m u.1)

module _ {V : Type 0} where
  pub get_of_Elem : (k : Text) (v : V) (m : Map V) → IsUnique m → Elem (k, v) m → get k m ≡ some v
  unfolding get
  get_of_Elem k v [] u e = absurd e
  get_of_Elem k v ((j, w) ∷ m) u (inl e) = ground (arith, eqb_iff j k)
  get_of_Elem k v ((j, w) ∷ m) u (inr e) = ground (arith, eqb_iff j k, get_of_Elem k v m u.1 e)

  pub Elem-of_get : (k : Text) (v : V) (m : Map V) → get k m ≡ some v → Elem (k, v) m
  unfolding get
  Elem-of_get k v [] h = cc
  Elem-of_get k v ((j, w) ∷ m) h = ground (arith, eqb_iff j k, Elem-of_get k v m)
