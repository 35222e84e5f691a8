-- ===== src/Replicator/Chunks.antt =====
-- `chunks` of packages/core/src/replicator.ts: how a list of operations is cut into messages.
use tangentfeed.Prelude.{
  ℕ, zero, suc, ◌≤◌, ◌<◌, ◌≡◌, refl, ap, ◌∙◌, List, [], ◌∷◌, ◌++◌, length, take, drop, All, arith,
}
use tangentfeed.Replicator.{chunks, chunks_from}

module _ {ℓ} {A : Type ℓ} where
  unfoldable pub concat : List (List A) → List A
  concat [] = []
  concat (c ∷ cs) = c ++ concat cs

  take-drop : (n : ℕ) (xs : List A) → take n xs ++ drop n xs ≡ xs
  take-drop zero xs = refl
  take-drop (suc n) [] = refl
  take-drop (suc n) (x ∷ xs) = ap (λ ys. x ∷ ys) (take-drop n xs)

  length-take : (n : ℕ) (xs : List A) → length (take n xs) ≤ n
  length-take zero xs = omega arith
  length-take (suc n) [] = omega arith
  length-take (suc n) (x ∷ xs) = omega (arith, length-take n xs)

  length-drop : (n : ℕ) (xs : List A) → length (drop n xs) ≤ length xs
  length-drop zero xs = omega arith
  length-drop (suc n) [] = omega arith
  length-drop (suc n) (x ∷ xs) = omega (arith, length-drop n xs)

  concat-chunks_from :
      (n size : ℕ) (xs : List A) → length xs ≤ n → concat (chunks_from n (suc size) xs) ≡ xs
  unfolding concat chunks_from
  concat-chunks_from zero size [] h = refl
  concat-chunks_from zero size (x ∷ xs) h = absurd (omega arith)
  concat-chunks_from (suc n) size [] h = refl
  concat-chunks_from (suc n) size (x ∷ xs) h =
      ap (λ ys. (x ∷ take size xs) ++ ys)
        (concat-chunks_from n size (drop size xs) (omega (arith, length-drop size xs)))
      ∙ take-drop (suc size) (x ∷ xs)

  bounded :
      (n size : ℕ) (xs : List A)
      → All (λ (c : List A). (0 < length c) × (length c ≤ suc size)) (chunks_from n (suc size) xs)
  unfolding chunks_from
  bounded zero size xs = tt
  bounded (suc n) size [] = tt
  bounded (suc n) size (x ∷ xs) =
      ((omega arith, omega (arith, length-take size xs)), bounded n size (drop size xs))

  -- With a positive size, the chunks are the list in its order, and each is neither empty nor longer
  -- than the size.
  pub concat-chunks :
      (size : ℕ) (xs : List A)
      → (concat (chunks (suc size) xs) ≡ xs)
        × All (λ (c : List A). (0 < length c) × (length c ≤ suc size)) (chunks (suc size) xs)
  unfolding chunks
  concat-chunks size xs =
      (concat-chunks_from (length xs) size xs (omega arith), bounded (length xs) size xs)
