-- ===== src/Engine/Convergence.antt =====
-- Engines that have committed the same operations: `commit` of packages/core/src/engine.ts, batch after
-- batch, over stores that were empty.
use tangentfeed.Prelude.{
  Elem-append-left, Elem-append-right, subst, ◌≡◌, refl, sym, ◌∙◌, ◌↔◌, List, [], ◌∷◌, ◌++◌, Text,
  Elem,
}
use tangentfeed.Op.{Op}
use tangentfeed.Op.Valid.{IsValid}
use tangentfeed.Storage.{empty_store, get_winner}
use tangentfeed.Storage.Keys.{AreParts}
use tangentfeed.Replica.{Replica, empty_replica, merge, merge_all}
use tangentfeed.Replica.Convergence.{IsDelivery, winner_delivery}
use tangentfeed.Engine.{SyncEngine, Origin, commit}
use tangentfeed.Engine.Commit.{Refines, commit-Refines, empty-Refines}

-- Batches that are committed one after the other, each with its origin; a subscriber that throws does not stop
-- the next.
unfoldable pub commit_batches : List (Origin × List Op) → SyncEngine → SyncEngine
commit_batches [] e = e
commit_batches ((origin, ops) ∷ batches) e = commit_batches batches (commit ops origin e).1

unfoldable pub all_of : List (Origin × List Op) → List Op
all_of [] = []
all_of ((origin, ops) ∷ batches) = ops ++ all_of batches

merge_all-append :
    (s : Replica) (xs ys : List Op) → merge_all (merge_all s xs) ys ≡ merge_all s (xs ++ ys)
unfolding merge_all
merge_all-append s [] ys = refl
merge_all-append s (x ∷ xs) ys = merge_all-append (merge s x) xs ys

-- Batches of valid operations that are committed in turn merge them in their order.
pub commit_batches-Refines :
    (batches : List (Origin × List Op)) (e : SyncEngine) (s : Replica)
    → ((x : Op) → Elem x (all_of batches) → IsValid x)
    → Refines e.storage s
    → Refines (commit_batches batches e).storage (merge_all s (all_of batches))
unfolding commit_batches all_of merge_all
commit_batches-Refines [] e s valid h = h
commit_batches-Refines ((origin, ops) ∷ batches) e s valid h =
    subst (λ m. Refines (commit_batches batches (commit ops origin e).1).storage m)
      (merge_all-append s ops (all_of batches))
      (commit_batches-Refines batches (commit ops origin e).1 (merge_all s ops)
        (λ x m. valid x (Elem-append-right x ops _ m))
        (commit-Refines ops origin e s (λ x m. valid x (Elem-append-left x ops _ m)) h))

-- Two engines that start with empty stores and commit the same operations, in whatever order and
-- batches and however often, read the same winner in every cell, when the operations are valid and
-- an id names one of them at most; the names of the cell are without the separator.
pub get_winner-commit_batches :
    (xs ys : List (Origin × List Op)) (a b : SyncEngine)
    → a.storage ≡ empty_store
    → b.storage ≡ empty_store
    → IsDelivery (all_of xs)
    → IsDelivery (all_of ys)
    → ((x : Op) → Elem x (all_of xs) ↔ Elem x (all_of ys))
    → (t r c : Text) → AreParts t r c
    → get_winner t r c (commit_batches xs a).storage
      ≡ get_winner t r c (commit_batches ys b).storage
get_winner-commit_batches xs ys a b ea eb dx dy same t r c parts =
    let start : (e : SyncEngine) → e.storage ≡ empty_store → Refines e.storage empty_replica =
      λ e q. subst (λ st. Refines st empty_replica) (sym q) empty-Refines in
    let rx = commit_batches-Refines xs a empty_replica dx.valid (start a ea) in
    let ry = commit_batches-Refines ys b empty_replica dy.valid (start b eb) in
    rx.same_winner t r c parts
    ∙ winner_delivery (all_of xs) (all_of ys) dx dy same t r c
    ∙ sym (ry.same_winner t r c parts)
