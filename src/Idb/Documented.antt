-- ===== src/Idb/Documented.antt =====
-- What packages/adapter-idb/src/index.ts relies on of IndexedDB.
use tangentfeed.Prelude.{
  ◌≡◌, ◌↔◌, Bool, true, ◌&&◌, Option, none, some, [], ◌∷◌, Text, text_ltb, text_leb, text_eqb, Map,
  All, Elem, length, is_some, if◌then◌else◌,
}
use tangentfeed.Idb.{ObjectStore, Factory}

-- Every key is followed by greater ones.
abbrev pub IsKeyOrdered : {V : Type 0} → Map V → Type 0
IsKeyOrdered [] = Unit
IsKeyOrdered (e ∷ m) = All (λ e'. text_ltb e.0 e'.0 ≡ true) m × IsKeyOrdered m

abbrev pub is_in_range : Option (Text × Text) → Text → Bool
is_in_range none k = true
is_in_range (some (lower, upper)) k = text_leb lower k && text_leb k upper

-- A record is replaced under its key and deleted under it; a cursor visits the records in its range once each,
-- in the order of their keys, which for texts is that of the code units.
pub record IsDocumented {V : Type 0} (O : ObjectStore V) : Type 0 where
  pub get_blank : (k : Text) → O.get_at k O.blank ≡ none
  pub get_put :
      (k j : Text) (v : V) (s : O.State)
      → O.get_at j (O.put_at k v s) ≡ (if text_eqb k j then some v else O.get_at j s)
  pub get_delete :
      (k j : Text) (s : O.State)
      → O.get_at j (O.delete_at k s) ≡ (if text_eqb k j then none else O.get_at j s)
  pub counted_at :
      (k : Text) (s : O.State) → O.count_at k s ≡ (if is_some (O.get_at k s) then 1 else 0)
  pub counted : (s : O.State) → O.count s ≡ length (O.cursor none s)
  pub ordered : (r : Option (Text × Text)) (s : O.State) → IsKeyOrdered (O.cursor r s)
  pub visits :
      (r : Option (Text × Text)) (k : Text) (v : V) (s : O.State)
      → Elem (k, v) (O.cursor r s) ↔ ((O.get_at k s ≡ some v) × (is_in_range r k ≡ true))

pub record AreDocumented (factory : Factory) : Type 0 where
  pub ops_store : IsDocumented factory.ops
  pub cells_store : IsDocumented factory.cells
  pub meta_store : IsDocumented factory.meta
