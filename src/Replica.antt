-- ===== src/Replica.antt =====
-- What a replica promises, without its representation: PROTOCOL.md §5, last writer wins for each cell.
-- packages/core/src/engine.ts and storage.ts implement it (Engine/Commit).
pub mod Coherence
pub mod Convergence
use tangentfeed.Prelude.{
  ◌≡◌, refl, Bool, true, false, Option, none, some, List, [], ◌∷◌, Text, text_eqb, text_ltb,
  text_leb, if◌then◌else◌,
}
use tangentfeed.Op.{Op, Frontier, advance_frontier}
use tangentfeed.Storage.Cells.{same_cell}

pub record Replica : Type 0 where
  pub log : Text → Option Op
  pub winner : Text → Text → Text → Option Op
  pub frontier : Frontier

abbrev pub empty_replica : Replica
empty_replica = record { log = λ k. none; winner = λ t r c. none; frontier = [] }

-- The newer of a cell's winner and an operation.
abbrev pub newer : Option Op → Op → Option Op
newer none op = some op
newer (some w) op = if text_ltb w.hlc op.hlc then some op else some w

unfoldable pub merge : Replica → Op → Replica
merge s op = record {
  log = λ k. if text_eqb op.id k then some op else s.log k;
  winner = λ t r c.
      if same_cell op.table op.row op.column t r c
      then newer (s.winner t r c) op
      else s.winner t r c;
  frontier = advance_frontier s.frontier op;
}

unfoldable pub merge_all : Replica → List Op → Replica
merge_all s [] = s
merge_all s (op ∷ ops) = merge_all (merge s op) ops
