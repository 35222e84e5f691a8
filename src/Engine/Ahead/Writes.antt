-- ===== src/Engine/Ahead/Writes.antt =====
-- What a local write of packages/core/src/engine.ts does to a healthy engine.
use tangentfeed.Prelude.{
  ℕ, ◌%◌, ◌^◌, max, ◌≡◌, sym, ◌∙◌, subst, inl, inr, true, Option, some, List, [], ◌∷◌, Text, Map,
  get, Elem,
}
use tangentfeed.Errors.{Result-cases}
use tangentfeed.Values.{Value, boolean}
use tangentfeed.Signing.{Platform, Bytes}
use tangentfeed.Op.{Op, tombstone_column}
use tangentfeed.Ulid.{ulid}
use tangentfeed.Replica.{Replica, merge_all}
use tangentfeed.Replica.Coherence.{Agrees}
use tangentfeed.Replica.Convergence.{merge_all-IsCoherent, log-merge_all}
use tangentfeed.Replicator.Safety.{IsSound}
use tangentfeed.Engine.{SyncEngine, Cipher, Origin, local, commit}
use tangentfeed.Engine.Commit.{Refines, commit-Refines}
use tangentfeed.Engine.Local.{make_local_ops, committed, update, delete, insert}
use tangentfeed.Engine.Ahead.{later-IsBehind, IsAhead, not_behind}
use tangentfeed.Engine.Ahead.Stamped.{
  IsTicked, IsBetween-IsBehind, AreStamped, make_local_ops-AreStamped,
}

-- The store is that of a coherent replica, and the clock has reached every operation of its log.
pub record IsHealthy (e : SyncEngine) : Type 0 where
  pub sound : IsSound e
  pub ahead : IsAhead e

pub ticked-IsHealthy : (e e' : SyncEngine) → IsTicked e e' → IsHealthy e → IsHealthy e'
ticked-IsHealthy e e' t h = record {
  sound = record {
    replica = h.sound.replica;
    refines = subst (λ st. Refines st h.sound.replica) (sym t.stored) h.sound.refines;
    coherent = h.sound.coherent;
  };
  ahead = record {
    sane = t.sane;
    behind = λ k op at.
        later-IsBehind op e.clock e'.clock t.since
          (h.ahead.behind k op (subst (λ st. get k st.ops_by_id ≡ some op) t.stored at));
  };
}

module _ (e e' : SyncEngine) (ops : List Op) (h : IsHealthy e) (t : IsTicked e e')
    (s : AreStamped e e' ops) where
  abbrev replica : Replica
  replica = h.sound.replica

  -- No operation of the log has the id of a new one.
  stamped-Agrees : (x : Op) → Elem x ops → Agrees replica x
  stamped-Agrees x m y at =
      let b = s.between x m in
      let (id, valid) = h.sound.coherent.log_valid x.id y at in
      let behind = h.ahead.behind x.id y (h.sound.refines.same_log x.id ∙ at) in
      absurd (
        not_behind y e.clock b.stamp behind b.after b.in_range
          (sym valid.id_hlc ∙ id ∙ b.valid.id_hlc ∙ sym b.encoded))

  pub committed-IsHealthy : (origin : Origin) → IsHealthy (commit ops origin e').1
  unfolding commit
  committed-IsHealthy origin =
      let kept : Refines e'.storage replica =
        subst (λ st. Refines st replica) (sym t.stored) h.sound.refines in
      let refined = commit-Refines ops origin e' replica (λ x m. (s.between x m).valid) kept in
      record {
        sound = record {
          replica = merge_all replica ops;
          refines = refined;
          coherent =
              merge_all-IsCoherent replica ops h.sound.coherent
                (record { valid = λ x m. (s.between x m).valid; one_each = s.one_each })
                stamped-Agrees;
        };
        ahead = record {
          sane = t.sane;
          behind = λ k op at.
              elim (log-merge_all replica ops k op (sym (refined.same_log k) ∙ at)) [
                | inl old ↦
                    later-IsBehind op e.clock e'.clock t.since
                      (h.ahead.behind k op (h.sound.refines.same_log k ∙ old))
                | inr new ↦ IsBetween-IsBehind e.clock e'.clock op (s.between op new.0)
              ];
        };
      }

module _ (p : Platform) (physical_clock : ℕ → ℕ) (cipher : Option Cipher) where
  written-IsHealthy :
      (table row : Text) (values : Map Value) (e : SyncEngine)
      → IsHealthy e
      → IsHealthy
          (committed p physical_clock cipher
            (make_local_ops p physical_clock cipher table row values e)).1
  written-IsHealthy table row values e h =
      let e' = (make_local_ops p physical_clock cipher table row values e).1 in
      let (t, s) =
        make_local_ops-AreStamped p physical_clock cipher table row values e h.ahead.sane in
      elim (Result-cases (make_local_ops p physical_clock cipher table row values e).0) [
        | inl (x, q) ↦ rw q (ticked-IsHealthy e e' t h)
        | inr (ops, q) ↦ rw q (committed-IsHealthy e e' ops h t (s ops q) local)
      ]

  pub update-IsHealthy :
      (table row : Text) (values : Map Value) (e : SyncEngine)
      → IsHealthy e
      → IsHealthy (update p physical_clock cipher table row values e).1
  unfolding update
  update-IsHealthy = written-IsHealthy

  pub delete-IsHealthy :
      (table row : Text) (e : SyncEngine)
      → IsHealthy e
      → IsHealthy (delete p physical_clock cipher table row e).1
  unfolding delete
  delete-IsHealthy table row e h =
      written-IsHealthy table row ((tombstone_column, boolean true) ∷ []) e h

  pub insert-IsHealthy :
      (date : ℕ) (random_bytes : ℕ → Bytes) (table : Text) (values : Map Value) (e : SyncEngine)
      → IsHealthy e
      → IsHealthy (insert p physical_clock cipher date random_bytes table values e).1
  unfolding insert
  insert-IsHealthy date random_bytes table values e h =
      elim (Result-cases (ulid (max e.clock.millis date % 2 ^ 48) random_bytes)) [
        | inl (x, q) ↦ rw (q, insert) h
        | inr (row, q) ↦ rw (q, insert) (update-IsHealthy table row values e h)
      ]
