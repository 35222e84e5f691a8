-- ===== src/Tests/Engines.antt =====
-- The engine of packages/core/src/engine.ts run on the platform of the samples.
use tangentfeed.Prelude.{
  ℕ, ◌+◌, ◌<◌, arith, true, get, sym, subst, ◌≡◌, refl, ◌≤◌, ◌⊎◌, inl, inr, false, some, List, [],
  ◌∷◌, text_compare, any, all, length, Elem,
}
use tangentfeed.Errors.{ok, err, bad_op, unknown_device, ulid_time}
use tangentfeed.Values.{Value}
use tangentfeed.Signing
use tangentfeed.Hlc
use tangentfeed.Hlc.{receive, max_drift_ms, max_millis}
use tangentfeed.Op
use tangentfeed.Op.{Op, op_value, max_batch_ops}
use tangentfeed.Op.Valid.{IsValid}
use tangentfeed.Storage
use tangentfeed.Storage.{MemoryAdapter, get_winner, has_op}
use tangentfeed.Replica.{empty_replica, merge_all}
use tangentfeed.Replica.Coherence.{empty-IsCoherent}
use tangentfeed.Engine.{SyncEngine, Origin, local, remote, commit}
use tangentfeed.Engine.Convergence
use tangentfeed.Engine.Convergence.{commit_batches, all_of}
use tangentfeed.Storage.Keys.{IsValid-AreParts}
use tangentfeed.Tests.Replicas.{swap}
use tangentfeed.Engine.Commit
use tangentfeed.Engine.Commit.{Refines}
use tangentfeed.Engine.Remote.{apply_remote_ops, admit}
use tangentfeed.Engine.Remote.Admission
use tangentfeed.Engine.Remote.Admission.{IsSigned}
use tangentfeed.Engine.Remote.Accepted
use tangentfeed.Engine.Remote.Accepted.{IsSendable, IsNear}
use tangentfeed.Engine.Remote.Apply
use tangentfeed.Engine.Remote.Apply.{Applied}
use tangentfeed.Samples
use tangentfeed.Samples.{
  platform, physical_clock, engine, first_op, second_op, first_op-IsValid, second_op-IsValid,
  stamps-ne, pair-IsDelivery,
}

abbrev batch : List Value
batch = op_value second_op ∷ op_value first_op ∷ op_value second_op ∷ []

abbrev after : SyncEngine
after = (apply_remote_ops platform physical_clock batch engine).1

program : Unit {0}
unfolding apply_remote_ops Op.program Storage.program Hlc.decode_hlc Hlc.matches_hlc Hlc.hex_value
    receive text_compare any all Op.verify_op Op.signed_payload Signing.canonical_json
    Signing.verify_payload commit
program = tt

only_first : (x : Op) → Elem x (first_op ∷ []) → IsValid x
only_first x (inl e) = subst IsValid (sym e) first_op-IsValid
only_first x (inr n) = absurd n

two_applied : apply_remote_ops platform physical_clock batch engine ≡ (ok 2, after)
unfolding program
two_applied = refl

commit-Refines_example :
    Refines
      (commit (first_op ∷ []) remote engine).1.storage
      (merge_all empty_replica (first_op ∷ []))
commit-Refines_example =
    Commit.commit-Refines (first_op ∷ []) remote engine empty_replica only_first
      Commit.empty-Refines

apply_remote_ops-Applied_example :
    (ops : List Op) × (admit platform batch engine ≡ ok ops)
    × Applied empty_replica engine.storage ops 2 after.storage
apply_remote_ops-Applied_example =
    Apply.apply_remote_ops-Applied platform physical_clock batch engine after 2 empty_replica
      Commit.empty-Refines empty-IsCoherent two_applied

abbrev stranger : SyncEngine
stranger = record engine { keys = [] }

refused :
    apply_remote_ops platform physical_clock batch stranger
    ≡ (err (bad_op unknown_device), stranger)
unfolding program
refused = refl

-- An engine with a subscriber that throws.
abbrev disturbed : SyncEngine
disturbed = record engine {
  subscribers = record { called = []; throws = λ events event. some ulid_time } ∷ [];
}

abbrev disturbed_after : SyncEngine
disturbed_after = (apply_remote_ops platform physical_clock batch disturbed).1

thrown_out :
    apply_remote_ops platform physical_clock batch disturbed ≡ (err ulid_time, disturbed_after)
unfolding program
thrown_out = refl

-- The store was written all the same.
written_before : has_op second_op.id disturbed_after.storage ≡ true
unfolding program has_op
written_before = refl

apply_remote_ops-err_example :
    (disturbed_after.storage ≡ engine.storage)
    ⊎ (Apply.IsThrown disturbed.subscribers ulid_time
        × (ops : List Op) × (admit platform batch disturbed ≡ ok ops)
        × (n : ℕ) × Applied empty_replica engine.storage ops n disturbed_after.storage)
apply_remote_ops-err_example =
    Apply.apply_remote_ops-err platform physical_clock batch disturbed disturbed_after ulid_time
      empty_replica Commit.empty-Refines empty-IsCoherent thrown_out

one_admitted : admit platform (op_value first_op ∷ []) engine ≡ ok (first_op ∷ [])
unfolding program
one_admitted = refl

admit-IsSigned_example :
    (length (op_value first_op ∷ []) ≤ max_batch_ops)
    × ((x : Op) → Elem x (first_op ∷ []) → IsValid x × IsSigned platform engine.keys x)
admit-IsSigned_example =
    Admission.admit-IsSigned platform (op_value first_op ∷ []) engine (first_op ∷ []) one_admitted

abbrev backwards : List (Origin × List Op)
backwards = (local, second_op ∷ []) ∷ (remote, first_op ∷ []) ∷ []

abbrev together : List (Origin × List Op)
together = (remote, first_op ∷ second_op ∷ []) ∷ []

get_winner-commit_batches_example :
    get_winner first_op.table first_op.row first_op.column (commit_batches together engine).storage
    ≡ get_winner first_op.table first_op.row first_op.column
        (commit_batches backwards engine).storage
unfolding all_of
get_winner-commit_batches_example =
    Convergence.get_winner-commit_batches together backwards engine engine refl refl
      (pair-IsDelivery first_op second_op first_op-IsValid second_op-IsValid stamps-ne)
      (pair-IsDelivery second_op first_op second_op-IsValid first_op-IsValid
        (λ e. stamps-ne (sym e)))
      (λ x. (swap x first_op second_op, swap x second_op first_op)) first_op.table first_op.row
      first_op.column (IsValid-AreParts first_op first_op-IsValid)

first-IsNear : IsNear 10 first_op
unfolding program
first-IsNear h d =
    let q : Samples.early ≡ h = ground arith in
    subst (λ (x : Hlc.Hlc). (x.millis ≤ 10 + max_drift_ms) × (x.millis < max_millis)) q
      (omega arith, omega arith)

first_IsSendable : IsSendable platform engine.keys first_op
unfolding program get
first_IsSendable = record {
  valid = first_op-IsValid;
  small = omega arith;
  signed = record { public_key = 1 ∷ []; known = refl; verified = refl };
}

only-IsSendable :
    (x : Op) → Elem x (first_op ∷ []) → IsSendable platform engine.keys x × IsNear 10 x
only-IsSendable x (inl e) =
    subst (λ y. IsSendable platform engine.keys y × IsNear 10 y) (sym e)
      (first_IsSendable, first-IsNear)
only-IsSendable x (inr n) = absurd n

apply_remote_ops-accepts_example :
    ((n : ℕ) × ((apply_remote_ops platform physical_clock (op_value first_op ∷ []) engine).0
        ≡ ok n))
    × ((x : Op)
        → Elem x (first_op ∷ [])
        → has_op x.id
            (apply_remote_ops platform physical_clock (op_value first_op ∷ []) engine).1.storage
          ≡ true)
    × ((x : Op)
        → Elem x (first_op ∷ [])
        → has_op x.id engine.storage ≡ false
        → ((y : Op) → Elem y (first_op ∷ []) → y.id ≡ x.id → y ≡ x)
        → get x.id
            (apply_remote_ops platform physical_clock
              (op_value first_op ∷ [])
              engine).1.storage.ops_by_id
          ≡ some x)
apply_remote_ops-accepts_example =
    Accepted.apply_remote_ops-accepts platform physical_clock (first_op ∷ []) engine empty_replica
      Commit.empty-Refines empty-IsCoherent (omega arith) only-IsSendable (omega arith)
      (omega arith) (λ x (t, event, at, thrown). at)
