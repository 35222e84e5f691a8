-- ===== src/Engine/Remote.antt =====
-- Remote operations in packages/core/src/engine.ts: `applyRemoteOps` and `observeRemoteClock`.
pub mod Admission
pub mod Apply
pub mod Fresh
pub mod Filter
pub mod Directory
pub mod Accepted
use tangentfeed.Prelude.{
  ℕ, ◌+◌, ◌%◌, ◌^◌, max, Bool, true, false, not, ◌&&◌, ◌||◌, Option, none, some, List, [], ◌∷◌,
  ◌++◌, Text, Map, get, set, or_else, is_some, text_ltb, text_eqb, length, any, ltb, if◌then◌else◌,
}
use tangentfeed.Errors.{
  BadOp, Error, Result, ok, err, bad_op, ◌>>=◌, ◌>>◌, guard, batch_too_large, unknown_device,
  bad_signature,
}
use tangentfeed.Values.{Value, boolean, string}
use tangentfeed.Hlc.{Hlc, Clock, encode_hlc, decode_hlc, now, receive, new_clock}
use tangentfeed.Signing.{Platform, Bytes, DeviceKey, device_id_from_public_key, sign_payload}
use tangentfeed.Op.{
  Op, Frontier, max_batch_ops, tombstone_column, validate_op, op_value, signed_payload, verify_op,
  advance_frontier,
}
use tangentfeed.Storage
use tangentfeed.Storage.{
  MemoryAdapter, ClockState, BatchWrite, sep, cell_key, split, get_winner, has_op, apply_batch,
  set_peer_frontier, set_device_key,
}
use tangentfeed.Compaction.{
  CompactionOptions, CompactionStats, compaction_horizon, blocking_peers, plan_compaction,
  winning_cells, add,
}
use tangentfeed.Engine.{
  Origin, local, remote, ChangeEvent, Cipher, SyncEngine, commit, persist_clock, max_op, fresh_ops,
}

module _ (p : Platform) where
  -- `for (const op of remoteOps) validateOp(op);`
  unfoldable pub validate_ops : List Value → Result (List Op)
  validate_ops [] = ok []
  validate_ops (v ∷ vs) = do op ← validate_op p v; ops ← validate_ops vs; ok (op ∷ ops)

  unfoldable pub verify_signature : Map Bytes → Op → Result (Unit {0})
  verify_signature ks op = elim (get op.device ks) [
    | none ↦ err (bad_op unknown_device)
    | some public_key ↦ guard (verify_op p op public_key) (bad_op bad_signature)
  ]

  unfoldable pub verify_signatures : Map Bytes → List Op → Result (Unit {0})
  unfolding verify_signature
  verify_signatures ks [] = ok tt
  verify_signatures ks (op ∷ ops) = verify_signature ks op >> verify_signatures ks ops

  -- Everything before the lock.
  unfoldable pub admit : List Value → SyncEngine → Result (List Op)
  unfolding validate_ops verify_signatures
  admit remote_ops e = do
    guard (not (ltb max_batch_ops (length remote_ops))) (bad_op batch_too_large)
    ops ← validate_ops remote_ops
    verify_signatures e.keys ops
    ok ops

-- What follows `receive` in `observeRemoteClock`; an error throws.
unfoldable pub clock_persisted : Result Hlc × SyncEngine → Result (Unit {0}) × SyncEngine
unfolding persist_clock
clock_persisted (err x, e) = (err x, e)
clock_persisted (ok h, e) = (ok tt, persist_clock e)

module _ (physical_clock : ℕ → ℕ) where
  -- `this.clock.receive(decodeHlc(hlc))`
  unfoldable pub observe : Text → SyncEngine → Result Hlc × SyncEngine
  observe hlc e = elim (decode_hlc hlc) [
    | err x ↦ (err x, e)
    | ok stamp ↦
        let (r, clock) = receive (physical_clock e.readings) stamp e.clock in
        (r, record e { clock = clock; readings = e.readings + 1 })
  ]

  unfoldable pub observe_max : Option Op → SyncEngine → Result (Unit {0}) × SyncEngine
  unfolding observe
  observe_max none e = (ok tt, e)
  observe_max (some op) e = let (r, e') = observe op.hlc e in (r >> ok tt, e')

  -- The locked section after the clock has accepted the batch.
  unfoldable pub store_fresh : List Op → SyncEngine → Result ℕ × SyncEngine
  unfolding persist_clock
  store_fresh [] e = (ok 0, persist_clock e)
  store_fresh (op ∷ ops) e =
      let (done, e') = commit (op ∷ ops) remote e in (done >> ok (length (op ∷ ops)), e')

  -- The locked section once the clock has answered; an error throws.
  unfoldable pub after_observing : List Op → Result (Unit {0}) × SyncEngine → Result ℕ × SyncEngine
  unfolding fresh_ops store_fresh
  after_observing ops (err x, e) = (err x, e)
  after_observing ops (ok u, e) = store_fresh (fresh_ops e.storage ops []) e

  unfoldable pub locked_apply : List Op → SyncEngine → Result ℕ × SyncEngine
  unfolding max_op observe_max after_observing
  locked_apply ops e = after_observing ops (observe_max (max_op none ops) e)

  -- An error of the checks throws before the lock.
  unfoldable pub after_admission : Result (List Op) → SyncEngine → Result ℕ × SyncEngine
  unfolding locked_apply
  after_admission (err x) e = (err x, e)
  after_admission (ok ops) e = locked_apply ops e

  unfoldable pub observe_remote_clock : Text → SyncEngine → Result (Unit {0}) × SyncEngine
  unfolding observe clock_persisted
  observe_remote_clock hlc e = clock_persisted (observe hlc e)

module _ (p : Platform) (physical_clock : ℕ → ℕ) where
  unfoldable pub apply_remote_ops : List Value → SyncEngine → Result ℕ × SyncEngine
  unfolding admit after_admission
  apply_remote_ops remote_ops e = after_admission physical_clock (admit p remote_ops e) e
