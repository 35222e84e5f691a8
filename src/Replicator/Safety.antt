-- ===== src/Replicator/Safety.antt =====
-- What no message can do to the store: `handle` of packages/core/src/replicator.ts over a store that is
-- that of a coherent replica.
use tangentfeed.Prelude.{ℕ, ◌≡◌, sym, subst, inl, inr, List, Text, arith, Bool-cases, text_eqb}
use tangentfeed.Errors.{Result, ok, err}
use tangentfeed.Values.{Value}
use tangentfeed.Signing.{Platform, Bytes}
use tangentfeed.Op.{Frontier}
use tangentfeed.Storage.{get_winner, set_peer_frontier}
use tangentfeed.Replica.{Replica}
use tangentfeed.Replica.Coherence.{IsCoherent}
use tangentfeed.Engine.{SyncEngine, learn_key, record_peer_frontier}
use tangentfeed.Engine.Commit.{Refines, persist_clock-Refines}
use tangentfeed.Engine.Remote.{apply_remote_ops, observe_remote_clock, observe, clock_persisted}
use tangentfeed.Hlc.{Hlc}
use tangentfeed.Engine.Remote.Apply.{apply_remote_ops-cases}
use tangentfeed.Replicator.{WireMsg, Replicator, handle}
use tangentfeed.Replicator.Handling.{handle_kept}

-- The engine's store is that of a coherent replica.
pub record IsSound (e : SyncEngine) : Type 0 where
  pub replica : Replica
  pub refines : Refines e.storage replica
  pub coherent : IsCoherent replica

same_store : (e e' : SyncEngine) → e'.storage ≡ e.storage → IsSound e → IsSound e'
same_store e e' q h = record {
  replica = h.replica;
  refines = subst (λ st. Refines st h.replica) (sym q) h.refines;
  coherent = h.coherent;
}

module _ (p : Platform) (physical_clock : ℕ → ℕ) where
  pub learn-IsSound :
      (id : Text) (k : Bytes) (e : SyncEngine) → IsSound e → IsSound (learn_key p id k e).1
  unfolding learn_key
  learn-IsSound id k e h = same_store e _ (ground arith) h

  pub recorded-IsSound :
      (peer : Text) (f : Frontier) (e : SyncEngine)
      → IsSound e
      → IsSound (record_peer_frontier peer f e)
  unfolding record_peer_frontier set_peer_frontier get_winner
  recorded-IsSound peer f e h = record {
    replica = h.replica;
    refines = elim (Bool-cases (text_eqb peer e.device_id)) [
      | inl b ↦ rw b h.refines
      | inr b ↦ rw b (record {
        same_log = h.refines.same_log;
        same_winner = h.refines.same_winner;
        same_frontier = h.refines.same_frontier;
      })
    ];
    coherent = h.coherent;
  }

  pub apply-IsSound :
      (vs : List Value) (e : SyncEngine)
      → IsSound e
      → IsSound (apply_remote_ops p physical_clock vs e).1
  apply-IsSound vs e h =
      elim (apply_remote_ops-cases p physical_clock vs e h.replica h.refines h.coherent) [
        | inl (failed, kept) ↦ same_store e (apply_remote_ops p physical_clock vs e).1 kept h
        | inr (ops, admitted, accepted, n, applied, notified) ↦ record {
          replica = _;
          refines = applied.refines;
          coherent = applied.coherent;
        }
      ]

  observed-IsSound :
      (clock : Text) (e : SyncEngine) → IsSound e → IsSound (observe physical_clock clock e).1
  unfolding observe
  observed-IsSound clock e h = same_store e _ (ground arith) h

  persisted-IsSound : (a : Result Hlc × SyncEngine) → IsSound a.1 → IsSound (clock_persisted a).1
  unfolding clock_persisted
  persisted-IsSound (err x, e) h = h
  persisted-IsSound (ok u, e) h = record {
    replica = h.replica;
    refines = persist_clock-Refines e h.replica h.refines;
    coherent = h.coherent;
  }

  pub observe-IsSound :
      (clock : Text) (e : SyncEngine)
      → IsSound e
      → IsSound (observe_remote_clock physical_clock clock e).1
  unfolding observe_remote_clock
  observe-IsSound clock e h =
      persisted-IsSound (observe physical_clock clock e) (observed-IsSound clock e h)

  -- Whatever message arrives, a sound engine stays sound.
  pub handle-IsSound :
      (m : WireMsg) (r : Replicator)
      → IsSound r.engine
      → IsSound (handle p physical_clock m r).engine
  handle-IsSound = handle_kept p physical_clock IsSound (record {
    learn = learn-IsSound;
    observed = observe-IsSound;
    apply = apply-IsSound;
    recorded = recorded-IsSound;
  })
