-- ===== src/Engine/Ahead/Reach.antt =====
-- Every state that an engine of packages/core/src/engine.ts comes to is healthy.
use tangentfeed.Prelude.{
  ℕ, ◌≡◌, refl, sym, ap, ◌∙◌, subst, Option, none, some, List, [], ◌∷◌, arith, Text, Map, get,
}
use tangentfeed.Errors.{ok, >>=-eq-ok}
use tangentfeed.Values.{Value}
use tangentfeed.Signing.{Platform, Bytes, DeviceKey, device_id_from_public_key}
use tangentfeed.Hlc.{Clock, new_clock}
use tangentfeed.Op.{Frontier}
use tangentfeed.Storage.{empty_store, set_device_key, get_winner, cell_of}
use tangentfeed.Replica.{empty_replica}
use tangentfeed.Replica.Coherence.{empty-IsCoherent}
use tangentfeed.Replicator.{WireMsg, Replicator, handle}
use tangentfeed.Replicator.Handling.{handle_kept}
use tangentfeed.Engine.{
  SyncEngine, Subscriber, Cipher, open_engine, learn_key, record_peer_frontier,
}
use tangentfeed.Engine.Local.{insert, update, delete}
use tangentfeed.Engine.Remote.{apply_remote_ops, observe_remote_clock}
use tangentfeed.Engine.Ahead.{IsClock}
use tangentfeed.Engine.Ahead.Writes.{
  IsHealthy, update-IsHealthy, delete-IsHealthy, insert-IsHealthy,
}
use tangentfeed.Engine.Ahead.Batches.{
  apply-IsHealthy, learn-IsHealthy, recorded-IsHealthy, observe-IsHealthy,
}

-- The states of an engine that is opened on an empty store, and then written to, given operations, clocks,
-- keys and frontiers, or handed messages by a replicator, while its subscribers change in whatever way. A call that throws leads on too.
pub data Reach (p : Platform) (physical_clock : ℕ → ℕ) (cipher : Option Cipher)
    : SyncEngine → Type 0 where
  opened :
      (generated : DeviceKey) (e : SyncEngine)
      → open_engine p generated empty_store ≡ ok e
      → Reach p physical_clock cipher e
  updated :
      (table row : Text) (values : Map Value) (e : SyncEngine)
      → Reach p physical_clock cipher e
      → Reach p physical_clock cipher (update p physical_clock cipher table row values e).1
  deleted :
      (table row : Text) (e : SyncEngine)
      → Reach p physical_clock cipher e
      → Reach p physical_clock cipher (delete p physical_clock cipher table row e).1
  inserted :
      (date : ℕ) (random_bytes : ℕ → Bytes) (table : Text) (values : Map Value) (e : SyncEngine)
      → Reach p physical_clock cipher e
      → Reach p physical_clock cipher
          (insert p physical_clock cipher date random_bytes table values e).1
  applied :
      (vs : List Value) (e : SyncEngine)
      → Reach p physical_clock cipher e
      → Reach p physical_clock cipher (apply_remote_ops p physical_clock vs e).1
  observed :
      (clock : Text) (e : SyncEngine)
      → Reach p physical_clock cipher e
      → Reach p physical_clock cipher (observe_remote_clock physical_clock clock e).1
  learned :
      (id : Text) (k : Bytes) (e : SyncEngine)
      → Reach p physical_clock cipher e
      → Reach p physical_clock cipher (learn_key p id k e).1
  recorded :
      (peer : Text) (f : Frontier) (e : SyncEngine)
      → Reach p physical_clock cipher e
      → Reach p physical_clock cipher (record_peer_frontier peer f e)
  subscribed :
      (subscribers : List Subscriber) (e : SyncEngine)
      → Reach p physical_clock cipher e
      → Reach p physical_clock cipher (record e { subscribers = subscribers })
  handled :
      (m : WireMsg) (r : Replicator)
      → Reach p physical_clock cipher r.engine
      → Reach p physical_clock cipher (handle p physical_clock m r).engine

new_clock-IsClock : (device : Text) (c : Clock) → new_clock device none ≡ ok c → IsClock c
unfolding new_clock
new_clock-IsClock device c h = record { counter_fits = ground arith; device_valid = ground arith }

module _ (p : Platform) (physical_clock : ℕ → ℕ) (cipher : Option Cipher) where
  opened-IsHealthy :
      (generated : DeviceKey) (e : SyncEngine)
      → open_engine p generated empty_store ≡ ok e
      → IsHealthy e
  unfolding open_engine set_device_key get get_winner cell_of
  opened-IsHealthy generated e h =
      let (clock, made, rest) =
        >>=-eq-ok (new_clock (device_id_from_public_key p generated.public_key) none) _ h in
      let first : IsHealthy (record {
        device_id = clock.device_id;
        storage = set_device_key generated empty_store;
        clock = clock;
        device_key = generated;
        keys = tangentfeed.Prelude.set clock.device_id generated.public_key [];
        subscribers = [];
        readings = 0;
      }) =
        record {
          sound = record {
            replica = empty_replica;
            refines = record {
              same_log = λ k. refl;
              same_winner = λ t r c parts. refl;
              same_frontier = refl;
            };
            coherent = empty-IsCoherent;
          };
          ahead = record {
            sane = new_clock-IsClock _ clock made;
            behind = λ k op at. absurd (ground arith);
          };
        } in
      subst IsHealthy (ground arith) first

  -- In every state that an engine comes to from an empty store, its store is that of a coherent replica, and
  -- its clock has reached every operation of its log.
  pub Reach-IsHealthy : (e : SyncEngine) → Reach p physical_clock cipher e → IsHealthy e
  Reach-IsHealthy e' (opened generated e h) = opened-IsHealthy generated e h
  Reach-IsHealthy e' (updated table row values e r) =
      update-IsHealthy p physical_clock cipher table row values e (Reach-IsHealthy e r)
  Reach-IsHealthy e' (deleted table row e r) =
      delete-IsHealthy p physical_clock cipher table row e (Reach-IsHealthy e r)
  Reach-IsHealthy e' (inserted date random_bytes table values e r) =
      insert-IsHealthy p physical_clock cipher date random_bytes table values e
        (Reach-IsHealthy e r)
  Reach-IsHealthy e' (applied vs e r) = apply-IsHealthy p physical_clock vs e (Reach-IsHealthy e r)
  Reach-IsHealthy e' (observed clock e r) =
      observe-IsHealthy p physical_clock clock e (Reach-IsHealthy e r)
  Reach-IsHealthy e' (learned id k e r) =
      learn-IsHealthy p physical_clock id k e (Reach-IsHealthy e r)
  Reach-IsHealthy e' (recorded peer f e r) =
      recorded-IsHealthy p physical_clock peer f e (Reach-IsHealthy e r)
  Reach-IsHealthy e' (subscribed subscribers e r) =
      let h = Reach-IsHealthy e r in
      record {
        sound = record {
          replica = h.sound.replica;
          refines = h.sound.refines;
          coherent = h.sound.coherent;
        };
        ahead = record { sane = h.ahead.sane; behind = h.ahead.behind };
      }
  Reach-IsHealthy e' (handled m r h) =
      handle_kept p physical_clock IsHealthy
        (record {
          learn = learn-IsHealthy p physical_clock;
          observed = observe-IsHealthy p physical_clock;
          apply = apply-IsHealthy p physical_clock;
          recorded = recorded-IsHealthy p physical_clock;
        })
        m r (Reach-IsHealthy r.engine h)
