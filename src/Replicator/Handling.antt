-- ===== src/Replicator/Handling.antt =====
-- What the handler of packages/core/src/replicator.ts leaves to the engine: a property of engines that
-- the calls of the handler keep is kept by the handler, whatever the message.
use tangentfeed.Prelude.{
  ℕ, ◌≡◌, refl, sym, ◌∙◌, subst, inl, inr, Option, none, some, List, [], ◌∷◌, Text, Map, arith,
  Bool-cases, ltb,
}
use tangentfeed.Errors.{Result, ok, err}
use tangentfeed.Values.{Value}
use tangentfeed.Signing.{Platform, Bytes}
use tangentfeed.Op.{Op, Frontier}
use tangentfeed.Engine.{SyncEngine, learn_key, record_peer_frontier}
use tangentfeed.Engine.Remote.{apply_remote_ops, observe_remote_clock}
use tangentfeed.Replicator.{
  Body, hello, keys, since, ops, ack, WireMsg, Replicator, handle, dispatch, greet, answer,
  acknowledge, send_ops, send, send_keys, send_hello, set_peer, peers_changed, report, greeted,
  acked, on_hello, on_ops, learn_hex, learn_hello, learn_keys, is_ignored,
}

send_ops-engine :
    (to : Option Text) (cs : List (List Op)) (r : Replicator) → (send_ops to cs r).engine ≡ r.engine
unfolding send_ops send
send_ops-engine to [] r = refl
send_ops-engine to (c ∷ cs) r = send_ops-engine to cs _

greet-engine : (from : Text) (r : Replicator) → (greet from r).engine ≡ r.engine
unfolding greet send send_keys send_hello set_peer peers_changed
greet-engine from r = ground arith

answer-engine :
    (from : Text) (have : Frontier) (r : Replicator)
    → (answer from have r).engine ≡ record_peer_frontier from have r.engine
unfolding answer send_keys send set_peer
answer-engine from have r = send_ops-engine (some from) _ _ ∙ ground arith

-- A property of engines that the calls which `handle` makes keep.
pub record IsKept {ℓ} (p : Platform) (physical_clock : ℕ → ℕ) (P : SyncEngine → Type ℓ)
    : Type ℓ where
  pub learn : (id : Text) (k : Bytes) (e : SyncEngine) → P e → P (learn_key p id k e).1
  pub observed :
      (clock : Text) (e : SyncEngine) → P e → P (observe_remote_clock physical_clock clock e).1
  pub apply :
      (vs : List Value) (e : SyncEngine) → P e → P (apply_remote_ops p physical_clock vs e).1
  pub recorded :
      (peer : Text) (f : Frontier) (e : SyncEngine) → P e → P (record_peer_frontier peer f e)

module _ {ℓ} (p : Platform) (physical_clock : ℕ → ℕ) (P : SyncEngine → Type ℓ)
    (kept : IsKept p physical_clock P) where
  learn_hello_kept :
      (from : Text) (key : Option Text) (e : SyncEngine)
      → P e
      → P (learn_hello p physical_clock from key e)
  unfolding learn_hello learn_hex
  learn_hello_kept from none e h = h
  learn_hello_kept from (some key) e h = kept.learn from _ e h

  learn_keys_kept : (ks : Map Text) (e : SyncEngine) → P e → P (learn_keys p physical_clock ks e)
  unfolding learn_keys learn_hex
  learn_keys_kept [] e h = h
  learn_keys_kept ((id, k) ∷ ks) e h = learn_keys_kept ks _ (kept.learn id _ e h)

  greeted_kept :
      (from : Text) (r : Replicator) (a : Result (Unit {0}) × SyncEngine)
      → P a.1
      → P (greeted from r a).engine
  unfolding greeted report
  greeted_kept from r (err x, e) h = h
  greeted_kept from r (ok u, e) h = subst P (sym (greet-engine from _)) h

  acked_kept :
      (from : Text) (r : Replicator) (a : Result ℕ × SyncEngine) → P a.1 → P (acked from r a).engine
  unfolding acked report send
  acked_kept from r (err x, e) h = h
  acked_kept from r (ok n, e) h = elim (Bool-cases (ltb 0 n)) [ inl b ↦ rw b h | inr b ↦ rw b h ]

  dispatch_kept :
      (from : Text) (b : Body) (r : Replicator)
      → P r.engine
      → P (dispatch p physical_clock from b r).engine
  unfolding dispatch on_hello on_ops acknowledge set_peer
  dispatch_kept from (hello clock key) r h =
      greeted_kept from r _ (kept.observed clock _ (learn_hello_kept from key r.engine h))
  dispatch_kept from (keys to ks) r h = learn_keys_kept ks r.engine h
  dispatch_kept from (since to have) r h =
      subst P (sym (answer-engine from have r)) (kept.recorded from have r.engine h)
  dispatch_kept from (ops to []) r h = h
  dispatch_kept from (ops to (v ∷ vs)) r h =
      acked_kept from r (apply_remote_ops p physical_clock (v ∷ vs) r.engine)
        (kept.apply (v ∷ vs) r.engine h)
  dispatch_kept from (ack to f) r h = kept.recorded from f r.engine h

  pub handle_kept :
      (m : WireMsg) (r : Replicator) → P r.engine → P (handle p physical_clock m r).engine
  unfolding handle
  handle_kept m r h = elim (Bool-cases (is_ignored m r)) [
    | inl b ↦ rw b h
    | inr b ↦ rw b (dispatch_kept m.from m.body r h)
  ]
