-- ===== src/Replicator/Answers.antt =====
-- The answer of packages/core/src/replicator.ts to a `since`.
use tangentfeed.Prelude.{
  ◌≡◌, refl, sym, ap, ◌∙◌, inl, inr, Bool, true, false, Option, some, List, [], ◌∷◌, ◌++◌, map,
  append_assoc, Text, text_eqb, Bool-cases, if◌then◌else◌, ltb, length,
}
use tangentfeed.Values.{Value}
use tangentfeed.Op.{Op, Frontier, op_value}
use tangentfeed.Storage.{ops_since, set_peer_frontier}
use tangentfeed.Engine.{SyncEngine, record_peer_frontier}
use tangentfeed.Replicator.{
  Body, hello, keys, since, ops, ack, WireMsg, Replicator, answer, send_ops, send, send_keys,
  set_peer, chunks, ops_per_message,
}
use tangentfeed.Replicator.Chunks.{concat, concat-chunks}

abbrev pub ops_of : Body → List Value
ops_of (ops to vs) = vs
ops_of (hello c k) = []
ops_of (keys to ks) = []
ops_of (since to have) = []
ops_of (ack to f) = []

-- The operations in a list of messages, in their order.
unfoldable pub carried : List WireMsg → List Value
carried [] = []
carried (m ∷ ms) = ops_of m.body ++ carried ms

carried-append : (xs ys : List WireMsg) → carried (xs ++ ys) ≡ carried xs ++ carried ys
unfolding carried
carried-append [] ys = refl
carried-append (x ∷ xs) ys =
    ap (λ vs. ops_of x.body ++ vs) (carried-append xs ys)
    ∙ sym (append_assoc (ops_of x.body) (carried xs) (carried ys))

append_nil : (xs : List Value) → xs ++ [] ≡ xs
append_nil [] = refl
append_nil (x ∷ xs) = ap (λ ys. x ∷ ys) (append_nil xs)

map-append : (xs ys : List Op) → map op_value (xs ++ ys) ≡ map op_value xs ++ map op_value ys
map-append [] ys = refl
map-append (x ∷ xs) ys = ap (λ vs. op_value x ∷ vs) (map-append xs ys)

carried-send : (b : Body) (r : Replicator) → carried (send b r).sent ≡ carried r.sent ++ ops_of b
unfolding send carried
carried-send b r = carried-append r.sent _ ∙ ap (λ vs. carried r.sent ++ vs) (append_nil (ops_of b))

carried-send_ops :
    (to : Option Text) (cs : List (List Op)) (r : Replicator)
    → carried (send_ops to cs r).sent ≡ carried r.sent ++ map op_value (concat cs)
unfolding send_ops concat
carried-send_ops to [] r = sym (append_nil (carried r.sent))
carried-send_ops to (c ∷ cs) r =
    let next = send (ops to (map op_value c)) r in
    carried-send_ops to cs next
    ∙ ap (λ vs. vs ++ map op_value (concat cs)) (carried-send (ops to (map op_value c)) r)
    ∙ append_assoc (carried r.sent) (map op_value c) (map op_value (concat cs))
    ∙ ap (λ vs. carried r.sent ++ vs) (sym (map-append c (concat cs)))

recorded-log :
    (peer : Text) (f : Frontier) (e : SyncEngine)
    → (record_peer_frontier peer f e).storage.ops_by_id ≡ e.storage.ops_by_id
unfolding record_peer_frontier set_peer_frontier
recorded-log peer f e = elim (Bool-cases (text_eqb peer e.device_id)) [
  | inl b ↦ rw b refl
  | inr b ↦ rw b refl
]

recorded-since :
    (peer : Text) (f : Frontier) (e : SyncEngine)
    → ops_since f (record_peer_frontier peer f e).storage ≡ ops_since f e.storage
unfolding ops_since
recorded-since peer f e = rw (recorded-log peer f e) refl

carried-keys :
    (b : Bool) (to : Option Text) (r : Replicator)
    → carried (if b then send_keys to r else r).sent ≡ carried r.sent
unfolding send_keys
carried-keys true to r = carried-send _ r ∙ append_nil (carried r.sent)
carried-keys false to r = refl

-- The operations that the answer to a `since` sends, over all its messages, are those that `opsSince`
-- gives for the frontier that came with it, in that order.
pub carried-answer :
    (from : Text) (have : Frontier) (r : Replicator)
    → carried (answer from have r).sent
      ≡ carried r.sent ++ map op_value (ops_since have r.engine.storage)
unfolding answer set_peer
carried-answer from have r =
    let missing = ops_since have (record_peer_frontier from have r.engine).storage in
    let r1 = set_peer from (some have) r in
    let r2 = record r1 { engine = record_peer_frontier from have r.engine } in
    carried-send_ops (some from) (chunks ops_per_message missing)
      (if ltb 0 (length missing) then send_keys (some from) r2 else r2)
    ∙ ap (λ vs. vs ++ map op_value (concat (chunks ops_per_message missing)))
        (carried-keys (ltb 0 (length missing)) (some from) r2)
    ∙ ap (λ xs. carried r.sent ++ map op_value xs)
        ((concat-chunks 499 missing).0 ∙ recorded-since from have r.engine)
