-- ===== src/Replicator.antt =====
-- packages/core/src/replicator.ts: the messages and their handler, over the engine. A handler runs as
-- one step here; the source lets other handlers run at its `await`s, between calls of the engine.
-- A message has the fields of its type, but its operations are unchecked values and the key of a
-- hello may be missing.
pub mod Chunks
pub mod Handling
pub mod Safety
pub mod Keys
pub mod Answers
use tangentfeed.Prelude.{
  ℕ, zero, suc, ◌+◌, ◌*◌, ◌-◌, ◌%◌, Bool, true, false, not, ◌&&◌, ◌||◌, Option, none, some, List,
  [], ◌∷◌, ◌++◌, map, Text, codes, Map, get, set, has, keys as map_keys, or_else, is_some, text_eqb,
  length, take, drop, ltb, leb, ◌==◌, if◌then◌else◌, replicate,
}
use tangentfeed.Errors.{Error, Result, ok, err}
use tangentfeed.Values.{Value}
use tangentfeed.Signing.{Platform, Bytes, hex}
use tangentfeed.Op.{Op, Frontier, op_value}
use tangentfeed.Storage.{ops_since}
use tangentfeed.Engine.{
  SyncEngine, ChangeEvent, Origin, local, remote, learn_key, record_peer_frontier,
}
use tangentfeed.Engine.Remote.{apply_remote_ops, observe_remote_clock}

abbrev pub wire_version : ℕ
wire_version = 2

abbrev pub ops_per_message : ℕ
ops_per_message = 500

pub data Body : Type 0 where
  hello : Text → Option Text → Body
  keys : Option Text → Map Text → Body
  since : Text → Frontier → Body
  ops : Option Text → List Value → Body
  ack : Text → Frontier → Body

pub record WireMsg : Type 0 where
  pub version : ℕ
  pub space : Text
  pub from : Text
  pub body : Body

-- `sent` is what the transport was given, in order; `peer_changes` and `errors` are the calls of the
-- two callbacks.
pub record Replicator : Type 0 where
  pub engine : SyncEngine
  pub space : Text
  pub peers : Map (Option Frontier)
  pub started : Bool
  pub sent : List WireMsg
  pub peer_changes : List (List Text)
  pub errors : List (Error × Text)

-- `arr.slice(i, i + size)` for each multiple `i` of the size below the length, which bounds their
-- number.
pub chunks_from {ℓ} : {A : Type ℓ} → ℕ → ℕ → List A → List (List A)
chunks_from zero size xs = []
chunks_from (suc n) size [] = []
chunks_from (suc n) size (x ∷ xs) = take size (x ∷ xs) ∷ chunks_from n size (drop size (x ∷ xs))

unfoldable pub chunks {ℓ} : {A : Type ℓ} → ℕ → List A → List (List A)
unfolding chunks_from
chunks size xs = chunks_from (length xs) size xs

unfoldable pub zero_clock : Text → Text
zero_clock device_id = codes "000000000000-0000-" ++ device_id

-- A hexadecimal digit in either case, as `parseInt` reads it.
pub hex_unit : ℕ → Option ℕ
hex_unit c =
    if leb b'0' c && leb c b'9'
    then some (c - b'0')
    else if leb b'a' c && leb c b'f'
    then some (c - b'a' + 10)
    else if leb b'A' c && leb c b'F'
    then some (c - b'A' + 10)
    else none

-- White space that `parseInt` skips and `.` matches.
pub is_blank : ℕ → Bool
is_blank c =
    c == 9
    || c == 11
    || c == 12
    || c == 32
    || c == 0xa0
    || c == 0x1680
    || (leb 0x2000 c && leb c 0x200a)
    || c == 0x202f
    || c == 0x205f
    || c == 0x3000
    || c == 0xfeff

-- The byte that `parseInt(h, 16)` leaves in a `Uint8Array`, for two units; NaN leaves 0.
pub byte_of : ℕ → ℕ → ℕ
unfolding hex_unit is_blank
byte_of c d = elim (hex_unit c) [
  | some a ↦ elim (hex_unit d) [ some b ↦ a * 16 + b | none ↦ a ]
  | none ↦
      let b = or_else (hex_unit d) 0 in
      if c == b'-' then (256 - b) % 256 else if c == b'+' || is_blank c then b else 0
]

-- What `.` does not match.
pub is_line_end : ℕ → Bool
is_line_end c = c == 10 || c == 13 || c == 0x2028 || c == 0x2029

-- `s.match(/../g)`, each pair read.
unfoldable pub unhex : Text → Bytes
unfolding byte_of is_line_end
unhex [] = []
unhex (c ∷ []) = []
unhex (c ∷ d ∷ s) =
    let rest = unhex s in
    let later = unhex (d ∷ s) in
    if is_line_end c || is_line_end d then later else byte_of c d ∷ rest

-- `{ v, space, from, ...body }`
unfoldable pub msg : Body → Replicator → WireMsg
msg body r = record {
  version = wire_version;
  space = r.space;
  from = r.engine.device_id;
  body = body;
}

unfoldable pub send : Body → Replicator → Replicator
unfolding msg
send body r = record r { sent = r.sent ++ msg body r ∷ [] }

pub last_hlc : List Op → Option Text
last_hlc [] = none
last_hlc (op ∷ []) = some op.hlc
last_hlc (op ∷ x ∷ xs) = last_hlc (x ∷ xs)

pub hex_keys : Map Bytes → Map Text
hex_keys [] = []
hex_keys ((id, k) ∷ ks) = (id, hex k) ∷ hex_keys ks

unfoldable pub send_hello : Replicator → Replicator
unfolding last_hlc send
send_hello r =
    let latest = last_hlc (ops_since [] r.engine.storage) in
    send
      (hello (or_else latest (zero_clock r.engine.device_id))
        (some (hex r.engine.device_key.public_key)))
      r

unfoldable pub send_keys : Option Text → Replicator → Replicator
unfolding hex_keys send
send_keys to r = send (keys to (hex_keys r.engine.keys)) r

unfoldable pub send_ops : Option Text → List (List Op) → Replicator → Replicator
unfolding send
send_ops to [] r = r
send_ops to (chunk ∷ rest) r = send_ops to rest (send (ops to (map op_value chunk)) r)

-- The live tail: what the subscription of `start`, which `stop` ends, does on an event of the engine.
unfoldable pub on_event : ChangeEvent → Replicator → Replicator
unfolding send_ops
on_event ev r = elim ev.origin [
  | remote ↦ r
  | local ↦ if not r.started then r else send_ops none (chunks ops_per_message ev.ops) r
]

unfoldable pub start : Replicator → Replicator
start r = if r.started then r else send_hello (record r { started = true })

unfoldable pub stop : Replicator → Replicator
stop r = record r { started = false; peers = []; peer_changes = r.peer_changes ++ [] ∷ [] }

-- `"to" in msg && msg.to !== undefined && msg.to !== this.engine.deviceId`
abbrev pub to_of : Body → Option Text
to_of (hello c k) = none
to_of (keys to ks) = to
to_of (since to have) = some to
to_of (ops to os) = to
to_of (ack to f) = some to

unfoldable pub is_for_other : Body → Text → Bool
is_for_other b device = elim (to_of b) [ none ↦ false | some to ↦ not (text_eqb to device) ]

-- The guards of `handle`.
unfoldable pub is_ignored : WireMsg → Replicator → Bool
unfolding is_for_other
is_ignored m r =
    not r.started
    || not (text_eqb m.space r.space)
    || not (m.version == wire_version)
    || text_eqb m.from r.engine.device_id
    || is_for_other m.body r.engine.device_id

pub set_peer : Text → Option Frontier → Replicator → Replicator
set_peer from f r = record r { peers = set from f r.peers }

pub peers_changed : Replicator → Replicator
peers_changed r = record r { peer_changes = r.peer_changes ++ map_keys r.peers ∷ [] }

pub report : Error → Text → Replicator → Replicator
report x from r = record r { errors = r.errors ++ (x, from) ∷ [] }

-- `case "hello"` after the clock has been observed.
unfoldable pub greet : Text → Replicator → Replicator
unfolding set_peer peers_changed
greet from r =
    let r' = if has from r.peers then r else send_hello (peers_changed (set_peer from none r)) in
    send (since from r'.engine.storage.frontier) (send_keys (some from) r')

-- `case "since"`
unfoldable pub answer : Text → Frontier → Replicator → Replicator
unfolding set_peer
answer from have r =
    let r1 = set_peer from (some have) r in
    let r2 = record r1 { engine = record_peer_frontier from have r1.engine } in
    let missing = ops_since have r2.engine.storage in
    let r3 = if ltb 0 (length missing) then send_keys (some from) r2 else r2 in
    send_ops (some from) (chunks ops_per_message missing) r3

-- `case "ack"`
unfoldable pub acknowledge : Text → Frontier → Replicator → Replicator
unfolding set_peer
acknowledge from f r =
    let r' = set_peer from (some f) r in
    record r' { engine = record_peer_frontier from f r'.engine }

-- What follows the clock's answer to a hello; an error goes to the callback.
pub greeted : Text → Replicator → Result (Unit {0}) × SyncEngine → Replicator
unfolding report
greeted from r (err x, e) = report x from (record r { engine = e })
greeted from r (ok u, e) = greet from (record r { engine = e })

-- What follows the engine's answer to a batch.
pub acked : Text → Replicator → Result ℕ × SyncEngine → Replicator
unfolding report
acked from r (err x, e) = report x from (record r { engine = e })
acked from r (ok applied, e) =
    let r' = record r { engine = e } in
    if ltb 0 applied then send (ack from e.storage.frontier) r' else r'

module _ (p : Platform) (physical_clock : ℕ → ℕ) where
  pub learn_hex : Text → Text → SyncEngine → SyncEngine
  learn_hex id k e = (learn_key p id (unhex k) e).1

  pub learn_hello : Text → Option Text → SyncEngine → SyncEngine
  unfolding learn_hex
  learn_hello from none e = e
  learn_hello from (some key) e = learn_hex from key e

  pub learn_keys : Map Text → SyncEngine → SyncEngine
  unfolding learn_hex
  learn_keys [] e = e
  learn_keys ((id, k) ∷ ks) e = learn_keys ks (learn_hex id k e)

  pub on_hello : Text → Text → Option Text → Replicator → Replicator
  unfolding learn_hello greeted
  on_hello from clock key r =
      greeted from r (observe_remote_clock physical_clock clock (learn_hello from key r.engine))

  pub on_ops : Text → List Value → Replicator → Replicator
  unfolding acked
  on_ops from [] r = r
  on_ops from (v ∷ vs) r = acked from r (apply_remote_ops p physical_clock (v ∷ vs) r.engine)

  pub dispatch : Text → Body → Replicator → Replicator
  unfolding on_hello on_ops learn_keys
  dispatch from (hello clock key) r = on_hello from clock key r
  dispatch from (keys to ks) r = record r { engine = learn_keys ks r.engine }
  dispatch from (since to have) r = answer from have r
  dispatch from (ops to vs) r = on_ops from vs r
  dispatch from (ack to f) r = acknowledge from f r

  unfoldable pub handle : WireMsg → Replicator → Replicator
  unfolding dispatch
  handle m r = if is_ignored m r then r else dispatch m.from m.body r
