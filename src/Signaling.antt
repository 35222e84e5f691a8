-- ===== src/Signaling.antt =====
-- packages/signaling-server/src/index.ts: the rooms of the signaling server and what it sends. A socket is a
-- number; the closures of its connection are the two events, of which a handler is one step.
pub mod Rooms
pub mod Soundness
pub mod Relay
use tangentfeed.Prelude.{
  ℕ, Bool, true, false, not, ◌||◌, Option, none, some, List, [], ◌∷◌, ◌++◌, Text, codes, Map, get,
  set, delete, keys, values, or_else, text_eqb, filter, ◌==◌, if◌then◌else◌,
}
use tangentfeed.Values.{Value, property}

pub record Client : Type 0 where
  pub ws : ℕ
  pub space : Text
  pub device : Text

-- What the server sends, before `JSON.stringify`. A `data` of `none` is a property that is left out.
pub data Message : Type 0 where
  peers : List Text → Message
  peer_joined peer_left error : Text → Message
  signal : Text → Option Value → Message

-- A call of a socket's `send` or of its `close`.
pub data Output : Type 0 where
  sent : ℕ → Message → Output
  closing : ℕ → ℕ → Text → Output

-- space, then device, then client
abbrev pub Rooms : Type 0
Rooms = Map (Map Client)

-- `me` is the variable of each connection, by its socket.
pub record Server : Type 0 where
  pub rooms : Rooms
  pub me : ℕ → Option Client

abbrev pub empty_server : Server
empty_server = record { rooms = []; me = λ ws. none }

pub data Event : Type 0 where
  message : ℕ → Text → Event
  closed : ℕ → Event

abbrev pub str : Option Value → Text
str (some (Value.string s)) = s
str _ = []

-- `msg[name]`, of a value that is neither null nor undefined
abbrev pub member : Text → Value → Option Value
member name (Value.object fs) = property name fs
member name _ = none

abbrev pub is_nullish : Value → Bool
is_nullish Value.null = true
is_nullish Value.undefined = true
is_nullish _ = false

-- `v === s`, for a text `s` that is not empty
abbrev pub is_text : Text → Option Value → Bool
is_text s v = text_eqb (str v) s

abbrev pub is_blank : Text → Bool
is_blank [] = true
is_blank (c ∷ s) = false

abbrev pub is_vacant : Map Client → Bool
is_vacant [] = true
is_vacant (e ∷ m) = false

-- `room?.get(device)`
abbrev pub in_room : Text → Option (Map Client) → Option Client
in_room device none = none
in_room device (some room) = get device room

-- `rooms.get(space)?.get(device)`
unfoldable pub lookup : Text → Text → Rooms → Option Client
lookup space device rooms = in_room device (get space rooms)

-- `x?.ws === ws`
abbrev pub is_held_by : ℕ → Option Client → Bool
is_held_by ws none = false
is_held_by ws (some c) = c.ws == ws

unfoldable pub assign_me : ℕ → Option Client → (ℕ → Option Client) → ℕ → Option Client
assign_me ws c me w = if w == ws then c else me w

abbrev pub evict : Option Client → List Output
evict none = []
evict (some c) = closing c.ws 4000 (codes "replaced by new connection") ∷ []

-- The ready state of each socket and the parser of texts are the platform's.
module _ (is_open : ℕ → Bool) (parse : Text → Option Value) where
  pub send : ℕ → Message → List Output
  send ws msg = if is_open ws then sent ws msg ∷ [] else []

  -- The loop of `leave`.
  pub tell_all : Message → List Client → List Output
  unfolding send
  tell_all msg [] = []
  tell_all msg (c ∷ cs) = send c.ws msg ++ tell_all msg cs

  -- The loop of a join.
  pub tell_others : Text → Message → List Client → List Output
  unfolding send
  tell_others device msg [] = []
  tell_others device msg (c ∷ cs) =
      (if not (text_eqb c.device device) then send c.ws msg else []) ++ tell_others device msg cs

  -- The rooms when a room has lost a client.
  abbrev pub keep_room : Text → Map Client → Rooms → Rooms
  keep_room space room rooms = if is_vacant room then delete space rooms else set space room rooms

  unfoldable pub leave : Client → Rooms → Rooms × List Output
  unfolding tell_all lookup
  leave c rooms =
      let room = or_else (get c.space rooms) [] in
      if not (is_held_by c.ws (lookup c.space c.device rooms))
      then (rooms, [])
      else let rest = delete c.device room in
        (keep_room c.space rest rooms, tell_all (peer_left c.device) (values rest))

  -- `if (me) leave(me)`
  abbrev pub leave_if : Option Client → Rooms → Rooms × List Output
  leave_if none rooms = (rooms, [])
  leave_if (some c) rooms = leave c rooms

  unfoldable pub join : ℕ → Text → Text → Server → Server × List Output
  unfolding leave assign_me tell_others filter
  join ws space device s =
      let left = leave_if (s.me ws) s.rooms in
      let me : Client = record { ws = ws; space = space; device = device } in
      let room = or_else (get space left.0) [] in
      let room' = set device me room in
      (
        record { rooms = set space room' left.0; me = assign_me ws (some me) s.me },
        left.1
            ++ (evict (get device room)
                ++ (send ws (peers (filter (λ d. not (text_eqb d device)) (keys room')))
                    ++ tell_others device (peer_joined device) (values room'))),
      )

  -- The relay, with the client and the one that the message is for.
  abbrev pub relay : Client → Option Client → Option Value → List Output
  relay me none content = []
  relay me (some target) content = send target.ws (signal me.device content)

  unfoldable pub on_signal : ℕ → Value → Option Client → Rooms → List Output
  unfolding lookup send
  on_signal ws msg none rooms = send ws (error (codes "join first"))
  on_signal ws msg (some me) rooms =
      relay me (lookup me.space (str (member (codes "to") msg)) rooms) (member (codes "data") msg)

  unfoldable pub on_join : ℕ → Text → Text → Server → Server × List Output
  unfolding join send
  on_join ws space device s =
      if is_blank space || is_blank device
      then (s, send ws (error (codes "join needs space and device")))
      else join ws space device s

  -- A parsed message; `none` is that reading `msg["t"]` throws.
  unfoldable pub on_parsed : ℕ → Value → Server → Option (Server × List Output)
  unfolding on_join on_signal send property
  on_parsed ws msg s =
      if is_nullish msg
      then none
      else some (
          if is_text (codes "join") (member (codes "t") msg)
          then on_join ws (str (member (codes "space") msg)) (str (member (codes "device") msg)) s
          else if is_text (codes "signal") (member (codes "t") msg)
          then (s, on_signal ws msg (s.me ws) s.rooms)
          else (s, send ws (error (codes "unknown message type"))))

  unfoldable pub on_message : ℕ → Text → Server → Option (Server × List Output)
  unfolding on_parsed send
  on_message ws raw s = elim (parse raw) [
    | none ↦ some (s, send ws (error (codes "invalid JSON")))
    | some msg ↦ on_parsed ws msg s
  ]

  unfoldable pub on_close : ℕ → Server → Server × List Output
  unfolding leave assign_me
  on_close ws s =
      let left = leave_if (s.me ws) s.rooms in
      (record { rooms = left.0; me = assign_me ws none s.me }, left.1)

  -- One event; `none` is an exception that no handler catches.
  unfoldable pub step : Event → Server → Option (Server × List Output)
  unfolding on_message on_close
  step (message ws raw) s = on_message ws raw s
  step (closed ws) s = some (on_close ws s)

-- Opened as a whole by the tests that run the server.
unfoldable pub program : Unit {0}
unfolding step on_message on_close on_parsed on_join on_signal join leave tell_all tell_others send
    assign_me lookup get set delete filter property
program = tt
