-- ===== src/Signaling/Soundness.antt =====
-- That the rooms of packages/signaling-server/src/index.ts and the variables of its connections agree.
use tangentfeed.Prelude.{
  ℕ, ◌≡◌, refl, subst, ◌⊎◌, inl, inr, Bool, false, ◌&&◌, ◌||◌, Option, none, some, List, arith,
  Text, codes, get, text_eqb, eqb_iff, Bool-cases, Option-cases, ◌==◌,
}
use tangentfeed.Values.{Value}
use tangentfeed.Signaling.{
  Client, Rooms, Server, Event, message, closed, Output, error, send, on_signal, empty_server,
  lookup, str, member, is_text, is_blank, is_nullish, assign_me, leave, leave_if, join, on_join,
  on_parsed, on_message, on_close, step,
}
use tangentfeed.Signaling.Rooms.{
  IsTidy, lookup-leave, leave-IsTidy, set_client-IsTidy, lookup-set_client,
}

-- A client in a room stands under its own names, and is the one that its connection has.
abbrev pub AreHeld : (ℕ → Option Client) → Rooms → Type 0
AreHeld me rooms =
    (s d : Text) (c : Client)
    → lookup s d rooms ≡ some c
    → (c.space ≡ s) × (c.device ≡ d) × (me c.ws ≡ some c)

-- The client of a connection has its socket.
abbrev pub AreOwn : (ℕ → Option Client) → Type 0
AreOwn me = (ws : ℕ) (c : Client) → me ws ≡ some c → c.ws ≡ ws

abbrev pub IsSound : Server → Type 0
IsSound srv = IsTidy srv.rooms × AreHeld srv.me srv.rooms × AreOwn srv.me

module _ (is_open : ℕ → Bool) (parse : Text → Option Value) where
  -- Once a connection has left, its socket is in no room, and the others are where they were.
  pub lookup-leave_if :
      (ws : ℕ) (me : ℕ → Option Client) (rooms : Rooms) (s d : Text) (c : Client)
      → AreHeld me rooms
      → lookup s d (leave_if is_open parse (me ws) rooms).0 ≡ some c
      → (lookup s d rooms ≡ some c) × ((c.ws == ws) ≡ false)
  lookup-leave_if ws me rooms s d c held at = elim (Option-cases (me ws)) [
    | inl h ↦
        let at' : lookup s d rooms ≡ some c =
          subst (λ o. lookup s d (leave_if is_open parse o rooms).0 ≡ some c) h at in
        let (p, q, r) = held s d c at' in (at', ground arith)
    | inr (m, h) ↦
        let at' : lookup s d (leave is_open parse m rooms).0 ≡ some c =
          subst (λ o. lookup s d (leave_if is_open parse o rooms).0 ≡ some c) h at in
        let there : lookup s d rooms ≡ some c =
          ground (arith, lookup-leave is_open parse m rooms s d) in
        let (p, q, r) = held s d c there in
        (
          there,
          ground (
            arith,
            lookup-leave is_open parse m rooms s d,
            eqb_iff m.space s,
            eqb_iff m.device d,
          ),
        )
  ]

  leave_if-IsTidy :
      (o : Option Client) (rooms : Rooms) → IsTidy rooms → IsTidy (leave_if is_open parse o rooms).0
  leave_if-IsTidy none rooms tidy = tidy
  leave_if-IsTidy (some c) rooms tidy = leave-IsTidy is_open parse c rooms tidy

  on_close-IsSound :
      (ws : ℕ) (srv : Server) → IsSound srv → IsSound (on_close is_open parse ws srv).0
  unfolding on_close assign_me
  on_close-IsSound ws srv (tidy, held, own) = (
    leave_if-IsTidy (srv.me ws) srv.rooms tidy,
    λ s d c at.
        let (there, other) = lookup-leave_if ws srv.me srv.rooms s d c held at in
        let (p, q, r) = held s d c there in (p, q, rw other r),
    λ w c at. elim (Bool-cases (w == ws)) [
      | inl h ↦ absurd (ground arith)
      | inr h ↦ own w c (ground arith)
    ],
  )

  join-IsSound :
      (ws : ℕ) (space device : Text) (srv : Server)
      → IsSound srv
      → IsSound (join is_open parse ws space device srv).0
  unfolding join assign_me
  join-IsSound ws space device srv (tidy, held, own) =
      let rooms = (leave_if is_open parse (srv.me ws) srv.rooms).0 in
      let me : Client = record { ws = ws; space = space; device = device } in
      (
        set_client-IsTidy is_open parse space device me rooms
            (leave_if-IsTidy (srv.me ws) srv.rooms tidy),
        λ s d c at.
            let now = lookup-set_client is_open parse space device me rooms s d in
            elim (Bool-cases (text_eqb space s && text_eqb device d)) [
              | inl h ↦
                  let same : me ≡ c = ground arith in
                  let p : space ≡ s = (eqb_iff space s).0 (ground arith) in
                  let q : device ≡ d = (eqb_iff device d).0 (ground arith) in
                  subst
                    (λ x.
                      (x.space ≡ s)
                      × (x.device ≡ d)
                      × (assign_me ws (some me) srv.me x.ws ≡ some x))
                    same (p, q, ground arith)
              | inr h ↦
                  let (there, other) =
                    lookup-leave_if ws srv.me srv.rooms s d c held (ground arith) in
                  let (p, q, r) = held s d c there in (p, q, rw other r)
            ],
        λ w c at. elim (Bool-cases (w == ws)) [
          | inl h ↦ let same : me ≡ c = ground arith in ground arith
          | inr h ↦ own w c (ground arith)
        ],
      )

  -- What a message comes to: a refusal, a relay or a join.
  abbrev pub Handled : ℕ → Server → Server × List Output → Type 0
  Handled ws srv r =
      ((text : Text) × (r ≡ (srv, send is_open parse ws (error text))))
      ⊎ (((msg : Value) × (r ≡ (srv, on_signal is_open parse ws msg (srv.me ws) srv.rooms)))
          ⊎ ((space : Text) × (device : Text) × (r ≡ join is_open parse ws space device srv)))

  on_join-Handled :
      (ws : ℕ) (space device : Text) (srv : Server)
      → Handled ws srv (on_join is_open parse ws space device srv)
  unfolding on_join
  on_join-Handled ws space device srv = elim (Bool-cases (is_blank space || is_blank device)) [
    | inl h ↦ inl (codes "join needs space and device", rw h refl)
    | inr h ↦ inr (inr (space, device, rw h refl))
  ]

  on_parsed-Handled :
      (ws : ℕ) (msg : Value) (srv : Server) (r : Server × List Output)
      → on_parsed is_open parse ws msg srv ≡ some r
      → Handled ws srv r
  unfolding on_parsed
  on_parsed-Handled ws msg srv r h =
      let live : is_nullish msg ≡ false = ground arith in
      elim (Bool-cases (is_text (codes "join") (member (codes "t") msg))) [
        | inl j ↦ subst (Handled ws srv) (ground arith) (
            on_join-Handled ws (str (member (codes "space") msg))
              (str (member (codes "device") msg)) srv)
        | inr j ↦ elim (Bool-cases (is_text (codes "signal") (member (codes "t") msg))) [
          | inl k ↦ inr (inl (msg, ground arith))
          | inr k ↦ inl (codes "unknown message type", ground arith)
        ]
      ]

  pub message-Handled :
      (ws : ℕ) (raw : Text) (srv : Server) (r : Server × List Output)
      → step is_open parse (message ws raw) srv ≡ some r
      → Handled ws srv r
  unfolding step on_message
  message-Handled ws raw srv r h = elim (Option-cases (parse raw)) [
    | inl q ↦ inl (codes "invalid JSON", ground arith)
    | inr (msg, q) ↦ on_parsed-Handled ws msg srv r (ground arith)
  ]

  -- Whatever happens, the rooms stay sound: a client in a room stands under its own names and is the one that
  -- its connection has, so that a socket is in one room at most; no name stands twice in a room, and no room
  -- is empty.
  pub step-IsSound :
      (e : Event) (srv srv' : Server) (out : List Output)
      → IsSound srv
      → step is_open parse e srv ≡ some (srv', out)
      → IsSound srv'
  unfolding step
  step-IsSound (closed ws) srv srv' out sound h =
      subst IsSound (ground arith) (on_close-IsSound ws srv sound)
  step-IsSound (message ws raw) srv srv' out sound h =
      elim (message-Handled ws raw srv (srv', out) h) [
        | inl (text, q) ↦ subst IsSound (ground arith) sound
        | inr (inl (msg, q)) ↦ subst IsSound (ground arith) sound
        | inr (inr (space, device, q)) ↦
            subst IsSound (ground arith) (join-IsSound ws space device srv sound)
      ]

-- The states that the server comes to from its start, whatever sockets are open at each event.
pub data Reach (parse : Text → Option Value) : Server → Type 0 where
  start : Reach parse empty_server
  next :
      (is_open : ℕ → Bool) (e : Event) (srv srv' : Server) (out : List Output)
      → Reach parse srv
      → step is_open parse e srv ≡ some (srv', out)
      → Reach parse srv'

-- Every state that is reached is sound.
pub Reach-IsSound : (parse : Text → Option Value) (srv : Server) → Reach parse srv → IsSound srv
unfolding lookup get
Reach-IsSound parse srv start = (
  λ s room h. absurd (ground arith),
  λ s d c h. absurd (ground arith),
  λ w c h. absurd (ground arith),
)
Reach-IsSound parse srv (next is_open e srv1 srv' out r h) =
    step-IsSound is_open parse e srv1 srv out (Reach-IsSound parse srv1 r) h
