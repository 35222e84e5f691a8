-- ===== src/Signaling/Relay.antt =====
-- To whom the signaling server of packages/signaling-server/src/index.ts sends.
use tangentfeed.Prelude.{
  ℕ, ◌≡◌, refl, sym, ap, ◌∙◌, subst, ◌⊎◌, inl, inr, ◌↔◌, Bool, true, false, not, Option, none, some,
  List, [], ◌∷◌, arith, Text, codes, Map, get, set, delete, keys, values, or_else, text_eqb,
  eqb_iff, get-set, get-delete, IsUnique, delete-IsUnique, Elem, Elem-append_inv, filter,
  Bool-cases, Option-cases, ◌==◌,
}
use tangentfeed.Values.{Value}
use tangentfeed.Signaling.{
  Client, Rooms, Server, Event, message, closed, Message, Output, sent, peers, peer_left,
  peer_joined, error, signal, lookup, is_held_by, str, member, send, tell_all, tell_others, evict,
  assign_me, leave, leave_if, join, on_signal, on_close, step,
}
use tangentfeed.Signaling.Rooms.{IsTidy, get-room, lookup-set, lookup-leave, or_else-IsUnique}
use tangentfeed.Signaling.Soundness.{IsSound, lookup-leave_if, message-Handled, step-IsSound}

-- Both sockets have joined the same space.
abbrev pub Shares : Server → ℕ → ℕ → Type 0
Shares srv ws w =
    (m : Client) × (c : Client) × (srv.me ws ≡ some m) × (srv.me w ≡ some c) × (c.space ≡ m.space)

Elem-values :
    (c : Client) (room : Map Client)
    → IsUnique room
    → Elem c (values room)
    → (d : Text) × (get d room ≡ some c)
unfolding get
Elem-values c [] u e = absurd e
Elem-values c ((d, v) ∷ room) u (inl e) = (d, ground (arith, eqb_iff d d))
Elem-values c ((d, v) ∷ room) u (inr e) =
    let (k, at) = Elem-values c room u.1 e in (k, ground (arith, eqb_iff d k))

abbrev pub is_signal : Message → Bool
is_signal (signal d v) = true
is_signal _ = false

-- The socket of an event.
abbrev pub source : Event → ℕ
source (message ws raw) = ws
source (closed ws) = ws

evict_sends_nothing : (w : ℕ) (msg : Message) (o : Option Client) → Elem (sent w msg) (evict o) → ⊥
evict_sends_nothing w msg none e = e
evict_sends_nothing w msg (some c) (inl q) = ground arith
evict_sends_nothing w msg (some c) (inr q) = q

module _ (is_open : ℕ → Bool) (parse : Text → Option Value) where
  Elem-send :
      (w v : ℕ) (msg m : Message) → Elem (sent w msg) (send is_open parse v m) → (w ≡ v) × (msg ≡ m)
  unfolding send
  Elem-send w v msg m e = elim (Bool-cases (is_open v)) [
    | inl h ↦ elim (rw h at e) [ inl q ↦ ground arith | inr q ↦ absurd q ]
    | inr h ↦ absurd (rw h at e)
  ]

  Elem-tell_all :
      (w : ℕ) (msg m : Message) (cs : List Client)
      → Elem (sent w msg) (tell_all is_open parse m cs)
      → (msg ≡ m) × (c : Client) × Elem c cs × (w ≡ c.ws)
  unfolding tell_all
  Elem-tell_all w msg m [] e = absurd e
  Elem-tell_all w msg m (c ∷ cs) e = elim (Elem-append_inv _ (send is_open parse c.ws m) _ e) [
    | inl q ↦ let (a, b) = Elem-send w c.ws msg m q in (b, c, inl refl, a)
    | inr q ↦ let (a, x, b, d) = Elem-tell_all w msg m cs q in (a, x, inr b, d)
  ]

  Elem-tell_others :
      (w : ℕ) (device : Text) (msg m : Message) (cs : List Client)
      → Elem (sent w msg) (tell_others is_open parse device m cs)
      → (msg ≡ m) × (c : Client) × Elem c cs × (w ≡ c.ws)
  unfolding tell_others
  Elem-tell_others w device msg m [] e = absurd e
  Elem-tell_others w device msg m (c ∷ cs) e = elim (Bool-cases (text_eqb c.device device)) [
    | inl h ↦ let (a, x, b, d) = Elem-tell_others w device msg m cs (rw h at e) in (a, x, inr b, d)
    | inr h ↦ elim (Elem-append_inv _ (send is_open parse c.ws m) _ (rw h at e)) [
      | inl q ↦ let (a, b) = Elem-send w c.ws msg m q in (b, c, inl refl, a)
      | inr q ↦ let (a, x, b, d) = Elem-tell_others w device msg m cs q in (a, x, inr b, d)
    ]
  ]

  -- What is sent when a client leaves goes to those that were in its room.
  Elem-leave :
      (c : Client) (rooms : Rooms) (w : ℕ) (msg : Message)
      → IsTidy rooms
      → Elem (sent w msg) (leave is_open parse c rooms).1
      → (msg ≡ peer_left c.device)
        × (d : Text) × (x : Client) × (lookup c.space d rooms ≡ some x)
        × (w ≡ x.ws)
  unfolding leave
  Elem-leave c rooms w msg tidy e =
      elim (Bool-cases (is_held_by c.ws (lookup c.space c.device rooms))) [
        | inl h ↦
            let room = or_else (get c.space rooms) [] in
            let unique =
              delete-IsUnique c.device room (or_else-IsUnique is_open parse c.space rooms tidy) in
            let (same, x, there, at) =
              Elem-tell_all w msg (peer_left c.device) (values (delete c.device room))
                (rw h at e) in
            let (d, found) = Elem-values x (delete c.device room) unique there in
            (same, d, x, ground (arith, get-delete c.device d room, get-room c.space d rooms), at)
        | inr h ↦ absurd (rw h at e)
      ]

  Elem-leave_if :
      (ws : ℕ) (srv : Server) (w : ℕ) (msg : Message)
      → IsSound srv
      → Elem (sent w msg) (leave_if is_open parse (srv.me ws) srv.rooms).1
      → (is_signal msg ≡ false) × Shares srv ws w
  Elem-leave_if ws srv w msg (tidy, held, own) e = elim (Option-cases (srv.me ws)) [
    | inl h ↦ absurd (rw h at e)
    | inr (m, h) ↦
        let (same, d, x, at, is) = Elem-leave m srv.rooms w msg tidy (rw h at e) in
        let (p, q, r) = held m.space d x at in (ground arith, (m, x, h, ap srv.me is ∙ r, p))
  ]

  -- What is sent on a join, apart from the first reply, goes to those in the room that was left and to
  -- those in the room that is joined.
  Elem-join :
      (ws : ℕ) (space device : Text) (srv : Server) (w : ℕ) (msg : Message)
      → IsSound srv
      → IsSound (join is_open parse ws space device srv).0
      → Elem (sent w msg) (join is_open parse ws space device srv).1
      → (is_signal msg ≡ false)
        × ((w ≡ ws) ⊎ (Shares srv ws w ⊎ Shares (join is_open parse ws space device srv).0 ws w))
  unfolding join assign_me
  Elem-join ws space device srv w msg sound (tidy', held', own') e =
      let left = leave_if is_open parse (srv.me ws) srv.rooms in
      let me : Client = record { ws = ws; space = space; device = device } in
      let room = or_else (get space left.0) [] in
      let room' = set device me room in
      elim (Elem-append_inv _ left.1 _ e) [
        | inl q ↦ (let (a, b) = Elem-leave_if ws srv w msg sound q in (a, inr (inl b)))
        | inr q ↦ elim (Elem-append_inv _ (evict (get device room)) _ q) [
          | inl r ↦ absurd (evict_sends_nothing w msg (get device room) r)
          | inr r ↦
              elim (Elem-append_inv _
                (send is_open parse ws (peers (filter (λ d. not (text_eqb d device)) (keys room'))))
                _ r) [
                  | inl t ↦
                      (let (a, b) =
                          Elem-send w ws msg
                            (peers (filter (λ d. not (text_eqb d device)) (keys room'))) t in
                        (ground arith, inl a))
                  | inr t ↦
                      let (same, c, there, is) =
                        Elem-tell_others w device msg (peer_joined device) (values room') t in
                      let placed : get space (set space room' left.0) ≡ some room' =
                        ground (arith, get-set space space room' left.0, eqb_iff space space) in
                      let (d, at) = Elem-values c room' (tidy' space room' placed).0 there in
                      let found : lookup space d (set space room' left.0) ≡ some c =
                        ground
                          (arith, lookup-set space room' left.0 space d, eqb_iff space space) in
                      let (p, z, held) = held' space d c found in
                      (
                        ground arith,
                        inr (
                            inr (
                              me,
                              c,
                              ground arith,
                              ap (assign_me ws (some me) srv.me) is ∙ held,
                              p,
                            )),
                      )
                ]
        ]
      ]

  -- A message of the relay is a refusal to its sender, or goes to a client of the sender's space under the
  -- sender's device.
  Elem-on_signal :
      (ws : ℕ) (v : Value) (srv : Server) (w : ℕ) (msg : Message)
      → IsSound srv
      → Elem (sent w msg) (on_signal is_open parse ws v (srv.me ws) srv.rooms)
      → ((w ≡ ws) × (is_signal msg ≡ false))
        ⊎ ((m : Client) × (c : Client) × (srv.me ws ≡ some m)
            × (srv.me w ≡ some c)
            × (c.space ≡ m.space)
            × ((content : Option Value) × (msg ≡ signal m.device content)))
  unfolding on_signal
  Elem-on_signal ws v srv w msg (tidy, held, own) e = elim (Option-cases (srv.me ws)) [
    | inl h ↦ let (a, b) = Elem-send w ws msg _ (rw h at e) in inl (a, ground arith)
    | inr (m, h) ↦
        let to = str (member (codes "to") v) in
        elim (Option-cases (lookup m.space to srv.rooms)) [
          | inl q ↦ absurd (rw (h, q) at e)
          | inr (c, q) ↦
              let (a, b) = Elem-send w c.ws msg _ (rw (h, q) at e) in
              let (p, y, r) = held m.space to c q in inr (m, c, h, ap srv.me a ∙ r, p, (_, b))
        ]
  ]

  -- All that one event sends, in a sound state: it goes to the event's own socket, or to one that has
  -- joined the same space before or after the event; and what is relayed carries the device that the sender
  -- has joined as and goes to a client of the sender's space.
  pub step-Shares :
      (e : Event) (srv srv' : Server) (out : List Output) (w : ℕ) (msg : Message)
      → IsSound srv
      → step is_open parse e srv ≡ some (srv', out)
      → Elem (sent w msg) out
      → ((w ≡ source e) ⊎ (Shares srv (source e) w ⊎ Shares srv' (source e) w))
        × ((d : Text) (content : Option Value)
            → msg ≡ signal d content
            → (m : Client) × (c : Client) × (srv.me (source e) ≡ some m)
              × (srv.me w ≡ some c)
              × (c.space ≡ m.space)
              × (d ≡ m.device))
  unfolding step on_close
  step-Shares (closed ws) srv srv' out w msg sound h e =
      let same : (leave_if is_open parse (srv.me ws) srv.rooms).1 ≡ out = ground arith in
      let (a, b) = Elem-leave_if ws srv w msg sound (subst (Elem (sent w msg)) (sym same) e) in
      (inr (inl b), λ d content q. absurd (ground arith))
  step-Shares (message ws raw) srv srv' out w msg sound h e =
      elim (message-Handled is_open parse ws raw srv (srv', out) h) [
        | inl (text, q) ↦
            let same : out ≡ send is_open parse ws (error text) = ground arith in
            let (a, b) = Elem-send w ws msg (error text) (subst (Elem (sent w msg)) same e) in
            (inl a, λ d content z. absurd (ground arith))
        | inr (inl (v, q)) ↦
            let same : out ≡ on_signal is_open parse ws v (srv.me ws) srv.rooms = ground arith in
            elim (Elem-on_signal ws v srv w msg sound (subst (Elem (sent w msg)) same e)) [
              | inl (a, b) ↦ (inl a, λ d content z. absurd (ground arith))
              | inr (m, c, a, b, p, (content, is)) ↦
                  (inr (inl (m, c, a, b, p)), λ d content' z. (m, c, a, b, p, ground arith))
            ]
        | inr (inr (space, device, q)) ↦
            let joined = join is_open parse ws space device srv in
            let now : srv' ≡ joined.0 = ap (λ r. r.0) q in
            let same : out ≡ joined.1 = ap (λ r. r.1) q in
            let sound' = step-IsSound is_open parse (message ws raw) srv srv' out sound h in
            let (a, b) =
              Elem-join ws space device srv w msg sound (subst IsSound now sound')
                (subst (Elem (sent w msg)) same e) in
            (
              subst (λ x. (w ≡ ws) ⊎ (Shares srv ws w ⊎ Shares x ws w)) (sym now) b,
              λ d content z. absurd (ground arith),
            )
      ]

  -- When a connection closes, its socket is taken out of the room that it is in, and every other client stays
  -- where it is, one that has replaced it under its names too.
  pub lookup-on_close :
      (ws : ℕ) (srv : Server) (s d : Text) (c : Client)
      → IsSound srv
      → (lookup s d (on_close is_open parse ws srv).0.rooms ≡ some c)
        ↔ ((lookup s d srv.rooms ≡ some c) × ((c.ws == ws) ≡ false))
  unfolding on_close
  lookup-on_close ws srv s d c (tidy, held, own) = (
    λ at. lookup-leave_if is_open parse ws srv.me srv.rooms s d c held at,
    λ t. elim (Option-cases (srv.me ws)) [
      | inl h ↦ rw h t.0
      | inr (m, h) ↦ rw h (ground (arith, lookup-leave is_open parse m srv.rooms s d, own ws m h))
    ],
  )
