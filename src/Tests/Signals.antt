-- ===== src/Tests/Signals.antt =====
-- The signaling server of packages/signaling-server/src/index.ts with two sockets in a room.
use tangentfeed.Prelude.{
  ℕ, ◌≡◌, refl, ◌↔◌, ◌⊎◌, inl, Bool, true, false, Option, none, some, [], ◌∷◌, Text, codes,
  text_compare, text_eqb, ◌==◌, if◌then◌else◌,
}
use tangentfeed.Values.{Value, Fields, end}
use tangentfeed.Signaling.{
  Client, Server, Event, message, closed, Message, Output, sent, closing, peers, peer_joined,
  peer_left, error, signal, empty_server, lookup, on_close, step,
}
use tangentfeed.Signaling
use tangentfeed.Signaling.Soundness.{IsSound, Reach, start, next, Reach-IsSound}
use tangentfeed.Signaling.Relay.{Shares, step-Shares, lookup-on_close}

abbrev is_open : ℕ → Bool
is_open ws = true

abbrev target : ℕ
target = 1

-- A parser of four texts, named by one letter.
abbrev parse : Text → Option Value
parse raw =
    if text_eqb raw (codes "a")
    then some (
        Value.object (
          Fields.field (codes "t") (Value.string (codes "join")) (
            Fields.field (codes "space") (Value.string (codes "s"))
              (Fields.field (codes "device") (Value.string (codes "a")) end))))
    else if text_eqb raw (codes "b")
    then some (
        Value.object (
          Fields.field (codes "t") (Value.string (codes "join")) (
            Fields.field (codes "space") (Value.string (codes "s"))
              (Fields.field (codes "device") (Value.string (codes "b")) end))))
    else if text_eqb raw (codes "x")
    then some (
        Value.object (
          Fields.field (codes "t") (Value.string (codes "signal")) (
            Fields.field (codes "to") (Value.string (codes "a"))
              (Fields.field (codes "data") Value.null end))))
    else if text_eqb raw (codes "n")
    then some Value.null
    else none

abbrev run : Event → Server → Server
unfolding Signaling.program text_compare
run e srv = elim (step is_open parse e srv) [ none ↦ srv | some r ↦ r.0 ]

abbrev one : Server
one = run (message 1 (codes "a")) empty_server

abbrev two : Server
two = run (message 2 (codes "b")) one

outputs :
    (step is_open parse (message 2 (codes "b")) one
      ≡ some (two, sent 2 (peers (codes "a" ∷ [])) ∷ sent 1 (peer_joined (codes "b")) ∷ []))
    × (step is_open parse (message 2 (codes "x")) two
        ≡ some (two, sent 1 (signal (codes "b") (some Value.null)) ∷ []))
unfolding Signaling.program text_compare run
outputs = (refl, refl)

-- The text of a null ends the handler with an exception.
null_throws : step is_open parse (message 2 (codes "n")) two ≡ none
unfolding Signaling.program text_compare
null_throws = refl

Reach-two : Reach parse two
unfolding Signaling.program text_compare run
Reach-two =
    next is_open (message 2 (codes "b")) one two _
      (next is_open (message 1 (codes "a")) empty_server one _ start refl) refl

Reach-IsSound_example : IsSound two
Reach-IsSound_example = Reach-IsSound parse two Reach-two

step-Shares_example :
    ((target ≡ 2) ⊎ (Shares two 2 1 ⊎ Shares two 2 1))
    × ((d : Text) (content : Option Value)
        → signal (codes "b") (some Value.null) ≡ signal d content
        → (m : Client) × (c : Client) × (two.me 2 ≡ some m)
          × (two.me 1 ≡ some c)
          × (c.space ≡ m.space)
          × (d ≡ m.device))
step-Shares_example =
    step-Shares is_open parse (message 2 (codes "x")) two two
      (sent 1 (signal (codes "b") (some Value.null)) ∷ []) 1 (signal (codes "b") (some Value.null))
      (Reach-IsSound parse two Reach-two) outputs.1 (inl refl)

lookup-on_close_example :
    (lookup (codes "s") (codes "a") (on_close is_open parse 2 two).0.rooms
      ≡ some (record { ws = 1; space = codes "s"; device = codes "a" }))
    ↔ ((lookup (codes "s") (codes "a") two.rooms
          ≡ some (record { ws = 1; space = codes "s"; device = codes "a" }))
        × ((1 == 2) ≡ false))
lookup-on_close_example =
    lookup-on_close is_open parse 2 two (codes "s") (codes "a")
      (record { ws = 1; space = codes "s"; device = codes "a" }) (Reach-IsSound parse two Reach-two)
