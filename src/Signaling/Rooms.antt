-- ===== src/Signaling/Rooms.antt =====
-- What is found in the rooms of packages/signaling-server/src/index.ts after each of their updates.
use tangentfeed.Prelude.{
  ℕ, ◌≡◌, refl, ap, ◌∙◌, subst, inl, inr, Bool, true, false, ◌&&◌, Option, none, some, [], ◌∷◌,
  arith, Text, Map, get, set, delete, or_else, text_eqb, eqb_iff, get-set, get-delete, set-IsUnique,
  delete-IsUnique, IsUnique, Bool-cases, Option-cases, if◌then◌else◌,
}
use tangentfeed.Values.{Value}
use tangentfeed.Signaling.{Client, Rooms, is_vacant, in_room, lookup, is_held_by, keep_room, leave}

-- The clients of each room stand under their own names, and no empty room is kept.
abbrev pub IsTidy : Rooms → Type 0
IsTidy rooms =
    (space : Text) (room : Map Client)
    → get space rooms ≡ some room
    → IsUnique room × (is_vacant room ≡ false)

in_room-if :
    (d : Text) (b : Bool) (o o' : Option (Map Client))
    → in_room d (if b then o else o') ≡ (if b then in_room d o else in_room d o')
in_room-if d true o o' = refl
in_room-if d false o o' = refl

pub lookup-set :
    (space : Text) (room : Map Client) (rooms : Rooms) (s d : Text)
    → lookup s d (set space room rooms)
      ≡ (if text_eqb space s then get d room else lookup s d rooms)
unfolding lookup
lookup-set space room rooms s d =
    ap (in_room d) (get-set space s room rooms)
    ∙ in_room-if d (text_eqb space s) (some room) (get s rooms)

lookup-delete :
    (space : Text) (rooms : Rooms) (s d : Text)
    → lookup s d (delete space rooms) ≡ (if text_eqb space s then none else lookup s d rooms)
unfolding lookup
lookup-delete space rooms s d =
    ap (in_room d) (get-delete space s rooms) ∙ in_room-if d (text_eqb space s) none (get s rooms)

-- The clients of a room, which are none if it is not there.
get-or_else : (d : Text) (o : Option (Map Client)) → get d (or_else o []) ≡ in_room d o
unfolding get
get-or_else d none = refl
get-or_else d (some room) = refl

pub get-room :
    (space device : Text) (rooms : Rooms)
    → get device (or_else (get space rooms) []) ≡ lookup space device rooms
unfolding lookup
get-room space device rooms = get-or_else device (get space rooms)

get_of_vacant : (d : Text) (room : Map Client) → is_vacant room ≡ true → get d room ≡ none
unfolding get
get_of_vacant d [] h = refl
get_of_vacant d (e ∷ room) h = ground arith

module _ (is_open : ℕ → Bool) (parse : Text → Option Value) where
  lookup-keep_room :
      (space : Text) (room : Map Client) (rooms : Rooms) (s d : Text)
      → lookup s d (keep_room is_open parse space room rooms)
        ≡ (if text_eqb space s then get d room else lookup s d rooms)
  lookup-keep_room space room rooms s d = elim (Bool-cases (is_vacant room)) [
    | inl h ↦ rw (h, get_of_vacant d room h) (lookup-delete space rooms s d)
    | inr h ↦ rw h (lookup-set space room rooms s d)
  ]

  -- A client that leaves is found no more, if it is the one that its room has; nothing else changes.
  pub lookup-leave :
      (c : Client) (rooms : Rooms) (s d : Text)
      → lookup s d (leave is_open parse c rooms).0 ≡ (
          if text_eqb c.space s && (text_eqb c.device d && is_held_by c.ws (lookup s d rooms))
          then none
          else lookup s d rooms)
  unfolding leave
  lookup-leave c rooms s d = elim (Bool-cases (is_held_by c.ws (lookup c.space c.device rooms))) [
    | inl h ↦ rw h (
        lookup-keep_room c.space (delete c.device (or_else (get c.space rooms) [])) rooms s d
        ∙ ground (
          arith,
          eqb_iff c.space s,
          eqb_iff c.device d,
          get-delete c.device d (or_else (get c.space rooms) []),
          get-room c.space d rooms,
        ))
    | inr h ↦ rw h (ground (arith, eqb_iff c.space s, eqb_iff c.device d))
  ]

  keep_room-IsTidy :
      (space : Text) (room : Map Client) (rooms : Rooms)
      → IsUnique room
      → IsTidy rooms
      → IsTidy (keep_room is_open parse space room rooms)
  keep_room-IsTidy space room rooms u tidy s r at = elim (Bool-cases (is_vacant room)) [
    | inl h ↦ tidy s r (ground (arith, get-delete space s rooms))
    | inr h ↦ elim (Bool-cases (text_eqb space s)) [
      | inl q ↦
          let same : room ≡ r = ground (arith, get-set space s room rooms) in
          subst (λ x. IsUnique x × (is_vacant x ≡ false)) same (u, h)
      | inr q ↦ tidy s r (ground (arith, get-set space s room rooms))
    ]
  ]

  pub or_else-IsUnique :
      (space : Text) (rooms : Rooms) → IsTidy rooms → IsUnique (or_else (get space rooms) [])
  or_else-IsUnique space rooms tidy = elim (Option-cases (get space rooms)) [
    | inl h ↦ rw h tt
    | inr (room, h) ↦ rw h (tidy space room h).0
  ]

  pub leave-IsTidy :
      (c : Client) (rooms : Rooms) → IsTidy rooms → IsTidy (leave is_open parse c rooms).0
  unfolding leave
  leave-IsTidy c rooms tidy = elim (Bool-cases (is_held_by c.ws (lookup c.space c.device rooms))) [
    | inl h ↦ rw h (
        keep_room-IsTidy c.space (delete c.device (or_else (get c.space rooms) [])) rooms
          (delete-IsUnique c.device (or_else (get c.space rooms) [])
            (or_else-IsUnique c.space rooms tidy))
          tidy)
    | inr h ↦ rw h tidy
  ]

  set_not_vacant : (k : Text) (v : Client) (room : Map Client) → is_vacant (set k v room) ≡ false
  unfolding set
  set_not_vacant k v [] = refl
  set_not_vacant k v ((j, w) ∷ room) = ground arith

  -- The rooms with a client put under its names.
  pub set_client-IsTidy :
      (space device : Text) (c : Client) (rooms : Rooms)
      → IsTidy rooms
      → IsTidy (set space (set device c (or_else (get space rooms) [])) rooms)
  set_client-IsTidy space device c rooms tidy s r at = elim (Bool-cases (text_eqb space s)) [
    | inl q ↦
        let room = or_else (get space rooms) [] in
        let same : set device c room ≡ r =
          ground (arith, get-set space s (set device c room) rooms) in
        subst (λ x. IsUnique x × (is_vacant x ≡ false)) same
          (
            set-IsUnique device c room (or_else-IsUnique space rooms tidy),
            set_not_vacant device c room,
          )
    | inr q ↦
        tidy s r
          (ground (arith, get-set space s (set device c (or_else (get space rooms) [])) rooms))
  ]

  -- The client that has joined is found under its names; nothing else changes.
  pub lookup-set_client :
      (space device : Text) (c : Client) (rooms : Rooms) (s d : Text)
      → lookup s d (set space (set device c (or_else (get space rooms) [])) rooms)
        ≡ (if text_eqb space s && text_eqb device d then some c else lookup s d rooms)
  lookup-set_client space device c rooms s d =
      let room = or_else (get space rooms) [] in
      ground (
        arith,
        eqb_iff space s,
        lookup-set space (set device c room) rooms s d,
        get-set device d c room,
        get-room space d rooms,
      )
