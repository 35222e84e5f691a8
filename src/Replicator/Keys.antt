-- ===== src/Replicator/Keys.antt =====
-- The directory of device keys under the messages of packages/core/src/replicator.ts.
use tangentfeed.Prelude.{
  ℕ, ◌≡◌, sym, ◌∙◌, subst, inl, inr, [], ◌∷◌, Text, Map, set, All, arith, Bool-cases, text_eqb,
  eqb_iff,
}
use tangentfeed.Signing.{Platform, Bytes, device_id_from_public_key}
use tangentfeed.Op.{Frontier}
use tangentfeed.Engine.{SyncEngine, learn_key, record_peer_frontier}
use tangentfeed.Replicator.{WireMsg, Replicator, handle}
use tangentfeed.Engine.Remote.Directory.{apply-keys, clock-keys}
use tangentfeed.Replicator.Handling.{handle_kept}

module _ (p : Platform) where
  -- Every key is the key of the device that it is filed under.
  abbrev pub IsOwned : Map Bytes → Type 0
  IsOwned ks = All (λ (k : Text × Bytes). device_id_from_public_key p k.1 ≡ k.0) ks

  set-IsOwned :
      (id : Text) (k : Bytes) (ks : Map Bytes)
      → device_id_from_public_key p k ≡ id
      → IsOwned ks
      → IsOwned (set id k ks)
  unfolding set
  set-IsOwned id k [] q h = (q, tt)
  set-IsOwned id k ((j, v) ∷ ks) q h = elim (Bool-cases (text_eqb j id)) [
    | inl b ↦ rw b (q ∙ sym ((eqb_iff j id).0 b), h.1)
    | inr b ↦ rw b (h.0, set-IsOwned id k ks q h.1)
  ]

  learn-IsOwned :
      (id : Text) (k : Bytes) (e : SyncEngine)
      → IsOwned e.keys
      → IsOwned (learn_key p id k e).1.keys
  unfolding learn_key
  learn-IsOwned id k e h = elim (Bool-cases (text_eqb (device_id_from_public_key p k) id)) [
    | inl b ↦ rw b (set-IsOwned id k e.keys ((eqb_iff _ id).0 b) h)
    | inr b ↦ rw b h
  ]

  recorded-keys :
      (peer : Text) (f : Frontier) (e : SyncEngine) → (record_peer_frontier peer f e).keys ≡ e.keys
  unfolding record_peer_frontier
  recorded-keys peer f e = ground arith

module _ (p : Platform) (physical_clock : ℕ → ℕ) where
  -- Whatever message arrives, each key in the engine's directory stays that of the device that it is
  -- filed under, when each was.
  pub handle-IsOwned :
      (m : WireMsg) (r : Replicator)
      → IsOwned p r.engine.keys
      → IsOwned p (handle p physical_clock m r).engine.keys
  handle-IsOwned =
      handle_kept p physical_clock (λ e. IsOwned p e.keys)
        (record {
          learn = learn-IsOwned p;
          observed = λ clock e h. subst (IsOwned p) (sym (clock-keys p physical_clock clock e)) h;
          apply = λ vs e h. subst (IsOwned p) (sym (apply-keys p physical_clock vs e)) h;
          recorded = λ peer f e h. subst (IsOwned p) (sym (recorded-keys p peer f e)) h;
        })
