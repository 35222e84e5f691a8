-- ===== src/Engine/Remote/Directory.antt =====
-- The directory of device keys under the remote operations of packages/core/src/engine.ts, which leave
-- it alone.
use tangentfeed.Prelude.{ℕ, ◌≡◌, refl, ◌∙◌, Option, none, some, List, [], ◌∷◌, Text, arith}
use tangentfeed.Errors.{Result, ok, err}
use tangentfeed.Values.{Value}
use tangentfeed.Signing.{Platform}
use tangentfeed.Op.{Op}
use tangentfeed.Engine.{SyncEngine, commit, persist_clock}
use tangentfeed.Engine.Remote.{apply_remote_ops, observe_remote_clock, observe, clock_persisted}
use tangentfeed.Hlc.{Hlc}
use tangentfeed.Engine.Remote.{
  admit, after_admission, locked_apply, after_observing, observe_max, store_fresh,
}

module _ (physical_clock : ℕ → ℕ) where
  observe-keys : (hlc : Text) (e : SyncEngine) → (observe physical_clock hlc e).1.keys ≡ e.keys
  unfolding observe
  observe-keys hlc e = ground arith

  persisted-keys : (a : Result Hlc × SyncEngine) → (clock_persisted a).1.keys ≡ a.1.keys
  unfolding clock_persisted persist_clock
  persisted-keys (err x, e) = refl
  persisted-keys (ok u, e) = refl

  observe_max-keys :
      (m : Option Op) (e : SyncEngine) → (observe_max physical_clock m e).1.keys ≡ e.keys
  unfolding observe_max
  observe_max-keys none e = refl
  observe_max-keys (some op) e = observe-keys op.hlc e

  store_fresh-keys :
      (fresh : List Op) (e : SyncEngine) → (store_fresh physical_clock fresh e).1.keys ≡ e.keys
  unfolding store_fresh persist_clock commit
  store_fresh-keys [] e = refl
  store_fresh-keys (op ∷ fresh) e = refl

  after_observing-keys :
      (os : List Op) (a : Result (Unit {0}) × SyncEngine)
      → (after_observing physical_clock os a).1.keys ≡ a.1.keys
  unfolding after_observing
  after_observing-keys os (err x, e) = refl
  after_observing-keys os (ok u, e) = store_fresh-keys _ e

  after_admission-keys :
      (a : Result (List Op)) (e : SyncEngine) → (after_admission physical_clock a e).1.keys ≡ e.keys
  unfolding after_admission locked_apply
  after_admission-keys (err x) e = refl
  after_admission-keys (ok os) e = after_observing-keys os _ ∙ observe_max-keys _ e

module _ (p : Platform) (physical_clock : ℕ → ℕ) where
  pub apply-keys :
      (vs : List Value) (e : SyncEngine) → (apply_remote_ops p physical_clock vs e).1.keys ≡ e.keys
  unfolding apply_remote_ops
  apply-keys vs e = after_admission-keys physical_clock (admit p vs e) e

  pub clock-keys :
      (clock : Text) (e : SyncEngine)
      → (observe_remote_clock physical_clock clock e).1.keys ≡ e.keys
  unfolding observe_remote_clock
  clock-keys clock e =
      persisted-keys physical_clock (observe physical_clock clock e)
      ∙ observe-keys physical_clock clock e
