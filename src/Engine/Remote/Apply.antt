-- ===== src/Engine/Remote/Apply.antt =====
-- What `applyRemoteOps` of packages/core/src/engine.ts does to the store.
use tangentfeed.Prelude.{
  ℕ, ◌≡◌, refl, sym, ap, ◌∙◌, subst, inl, inr, ◌⊎◌, true, false, Option, none, some, List, [], ◌∷◌,
  arith, Elem, length, Option-cases,
}
use tangentfeed.Errors.{Error, Result, ok, err, Result-cases}
use tangentfeed.Values.{Value}
use tangentfeed.Signing.{Platform}
use tangentfeed.Op.{Op}
use tangentfeed.Op.Valid.{IsValid}
use tangentfeed.Storage.{MemoryAdapter, has_op}
use tangentfeed.Replica.{Replica, merge_all}
use tangentfeed.Replica.Coherence.{IsCoherent, Agrees}
use tangentfeed.Replica.Convergence.{merge_all-IsCoherent}
use tangentfeed.Engine.{
  SyncEngine, Subscriber, ChangeEvent, notify, event_of, commit, remote, max_op, fresh_ops,
}
use tangentfeed.Engine.Commit.{Refines, commit-Refines, persist_clock-Refines}
use tangentfeed.Engine.Remote.{
  admit, observe_max, store_fresh, after_observing, after_admission, apply_remote_ops,
}
use tangentfeed.Engine.Remote.Fresh.{has_id, fresh_ops_complete}
use tangentfeed.Engine.Remote.Admission.{admit-IsSigned}
use tangentfeed.Engine.Remote.Filter.{IsFresh, fresh_ops-IsFresh, fresh_ops-subset}

-- What a batch makes of a replica: operations of it are merged, each of them new, and no id of the
-- batch is left out that was new.
pub record Applied (s : Replica) (st : MemoryAdapter) (ops : List Op) (n : ℕ) (st' : MemoryAdapter)
    : Type 0 where
  pub fresh : List Op
  pub from_batch : (x : Op) → Elem x fresh → Elem x ops × (has_op x.id st ≡ false)
  pub complete : (x : Op) → Elem x ops → (has_op x.id st ≡ true) ⊎ (has_id x.id fresh ≡ true)
  pub counted : n ≡ length fresh
  pub refines : Refines st' (merge_all s fresh)
  pub coherent : IsCoherent (merge_all s fresh)

in_batch : (st : MemoryAdapter) (ops : List Op) (x : Op) → Elem x (fresh_ops st ops []) → Elem x ops
in_batch st ops x m = elim (fresh_ops-subset st ops [] x m) [ inl n ↦ absurd n | inr k ↦ k ]

-- No logged operation has the id of a new one.
new-Agrees :
    (st : MemoryAdapter) (s : Replica)
    → Refines st s
    → (x : Op) → has_op x.id st ≡ false
    → Agrees s x
unfolding has_op
new-Agrees st s r x new y known = absurd (ground (arith, r.same_log x.id))

-- A subscriber throws this error on some event.
abbrev pub IsThrown : List Subscriber → Error → Type 0
IsThrown subscribers x =
    (t : Subscriber) × (event : ChangeEvent) × Elem t subscribers
    × (t.throws t.called event ≡ some x)

-- Every subscriber is called, or one of them throws.
pub notify-cases :
    (event : ChangeEvent) (subscribers : List Subscriber)
    → ((notify event subscribers).0 ≡ ok tt)
      ⊎ ((x : Error) × ((notify event subscribers).0 ≡ err x) × IsThrown subscribers x)
unfolding notify
notify-cases event [] = inl refl
notify-cases event (t ∷ subscribers) = elim (Option-cases (t.throws t.called event)) [
  | inr (x, q) ↦ inr (x, rw (q, notify) refl, (t, event, inl refl, q))
  | inl q ↦ elim (notify-cases event subscribers) [
    | inl done ↦ inl (rw (q, notify) done)
    | inr (x, failed, (t', event', at, thrown)) ↦
        inr (x, rw (q, notify) failed, (t', event', inr at, thrown))
  ]
]

module _ (physical_clock : ℕ → ℕ) where
  observe_max-storage :
      (m : Option Op) (e : SyncEngine) → (observe_max physical_clock m e).1.storage ≡ e.storage
  unfolding observe_max
  observe_max-storage none e = refl
  observe_max-storage (some op) e = ground arith

  observe_max-subscribers :
      (m : Option Op) (e : SyncEngine)
      → (observe_max physical_clock m e).1.subscribers ≡ e.subscribers
  unfolding observe_max
  observe_max-subscribers none e = refl
  observe_max-subscribers (some op) e = ground arith

  store_fresh-Refines :
      (fresh : List Op) (e : SyncEngine) (s : Replica)
      → ((x : Op) → Elem x fresh → IsValid x)
      → Refines e.storage s
      → Refines (store_fresh physical_clock fresh e).1.storage (merge_all s fresh)
  unfolding store_fresh merge_all
  store_fresh-Refines [] e s valid h = persist_clock-Refines e s h
  store_fresh-Refines (op ∷ ops) e s valid h = commit-Refines (op ∷ ops) remote e s valid h

  -- The count, unless a subscriber has thrown.
  store_fresh-cases :
      (fresh : List Op) (e : SyncEngine)
      → ((store_fresh physical_clock fresh e).0 ≡ ok (length fresh))
        ⊎ ((x : Error) × ((store_fresh physical_clock fresh e).0 ≡ err x)
            × IsThrown e.subscribers x)
  unfolding store_fresh commit
  store_fresh-cases [] e = inl refl
  store_fresh-cases (op ∷ ops) e = elim (notify-cases (event_of (op ∷ ops) remote) e.subscribers) [
    | inl q ↦ inl (rw q refl)
    | inr (x, q, thrown) ↦ inr (x, rw q refl, thrown)
  ]

  -- What the locked section comes to: an error of the clock, or a batch that is applied.
  after_observing-cases :
      (ops : List Op) (seen : Result (Unit {0}) × SyncEngine) (s : Replica)
      → ((x : Op) → Elem x ops → IsValid x)
      → Refines seen.1.storage s
      → IsCoherent s
      → ((x : Error) × (after_observing physical_clock ops seen ≡ (err x, seen.1))
          × (seen.0 ≡ err x))
        ⊎ ((seen.0 ≡ ok tt)
            × (n : ℕ) × Applied s seen.1.storage ops n
                (after_observing physical_clock ops seen).1.storage
            × (((after_observing physical_clock ops seen).0 ≡ ok n)
                ⊎ ((x : Error) × ((after_observing physical_clock ops seen).0 ≡ err x)
                    × IsThrown seen.1.subscribers x)))
  unfolding after_observing
  after_observing-cases ops (err y, e) s valid r c = inl (y, refl, refl)
  after_observing-cases ops (ok u, e) s valid r c =
      let start : IsFresh e.storage [] = record {
        unknown = λ x m. absurd m;
        apart = λ x y m k q. absurd m;
      } in
      let f = fresh_ops-IsFresh e.storage ops [] start in
      let sub = λ (x : Op) (m : Elem x (fresh_ops e.storage ops [])). in_batch e.storage ops x m in
      let v = λ (x : Op) (m : Elem x (fresh_ops e.storage ops [])). valid x (sub x m) in
      inr (
        refl,
        length (fresh_ops e.storage ops []),
        record {
          fresh = fresh_ops e.storage ops [];
          from_batch = λ x m. (sub x m, f.unknown x m);
          complete = fresh_ops_complete e.storage ops [];
          counted = refl;
          refines = store_fresh-Refines (fresh_ops e.storage ops []) e s v r;
          coherent =
              merge_all-IsCoherent s (fresh_ops e.storage ops []) c
                (record { valid = v; one_each = f.apart })
                (λ x m. new-Agrees e.storage s r x (f.unknown x m));
        },
        store_fresh-cases (fresh_ops e.storage ops []) e,
      )

-- What became of a batch that was applied: it is counted, or a subscriber has thrown.
abbrev pub IsNotified : List Subscriber → Result ℕ → ℕ → Type 0
IsNotified subscribers r n = (r ≡ ok n) ⊎ ((x : Error) × (r ≡ err x) × IsThrown subscribers x)

module _ (p : Platform) (physical_clock : ℕ → ℕ) (vs : List Value) (e : SyncEngine) (s : Replica)
    (refines : Refines e.storage s) (coherent : IsCoherent s) where
  -- A batch is refused, and leaves the store as it was, or it was admitted, the clock has accepted it, and it is
  -- applied.
  pub apply_remote_ops-cases :
      (((x : Error) × ((apply_remote_ops p physical_clock vs e).0 ≡ err x)
          × ((ops : List Op)
              → admit p vs e ≡ ok ops
              → (observe_max physical_clock (max_op none ops) e).0 ≡ err x))
        × ((apply_remote_ops p physical_clock vs e).1.storage ≡ e.storage))
      ⊎ ((ops : List Op) × (admit p vs e ≡ ok ops)
          × ((observe_max physical_clock (max_op none ops) e).0 ≡ ok tt)
          × (n : ℕ) × Applied s e.storage ops n (apply_remote_ops p physical_clock vs e).1.storage
          × IsNotified e.subscribers (apply_remote_ops p physical_clock vs e).0 n)
  unfolding apply_remote_ops
  apply_remote_ops-cases = elim (Result-cases (admit p vs e)) [
    | inl (y, q) ↦ inl (rw (q, apply_remote_ops) ((y, refl, λ ops r. absurd (ground arith)), refl))
    | inr (ops, q) ↦
        let m = max_op none ops in
        let seen = observe_max physical_clock m e in
        let same = observe_max-storage physical_clock m e in
        let told = observe_max-subscribers physical_clock m e in
        let here : apply_remote_ops p physical_clock vs e
            ≡ after_observing physical_clock ops seen =
          ap (λ a. after_admission physical_clock a e) q in
        elim (after_observing-cases physical_clock ops seen s
          (λ x m. ((admit-IsSigned p vs e ops q).1 x m).0)
          (subst (λ st. Refines st s) (sym same) refines) coherent) [
            | inl (x, w, late) ↦ inl (
              (
                x,
                ap (λ a. a.0) (here ∙ w),
                λ os r.
                    subst (λ l. (observe_max physical_clock (max_op none l) e).0 ≡ err x)
                      (ops_injective ops os (sym q ∙ r)) late,
              ),
              ap (λ a. a.1.storage) (here ∙ w) ∙ same,
            )
            | inr (accepted, n, applied, notified) ↦
                let notified' : IsNotified seen.1.subscribers
                    (after_observing physical_clock ops seen).0 n =
                  notified in
                inr (
                  ops,
                  q,
                  accepted,
                  n,
                  subst (λ a. Applied s e.storage ops n a.1.storage) (sym here)
                      (subst
                        (λ st.
                          Applied s st ops n (after_observing physical_clock ops seen).1.storage)
                        same applied),
                  subst (λ a. IsNotified e.subscribers a.0 n) (sym here)
                      (subst (λ t. IsNotified t (after_observing physical_clock ops seen).0 n) told
                        notified'),
                )
          ]
  ]
    where
      ops_injective : (a b : List Op) → ok a ≡ ok b → a ≡ b
      ops_injective a b q = ground arith

module _ (p : Platform) (physical_clock : ℕ → ℕ) (vs : List Value) (e e' : SyncEngine) where
  -- An error leaves the store as it was, unless a subscriber has thrown it: then the batch was admitted, and is
  -- applied as if it had been accepted. The store is that of a coherent replica.
  pub apply_remote_ops-err :
      (x : Error) (s : Replica)
      → Refines e.storage s
      → IsCoherent s
      → apply_remote_ops p physical_clock vs e ≡ (err x, e')
      → (e'.storage ≡ e.storage)
        ⊎ (IsThrown e.subscribers x
            × (ops : List Op) × (admit p vs e ≡ ok ops)
            × (n : ℕ) × Applied s e.storage ops n e'.storage)
  apply_remote_ops-err x s refines coherent h =
      let left = ap (λ a. a.1.storage) h in
      elim (apply_remote_ops-cases p physical_clock vs e s refines coherent) [
        | inl (failed, kept) ↦ inl (sym left ∙ kept)
        | inr (ops, q, accepted, n, applied, inl done) ↦ absurd (ground (arith, ap (λ a. a.0) h))
        | inr (ops, q, accepted, n, applied, inr (y, failed, thrown)) ↦
            let same : y ≡ x = err_injective y x _ failed (ap (λ a. a.0) h) in
            inr (
              subst (IsThrown e.subscribers) same thrown,
              ops,
              q,
              n,
              subst (λ st. Applied s e.storage ops n st) left applied,
            )
      ]
    where
      err_injective : (a b : Error) (r : Result ℕ) → r ≡ err a → r ≡ err b → a ≡ b
      err_injective a b r q q' = ground arith

  -- A batch that is accepted, by a store that refines a coherent replica, was admitted, and the store
  -- then refines the replica with operations of the batch merged, which is coherent; these were all
  -- unknown to the store, every unknown id of the batch is among theirs, and the count is their
  -- number.
  pub apply_remote_ops-Applied :
      (n : ℕ) (s : Replica)
      → Refines e.storage s
      → IsCoherent s
      → apply_remote_ops p physical_clock vs e ≡ (ok n, e')
      → (ops : List Op) × (admit p vs e ≡ ok ops) × Applied s e.storage ops n e'.storage
  apply_remote_ops-Applied n s refines coherent h =
      let left = ap (λ a. a.1.storage) h in
      elim (apply_remote_ops-cases p physical_clock vs e s refines coherent) [
        | inl ((x, failed, late), kept) ↦ absurd (ground (arith, ap (λ a. a.0) h))
        | inr (ops, q, accepted, m, applied, inr (y, failed, thrown)) ↦
            absurd (ground (arith, ap (λ a. a.0) h))
        | inr (ops, q, accepted, m, applied, inl done) ↦
            let same : m ≡ n = ok_injective m n (sym done ∙ ap (λ a. a.0) h) in
            (
              ops,
              q,
              subst (λ k. Applied s e.storage ops k e'.storage) same
                  (subst (λ st. Applied s e.storage ops m st) left applied),
            )
      ]
    where
      ok_injective : (a b : ℕ) → ok a ≡ ok b → a ≡ b
      ok_injective a b q = ground arith
