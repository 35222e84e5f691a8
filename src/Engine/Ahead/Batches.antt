-- ===== src/Engine/Ahead/Batches.antt =====
-- What remote operations and clocks do to a healthy engine of packages/core/src/engine.ts.
use tangentfeed.Prelude.{
  ℕ, ◌≡◌, refl, sym, ap, ◌∙◌, subst, inl, inr, true, Option, none, some, Ordering, List, [], ◌∷◌,
  arith, Text, text_ltb, text_leb, leb_refl, leb_trans, leb_of_lt, get, Elem, Bool-cases,
}
use tangentfeed.Errors.{Result, ok, err, Result-cases}
use tangentfeed.Values.{Value}
use tangentfeed.Signing.{Platform, Bytes}
use tangentfeed.Hlc.{Hlc, compare_hlc, encode_hlc, decode_hlc, receive}
use tangentfeed.Hlc.Codec.{InRange, decode_hlc-encode_hlc}
use tangentfeed.Hlc.Order.{compare-encode_hlc, compare_hlc-flip, eq_of_compare_hlc}
use tangentfeed.Hlc.Ticks.{receive_increases}
use tangentfeed.Op.{Op, Frontier}
use tangentfeed.Op.Valid.{IsValid}
use tangentfeed.Storage.{apply_batch, set_ops, set_peer_frontier}
use tangentfeed.Replica.Convergence.{log-merge_all}
use tangentfeed.Replicator.Safety.{IsSound, learn-IsSound, recorded-IsSound, observe-IsSound}
use tangentfeed.Engine.{
  SyncEngine, max_op, fresh_ops, commit, persist_clock, learn_key, record_peer_frontier,
}
use tangentfeed.Engine.Remote.{
  admit, observe, observe_max, store_fresh, after_observing, apply_remote_ops, observe_remote_clock,
  clock_persisted,
}
use tangentfeed.Engine.Remote.Admission.{admit-IsSigned}
use tangentfeed.Engine.Remote.Apply.{apply_remote_ops-cases}
use tangentfeed.Engine.Ahead.{
  IsSince, IsSince-trans, IsClock, receive-IsClock, receive-IsSince, IsBehind, later-IsBehind,
}
use tangentfeed.Engine.Ahead.Stamped.{IsTicked}
use tangentfeed.Engine.Ahead.Writes.{IsHealthy, ticked-IsHealthy}

-- The newest of a batch is in it, and none is newer.
max_op-newest :
    (o : Op) (ops : List Op)
    → (m : Op) × (max_op (some o) ops ≡ some m)
      × Elem m (o ∷ ops)
      × ((x : Op) → Elem x (o ∷ ops) → text_leb x.hlc m.hlc ≡ true)
unfolding max_op
max_op-newest o [] = (
  o,
  refl,
  inl refl,
  λ x e. elim e [
    | inl q ↦ subst (λ (y : Op). text_leb y.hlc o.hlc ≡ true) (sym q) (leb_refl o.hlc)
    | inr n ↦ absurd n
  ],
)
max_op-newest o (x ∷ ops) = elim (Bool-cases (text_ltb o.hlc x.hlc)) [
  | inl h ↦
      let (m, at, e, newest) = max_op-newest x ops in
      rw h (
        m,
        at,
        inr e,
        λ y i. elim i [
          | inl q ↦
              let first =
                leb_trans o.hlc x.hlc m.hlc (leb_of_lt o.hlc x.hlc h) (newest x (inl refl)) in
              subst (λ (z : Op). text_leb z.hlc m.hlc ≡ true) (sym q) first
          | inr j ↦ newest y j
        ],
      )
  | inr h ↦
      let (m, at, e, newest) = max_op-newest o ops in
      rw h (
        m,
        at,
        elim e [ inl q ↦ inl q | inr j ↦ inr (inr j) ],
        λ y i. elim i [
          | inl q ↦ newest y (inl q)
          | inr (inl q) ↦
              let below : text_leb x.hlc o.hlc ≡ true = ground arith in
              let second = leb_trans x.hlc o.hlc m.hlc below (newest o (inl refl)) in
              subst (λ (z : Op). text_leb z.hlc m.hlc ≡ true) (sym q) second
          | inr (inr j) ↦ newest y (inr j)
        ],
      )
]

-- Encodings in order are timestamps in order.
IsSince-of_leb :
    (a b : Hlc)
    → InRange a
    → InRange b
    → text_leb (encode_hlc a) (encode_hlc b) ≡ true
    → IsSince a b
IsSince-of_leb a b ra rb h =
    ground (arith, compare-encode_hlc b a rb ra, compare_hlc-flip a b, eq_of_compare_hlc a b)

module _ (physical_clock : ℕ → ℕ) where
  observe-IsTicked :
      (clock : Text) (e : SyncEngine)
      → IsClock e.clock
      → IsTicked e (observe physical_clock clock e).1
  unfolding observe
  observe-IsTicked clock e k = elim (Result-cases (decode_hlc clock)) [
    | inl (x, q) ↦ rw (q, observe) (record { stored = refl; since = inr refl; sane = k })
    | inr (h, q) ↦
        rw (q, observe)
          (record {
            stored = refl;
            since = receive-IsSince (physical_clock e.readings) h e.clock;
            sane = receive-IsClock (physical_clock e.readings) h e.clock k;
          })
  ]

  -- Once the clock has accepted an operation's timestamp, it has reached the operations up to it.
  observed-IsBehind :
      (m x : Op) (e : SyncEngine)
      → IsValid m
      → IsValid x
      → text_leb x.hlc m.hlc ≡ true
      → (h : Hlc) → (observe physical_clock m.hlc e).0 ≡ ok h
      → IsBehind x (observe physical_clock m.hlc e).1.clock
  unfolding observe
  observed-IsBehind m x e vm vx older h accepted =
      let sm = vm.stamped in
      let sx = vx.stamped in
      let decoded : decode_hlc m.hlc ≡ ok sm.stamp =
        ap decode_hlc (sym sm.encoded) ∙ decode_hlc-encode_hlc sm.stamp sm.in_range in
      let r = receive (physical_clock e.readings) sm.stamp e.clock in
      let got : r.0 ≡ ok h = ground arith in
      let (same, later, above, device) =
        receive_increases (physical_clock e.readings) sm.stamp e.clock h r.1
          (ap (λ a. (a, r.1)) got) in
      let since : IsSince sx.stamp sm.stamp =
        IsSince-of_leb sx.stamp sm.stamp sx.in_range sm.in_range
          (rw (sx.encoded, sm.encoded) older) in
      rw (decoded, observe)
        (record {
          stamp = sx.stamp;
          encoded = sx.encoded;
          in_range = sx.in_range;
          since =
              IsSince-trans sx.stamp sm.stamp r.1 since
                (inl (subst (λ z. compare_hlc sm.stamp z ≡ Ordering.lt) same above));
        })

  store_fresh-clock :
      (fresh : List Op) (e : SyncEngine) → (store_fresh physical_clock fresh e).1.clock ≡ e.clock
  unfolding store_fresh persist_clock commit
  store_fresh-clock [] e = refl
  store_fresh-clock (op ∷ ops) e = refl

  after_observing-clock :
      (ops : List Op) (seen : Result (Unit {0}) × SyncEngine)
      → (after_observing physical_clock ops seen).1.clock ≡ seen.1.clock
  unfolding after_observing
  after_observing-clock ops (err x, e) = refl
  after_observing-clock ops (ok u, e) = store_fresh-clock (fresh_ops e.storage ops []) e

  observe_max-IsTicked :
      (m : Option Op) (e : SyncEngine)
      → IsClock e.clock
      → IsTicked e (observe_max physical_clock m e).1
  unfolding observe_max
  observe_max-IsTicked none e k = record { stored = refl; since = inr refl; sane = k }
  observe_max-IsTicked (some op) e k = observe-IsTicked op.hlc e k

  -- A batch whose newest operation the clock has accepted is behind the clock.
  observed_all :
      (ops : List Op) (e : SyncEngine)
      → ((x : Op) → Elem x ops → IsValid x)
      → (u : Unit {0}) → (observe_max physical_clock (max_op none ops) e).0 ≡ ok u
      → (x : Op) → Elem x ops
      → IsBehind x (observe_max physical_clock (max_op none ops) e).1.clock
  unfolding observe_max max_op
  observed_all [] e valid u h x i = absurd i
  observed_all (op ∷ ops) e valid u h x i =
      let (m, at, j, newest) = max_op-newest op ops in
      let here = ap (λ o. (observe_max physical_clock o e).0) (sym at) ∙ h in
      subst (λ o. IsBehind x (observe_max physical_clock o e).1.clock) (sym at)
        (elim (Result-cases (observe physical_clock m.hlc e).0) [
          | inl (y, q) ↦ absurd (ground arith)
          | inr (stamp, q) ↦ observed-IsBehind m x e (valid m j) (valid x i) (newest x i) stamp q
        ])

module _ (p : Platform) (physical_clock : ℕ → ℕ) where
  -- The clock after a batch: it has not gone back.
  apply-clock :
      (vs : List Value) (e : SyncEngine)
      → IsClock e.clock
      → IsSince e.clock (apply_remote_ops p physical_clock vs e).1.clock
        × IsClock (apply_remote_ops p physical_clock vs e).1.clock
  unfolding apply_remote_ops
  apply-clock vs e k = elim (Result-cases (admit p vs e)) [
    | inl (x, q) ↦ rw (q, apply_remote_ops) (inr refl, k)
    | inr (ops, q) ↦
        let t = observe_max-IsTicked physical_clock (max_op none ops) e k in
        let same =
          after_observing-clock physical_clock ops
            (observe_max physical_clock (max_op none ops) e) in
        rw (q, apply_remote_ops)
          (subst (λ c. IsSince e.clock c × IsClock c) (sym same) (t.since, t.sane))
  ]

  apply-IsBehind :
      (vs : List Value) (e : SyncEngine) (ops : List Op)
      → admit p vs e ≡ ok ops
      → (observe_max physical_clock (max_op none ops) e).0 ≡ ok tt
      → (x : Op) → Elem x ops
      → IsBehind x (apply_remote_ops p physical_clock vs e).1.clock
  unfolding apply_remote_ops
  apply-IsBehind vs e ops q accepted x i =
      let seen = observe_max physical_clock (max_op none ops) e in
      let valid = λ (y : Op) (j : Elem y ops). ((admit-IsSigned p vs e ops q).1 y j).0 in
      let same = after_observing-clock physical_clock ops seen in
      let all = observed_all physical_clock ops e valid tt accepted x i in
      rw (q, apply_remote_ops) (subst (IsBehind x) (sym same) all)

  -- A batch, accepted or refused, leaves an engine healthy.
  pub apply-IsHealthy :
      (vs : List Value) (e : SyncEngine)
      → IsHealthy e
      → IsHealthy (apply_remote_ops p physical_clock vs e).1
  apply-IsHealthy vs e h =
      let e' = (apply_remote_ops p physical_clock vs e).1 in
      let (since, sane) = apply-clock vs e h.ahead.sane in
      elim (apply_remote_ops-cases p physical_clock vs e h.sound.replica h.sound.refines
        h.sound.coherent) [
          | inl (failed, kept) ↦
              ticked-IsHealthy e e' (record { stored = kept; since = since; sane = sane }) h
          | inr (ops, admitted, accepted, n, a, notified) ↦ record {
            sound = record { replica = _; refines = a.refines; coherent = a.coherent };
            ahead = record {
              sane = sane;
              behind = λ k op at.
                  elim (log-merge_all h.sound.replica a.fresh k op
                    (sym (a.refines.same_log k) ∙ at)) [
                      | inl old ↦
                          later-IsBehind op e.clock e'.clock since
                            (h.ahead.behind k op (h.sound.refines.same_log k ∙ old))
                      | inr new ↦
                          apply-IsBehind vs e ops admitted accepted op (a.from_batch op new.0).0
                    ];
            };
          }
        ]

  same_log-IsHealthy :
      (e e' : SyncEngine)
      → IsSound e'
      → IsSince e.clock e'.clock
      → IsClock e'.clock
      → e'.storage.ops_by_id ≡ e.storage.ops_by_id
      → IsHealthy e
      → IsHealthy e'
  same_log-IsHealthy e e' sound since sane same h = record {
    sound = sound;
    ahead = record {
      sane = sane;
      behind = λ k op at.
          later-IsBehind op e.clock e'.clock since
            (h.ahead.behind k op (subst (λ m. get k m ≡ some op) same at));
    };
  }

  pub learn-IsHealthy :
      (id : Text) (k : Bytes) (e : SyncEngine) → IsHealthy e → IsHealthy (learn_key p id k e).1
  unfolding learn_key
  learn-IsHealthy id k e h =
      let e' = (learn_key p id k e).1 in
      let clock : e'.clock ≡ e.clock = ground arith in
      same_log-IsHealthy e e' (learn-IsSound p physical_clock id k e h.sound) (inr (sym clock))
        (subst IsClock (sym clock) h.ahead.sane) (ground arith) h

  pub recorded-IsHealthy :
      (peer : Text) (f : Frontier) (e : SyncEngine)
      → IsHealthy e
      → IsHealthy (record_peer_frontier peer f e)
  unfolding record_peer_frontier set_peer_frontier
  recorded-IsHealthy peer f e h =
      let e' = record_peer_frontier peer f e in
      let clock : e'.clock ≡ e.clock = ground arith in
      same_log-IsHealthy e e' (recorded-IsSound p physical_clock peer f e h.sound) (inr (sym clock))
        (subst IsClock (sym clock) h.ahead.sane) (ground arith) h

  persisted-clock :
      (a : Result Hlc × SyncEngine)
      → ((clock_persisted a).1.clock ≡ a.1.clock)
        × ((clock_persisted a).1.storage.ops_by_id ≡ a.1.storage.ops_by_id)
  unfolding clock_persisted persist_clock apply_batch set_ops
  persisted-clock (err x, e) = (refl, refl)
  persisted-clock (ok u, e) = (refl, refl)

  pub observe-IsHealthy :
      (clock : Text) (e : SyncEngine)
      → IsHealthy e
      → IsHealthy (observe_remote_clock physical_clock clock e).1
  unfolding observe_remote_clock
  observe-IsHealthy clock e h =
      let a = observe physical_clock clock e in
      let t = observe-IsTicked physical_clock clock e h.ahead.sane in
      let (same, log) = persisted-clock a in
      same_log-IsHealthy e _ (observe-IsSound p physical_clock clock e h.sound)
        (subst (IsSince e.clock) (sym same) t.since) (subst IsClock (sym same) t.sane)
        (log ∙ ap (λ st. st.ops_by_id) t.stored) h
