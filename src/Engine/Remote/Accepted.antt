-- ===== src/Engine/Remote/Accepted.antt =====
-- That `applyRemoteOps` of packages/core/src/engine.ts accepts what it should.
use tangentfeed.Prelude.{
  ℕ, suc, ◌+◌, ◌≤◌, ◌<◌, ◌≡◌, refl, sym, ap, ◌∙◌, subst, inl, inr, true, false, ◌||◌, none, some,
  is_some, Option-cases, List, [], ◌∷◌, map, arith, Text, text_ltb, text_eqb, Map, get, Elem, any,
  length, ltb, Bool-cases,
}
use tangentfeed.Errors.{Error, Result, ok, err}
use tangentfeed.Signing.{Platform, Bytes}
use tangentfeed.Hlc.{Hlc, decode_hlc, max_millis, max_drift_ms}
use tangentfeed.Hlc.Codec.{decode_hlc-encode_hlc}
use tangentfeed.Hlc.Ticks.{receive_total}
use tangentfeed.Op.{Op, op_value, max_op_bytes, max_batch_ops}
use tangentfeed.Op.Valid.{IsValid, validate_op-op_value}
use tangentfeed.Storage.{has_op}
use tangentfeed.Replica.{Replica, merge, merge_all}
use tangentfeed.Replica.Coherence.{IsCoherent}
use tangentfeed.Replica.Convergence.{log-merge_all}
use tangentfeed.Engine.{SyncEngine, max_op}
use tangentfeed.Engine.Commit.{Refines}
use tangentfeed.Engine.Remote.{
  validate_ops, verify_signature, verify_signatures, admit, observe, observe_max, apply_remote_ops,
}
use tangentfeed.Engine.Remote.Fresh.{has_id}
use tangentfeed.Engine.Remote.Admission.{IsSigned}
use tangentfeed.Engine.Remote.Apply.{IsThrown, apply_remote_ops-cases}

-- An operation that an engine may be sent: valid, within the size limit, and signed by a device that it knows.
pub record IsSendable (p : Platform) (ks : Map Bytes) (op : Op) : Type 0 where
  pub valid : IsValid op
  pub small : p.json_length (op_value op) ≤ max_op_bytes
  pub signed : IsSigned p ks op

length-op_values : (ops : List Op) → length (map op_value ops) ≡ length ops
length-op_values [] = refl
length-op_values (op ∷ ops) = ap suc (length-op_values ops)

module _ (p : Platform) (ks : Map Bytes) where
  validated :
      (ops : List Op)
      → ((x : Op) → Elem x ops → IsSendable p ks x)
      → validate_ops p (map op_value ops) ≡ ok ops
  unfolding validate_ops
  validated [] h = refl
  validated (op ∷ ops) h =
      let s = h op (inl refl) in
      let first = (validate_op-op_value p op).1 (s.valid, s.small) in
      let rest = validated ops (λ x e. h x (inr e)) in rw (first, rest) refl

  verified :
      (ops : List Op)
      → ((x : Op) → Elem x ops → IsSendable p ks x)
      → verify_signatures p ks ops ≡ ok tt
  unfolding verify_signatures verify_signature
  verified [] h = refl
  verified (op ∷ ops) h =
      let s = (h op (inl refl)).signed in
      rw (s.known, s.verified, verify_signature) (verified ops (λ x e. h x (inr e)))

-- The newest of a batch is one of it.
max_op-Elem :
    (o : Op) (ops : List Op) → (m : Op) × (max_op (some o) ops ≡ some m) × Elem m (o ∷ ops)
unfolding max_op
max_op-Elem o [] = (o, refl, inl refl)
max_op-Elem o (x ∷ ops) = elim (Bool-cases (text_ltb o.hlc x.hlc)) [
  | inl h ↦ let (m, at, e) = max_op-Elem x ops in rw h (m, at, inr e)
  | inr h ↦
      let (m, at, e) = max_op-Elem o ops in
      rw h (m, at, elim e [ inl q ↦ inl q | inr j ↦ inr (inr j) ])
]

-- The physical clock is near enough for the operation's timestamp, which is not at the end of time.
abbrev pub IsNear : ℕ → Op → Type 0
IsNear pt op =
    (h : Hlc) → decode_hlc op.hlc ≡ ok h → (h.millis ≤ pt + max_drift_ms) × (h.millis < max_millis)

-- A merged log keeps what it has and has every id that is merged.
log-merge_all_has :
    (s : Replica) (ops : List Op) (id : Text)
    → is_some (s.log id) || has_id id ops ≡ true
    → is_some ((merge_all s ops).log id) ≡ true
unfolding merge_all merge any
log-merge_all_has s [] id h = ground arith
log-merge_all_has s (op ∷ ops) id h =
    log-merge_all_has (merge s op) ops id
      (elim (Bool-cases (text_eqb op.id id)) [ inl q ↦ rw q refl | inr q ↦ rw q (ground arith) ])

module _ (p : Platform) (physical_clock : ℕ → ℕ) where
  observed :
      (ops : List Op) (e : SyncEngine)
      → ((x : Op) → Elem x ops → IsValid x × IsNear (physical_clock e.readings) x)
      → physical_clock e.readings < max_millis
      → e.clock.millis < max_millis
      → (observe_max physical_clock (max_op none ops) e).0 ≡ ok tt
  unfolding observe_max max_op observe
  observed [] e h pt c = refl
  observed (op ∷ ops) e h pt c =
      let (m, at, i) = max_op-Elem op ops in
      let (valid, near) = h m i in
      let s = valid.stamped in
      let decoded : decode_hlc m.hlc ≡ ok s.stamp =
        ap decode_hlc (sym s.encoded) ∙ decode_hlc-encode_hlc s.stamp s.in_range in
      let (close, room) = near s.stamp decoded in
      let got = receive_total (physical_clock e.readings) s.stamp e.clock close pt room c in
      ap (λ o. (observe_max physical_clock o e).0) at
      ∙ rw (decoded, observe, ap (λ r. r.0) got) refl

  -- A batch within the size limit of operations that are valid, small enough, signed by devices that the engine
  -- knows, and near the physical clock, with timestamps before the last millisecond, is accepted, when neither
  -- clock is in the last millisecond and no subscriber throws. The store then has each id of the batch, and under
  -- it, if it is new and stands once in the batch, the operation that was sent. The store is that of a coherent
  -- replica.
  pub apply_remote_ops-accepts :
      (ops : List Op) (e : SyncEngine) (s : Replica)
      → Refines e.storage s
      → IsCoherent s
      → length ops ≤ max_batch_ops
      → ((x : Op) → Elem x ops → IsSendable p e.keys x × IsNear (physical_clock e.readings) x)
      → physical_clock e.readings < max_millis
      → e.clock.millis < max_millis
      → ((x : Error) → ¬ IsThrown e.subscribers x)
      → ((n : ℕ) × ((apply_remote_ops p physical_clock (map op_value ops) e).0 ≡ ok n))
        × ((x : Op)
            → Elem x ops
            → has_op x.id (apply_remote_ops p physical_clock (map op_value ops) e).1.storage ≡ true)
        × ((x : Op)
            → Elem x ops
            → has_op x.id e.storage ≡ false
            → ((y : Op) → Elem y ops → y.id ≡ x.id → y ≡ x)
            → get x.id (apply_remote_ops p physical_clock (map op_value ops) e).1.storage.ops_by_id
              ≡ some x)
  unfolding apply_remote_ops admit has_op
  apply_remote_ops-accepts ops e s refines coherent size h pt c quiet =
      let vs = map op_value ops in
      let sendable = λ (x : Op) (i : Elem x ops). (h x i).0 in
      let few : ltb max_batch_ops (length vs) ≡ false = ground (arith, length-op_values ops) in
      let admitted : admit p vs e ≡ ok ops =
        rw (few, validated p e.keys ops sendable, verified p e.keys ops sendable) refl in
      let seen = observed ops e (λ x i. ((h x i).0.valid, (h x i).1)) pt c in
      elim (apply_remote_ops-cases p physical_clock vs e s refines coherent) [
        | inl ((x, failed, late), kept) ↦ absurd (ok_is_not_err x _ seen (late ops admitted))
        | inr (ops', again, accepted, n, applied, inr (x, failed, thrown)) ↦ absurd (quiet x thrown)
        | inr (ops', again, accepted, n, applied, inl done) ↦
            let same : ops' ≡ ops = ops_injective ops' ops (sym again ∙ admitted) in
            let known =
              λ (x : Op) (i : Elem x ops). applied.complete x (subst (Elem x) (sym same) i) in
            (
              (n, done),
              λ x i.
                  let some_log : is_some (s.log x.id) || has_id x.id applied.fresh ≡ true =
                    elim (known x i) [
                      | inl k ↦
                          (let there : is_some (s.log x.id) ≡ true =
                              ap is_some (sym (refines.same_log x.id)) ∙ k in
                            rw there refl)
                      | inr k ↦ (let there : has_id x.id applied.fresh ≡ true = k in ground arith)
                    ] in
                  ap is_some (applied.refines.same_log x.id)
                  ∙ log-merge_all_has s applied.fresh x.id some_log,
              λ x i new only.
                  let some_log : is_some (s.log x.id) || has_id x.id applied.fresh ≡ true =
                    elim (known x i) [
                      | inl k ↦ absurd (ground arith)
                      | inr k ↦ (let there : has_id x.id applied.fresh ≡ true = k in ground arith)
                    ] in
                  elim (Option-cases ((merge_all s applied.fresh).log x.id)) [
                    | inl none_there ↦
                        let there = log-merge_all_has s applied.fresh x.id some_log in
                        absurd (ground arith)
                    | inr (y, at) ↦ elim (log-merge_all s applied.fresh x.id y at) [
                      | inl old ↦ absurd (ground (arith, refines.same_log x.id))
                      | inr (fresh, id) ↦
                          let sent = subst (Elem y) same (applied.from_batch y fresh).0 in
                          applied.refines.same_log x.id ∙ at ∙ ap some (only y sent id)
                    ]
                  ],
            )
      ]
    where
      ok_is_not_err : (x : Error) (r : Result (Unit {0})) → r ≡ ok tt → r ≡ err x → ⊥
      ok_is_not_err x r q q' = ground arith

      ops_injective : (a b : List Op) → ok a ≡ ok b → a ≡ b
      ops_injective a b q = ground arith
