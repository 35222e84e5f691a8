-- ===== src/Engine/Remote/Admission.antt =====
-- What `applyRemoteOps` of packages/core/src/engine.ts lets past its checks.
use tangentfeed.Prelude.{
  ◌≤◌, ◌≡◌, sym, subst, inl, inr, true, not, some, List, [], ◌∷◌, arith, Elem, Map, get, length,
  ltb, Option-cases,
}
use tangentfeed.Errors.{ok, bad_op, guard, >>=-eq-ok, guard-eq-ok, batch_too_large}
use tangentfeed.Values.{Value}
use tangentfeed.Signing.{Platform, Bytes}
use tangentfeed.Op.{Op, max_batch_ops, validate_op, verify_op}
use tangentfeed.Op.Valid.{IsValid, validate_op-IsValid}
use tangentfeed.Engine.{SyncEngine}
use tangentfeed.Engine.Remote.{validate_ops, verify_signature, verify_signatures, admit}

module _ (p : Platform) where
  validate_ops-IsValid :
      (vs : List Value) (ops : List Op)
      → validate_ops p vs ≡ ok ops
      → (x : Op) → Elem x ops
      → IsValid x
  unfolding validate_ops
  validate_ops-IsValid [] [] h x e = absurd e
  validate_ops-IsValid [] (op ∷ ops) h x e = absurd (ground arith)
  validate_ops-IsValid (v ∷ vs) ops h x e =
      let (op, first, rest) = >>=-eq-ok (validate_op p v) _ h in
      let (others, later, whole) = >>=-eq-ok (validate_ops p vs) _ rest in
      let q : ops ≡ op ∷ others = cc in
      elim (subst (Elem x) q e) [
        | inl s ↦ subst IsValid (sym s) (validate_op-IsValid p v op first).1
        | inr m ↦ validate_ops-IsValid vs others later x m
      ]

  -- The key that an operation's signature is checked with.
  pub record IsSigned (ks : Map Bytes) (op : Op) : Type 0 where
    pub public_key : Bytes
    pub known : get op.device ks ≡ some public_key
    pub verified : verify_op p op public_key ≡ true

  signed : (ks : Map Bytes) (op : Op) → verify_signature p ks op ≡ ok tt → IsSigned ks op
  unfolding verify_signature
  signed ks op h = elim (Option-cases (get op.device ks)) [
    | inl n ↦ absurd (ground arith)
    | inr (k, s) ↦ record { public_key = k; known = s; verified = ground arith }
  ]

  verify_signatures-IsSigned :
      (ks : Map Bytes) (ops : List Op)
      → verify_signatures p ks ops ≡ ok tt
      → (x : Op) → Elem x ops
      → IsSigned ks x
  unfolding verify_signatures
  verify_signatures-IsSigned ks [] h x e = absurd e
  verify_signatures-IsSigned ks (op ∷ ops) h x (inl q) =
      let (u, first, rest) = >>=-eq-ok (verify_signature p ks op) _ h in
      subst (IsSigned ks) (sym q) (signed ks op first)
  verify_signatures-IsSigned ks (op ∷ ops) h x (inr m) =
      let (u, first, rest) = >>=-eq-ok (verify_signature p ks op) _ h in
      verify_signatures-IsSigned ks ops rest x m

  -- Every operation that is admitted is valid, and signed with a key that the engine knows.
  pub admit-IsSigned :
      (vs : List Value) (e : SyncEngine) (ops : List Op)
      → admit p vs e ≡ ok ops
      → (length vs ≤ max_batch_ops) × ((x : Op) → Elem x ops → IsValid x × IsSigned e.keys x)
  unfolding admit
  admit-IsSigned vs e ops h =
      let (u, small, rest) =
        >>=-eq-ok (guard (not (ltb max_batch_ops (length vs))) (bad_op batch_too_large)) _ h in
      let (found, valid, rest') = >>=-eq-ok (validate_ops p vs) _ rest in
      let (w, verified, whole) = >>=-eq-ok (verify_signatures p e.keys found) _ rest' in
      let q : found ≡ ops = cc in
      (
        ground (arith, guard-eq-ok _ _ small),
        λ x m.
            let m' = subst (Elem x) (sym q) m in
            (
              validate_ops-IsValid vs found valid x m',
              verify_signatures-IsSigned e.keys found verified x m',
            ),
      )
