-- ===== src/Tests/Spaces.antt =====
-- A space of packages/tangentfeed/src/index.ts with the schema of tasks.
use tangentfeed.Prelude.{
  subst, ◌≡◌, refl, inl, inr, true, false, none, some, List, [], arith, Text, codes, text_compare,
  text_eqb, eqb_iff, any, all, get, has, Elem, Bool-cases,
}
use tangentfeed.Errors.{ok, err, no_indexeddb}
use tangentfeed.Signing
use tangentfeed.Hlc
use tangentfeed.Op
use tangentfeed.Op.{Op}
use tangentfeed.Schema.Validate
use tangentfeed.Schema.Validate.{proto}
use tangentfeed.Engine.{SyncEngine, commit, local}
use tangentfeed.Engine.Local
use tangentfeed.Engine.Local.{make_local_op}
use tangentfeed.Space
use tangentfeed.Space.{StorageOption, resolve_storage}
use tangentfeed.Space.Typed.{IsTyped, update-IsTyped}
use tangentfeed.Samples.{platform, physical_clock, engine, row}
use tangentfeed.Tests.Schemas.{host, schema, tasks, given, title}

abbrev after : SyncEngine
after =
    (Space.update host (some schema) platform physical_clock none (codes "tasks") row given
      engine).1

written :
    Space.update host (some schema) platform physical_clock none (codes "tasks") row given engine
    ≡ (ok tt, after)
unfolding Space.update Validate.program Local.update make_local_op Hlc.now Hlc.encode_hlc Op.program
    Hlc.decode_hlc Hlc.matches_hlc Hlc.hex_value Op.signed_payload Signing.canonical_json
    Signing.sign_payload text_compare any all commit
written = refl

plain_title : text_eqb title proto ≡ false
unfolding text_compare
plain_title = refl

own_title : host.inherited title ≡ none
unfolding text_compare
own_title = refl

given_plain :
    (c : Text) → has c given ≡ true → (text_eqb c proto ≡ false) × (host.inherited c ≡ none)
unfolding get
given_plain c h = elim (Bool-cases (text_eqb title c)) [
  | inl q ↦
      let same : title ≡ c = (eqb_iff title c).0 q in
      subst (λ x. (text_eqb x proto ≡ false) × (host.inherited x ≡ none)) same
        (plain_title, own_title)
  | inr q ↦ absurd (ground arith)
]

update-IsTyped_example :
    (ops : List Op) × (e1 : SyncEngine) × ((e1.storage ≡ engine.storage)
      × (e1.subscribers ≡ engine.subscribers))
    × (commit ops local e1 ≡ (ok tt, after))
    × ((x : Op)
        → Elem x ops
        → (x.table ≡ codes "tasks")
          × (x.row ≡ row)
          × IsTyped host tasks platform physical_clock none x)
    × ((c : Text) → has c given ≡ true → (x : Op) × Elem x ops × (x.column ≡ c))
    × ((x y : Op) → Elem x ops → Elem y ops → x.column ≡ y.column → x ≡ y)
unfolding get text_compare
update-IsTyped_example =
    update-IsTyped host schema platform physical_clock none (codes "tasks") row tasks given engine
      after refl (refl, tt) given_plain written

-- Without a database of the browser, its name is refused, and no name means memory.
resolved :
    (resolve_storage {A = SyncEngine} false (StorageOption.named (codes "indexeddb")) [] []
      ≡ err no_indexeddb)
    × (resolve_storage {A = SyncEngine} false StorageOption.unset [] [] ≡ ok Space.memory)
unfolding resolve_storage text_compare
resolved = (refl, refl)
