-- ===== src/Tests/Locals.antt =====
-- Local writes of packages/core/src/engine.ts, run.
use tangentfeed.Prelude.{◌≡◌, refl, none, some, [], ◌∷◌, set, true, text_compare, any, all, codes}
use tangentfeed.Errors.{ok}
use tangentfeed.Values.{boolean}
use tangentfeed.Signing
use tangentfeed.Hlc
use tangentfeed.Hlc.{encode_hlc, now}
use tangentfeed.Op
use tangentfeed.Op.{Op}
use tangentfeed.Storage.{empty_store, set_device_key}
use tangentfeed.Engine.{SyncEngine, open_engine}
use tangentfeed.Engine.Local.{make_local_op, update}
use tangentfeed.Engine.Ahead.Writes.{IsHealthy}
use tangentfeed.Engine.Ahead.Reach.{Reach, opened, updated, Reach-IsHealthy}
use tangentfeed.Engine.Local.Stamps
use tangentfeed.Engine.Local.Stamps.{IsMade}
use tangentfeed.Samples.{platform, physical_clock, engine, device, device_key, row, op_at}

abbrev made : Op
made = op_at (encode_hlc (record { millis = 10; counter = 0; device_id = device })) (boolean true)

abbrev after : SyncEngine
after = record engine {
  clock = record { millis = 10; counter = 0; device_id = device };
  readings = 1;
}

made_run :
    make_local_op platform physical_clock none
      (codes "todos")
      row
      (codes "done")
      (boolean true)
      engine
    ≡ (ok made, after)
unfolding make_local_op now encode_hlc Op.program Hlc.decode_hlc Hlc.matches_hlc Hlc.hex_value
    Op.signed_payload Signing.canonical_json Signing.sign_payload text_compare any all
made_run = refl

make_local_op-IsMade_example : IsMade platform engine after made
make_local_op-IsMade_example =
    Stamps.make_local_op-IsMade platform physical_clock none (codes "todos") row (codes "done")
      (boolean true) engine after made made_run

abbrev opened_engine : SyncEngine
opened_engine = record engine { storage = record empty_store { device_key = some device_key } }

Reach-opened : Reach platform physical_clock none opened_engine
unfolding open_engine Signing.device_id_from_public_key Signing.hex Hlc.new_clock
    Hlc.is_valid_device_id set all text_compare set_device_key
Reach-opened = opened device_key opened_engine refl

Reach-IsHealthy_example :
    IsHealthy
      (update platform physical_clock none
        (codes "todos")
        row
        ((codes "done", boolean true) ∷ [])
        opened_engine).1
Reach-IsHealthy_example =
    Reach-IsHealthy platform physical_clock none
      (update platform physical_clock none (codes "todos") row ((codes "done", boolean true) ∷ [])
        opened_engine).1
      (updated (codes "todos") row ((codes "done", boolean true) ∷ []) opened_engine Reach-opened)
