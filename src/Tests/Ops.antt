-- ===== src/Tests/Ops.antt =====
-- Validation and frontiers of packages/core/src/op.ts at concrete operations.
use tangentfeed.Prelude.{◌≡◌, ◌↔◌, ◌≤◌, not, ◌&&◌, [], text_eqb, text_leb}
use tangentfeed.Errors.{ok}
use tangentfeed.Op.{max_op_bytes, op_value, validate_op, above_frontier, advance_frontier}
use tangentfeed.Op.Frontiers
use tangentfeed.Op.Valid
use tangentfeed.Op.Valid.{IsValid}
use tangentfeed.Samples.{first_op, second_op, platform}

above-advance_frontier_example : above_frontier first_op (advance_frontier [] second_op) ≡ (
    above_frontier first_op []
    && not (text_eqb second_op.device first_op.device && text_leb first_op.hlc second_op.hlc))
above-advance_frontier_example = Frontiers.above-advance_frontier first_op second_op []

validate_op-op_value_example :
    (validate_op platform (op_value first_op) ≡ ok first_op)
    ↔ (IsValid first_op × (platform.json_length (op_value first_op) ≤ max_op_bytes))
validate_op-op_value_example = Valid.validate_op-op_value platform first_op
