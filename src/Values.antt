-- ===== src/Values.antt =====
-- Values of the dynamic language, as far as packages/core/src tells them apart (`Json` of op.ts, and
-- the `unknown` that `validateOp` is given). A number is the bit pattern of its 64-bit float.
use tangentfeed.Prelude.{
  ℕ, ◌/◌, ◌%◌, ◌^◌, Bool, not, Option, none, some, Text, text_eqb, ◌==◌, if◌then◌else◌,
}

mutual
  pub data Value : Type 0 where
    null undefined : Value
    boolean : Bool → Value
    number : ℕ → Value
    string : Text → Value
    array : Items → Value
    object : Fields → Value
    -- a function, a symbol or a bigint
    other : Value

  pub data Items : Type 0 where
    nil : Items
    item : Value → Items → Items

  -- the own properties of an object, in order
  pub data Fields : Type 0 where
    end : Fields
    field : Text → Value → Fields → Fields

-- `Number.isFinite`: the exponent's eleven bits are not all ones.
unfoldable pub is_finite : ℕ → Bool
is_finite bits = not (bits / 2 ^ 52 % 2 ^ 11 == 2047)

-- `o[name]`, where `none` stands for a property that is not there.
unfoldable pub property : Text → Fields → Option Value
property name end = none
property name (field k v fs) = if text_eqb k name then some v else property name fs
