-- ===== src/Json.antt =====
-- Values of serde_json, as far as the program tells them apart: a number that fits 64 bits signed,
-- any other number by its `as_f64` (of type `F`), and arrays and objects by their JSON text. Also
-- packages/rust/src/lib.rs (`json_to_value`).
use dirsql.Prelude.{Bool, true, false, Text}
use dirsql.Prelude.Int.{ℤ, pos}
use dirsql.Value.{Value, integer, real, text}

pub data Json (F : Type 0) : Type 0 where
  null : Json F
  bool : Bool → Json F
  number : ℤ → Json F
  float : F → Json F
  string : Text → Json F
  nested : Text → Json F

pub json_to_value : {F : Type 0} → Json F → Value F
json_to_value Json.null = Value.null
json_to_value (bool true) = integer (pos 1)
json_to_value (bool false) = integer (pos 0)
json_to_value (number i) = integer i
json_to_value (float f) = real f
json_to_value (string s) = text s
json_to_value (nested s) = text s
