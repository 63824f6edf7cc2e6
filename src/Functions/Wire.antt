-- ===== src/Functions/Wire.antt =====
-- packages/rust/src/functions.rs (`value_to_json`, `request_line`, `parse_response` and what they
-- call): requests and responses as JSON. The parser and the printer of serde_json, the base64 codec
-- and the test for finite floating-point numbers are parameters. A defect is named by a constructor;
-- the texts of serde_json's own errors are left out.
pub mod Values
use dirsql.Prelude.{
  ℕ, zero, suc, ◌+◌, ◌≡◌, refl, ap, Bool, true, false, Option, none, some, List, [], ◌∷◌, map, Text,
  text_eq, codes, length, ◌==◌, if◌then◌else◌,
}
use dirsql.Prelude.Int.{ℤ, pos}
use dirsql.Value.{Value, integer, real, text, blob}

pub data Result (E A : Type 0) : Type 0 where
  ok : A → Result E A
  err : E → Result E A

-- `serde_json::Value`: a number that `as_i64` gives, or any other by its `as_f64`; an object by its
-- entries, whose keys differ.
mutual
  pub data Wire (F : Type 0) : Type 0 where
    null : Wire F
    bool : Bool → Wire F
    number : ℤ → Wire F
    float : F → Wire F
    string : Text → Wire F
    array : Wires F → Wire F
    object : Entries F → Wire F

  pub data Wires (F : Type 0) : Type 0 where
    no_wires : Wires F
    wire_before : Wire F → Wires F → Wires F

  pub data Entries (F : Type 0) : Type 0 where
    no_entries : Entries F
    entry_before : Text → Wire F → Entries F → Entries F

pub data Defect : Type 0 where
  invalid_json not_an_object err_not_string no_ok_or_err no_results bytes_not_string not_base64 :
      Defect
  wrong_count : ℕ → ℕ → Defect
  in_result : ℕ → Defect → Defect

pub record Reply (F : Type 0) : Type 0 where
  pub value : Value F
  pub cached : Bool

pub data Response (F : Type 0) : Type 0 where
  answered : Reply F → Response F
  refused : Text → Response F

infixl 5 ◌>>=◌
abbrev pub ◌>>=◌ : {E A B : Type 0} → Result E A → (A → Result E B) → Result E B
ok a >>= k = k a
err e >>= k = err e

abbrev pub ok_or : {E A : Type 0} → E → Option A → Result E A
ok_or e none = err e
ok_or e (some a) = ok a

-- `vec![a; n]`
abbrev pub repeated : {A : Type 0} → A → ℕ → List A
repeated a zero = []
repeated a (suc n) = a ∷ repeated a n

-- The library's functions that the code calls.
pub record Codec (F : Type 0) : Type 0 where
  pub from_str : Text → Option (Wire F)
  pub to_string : Wire F → Text
  pub is_finite : F → Bool
  pub encode : List ℕ → Text
  pub decode : Text → Option (List ℕ)

module _ {F : Type 0} where
  -- `Map::get`
  unfoldable pub json_get : Text → Entries F → Option (Wire F)
  json_get k no_entries = none
  json_get k (entry_before j v fields) = if text_eq j k then some v else json_get k fields

  abbrev pub as_object : Wire F → Option (Entries F)
  as_object (object fields) = some fields
  as_object _ = none

  abbrev pub as_string : Wire F → Option Text
  as_string (string s) = some s
  as_string _ = none

  abbrev pub as_bool : Wire F → Option Bool
  as_bool (bool b) = some b
  as_bool _ = none

  abbrev pub as_list : Wires F → List (Wire F)
  as_list no_wires = []
  as_list (wire_before w ws) = w ∷ as_list ws

  abbrev pub wires_of : List (Wire F) → Wires F
  wires_of [] = no_wires
  wires_of (w ∷ ws) = wire_before w (wires_of ws)

  abbrev pub as_array : Wire F → Option (List (Wire F))
  as_array (array ws) = some (as_list ws)
  as_array _ = none

  -- `meta.cached`, where both are there and a Boolean.
  unfoldable pub cached_flag : Entries F → Bool
  unfolding json_get
  cached_flag fields = flag (json_get (codes "meta") fields)
    where
      in_meta : Option (Wire F) → Bool
      in_meta (some (bool b)) = b
      in_meta _ = false

      flag : Option (Wire F) → Bool
      flag (some (object meta)) = in_meta (json_get (codes "cached") meta)
      flag _ = false

  module _ (codec : Codec F) where
    unfoldable pub value_to_json : Value F → Wire F
    value_to_json Value.null = null
    value_to_json (integer i) = number i
    value_to_json (real f) = if codec.is_finite f then float f else null
    value_to_json (text s) = string s
    value_to_json (blob bytes) =
        object (entry_before (codes "$bytes") (string (codec.encode bytes)) no_entries)

    abbrev pub encode_args : List (Value F) → Wire F
    unfolding value_to_json
    encode_args args = array (wires_of (map value_to_json args))

    unfoldable pub request_line : List (Value F) → Text
    unfolding value_to_json
    request_line args =
        codec.to_string (object (entry_before (codes "call") (encode_args args) no_entries))

    unfoldable pub batched_request_line : List (List (Value F)) → Text
    unfolding value_to_json
    batched_request_line calls = codec.to_string (
        object (entry_before (codes "calls") (array (wires_of (map encode_args calls))) no_entries))

    unfoldable pub bytes_of : Wire F → Result Defect (Value F)
    bytes_of w = do
      encoded ← ok_or bytes_not_string (as_string w)
      bytes ← ok_or not_base64 (codec.decode encoded)
      ok (blob bytes)

    unfoldable pub json_to_sql_value : Wire F → Result Defect (Value F)
    unfolding bytes_of
    json_to_sql_value null = ok Value.null
    json_to_sql_value (bool b) = ok (integer (if b then pos 1 else pos 0))
    json_to_sql_value (number i) = ok (integer i)
    json_to_sql_value (float f) = ok (real f)
    json_to_sql_value (string s) = ok (text s)
    json_to_sql_value (object (entry_before key w no_entries)) =
        if text_eq key (codes "$bytes")
        then bytes_of w
        else ok (text (codec.to_string (object (entry_before key w no_entries))))
    json_to_sql_value other = ok (text (codec.to_string other))

    -- The part of an object's reading after the look for an "err".
    unfoldable pub ok_or_err : Entries F → Option (Wire F) → Result Defect (Response F)
    unfolding json_to_sql_value cached_flag json_get
    ok_or_err fields (some w) = do
      message ← ok_or err_not_string (as_string w)
      ok (refused message)
    ok_or_err fields none = do
      w ← ok_or no_ok_or_err (json_get (codes "ok") fields)
      value ← json_to_sql_value w
      ok (answered (record { value = value; cached = cached_flag fields }))

    unfoldable pub parse_response_value : Wire F → Result Defect (Response F)
    unfolding ok_or_err json_get
    parse_response_value parsed = do
      fields ← ok_or not_an_object (as_object parsed)
      ok_or_err fields (json_get (codes "err") fields)

    unfoldable pub parse_response : Text → Result Defect (Response F)
    unfolding parse_response_value
    parse_response line = do
      parsed ← ok_or invalid_json (codec.from_str line)
      parse_response_value parsed

    unfoldable pub named : {A : Type 0} → ℕ → Result Defect A → Result Defect A
    named i (ok a) = ok a
    named i (err defect) = err (in_result i defect)

    unfoldable pub each_response : ℕ → List (Wire F) → Result Defect (List (Response F))
    unfolding parse_response_value named
    each_response i [] = ok []
    each_response i (w ∷ ws) = do
      response ← named i (parse_response_value w)
      responses ← each_response (suc i) ws
      ok (response ∷ responses)

    unfoldable pub batch_or_err :
        ℕ → Entries F → Option (Wire F) → Result Defect (List (Response F))
    unfolding each_response json_get
    batch_or_err expected fields (some w) = do
      message ← ok_or err_not_string (as_string w)
      ok (repeated (refused message) expected)
    batch_or_err expected fields none = do
      w ← ok_or no_results (json_get (codes "results") fields)
      results ← ok_or no_results (as_array w)
      if length results == expected
          then each_response 0 results
          else err (wrong_count expected (length results))

    unfoldable pub parse_batched_response : Text → ℕ → Result Defect (List (Response F))
    unfolding batch_or_err json_get
    parse_batched_response line expected = do
      parsed ← ok_or invalid_json (codec.from_str line)
      fields ← ok_or not_an_object (as_object parsed)
      batch_or_err expected fields (json_get (codes "err") fields)
