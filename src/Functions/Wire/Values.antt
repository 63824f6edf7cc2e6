-- ===== src/Functions/Wire/Values.antt =====
-- packages/rust/src/functions.rs: what comes back of a value that is sent, and how many results a
-- batched response has.
use dirsql.Prelude.{
  ℕ, zero, suc, ◌≡◌, refl, sym, ap, ◌∙◌, Bool, true, false, Option, none, some, List, [], ◌∷◌, Text,
  codes, length, ◌==◌, ==_iff, if◌then◌else◌, arith,
}
use dirsql.Value.{Value, integer, real, text, blob}
use dirsql.Functions.Wire.{
  Result, ok, err, Defect, Response, refused, Codec, Wire, Entries, ok_or, as_string, as_object,
  as_array, json_get, value_to_json, json_to_sql_value, parse_response_value, named, each_response,
  repeated, batch_or_err, parse_batched_response, ◌>>=◌, err_not_string, invalid_json,
  not_an_object, wrong_count, no_results, bytes_of,
}

module _ {F : Type 0} (codec : Codec F) where
  -- A floating-point number that is not finite is sent as null.
  abbrev pub sent_as : Value F → Value F
  sent_as (real f) = if codec.is_finite f then real f else Value.null
  sent_as v = v

  float_back :
      (b : Bool) (f : F)
      → json_to_sql_value codec (if b then Wire.float f else Wire.null)
        ≡ ok (if b then real f else Value.null)
  unfolding json_to_sql_value
  float_back true f = refl
  float_back false f = refl

  blob_back :
      (bytes : List ℕ) (o : Option (List ℕ))
      → codec.decode (codec.encode bytes) ≡ o
      → o ≡ some bytes
      → bytes_of codec (Wire.string (codec.encode bytes)) ≡ ok (blob bytes)
  unfolding bytes_of
  blob_back bytes o e h = rw (e ∙ h) refl

  -- A value that is sent and comes back is the same, but for a floating-point number that is not
  -- finite, which comes back null. Decoding base64 undoes its encoding.
  pub json_to_sql_value-value_to_json :
      (v : Value F)
      → ((bytes : List ℕ) → codec.decode (codec.encode bytes) ≡ some bytes)
      → json_to_sql_value codec (value_to_json codec v) ≡ ok (sent_as v)
  unfolding json_to_sql_value value_to_json
  json_to_sql_value-value_to_json Value.null h = refl
  json_to_sql_value-value_to_json (integer i) h = refl
  json_to_sql_value-value_to_json (real f) h = float_back (codec.is_finite f) f
  json_to_sql_value-value_to_json (text s) h = refl
  json_to_sql_value-value_to_json (blob bytes) h =
      blob_back bytes (codec.decode (codec.encode bytes)) refl (h bytes)

  same_list :
      {A : Type 0} (xs ys : List A) → ◌≡◌ {A = Result Defect (List A)} (ok xs) (ok ys) → xs ≡ ys
  same_list xs ys e = ground (arith, e)

  bound :
      {A B : Type 0} (m : Result Defect A) (k : A → Result Defect B) (b : B)
      → (m >>= k) ≡ ok b
      → (a : A) × (m ≡ ok a) × (k a ≡ ok b)
  bound (ok a) k b e = (a, refl, e)
  bound (err defect) k b e = ground (arith, e)

  each_response-length :
      (i : ℕ) (ws : List (Wire F)) (rs : List (Response F))
      → each_response codec i ws ≡ ok rs
      → length rs ≡ length ws
  unfolding each_response
  each_response-length i [] rs e = ap length (sym (same_list [] rs e))
  each_response-length i (w ∷ ws) rs e =
      let (r, first, rest) =
        bound (named codec i (parse_response_value codec w))
          (λ r. each_response codec (suc i) ws >>= λ rs. ok (r ∷ rs)) rs e in
      let (more, others, last) =
        bound (each_response codec (suc i) ws) (λ rs. ok (r ∷ rs)) rs rest in
      ap length (sym (same_list (r ∷ more) rs last))
      ∙ ap suc (each_response-length (suc i) ws more others)

  length-repeated : {A : Type 0} (a : A) (n : ℕ) → length (repeated a n) ≡ n
  length-repeated a zero = refl
  length-repeated a (suc n) = ap suc (length-repeated a n)

  if_counted :
      (b : Bool) (results : List (Wire F)) (n : ℕ) (rs : List (Response F))
      → (b ≡ true → length results ≡ n)
      → (if b then each_response codec 0 results else err (wrong_count n (length results))) ≡ ok rs
      → length rs ≡ n
  if_counted true results n rs h e = each_response-length 0 results rs e ∙ h refl
  if_counted false results n rs h e = ground (arith, e)

  batch_or_err-length :
      (n : ℕ) (fields : Entries F) (o : Option (Wire F)) (rs : List (Response F))
      → batch_or_err codec n fields o ≡ ok rs
      → length rs ≡ n
  unfolding batch_or_err
  batch_or_err-length n fields (some w) rs e =
      let (message, first, last) =
        bound (ok_or err_not_string (as_string w)) (λ message. ok (repeated (refused message) n)) rs
          e in
      ap length (sym (same_list (repeated (refused message) n) rs last))
      ∙ length-repeated (refused message) n
  batch_or_err-length n fields none rs e =
      let (w, first, more) =
        bound (ok_or no_results (json_get (codes "results") fields))
          (λ w. ok_or no_results (as_array w) >>= λ results.
            if length results == n
            then each_response codec 0 results
            else err (wrong_count n (length results)))
          rs e in
      let (results, second, last) =
        bound (ok_or no_results (as_array w))
          (λ results.
            if length results == n
            then each_response codec 0 results
            else err (wrong_count n (length results)))
          rs more in
      if_counted (length results == n) results n rs (λ h. (==_iff (length results) n).0 h) last

  -- A batched response that is read has one result for each call.
  pub parse_batched_response-length :
      (line : Text) (n : ℕ) (rs : List (Response F))
      → parse_batched_response codec line n ≡ ok rs
      → length rs ≡ n
  unfolding parse_batched_response
  parse_batched_response-length line n rs e =
      let (parsed, first, more) =
        bound (ok_or invalid_json (codec.from_str line))
          (λ parsed. ok_or not_an_object (as_object parsed) >>= λ fields.
            batch_or_err codec n fields (json_get (codes "err") fields))
          rs e in
      let (fields, second, last) =
        bound (ok_or not_an_object (as_object parsed))
          (λ fields. batch_or_err codec n fields (json_get (codes "err") fields)) rs more in
      batch_or_err-length n fields (json_get (codes "err") fields) rs last
