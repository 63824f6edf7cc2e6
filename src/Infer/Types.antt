-- ===== src/Infer/Types.antt =====
-- packages/rust/src/infer.rs: the type on which the values of a column agree.
use dirsql.Prelude.{◌≡◌, refl, Option, none, some, List, [], ◌∷◌, arith, all, if◌then◌else◌}
use dirsql.Json.{Json}
use dirsql.Infer.{
  SqlType, text, integer, real, Observed, untyped, typed, conflict, same_type, value_type, observe,
  resolve,
}

-- The one type that all name, and TEXT where there is none.
abbrev pub agreed : List SqlType → SqlType
agreed [] = text
agreed (t ∷ ts) = if all (same_type t) ts then t else text

abbrev types_of : Option SqlType → List SqlType → List SqlType
types_of none ts = ts
types_of (some t) ts = t ∷ ts

-- The types that the values of a column imply; null implies none.
abbrev pub types : {F : Type 0} → List (Json F) → List SqlType
types [] = []
types (v ∷ vs) = types_of (value_type v) (types vs)

abbrev pub observe_all : {F : Type 0} → Observed → List (Json F) → Observed
observe_all o [] = o
observe_all o (v ∷ vs) = observe_all (observe o v) vs

observe_all-conflict : {F : Type 0} (vs : List (Json F)) → observe_all conflict vs ≡ conflict
unfolding observe
observe_all-conflict [] = refl
observe_all-conflict (v ∷ vs) = ground (arith, observe_all-conflict vs)

resolve-typed :
    {F : Type 0} (t : SqlType) (vs : List (Json F))
    → resolve (observe_all (typed t) vs) ≡ (if all (same_type t) (types vs) then t else text)
unfolding resolve observe
resolve-typed t [] = refl
resolve-typed t (v ∷ vs) = ground (arith, resolve-typed t vs, observe_all-conflict vs)

-- Observing the values one by one ends at the type that they agree on, and at TEXT where they do
-- not agree or none of them has a type.
pub resolve-observe_all :
    {F : Type 0} (vs : List (Json F)) → resolve (observe_all untyped vs) ≡ agreed (types vs)
unfolding resolve observe
resolve-observe_all [] = refl
resolve-observe_all (v ∷ vs) = ground (
  arith,
  resolve-observe_all vs,
  resolve-typed text vs,
  resolve-typed integer vs,
  resolve-typed real vs,
)
