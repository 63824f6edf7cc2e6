-- ===== src/VtabScaffold/Lookup/Index.antt =====
-- packages/rust/src/vtab_scaffold.rs (`LookupIndex`): the index finds what a scan finds.
use dirsql.Prelude.{
  ℕ, suc, ◌≡◌, refl, sym, ap, ◌∙◌, Bool, true, false, Option, none, some, List, [], ◌∷◌, ◌++◌, Text,
  text_eq, text_eq_iff, append-nil, append_assoc, if◌then◌else◌, arith, Bool-cases, inl, inr,
}
use dirsql.VtabScaffold.Lookup.{
  is_key, add_position, positions_of, add_keyed, scan_from, scan_matching, build_from, build,
  matching,
}

abbrev when : Bool → ℕ → List ℕ
when b p = if b then p ∷ [] else []

pushed :
    (b : Bool) (p : ℕ) (ps rest : List ℕ)
    → (if b then ps ++ p ∷ [] else rest) ≡ (if b then ps else rest) ++ when b p
pushed true p ps rest = refl
pushed false p ps rest = sym (append-nil rest)

passed :
    (here b : Bool) (p : ℕ) (ps rest added : List ℕ)
    → (here ≡ true → b ≡ false)
    → added ≡ rest ++ when b p
    → (if here then ps else added) ≡ (if here then ps else rest) ++ when b p
passed true b p ps rest added h e = rw (h refl) (sym (append-nil ps))
passed false b p ps rest added h e = e

differs : (j k key : Text) → text_eq j k ≡ false → text_eq j key ≡ true → text_eq k key ≡ false
differs j k key h g = ground (arith, h, g, text_eq_iff j k, text_eq_iff j key, text_eq_iff k key)

positions_of-add_position :
    (k : Text) (p : ℕ) (positions : List (Text × List ℕ)) (key : Text)
    → positions_of key (add_position k p positions)
      ≡ positions_of key positions ++ when (text_eq k key) p
unfolding positions_of add_position
positions_of-add_position k p [] key = ground arith
positions_of-add_position k p ((j, ps) ∷ positions) key = elim (Bool-cases (text_eq j k)) [
  | inl same ↦ rw (same, (text_eq_iff j k).0 same) (pushed (text_eq k key) p ps _)
  | inr other ↦ rw other (
      passed (text_eq j key) (text_eq k key) p ps _ _ (λ e. differs j k key other e)
        (positions_of-add_position k p positions key))
]

module _ {R : Type 0} (row_key : R → ℕ → Option Text) where
  positions_of-add_keyed :
      (o : Option Text) (p : ℕ) (positions : List (Text × List ℕ)) (key : Text)
      → positions_of key (add_keyed o p positions)
        ≡ positions_of key positions ++ when (is_key o key) p
  unfolding add_keyed
  positions_of-add_keyed none p positions key = sym (append-nil _)
  positions_of-add_keyed (some k) p positions key = positions_of-add_position k p positions key

  scan_from-step :
      (p : ℕ) (row : R) (rows : List R) (column : ℕ) (key : Text)
      → scan_from row_key p (row ∷ rows) column key
        ≡ when (is_key (row_key row column) key) p ++ scan_from row_key (suc p) rows column key
  unfolding scan_from
  scan_from-step p row rows column key = ground arith

  positions_of-build_from :
      (p : ℕ) (rows : List R) (column : ℕ) (positions : List (Text × List ℕ)) (key : Text)
      → positions_of key (build_from row_key p rows column positions)
        ≡ positions_of key positions ++ scan_from row_key p rows column key
  unfolding build_from scan_from
  positions_of-build_from p [] column positions key = sym (append-nil _)
  positions_of-build_from p (row ∷ rows) column positions key =
      positions_of-build_from (suc p) rows column (add_keyed (row_key row column) p positions) key
      ∙ ap (λ ps. ps ++ scan_from row_key (suc p) rows column key)
          (positions_of-add_keyed (row_key row column) p positions key)
      ∙ append_assoc (positions_of key positions) _ _
      ∙ ap (λ ps. positions_of key positions ++ ps) (sym (scan_from-step p row rows column key))

  -- Probing an index finds the rows that comparing every row finds, in the same order.
  pub matching-build :
      (rows : List R) (column : ℕ) (key : Text)
      → matching (build row_key rows column) key ≡ scan_matching row_key rows column key
  unfolding matching build scan_matching positions_of
  matching-build rows column key = positions_of-build_from 0 rows column [] key
