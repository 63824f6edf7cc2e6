-- ===== src/Reconcile/Apply/Updates.antt =====
-- packages/rust/src/db.rs (`reconcile_rows`): updates and inserts as a whole.
use dirsql.Prelude.{
  ℕ, ◌<◌, ◌≡◌, refl, sym, ap, ◌∙◌, inl, inr, true, false, some, List, [], ◌∷◌, map, get_elem?,
  length, all, if◌then◌else◌, ◌==◌, ==_iff, arith, Bool-cases,
}
use dirsql.Prelude.Int.{ℤ, eq_ℤ_iff}
use dirsql.Value.{Value}
use dirsql.Reconcile.{StoredRow, set_elem, stored_at, cells_at}
use dirsql.Reconcile.Indexes.{has_index, updates_of, get-set_elem, get-set_other, length-set}
use dirsql.Reconcile.Apply.{
  Statements, StatementLaws, ◌>>=◌, merged, delete_rows, update_rows, replace_rows, insert_rows,
  write_updates,
}
use dirsql.Reconcile.Apply.Steps.{
  bound, is_other, delete_rows-other, others-apart, update_rows-other, update_rows-mine,
  replace_rows-other, insert_rows-kept,
}

module _ {F : Type 0} (stored : List (StoredRow F)) (rows : List (List (Value F)))
    (compared : List ℕ) {S : Type 0} (sql : Statements S F) (laws : StatementLaws sql) where
  replace_rows-mine :
      (a i : ℕ) (blocked : List (ℕ × ℕ)) (s t : S)
      → all (is_other stored rows compared sql laws a (stored_at stored a).0) blocked ≡ true
      → updates_of a blocked ≡ i ∷ []
      → replace_rows stored rows compared sql blocked s ≡ some t
      → sql.row_at t (stored_at stored a).0 ≡ some (merged stored rows compared a i)
  unfolding replace_rows
  replace_rows-mine a i [] s t h one_of e = ground (arith, one_of)
  replace_rows-mine a i ((b, j) ∷ blocked) s t h one_of e =
      let (u, first, rest) =
        bound (sql.replace s (stored_at stored b).0 (merged stored rows compared b j))
          (replace_rows stored rows compared sql blocked) t e in
      let hs : all (is_other stored rows compared sql laws a (stored_at stored a).0) blocked
          ≡ true =
        ground (arith, h) in
      elim (Bool-cases (b == a)) [
        | inl same ↦
            let one = rw same at one_of in
            let is_i : j ≡ i = ground (arith, one) in
            let none_left : updates_of a blocked ≡ [] = ground (arith, one) in
            let first' = rw ((==_iff b a).0 same, is_i) at first in
            replace_rows-other stored rows compared sql laws a (stored_at stored a).0 blocked u t hs
              none_left rest
            ∙ laws.replace-row_at s u (stored_at stored a).0 (stored_at stored a).0
                (merged stored rows compared a i) first'
            ∙ ap
                (λ c.
                  if c
                  then some (merged stored rows compared a i)
                  else sql.row_at s (stored_at stored a).0)
                ((eq_ℤ_iff (stored_at stored a).0 (stored_at stored a).0).1 refl)
        | inr apart ↦ replace_rows-mine a i blocked u t hs (ground (arith, one_of, apart)) rest
      ]

  three_loops :
      (updated : List (ℕ × ℕ)) (s t : S)
      → write_updates stored rows compared sql updated s ≡ some t
      → (u v : S) × (ends : List (ℕ × ℕ)) × (update_rows stored rows compared sql updated [] s
          ≡ some (u, ends))
        × (delete_rows stored rows compared sql (map (λ pair. pair.0) ends) u ≡ some v)
        × (replace_rows stored rows compared sql ends v ≡ some t)
  unfolding write_updates
  three_loops updated s t e =
      let ((u, ends), first, more) =
        bound (update_rows stored rows compared sql updated [] s)
          (λ did.
            delete_rows stored rows compared sql (map (λ pair. pair.0) did.1) did.0
            >>= replace_rows stored rows compared sql did.1)
          t e in
      let (v, second, third) =
        bound (delete_rows stored rows compared sql (map (λ pair. pair.0) ends) u)
          (replace_rows stored rows compared sql ends) t more in
      (u, v, ends, first, second, third)

  -- The rows with no blocked update are left as they are by what replaces the blocked ones.
  replaced-other :
      (a : ℕ) (ends : List (ℕ × ℕ)) (u v t : S)
      → all (is_other stored rows compared sql laws a (stored_at stored a).0) ends ≡ true
      → updates_of a ends ≡ []
      → delete_rows stored rows compared sql (map (λ pair. pair.0) ends) u ≡ some v
      → replace_rows stored rows compared sql ends v ≡ some t
      → sql.row_at t (stored_at stored a).0 ≡ sql.row_at u (stored_at stored a).0
  replaced-other a ends u v t h none_of second third =
      let r = (stored_at stored a).0 in
      replace_rows-other stored rows compared sql laws a r ends v t h none_of third
      ∙ delete_rows-other stored rows compared sql laws r (map (λ pair. pair.0) ends) u v
          (others-apart stored rows compared sql laws a r ends h none_of) second

  -- A row that is updated for none stays as it is.
  pub write_updates-other :
      (a : ℕ) (updated : List (ℕ × ℕ)) (s t : S)
      → all (is_other stored rows compared sql laws a (stored_at stored a).0) updated ≡ true
      → updates_of a updated ≡ []
      → write_updates stored rows compared sql updated s ≡ some t
      → sql.row_at t (stored_at stored a).0 ≡ sql.row_at s (stored_at stored a).0
  write_updates-other a updated s t h none_of e =
      let (u, v, ends, first, second, third) = three_loops updated s t e in
      let (kept, none_left, others) =
        update_rows-other stored rows compared sql laws a (stored_at stored a).0 updated [] s u ends
          h refl none_of first in
      replaced-other a ends u v t others none_left second third ∙ kept

  -- A row that is updated for one new row gets its cells.
  pub write_updates-mine :
      (a i : ℕ) (updated : List (ℕ × ℕ)) (s t : S)
      → all (is_other stored rows compared sql laws a (stored_at stored a).0) updated ≡ true
      → updates_of a updated ≡ i ∷ []
      → sql.row_at s (stored_at stored a).0 ≡ some (stored_at stored a).1
      → write_updates stored rows compared sql updated s ≡ some t
      → sql.row_at t (stored_at stored a).0 ≡ some (merged stored rows compared a i)
  write_updates-mine a i updated s t h one_of here e =
      let (u, v, ends, first, second, third) = three_loops updated s t e in
      let (others, done_or_blocked) =
        update_rows-mine stored rows compared sql laws a i updated [] s u ends h refl one_of refl
          here first in
      elim done_or_blocked [
        | inl (none_left, there) ↦ replaced-other a ends u v t others none_left second third ∙ there
        | inr blocked ↦ replace_rows-mine a i ends v t others blocked third
      ]

  pub insert_rows-placed :
      (added : List ℕ) (placed ends : List ℤ) (s t : S) (i : ℕ)
      → insert_rows stored rows compared sql added placed s ≡ some (t, ends)
      → has_index i added ≡ false
      → get_elem? ends i ≡ get_elem? placed i
  unfolding insert_rows
  insert_rows-placed [] placed ends s t i e h =
      let same : placed ≡ ends = ground (arith, e) in ap (λ l. get_elem? l i) (sym same)
  insert_rows-placed (j ∷ added) placed ends s t i e h =
      let ((u, rowid), first, rest) =
        bound (sql.insert s (cells_at rows j))
          (λ did. insert_rows stored rows compared sql added (set_elem j did.1 placed) did.0)
          (t, ends) e in
      insert_rows-placed added (set_elem j rowid placed) ends u t i rest (ground (arith, h))
      ∙ get-set_other i j rowid placed (ground (arith, h))

  pub insert_rows-added :
      (added : List ℕ) (placed ends : List ℤ) (s t : S) (i : ℕ)
      → insert_rows stored rows compared sql added placed s ≡ some (t, ends)
      → i < length placed
      → has_index i added ≡ true
      → (rowid : ℤ) × (get_elem? ends i ≡ some rowid)
        × (sql.row_at t rowid ≡ some (cells_at rows i))
  unfolding insert_rows
  insert_rows-added [] placed ends s t i e low h = ground (arith, h)
  insert_rows-added (j ∷ added) placed ends s t i e low h =
      let ((u, rowid), first, rest) =
        bound (sql.insert s (cells_at rows j))
          (λ did. insert_rows stored rows compared sql added (set_elem j did.1 placed) did.0)
          (t, ends) e in
      elim (Bool-cases (has_index i added)) [
        | inl later ↦
            insert_rows-added added (set_elem j rowid placed) ends u t i rest
              (omega (arith, length-set j rowid placed)) later
        | inr last ↦
            let same = (==_iff j i).0 (ground (arith, h, last)) in
            let first' = rw same at first in
            let rest' = rw same at rest in
            (
              rowid,
              insert_rows-placed added (set_elem i rowid placed) ends u t i rest' last
                  ∙ get-set_elem i rowid placed low,
              insert_rows-kept stored rows compared sql laws added (set_elem i rowid placed) ends u
                  t rowid (cells_at rows i) rest'
                  (laws.insert-row_at s u rowid rowid (cells_at rows i) first'
                    ∙ ap (λ c. if c then some (cells_at rows i) else sql.row_at s rowid)
                        ((eq_ℤ_iff rowid rowid).1 refl)),
            )
      ]
