-- ===== src/Reconcile/Apply/Steps.antt =====
-- packages/rust/src/db.rs (`reconcile_rows`): what each loop of statements does to one stored row.
use dirsql.Prelude.{
  ℕ, ◌≡◌, refl, sym, ap, ◌∙◌, ◌⊎◌, inl, inr, Bool, true, false, not, ◌||◌, Option, none, some, List,
  [], ◌∷◌, ◌++◌, append-nil, map, all, if◌then◌else◌, ◌==◌, ==-refl, ==_iff, arith, Bool-cases,
}
use dirsql.Prelude.Int.{ℤ, eq_ℤ, eq_ℤ_iff}
use dirsql.Value.{Value}
use dirsql.Reconcile.{StoredRow, set_elem, stored_at, cells_at}
use dirsql.Reconcile.Indexes.{updates_of, updates_of-more}
use dirsql.Reconcile.Apply.{
  Updated, wrote, collided, refused, Statements, StatementLaws, ◌>>=◌, assignments, merged,
  delete_rows, update_rows, replace_rows, insert_rows,
}

pub bound :
    {A B : Type 0} (m : Option A) (k : A → Option B) (b : B)
    → (m >>= k) ≡ some b
    → (a : A) × (m ≡ some a) × (k a ≡ some b)
bound none k b e = ground (arith, e)
bound (some a) k b e = (a, refl, e)

pub Updated-cases :
    {S : Type 0} (u : Updated S) → ((t : S) × (u ≡ wrote t)) ⊎ ((u ≡ collided) ⊎ (u ≡ refused))
Updated-cases (wrote t) = inl (t, refl)
Updated-cases collided = inr (inl refl)
Updated-cases refused = inr (inr refl)

module _ {F : Type 0} (stored : List (StoredRow F)) (rows : List (List (Value F)))
    (compared : List ℕ) {S : Type 0} (sql : Statements S F) (laws : StatementLaws sql) where
  -- Whether the stored row at an index has another rowid.
  abbrev pub is_apart : ℤ → ℕ → Bool
  is_apart r b = not (eq_ℤ (stored_at stored b).0 r)

  -- Only pairs of the row `a` have the rowid `r`.
  abbrev pub is_other : ℕ → ℤ → ℕ × ℕ → Bool
  is_other a r pair = (pair.0 == a) || is_apart r pair.0

  pub delete_rows-other :
      (r : ℤ) (indexes : List ℕ) (s t : S)
      → all (is_apart r) indexes ≡ true
      → delete_rows stored rows compared sql indexes s ≡ some t
      → sql.row_at t r ≡ sql.row_at s r
  unfolding delete_rows
  delete_rows-other r [] s t h e = ground (arith, e)
  delete_rows-other r (b ∷ indexes) s t h e =
      let (u, first, rest) =
        bound (sql.delete s (stored_at stored b).0) (delete_rows stored rows compared sql indexes) t
          e in
      let here : eq_ℤ (stored_at stored b).0 r ≡ false = ground (arith, h) in
      delete_rows-other r indexes u t (ground (arith, h)) rest
      ∙ laws.delete-row_at s u (stored_at stored b).0 r first
      ∙ ap (λ c. if c then none else sql.row_at s r) here

  pub others-apart :
      (a : ℕ) (r : ℤ) (pairs : List (ℕ × ℕ))
      → all (is_other a r) pairs ≡ true
      → updates_of a pairs ≡ []
      → all (is_apart r) (map (λ pair. pair.0) pairs) ≡ true
  others-apart a r [] h e = refl
  others-apart a r ((b, j) ∷ pairs) h e = ground (arith, h, e, others-apart a r pairs)

  all-other :
      (a : ℕ) (r : ℤ) (pair : ℕ × ℕ) (pairs : List (ℕ × ℕ))
      → is_other a r pair ≡ true
      → all (is_other a r) pairs ≡ true
      → all (is_other a r) (pairs ++ pair ∷ []) ≡ true
  all-other a r pair [] h e = ground (arith, h)
  all-other a r pair (first ∷ pairs) h e = ground (arith, h, e, all-other a r pair pairs)

  -- What the loop of updates does to a row that it has no pair of.
  pub update_rows-other :
      (a : ℕ) (r : ℤ) (updated blocked : List (ℕ × ℕ)) (s t : S) (ends : List (ℕ × ℕ))
      → all (is_other a r) updated ≡ true
      → all (is_other a r) blocked ≡ true
      → updates_of a updated ≡ []
      → update_rows stored rows compared sql updated blocked s ≡ some (t, ends)
      → (sql.row_at t r ≡ sql.row_at s r)
        × (updates_of a ends ≡ updates_of a blocked)
        × (all (is_other a r) ends ≡ true)
  unfolding update_rows
  update_rows-other a r [] blocked s t ends h hb none_of e =
      let same : (s ≡ t) × (blocked ≡ ends) = ground (arith, e) in
      (
        ap (λ u. sql.row_at u r) (sym (same.0)),
        ap (updates_of a) (sym (same.1)),
        rw (sym (same.1)) hb,
      )
  update_rows-other a r ((b, j) ∷ updated) blocked s t ends h hb none_of e =
      let apart : (b == a) ≡ false = ground (arith, none_of) in
      let far : eq_ℤ (stored_at stored b).0 r ≡ false = ground (arith, h, apart) in
      let hs : all (is_other a r) updated ≡ true = ground (arith, h) in
      let none_left : updates_of a updated ≡ [] = ground (arith, none_of) in
      elim (Updated-cases
        (sql.update s (stored_at stored b).0 (assignments stored rows compared j))) [
          | inl (u, did) ↦
              let (kept, same, others) =
                update_rows-other a r updated blocked u t ends hs hb none_left
                  (let e' = rw (update_rows, did) at e in e') in
              (
                kept
                    ∙ laws.update-other s u (stored_at stored b).0 r
                        (assignments stored rows compared j) did far,
                same,
                others,
              )
          | inr (inl did) ↦
              let (kept, same, others) =
                update_rows-other a r updated (blocked ++ (b, j) ∷ []) s t ends hs
                  (all-other a r (b, j) blocked (ground (arith, far)) hb) none_left
                  (let e' = rw (update_rows, did) at e in e') in
              (
                kept,
                same
                    ∙ updates_of-more a b j blocked
                    ∙ ap (λ c. updates_of a blocked ++ (if c then j ∷ [] else [])) apart
                    ∙ append-nil (updates_of a blocked),
                others,
              )
          | inr (inr did) ↦ absurd (ground (arith, let e' = rw (update_rows, did) at e in e'))
        ]

  -- The pair of the row itself is the next one.
  update_rows-first :
      (a i b j : ℕ) (updated blocked : List (ℕ × ℕ)) (s t : S) (ends : List (ℕ × ℕ))
      → all (is_other a (stored_at stored a).0) updated ≡ true
      → all (is_other a (stored_at stored a).0) blocked ≡ true
      → (b == a) ≡ true
      → j ∷ updates_of a updated ≡ i ∷ []
      → updates_of a blocked ≡ []
      → sql.row_at s (stored_at stored a).0 ≡ some (stored_at stored a).1
      → update_rows stored rows compared sql ((b, j) ∷ updated) blocked s ≡ some (t, ends)
      → (all (is_other a (stored_at stored a).0) ends ≡ true)
        × (((updates_of a ends ≡ [])
              × (sql.row_at t (stored_at stored a).0 ≡ some (merged stored rows compared a i)))
            ⊎ (updates_of a ends ≡ i ∷ []))
  unfolding update_rows merged
  update_rows-first a i b j updated blocked s t ends h hb same one_of none_of here e =
      let is_a = (==_iff b a).0 same in
      let is_i : j ≡ i = ground (arith, one_of) in
      let none_left : updates_of a updated ≡ [] = ground (arith, one_of) in
      let e = rw (is_a, is_i) at e in
      elim (Updated-cases
        (sql.update s (stored_at stored a).0 (assignments stored rows compared i))) [
          | inl (u, did) ↦
              let (kept, left, others) =
                update_rows-other a (stored_at stored a).0 updated blocked u t ends h hb none_left
                  (let e' = rw (update_rows, did) at e in e') in
              (
                others,
                inl (
                  left ∙ none_of,
                  kept
                      ∙ laws.update-row_at s u (stored_at stored a).0
                          (assignments stored rows compared i) (stored_at stored a).1 did here,
                ),
              )
          | inr (inl did) ↦
              let (kept, left, others) =
                update_rows-other a (stored_at stored a).0 updated (blocked ++ (a, i) ∷ []) s t ends
                  h
                  (all-other a (stored_at stored a).0 (a, i) blocked
                    (ap (λ c. c || is_apart (stored_at stored a).0 a) (==-refl a)) hb)
                  none_left (let e' = rw (update_rows, did) at e in e') in
              (
                others,
                inr (
                    left
                    ∙ updates_of-more a a i blocked
                    ∙ ap (λ c. updates_of a blocked ++ (if c then i ∷ [] else [])) (==-refl a)
                    ∙ ap (λ l. l ++ i ∷ []) none_of),
              )
          | inr (inr did) ↦ absurd (ground (arith, let e' = rw (update_rows, did) at e in e'))
        ]

  pub update_rows-mine :
      (a i : ℕ) (updated blocked : List (ℕ × ℕ)) (s t : S) (ends : List (ℕ × ℕ))
      → all (is_other a (stored_at stored a).0) updated ≡ true
      → all (is_other a (stored_at stored a).0) blocked ≡ true
      → updates_of a updated ≡ i ∷ []
      → updates_of a blocked ≡ []
      → sql.row_at s (stored_at stored a).0 ≡ some (stored_at stored a).1
      → update_rows stored rows compared sql updated blocked s ≡ some (t, ends)
      → (all (is_other a (stored_at stored a).0) ends ≡ true)
        × (((updates_of a ends ≡ [])
              × (sql.row_at t (stored_at stored a).0 ≡ some (merged stored rows compared a i)))
            ⊎ (updates_of a ends ≡ i ∷ []))
  unfolding update_rows merged
  update_rows-mine a i [] blocked s t ends h hb one_of none_of here e = ground (arith, one_of)
  update_rows-mine a i ((b, j) ∷ updated) blocked s t ends h hb one_of none_of here e =
      let hs : all (is_other a (stored_at stored a).0) updated ≡ true = ground (arith, h) in
      elim (Bool-cases (b == a)) [
        | inl same ↦
            update_rows-first a i b j updated blocked s t ends hs hb same
              (let one = rw same at one_of in one) none_of here e
        | inr apart ↦
            let far : eq_ℤ (stored_at stored b).0 (stored_at stored a).0 ≡ false =
              ground (arith, h, apart) in
            let one_left : updates_of a updated ≡ i ∷ [] = ground (arith, one_of, apart) in
            elim (Updated-cases
              (sql.update s (stored_at stored b).0 (assignments stored rows compared j))) [
                | inl (u, did) ↦
                    update_rows-mine a i updated blocked u t ends hs hb one_left none_of
                      (laws.update-other s u (stored_at stored b).0 (stored_at stored a).0
                          (assignments stored rows compared j) did far
                        ∙ here)
                      (let e' = rw (update_rows, did) at e in e')
                | inr (inl did) ↦
                    update_rows-mine a i updated (blocked ++ (b, j) ∷ []) s t ends hs
                      (all-other a (stored_at stored a).0 (b, j) blocked (ground (arith, far)) hb)
                      one_left
                      (updates_of-more a b j blocked
                        ∙ ap (λ c. updates_of a blocked ++ (if c then j ∷ [] else [])) apart
                        ∙ append-nil (updates_of a blocked)
                        ∙ none_of)
                      here (let e' = rw (update_rows, did) at e in e')
                | inr (inr did) ↦ absurd (ground (arith, let e' = rw (update_rows, did) at e in e'))
              ]
      ]

  pub replace_rows-other :
      (a : ℕ) (r : ℤ) (blocked : List (ℕ × ℕ)) (s t : S)
      → all (is_other a r) blocked ≡ true
      → updates_of a blocked ≡ []
      → replace_rows stored rows compared sql blocked s ≡ some t
      → sql.row_at t r ≡ sql.row_at s r
  unfolding replace_rows
  replace_rows-other a r [] s t h none_of e = ground (arith, e)
  replace_rows-other a r ((b, j) ∷ blocked) s t h none_of e =
      let (u, first, rest) =
        bound (sql.replace s (stored_at stored b).0 (merged stored rows compared b j))
          (replace_rows stored rows compared sql blocked) t e in
      let apart : eq_ℤ (stored_at stored b).0 r ≡ false = ground (arith, h, none_of) in
      replace_rows-other a r blocked u t (ground (arith, h)) (ground (arith, none_of)) rest
      ∙ laws.replace-row_at s u (stored_at stored b).0 r (merged stored rows compared b j) first
      ∙ ap (λ c. if c then some (merged stored rows compared b j) else sql.row_at s r) apart

  pub insert_rows-kept :
      (added : List ℕ) (placed ends : List ℤ) (s t : S) (r : ℤ) (cells : List (Value F))
      → insert_rows stored rows compared sql added placed s ≡ some (t, ends)
      → sql.row_at s r ≡ some cells
      → sql.row_at t r ≡ some cells
  unfolding insert_rows
  insert_rows-kept [] placed ends s t r cells e h =
      let same : s ≡ t = ground (arith, e) in ap (λ u. sql.row_at u r) (sym same) ∙ h
  insert_rows-kept (j ∷ added) placed ends s t r cells e h =
      let ((u, rowid), first, rest) =
        bound (sql.insert s (cells_at rows j))
          (λ did. insert_rows stored rows compared sql added (set_elem j did.1 placed) did.0)
          (t, ends) e in
      elim (Bool-cases (eq_ℤ rowid r)) [
        | inl same ↦ absurd (
            clash cells (
              sym (laws.insert-fresh s u rowid (cells_at rows j) first)
              ∙ ap (sql.row_at s) ((eq_ℤ_iff rowid r).0 same)
              ∙ h))
        | inr apart ↦ insert_rows-kept added (set_elem j rowid placed) ends u t r cells rest (
            laws.insert-row_at s u rowid r (cells_at rows j) first
            ∙ ap (λ c. if c then some (cells_at rows j) else sql.row_at s r) apart
            ∙ h)
      ]
    where
      clash : {A : Type 0} (x : A) → none ≡ some x → ⊥
      clash x e = ground (arith, e)
