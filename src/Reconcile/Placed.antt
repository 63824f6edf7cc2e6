-- ===== src/Reconcile/Placed.antt =====
-- packages/rust/src/db.rs (`reconcile_rows`): where each new row ends up.
pub mod Rows
use dirsql.Prelude.{
  ◌-◌, ℕ, zero, suc, ◌+◌, ◌≤◌, ◌<◌, ◌≡◌, refl, sym, ap, ◌∙◌, ◌⊎◌, inl, inr, Bool, true, false, not,
  Option, none, some, List, [], ◌∷◌, ◌++◌, map, Text, get_elem?, length, if◌then◌else◌, all, ltb,
  ◌==◌, ==_iff, arith, Bool-cases,
}
use dirsql.Value.{Value}
use dirsql.Reconcile.Unclaimed.Pop.{Pops}
use dirsql.Reconcile.Indexes.{
  has_index, updates_of, has_index-more, has_index-last, has_index-other, updates_of-if,
  updates_of-here, get-set_elem, get-set_other, get-length, length-set,
}
use dirsql.Reconcile.Free.{free-Claims, free-claimed}
use dirsql.Reconcile.{
  StoredRow, Placement, set_elem, stored_at, ident, is_changed, claim_or_add, place,
}
use dirsql.Reconcile.Counts.{ids, Agrees}

module _ {F : Type 0} (debug : List (Value F) → Text) (stored : List (StoredRow F))
    (at among : List ℕ) where
  -- The row is inserted, or it takes the place of a stored row with its identity, which is updated for
  -- it alone if it differs from it, and for none if not.
  abbrev pub Kept : ℕ → List (Value F) → Placement → Type 0
  Kept i cells p =
      (has_index i p.added ≡ true)
      ⊎ ((a : ℕ) × (row : StoredRow F) × (get_elem? stored a ≡ some row)
          × (get_elem? p.placed i ≡ some row.0)
          × (ident debug row.1 at ≡ ident debug cells at)
          × (get_elem? p.claimed a ≡ some true)
          × (has_index i p.added ≡ false)
          × (updates_of a p.updated ≡ (if is_changed debug row.1 cells among then i ∷ [] else [])))

  abbrev pub is_stored : ℕ × ℕ → Bool
  is_stored pair = ltb pair.0 (length stored)

  all-is_stored :
      (c : Bool) (a j : ℕ) (ps : List (ℕ × ℕ))
      → a < length stored
      → all is_stored ps ≡ true
      → all is_stored (if c then ps ++ (a, j) ∷ [] else ps) ≡ true
  all-is_stored false a j ps h e = e
  all-is_stored true a j [] h e = ground arith
  all-is_stored true a j ((b, k) ∷ ps) h e = ground (arith, h, e, all-is_stored true a j ps h)

  -- Nothing is updated for a row that is not claimed, no later row is to be inserted, and what is
  -- updated is stored.
  pub record Fresh (index : ℕ) (p : Placement) : Type 0 where
    pub unclaimed : (b : ℕ) → get_elem? p.claimed b ≡ some false → updates_of b p.updated ≡ []
    pub later : (j : ℕ) → index ≤ j → has_index j p.added ≡ false
    pub inside : all is_stored p.updated ≡ true
    pub flags : length p.claimed ≡ length stored

  row-ids :
      (rows : List (StoredRow F)) (a : ℕ) (k : Text)
      → get_elem? (map (λ row. ident debug row.1 at) rows) a ≡ some k
      → (row : StoredRow F) × (get_elem? rows a ≡ some row)
        × (stored_at rows a ≡ row)
        × (ident debug row.1 at ≡ k)
  unfolding stored_at
  row-ids [] a k e = ground (arith, e)
  row-ids (row ∷ rows) zero k e = (row, refl, refl, ground (arith, e))
  row-ids (row ∷ rows) (suc a) k e = row-ids rows a k e

  -- What a popped index finds.
  found-row :
      (key : Text) (p : Placement) (a : ℕ) (left : List (Text × List ℕ))
      → Agrees debug stored at among p
      → Pops key p.unclaimed (some (a, left))
      → (get_elem? p.claimed a ≡ some false)
        × (a < length p.claimed)
        × ((row : StoredRow F) × (get_elem? stored a ≡ some row)
            × (stored_at stored a ≡ row)
            × (ident debug row.1 at ≡ key))
  found-row key p a left agrees (rest, e, others) =
      let listed = sym (agrees.held key) ∙ e in
      let (low, found, claims) =
        free-Claims 0 (ids debug stored at among) p.claimed key a rest listed in
      let flag =
        ap (get_elem? p.claimed) (less_none a)
        ∙ (free-claimed 0 (ids debug stored at among) p.claimed key a rest listed).1 in
      (
        flag,
        get-length p.claimed a false flag,
        row-ids stored a key (ap (get_elem? (ids debug stored at among)) (less_none a) ∙ found),
      )
    where
      less_none : (i : ℕ) → i ≡ i - 0
      less_none i = omega arith

  pub claim-here :
      (i : ℕ) (cells : List (Value F)) (p : Placement) (o : Option (ℕ × List (Text × List ℕ)))
      → Agrees debug stored at among p
      → Fresh i p
      → Pops (ident debug cells at) p.unclaimed o
      → i < length p.placed
      → Kept i cells (claim_or_add debug stored among i cells p o)
  unfolding claim_or_add
  claim-here i cells p none agrees fresh pops h = inl (has_index-last i p.added)
  claim-here i cells p (some (a, left)) agrees fresh pops h =
      let (flag, past, (row, there, same, ident_eq)) =
        found-row (ident debug cells at) p a left agrees pops in
      inr (
        a,
        row,
        there,
        get-set_elem i (stored_at stored a).0 p.placed h ∙ ap (λ r. some r.0) same,
        ident_eq,
        get-set_elem a true p.claimed past,
        fresh.later i (omega arith),
        rw same (
            updates_of-here (is_changed debug row.1 cells among) a i p.updated
              (fresh.unclaimed a flag)),
      )

  still_claimed :
      (a b : ℕ) (claimed : List Bool)
      → get_elem? claimed a ≡ some true
      → get_elem? (set_elem b true claimed) a ≡ some true
  still_claimed a b claimed e = elim (Bool-cases (b == a)) [
    | inl same ↦
        ap (λ i. get_elem? (set_elem i true claimed) a) ((==_iff b a).0 same)
        ∙ get-set_elem a true claimed (get-length claimed a true e)
    | inr different ↦ get-set_other a b true claimed different ∙ e
  ]

  apart_flags :
      (a b : ℕ) (claimed : List Bool)
      → get_elem? claimed b ≡ some false
      → get_elem? claimed a ≡ some true
      → (b == a) ≡ false
  apart_flags a b claimed f t = elim (Bool-cases (b == a)) [
    | inl same ↦ absurd (clash (sym f ∙ ap (get_elem? claimed) ((==_iff b a).0 same) ∙ t))
    | inr different ↦ different
  ]
    where
      clash : some false ≡ some true → ⊥
      clash e = ground (arith, e)

  -- What happens to another row leaves a row where it is.
  pub claim-other :
      (i j : ℕ) (cells others : List (Value F)) (p : Placement)
      (o : Option (ℕ × List (Text × List ℕ)))
      → Agrees debug stored at among p
      → Pops (ident debug others at) p.unclaimed o
      → (j == i) ≡ false
      → Kept i cells p
      → Kept i cells (claim_or_add debug stored among j others p o)
  unfolding claim_or_add
  claim-other i j cells others p none agrees pops apart (inl added) =
      inl (has_index-more i j p.added added)
  claim-other i j cells others p none agrees pops apart
        (inr (a, row, there, placed, same, claimed, absent, changes)) =
      inr
        (a, row, there, placed, same, claimed, has_index-other i j p.added apart ∙ absent, changes)
  claim-other i j cells others p (some (b, left)) agrees pops apart (inl added) = inl added
  claim-other i j cells others p (some (b, left)) agrees pops apart
        (inr (a, row, there, placed, same, claimed, absent, changes)) =
      let (flag, past, found) = found-row (ident debug others at) p b left agrees pops in
      inr (
        a,
        row,
        there,
        get-set_other i j (stored_at stored b).0 p.placed apart ∙ placed,
        same,
        still_claimed a b p.claimed claimed,
        absent,
        updates_of-if (is_changed debug (stored_at stored b).1 others among) a b j p.updated
              (apart_flags a b p.claimed flag claimed)
            ∙ changes,
      )

  flag_other :
      (a b : ℕ) (claimed : List Bool)
      → a < length claimed
      → get_elem? (set_elem a true claimed) b ≡ some false
      → ((a == b) ≡ false) × (get_elem? claimed b ≡ some false)
  flag_other a b claimed h e = elim (Bool-cases (a == b)) [
    | inl same ↦ absurd (
        clash (
          sym (
            ap (get_elem? (set_elem a true claimed)) (sym ((==_iff a b).0 same))
            ∙ get-set_elem a true claimed h)
          ∙ e))
    | inr different ↦ (different, sym (get-set_other b a true claimed different) ∙ e)
  ]
    where
      clash : some true ≡ some false → ⊥
      clash e = ground (arith, e)

  pub claim-Fresh :
      (i : ℕ) (cells : List (Value F)) (p : Placement) (o : Option (ℕ × List (Text × List ℕ)))
      → Agrees debug stored at among p
      → Pops (ident debug cells at) p.unclaimed o
      → Fresh i p
      → Fresh (suc i) (claim_or_add debug stored among i cells p o)
  unfolding claim_or_add
  claim-Fresh i cells p none agrees pops fresh = record {
    unclaimed = fresh.unclaimed;
    later = λ j h. has_index-other j i p.added (ground arith) ∙ fresh.later j (omega arith);
    inside = fresh.inside;
    flags = fresh.flags;
  }
  claim-Fresh i cells p (some (a, left)) agrees pops fresh =
      let (flag, past, found) = found-row (ident debug cells at) p a left agrees pops in
      record {
        unclaimed = λ b e.
            let (different, open_flag) = flag_other a b p.claimed past e in
            updates_of-if (is_changed debug (stored_at stored a).1 cells among) b a i p.updated
              different
            ∙ fresh.unclaimed b open_flag;
        later = λ j h. fresh.later j (omega arith);
        inside =
            all-is_stored (is_changed debug (stored_at stored a).1 cells among) a i p.updated
              (omega (arith, past, fresh.flags)) fresh.inside;
        flags = length-set a true p.claimed ∙ fresh.flags;
      }
