-- ===== src/Events/Batches/Held.antt =====
-- packages/rust/src/lib.rs (`take_held`, `hold`): the events that are held for a later batch.
use dirsql.Prelude.{
  ◌≡◌, refl, sym, ap, ◌∙◌, inl, inr, Bool, true, false, not, ◌||◌, List, [], ◌∷◌, arith, Bool-cases,
}
use dirsql.Watcher.{
  FilePath, path_eq, path_eq_iff, FileEvent, created, modified, deleted, rescan, event_eq,
}
use dirsql.Events.Links.{has_event, push_new}
use dirsql.Events.Links.Restated.{are_distinct, distinct-push, has_event-push}
use dirsql.Events.Batches.{hold, state_now, restated_now, restated_from, take_held}

pub has_event-hold :
    (e : FileEvent) (held events : List FileEvent)
    → has_event e (hold held events) ≡ (has_event e held || has_event e events)
unfolding hold has_event
has_event-hold e held [] = ground arith
has_event-hold e held (f ∷ events) =
    ground (arith, has_event-hold e (push_new held f) events, has_event-push e f held)

module _ (is_file is_dir : FilePath → Bool) where
  abbrev pub any_restated : FileEvent → List FileEvent → Bool
  any_restated e [] = false
  any_restated e (f ∷ held) = event_eq (restated_now is_file is_dir f) e || any_restated e held

  restated_from-events :
      (restated held : List FileEvent)
      → are_distinct restated ≡ true
      → (are_distinct (restated_from is_file is_dir restated held) ≡ true)
        × ((e : FileEvent)
            → has_event e (restated_from is_file is_dir restated held)
              ≡ (has_event e restated || any_restated e held))
  unfolding restated_from
  restated_from-events restated [] d = (d, λ e. ground arith)
  restated_from-events restated (f ∷ held) d =
      let now = restated_now is_file is_dir f in
      let (distinct, has) =
        restated_from-events (push_new restated now) held (distinct-push restated now d) in
      (distinct, λ e. ground (arith, has e, has_event-push e now restated))

  abbrev is_there : FilePath → Bool
  is_there p = is_file p || is_dir p

  other_path :
      (p q : FilePath) (b : Bool) → is_there q ≡ b → is_there p ≡ not b → path_eq q p ≡ false
  other_path p q b there gone = elim (Bool-cases (path_eq q p)) [
    | inl same ↦ absurd (opposite b (sym there ∙ ap is_there ((path_eq_iff q p).0 same) ∙ gone))
    | inr different ↦ different
  ]
    where
      opposite : (b : Bool) → b ≡ not b → ⊥
      opposite true e = ground (arith, e)
      opposite false e = ground (arith, e)

  -- An event says of a path only what is the case now.
  abbrev Says : FileEvent → FilePath → Type 0
  Says f p =
      (is_there p ≡ false → event_eq f (created p) ≡ false)
      × (is_there p ≡ true → event_eq f (deleted p) ≡ false)
      × (event_eq f (modified p) ≡ false)

  state-Says : (p q : FilePath) → Says (state_now is_file is_dir q) p
  unfolding state_now event_eq
  state-Says p q = elim (Bool-cases (is_there q)) [
    | inl there ↦ rw there (λ gone. other_path p q true there gone, λ here. refl, refl)
    | inr missing ↦ rw missing (λ gone. refl, λ here. other_path p q false missing here, refl)
  ]

  restated-Says : (f : FileEvent) (p : FilePath) → Says (restated_now is_file is_dir f) p
  unfolding restated_now event_eq
  restated-Says (created q) p = state-Says p q
  restated-Says (modified q) p = state-Says p q
  restated-Says (deleted q) p = state-Says p q
  restated-Says rescan p = (λ gone. refl, λ here. refl, refl)

  any-Says :
      (held : List FileEvent) (p : FilePath)
      → (is_there p ≡ false → any_restated (created p) held ≡ false)
        × (is_there p ≡ true → any_restated (deleted p) held ≡ false)
        × (any_restated (modified p) held ≡ false)
  any-Says [] p = (λ gone. refl, λ here. refl, refl)
  any-Says (f ∷ held) p =
      let (c, d, m) = restated-Says f p in
      let (cs, ds, ms) = any-Says held p in
      (λ gone. rw (c gone) (cs gone), λ here. rw (d here) (ds here), rw m ms)

  -- The events that are taken to be replayed: none comes twice, they are the held ones, each restated,
  -- and none tells of a path what is not the case now: a path is created only if it is there, deleted
  -- only if it is not, and never modified.
  pub take_held-events :
      (held : List FileEvent)
      → (are_distinct (take_held is_file is_dir held) ≡ true)
        × ((e : FileEvent) → has_event e (take_held is_file is_dir held) ≡ any_restated e held)
        × ((p : FilePath)
            → (is_there p ≡ false → has_event (created p) (take_held is_file is_dir held) ≡ false)
              × (is_there p ≡ true → has_event (deleted p) (take_held is_file is_dir held) ≡ false)
              × (has_event (modified p) (take_held is_file is_dir held) ≡ false))
  unfolding take_held has_event
  take_held-events held =
      let (distinct, has) = restated_from-events [] held refl in
      (
        distinct,
        has,
        λ p.
            let (c, d, m) = any-Says held p in
            (
              λ gone. has (created p) ∙ c gone,
              λ here. has (deleted p) ∙ d here,
              has (modified p) ∙ m,
            ),
      )
