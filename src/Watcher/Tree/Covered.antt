-- ===== src/Watcher/Tree/Covered.antt =====
-- packages/rust/src/watcher.rs (`watch_tree`): the loop ends, and leaves no directory unwatched.
-- `Watched` is whether a system has a watch on a directory.
use dirsql.Prelude.{
  ℕ, suc, ◌<◌, ◌≡◌, ◌⊎◌, Bool, true, Option, none, List, [], ◌∷◌, all, if◌then◌else◌,
}
use dirsql.Watcher.{FilePath}
use dirsql.Watcher.Tree.{WatchScope, WatchError, Watching, has_dir, dirs_to_watch, watch_round}

-- How many of the directories have no watch.
abbrev pub missing : List FilePath → List FilePath → ℕ
missing [] watched = 0
missing (d ∷ dirs) watched =
    if has_dir d watched then missing dirs watched else suc (missing dirs watched)

abbrev are_watched : List FilePath → List FilePath → Bool
are_watched dirs watched = all (λ d. has_dir d watched) dirs

module _ {M S : Type 0} (reaches_dir : FilePath → M → Bool)
    (walk : S → WatchScope M → FilePath → List FilePath)
    (watch : FilePath → S → S × Option WatchError) (among : List FilePath) where
  abbrev left : Watching S → ℕ
  left w = missing among w.watched

  -- Nothing happened, or a directory was found new and nothing was lost.
  abbrev Went : Watching S → Watching S → Type 0
  Went w r = (r ≡ w) ⊎ ((left r < left w) × (r.found_new ≡ true))

  module _ (Watched : S → FilePath → Type 0)
      (gets : (d : FilePath) (s : S) → (watch d s).1 ≡ none → Watched (watch d s).0 d)
      (keeps : (d e : FilePath) (s : S) → Watched s e → Watched (watch d s).0 e) where
    -- Unless a watch failed, the directories that count as watched have their watch.
    abbrev pub AreWatched : Watching S → Type 0
    AreWatched w =
        w.failure ≡ none → (d : FilePath) → has_dir d w.watched ≡ true → Watched w.system d

  module _ (scopes : List (WatchScope M)) (dir : FilePath) where
    abbrev found : S → List FilePath
    found system = dirs_to_watch reaches_dir walk system scopes dir

    -- Unless a watch failed, all that a walk finds now counts as watched.
    abbrev Counted : Watching S → Type 0
    Counted r =
        r.failure ≡ none
        → (d : FilePath) → has_dir d (found r.system) ≡ true
        → has_dir d r.watched ≡ true

    abbrev this_round : Watching S → Watching S
    this_round w = watch_round reaches_dir walk watch scopes dir w

    module _ (Watched : S → FilePath → Type 0)
        (gets : (d : FilePath) (s : S) → (watch d s).1 ≡ none → Watched (watch d s).0 d)
        (keeps : (d e : FilePath) (s : S) → Watched s e → Watched (watch d s).0 e) where
      abbrev IsWatching : Watching S → Type 0
      IsWatching w = AreWatched Watched gets keeps w

      -- Unless a watch failed, every directory that a walk finds now has its watch.
      abbrev pub Covers : Watching S → Type 0
      Covers r =
          r.failure ≡ none → (d : FilePath) → has_dir d (found r.system) ≡ true → Watched r.system d
