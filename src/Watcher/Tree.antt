-- ===== src/Watcher/Tree.antt =====
-- packages/rust/src/watcher.rs (`dirs_to_watch`, `watch_tree`, `tolerate_missing`): the directories of a
-- tree that get a watch. Parameters: the system `S`, which holds the tree and the watches, the walk of
-- a scope's tree from a directory, the matcher's `reaches_dir`, and the watching of a directory, which
-- may fail.
pub mod Covered
use dirsql.Prelude.{
  ℕ, zero, suc, Bool, true, false, not, ◌&&◌, ◌||◌, Option, none, some, List, [], ◌∷◌, ◌++◌, Text,
  if◌then◌else◌,
}
use dirsql.Watcher.{FilePath, path_eq}
use dirsql.Events.Links.{strip_prefix}

pub record WatchScope (M : Type 0) : Type 0 where
  pub root : FilePath
  pub ignore : M

-- The kinds of a `notify` error that `is_not_found` tells apart.
pub data WatchError : Type 0 where
  path_not_found : WatchError
  io_not_found : WatchError
  other : ℕ → WatchError

pub is_not_found : WatchError → Bool
is_not_found path_not_found = true
is_not_found io_not_found = true
is_not_found (other e) = false

-- `tolerate_missing`: an `Err` is `some`.
pub tolerate_missing : Option WatchError → Option WatchError
unfolding is_not_found
tolerate_missing none = none
tolerate_missing (some e) = if is_not_found e then none else some e

-- `contains`
unfoldable pub has_dir : FilePath → List FilePath → Bool
unfolding path_eq
has_dir d [] = false
has_dir d (e ∷ dirs) = path_eq e d || has_dir d dirs

-- `seen` holds what `dirs` holds.
unfoldable pub push_unseen : List FilePath → List FilePath → List FilePath
unfolding has_dir
push_unseen dirs [] = dirs
push_unseen dirs (found ∷ more) =
    push_unseen (if has_dir found dirs then dirs else dirs ++ found ∷ []) more

pub record Watching (S : Type 0) : Type 0 where
  pub system : S
  pub watched : List FilePath
  pub found_new : Bool
  pub failure : Option WatchError

unfoldable pub has_failed : Option WatchError → Bool
has_failed none = false
has_failed (some e) = true

module _ {M S : Type 0} (reaches_dir : FilePath → M → Bool)
    (walk : S → WatchScope M → FilePath → List FilePath) where
  unfoldable pub enters : Option FilePath → M → Bool
  enters none ignore = false
  enters (some rel) ignore = reaches_dir rel ignore

  unfoldable pub dirs_from : S → List (WatchScope M) → FilePath → List FilePath → List FilePath
  unfolding enters strip_prefix push_unseen
  dirs_from s [] dir dirs = dirs
  dirs_from s (scope ∷ scopes) dir dirs = dirs_from s scopes dir (
      if enters (strip_prefix dir scope.root) scope.ignore
      then push_unseen dirs (walk s scope dir)
      else dirs)

  unfoldable pub dirs_to_watch : S → List (WatchScope M) → FilePath → List FilePath
  unfolding dirs_from
  dirs_to_watch s scopes dir = dirs_from s scopes dir []

  module _ (watch : FilePath → S → S × Option WatchError) where
    -- A step of the `for` loop; after a failure, which returns, there is none.
    watch_one : FilePath → Watching S → Watching S
    unfolding has_dir has_failed
    watch_one d w =
        let (system, failure) = watch d w.system in
        if has_failed w.failure || has_dir d w.watched then w else record {
          system = system;
          watched = d ∷ w.watched;
          found_new = true;
          failure = failure;
        }

    watch_each : List FilePath → Watching S → Watching S
    unfolding watch_one
    watch_each [] w = w
    watch_each (d ∷ dirs) w = watch_each dirs (watch_one d w)

    watch_round : List (WatchScope M) → FilePath → Watching S → Watching S
    unfolding watch_each dirs_to_watch
    watch_round scopes dir w =
        watch_each (dirs_to_watch w.system scopes dir) (record w { found_new = false })

    -- `watch_tree`, on fuel.
    pub watch_tree : ℕ → List (WatchScope M) → FilePath → Watching S → Option (Watching S)
    unfolding watch_round
    watch_tree zero scopes dir w = none
    watch_tree (suc fuel) scopes dir w =
        let r = watch_round scopes dir w in
        let more = watch_tree fuel scopes dir r in
        if has_failed r.failure || not r.found_new then some r else more

-- The `watch` that `scoped` passes to `watch_tree`, and the one that `watch_tree_quietly` does.
module _ {S : Type 0} (watch : FilePath → S → S × Option WatchError) where
  pub tolerated : FilePath → S → S × Option WatchError
  unfolding tolerate_missing
  tolerated d s = let (t, failure) = watch d s in (t, tolerate_missing failure)

  pub quietly : FilePath → S → S × Option WatchError
  quietly d s = ((watch d s).0, none)
