-- ===== src/Events/Links/Known.antt =====
-- packages/rust/src/lib.rs (`register_link`, `through_links`): the links that are known.
use dirsql.Prelude.{
  ℕ, suc, max, ◌≤◌, ◌≡◌, refl, sym, ap, ◌∙◌, inl, inr, Bool, false, ◌&&◌, List, [], ◌∷◌, ◌++◌,
  arith, Bool-cases, if◌then◌else◌,
}
use dirsql.Watcher.{FilePath, path_eq, path_eq_iff, FileEvent, created, modified, deleted, rescan}
use dirsql.Events.Links.{
  Link, link_at, forget_below, kept_links, through_links, without_path, register_link,
}

-- How many links are at a path, and how many of these lead to that path itself.
abbrev pub links_at : FilePath → List Link → ℕ
links_at path [] = 0
links_at path (link ∷ links) =
    if path_eq link.path path then suc (links_at path links) else links_at path links

abbrev pub leads_to_itself : Link → FilePath → Bool
leads_to_itself link path = path_eq link.path path && path_eq link.target link.path

abbrev pub self_links : FilePath → List Link → ℕ
self_links path [] = 0
self_links path (link ∷ links) =
    if leads_to_itself link path then suc (self_links path links) else self_links path links

links_at-forget :
    (gone path : FilePath) (links : List Link)
    → links_at path (forget_below gone links) ≤ links_at path links
unfolding forget_below
links_at-forget gone path [] = omega arith
links_at-forget gone path (link ∷ links) = ground (arith, links_at-forget gone path links)

self_links-forget :
    (gone path : FilePath) (links : List Link)
    → self_links path (forget_below gone links) ≤ self_links path links
unfolding forget_below
self_links-forget gone path [] = omega arith
self_links-forget gone path (link ∷ links) = ground (arith, self_links-forget gone path links)

links_at-without :
    (gone path : FilePath) (links : List Link)
    → links_at path (without_path gone links) ≤ links_at path links
unfolding without_path
links_at-without gone path [] = omega arith
links_at-without gone path (link ∷ links) = ground (arith, links_at-without gone path links)

self_links-without :
    (gone path : FilePath) (links : List Link)
    → self_links path (without_path gone links) ≤ self_links path links
unfolding without_path
self_links-without gone path [] = omega arith
self_links-without gone path (link ∷ links) = ground (arith, self_links-without gone path links)

links_at-gone : (path : FilePath) (links : List Link) → links_at path (without_path path links) ≡ 0
unfolding without_path
links_at-gone path [] = refl
links_at-gone path (link ∷ links) = ground (arith, links_at-gone path links)

links_at-append :
    (path : FilePath) (links : List Link) (link : Link)
    → links_at path (links ++ link ∷ [])
      ≡ (if path_eq link.path path then suc (links_at path links) else links_at path links)
links_at-append path [] link = ground arith
links_at-append path (l ∷ links) link = ground (arith, links_at-append path links link)

self_links-append :
    (path : FilePath) (links : List Link) (link : Link)
    → path_eq link.target link.path ≡ false
    → self_links path (links ++ link ∷ []) ≡ self_links path links
self_links-append path [] link h = ground (arith, h)
self_links-append path (l ∷ links) link h = ground (arith, self_links-append path links link h)

-- A path has no more links than one or those it had, and no new link to itself.
abbrev NoMore : FilePath → List Link → List Link → Type 0
NoMore path start links =
    (links_at path links ≤ max 1 (links_at path start))
    × (self_links path links ≤ self_links path start)

register-NoMore :
    (canonical : FilePath → FilePath) (at path : FilePath) (links : List Link)
    → NoMore path links (register_link canonical at links)
unfolding register_link link_at
register-NoMore canonical at path links = elim (Bool-cases (path_eq (canonical at) at)) [
  | inl itself ↦ rw itself (omega arith, omega arith)
  | inr elsewhere ↦
      let link : Link = record { path = at; target = canonical at } in
      rw elsewhere (
        elim (Bool-cases (path_eq at path)) [
          | inl same ↦
              let gone =
                ap (λ p. links_at p (without_path at links)) (sym ((path_eq_iff at path).0 same))
                ∙ links_at-gone at links in
              rw (links_at-append path (without_path at links) link, same, gone) (omega arith)
          | inr differ ↦
              rw (links_at-append path (without_path at links) link, differ)
                (omega (arith, links_at-without at path links))
        ],
        omega (
          arith,
          self_links-append path (without_path at links) link elsewhere,
          self_links-without at path links,
        ),
      )
]

kept-NoMore :
    (event : FileEvent) (path : FilePath) (links : List Link)
    → NoMore path links (kept_links event links)
unfolding kept_links
kept-NoMore (created p) path links = (omega arith, omega arith)
kept-NoMore (modified p) path links = (omega arith, omega arith)
kept-NoMore (deleted p) path links =
    (omega (arith, links_at-forget p path links), self_links-forget p path links)
kept-NoMore rescan path links = (omega arith, omega arith)

NoMore-trans :
    (path : FilePath) (start old links : List Link)
    → NoMore path start old
    → NoMore path old links
    → NoMore path start links
NoMore-trans path start old links (h, g) (h', g') = (omega arith, omega arith)

-- The lists of links that registering paths and passing events through them make of those that
-- the walk at the start found. Each registration may find another file system.
pub data Registered (start : List Link) : List Link → Type 0 where
  on_start : Registered start start
  on_register :
      (canonical : FilePath → FilePath) (path : FilePath) (links : List Link)
      → Registered start links
      → Registered start (register_link canonical path links)
  on_event :
      (event : FileEvent) (links : List Link)
      → Registered start links
      → Registered start (through_links event links).1

-- Whatever links the program starts with, those that are known later have, at any path, one link at
-- most unless there were more at the start, and then no more than these; and there are no more links
-- that lead to themselves than at the start.
pub Registered-adds :
    (start links : List Link) (path : FilePath)
    → Registered start links
    → (links_at path links ≤ max 1 (links_at path start))
      × (self_links path links ≤ self_links path start)
unfolding through_links
Registered-adds start links path on_start = (omega arith, omega arith)
Registered-adds start links path (on_register canonical at old known) =
    NoMore-trans path start old (register_link canonical at old)
      (Registered-adds start old path known) (register-NoMore canonical at path old)
Registered-adds start links path (on_event event old known) =
    NoMore-trans path start old (kept_links event old) (Registered-adds start old path known)
      (kept-NoMore event path old)
