-- ===== src/Scanner/Walk/Bounds.antt =====
-- src/catalogue/SourceScanner.cpp: each entry keeps the batches within their bounds.
use scrub_tub.Base.{
  ℕ, Bool, true, false, Option, none, some, not, if◌then◌else◌, Text, codes, is_some,
}
use scrub_tub.Scanner.{
  FileStatus, unreadable, link, directory, regular, other, Item, DiscoveryOptions,
  native_path_round_trips, is_known_suffix,
}
use scrub_tub.Scanner.Walk.{Walk, add_issue, file_of, take_file, visit_file, visit}
use scrub_tub.Scanner.Walk.Sound.{IsBounded, take_file-IsBounded}

add_issue-IsBounded : (p m : Text) (w : Walk) → IsBounded w → IsBounded (add_issue p m w)
add_issue-IsBounded p m w h = record { batches = h.batches; room = h.room; no_files = h.no_files }

if-IsBounded : (t : Bool) (a b : Walk) → IsBounded a → IsBounded b → IsBounded (if t then a else b)
if-IsBounded true a b h k = h
if-IsBounded false a b h k = k

module _ (to_lower : Text → Text) where
  take_sized : Item → Option ℕ → Walk → Walk
  take_sized i o w = elim o [
    | none ↦ add_issue i.path (codes "Cannot stat file size") w
    | some n ↦
        take_file true (file_of i n)
          (if is_some i.mtime then w else add_issue i.path (codes "Cannot stat file mtime") w)
  ]

  take_sized-IsBounded :
      (i : Item) (o : Option ℕ) (w : Walk) → IsBounded w → IsBounded (take_sized i o w)
  unfolding take_sized
  take_sized-IsBounded i none w h = add_issue-IsBounded i.path (codes "Cannot stat file size") w h
  take_sized-IsBounded i (some n) w h =
      let late = add_issue i.path (codes "Cannot stat file mtime") w in
      take_file-IsBounded (file_of i n) (if is_some i.mtime then w else late) (
        if-IsBounded (is_some i.mtime) w late h
          (add_issue-IsBounded i.path (codes "Cannot stat file mtime") w h))

  visit_file-IsBounded :
      (o : DiscoveryOptions) (i : Item) (w : Walk)
      → IsBounded w
      → IsBounded (visit_file to_lower true o i w)
  unfolding visit_file take_sized
  visit_file-IsBounded o i w h =
      let named = add_issue i.path (codes "Filename encoding is not supported; skipped") w in
      let sized = take_sized i i.size w in
      if-IsBounded (not (native_path_round_trips i.path)) named
        (if not (is_known_suffix to_lower o i.path) then w else sized)
        (add_issue-IsBounded i.path (codes "Filename encoding is not supported; skipped") w h)
        (if-IsBounded (not (is_known_suffix to_lower o i.path)) w sized h
          (take_sized-IsBounded i i.size w h))

  pub visit-IsBounded :
      (o : DiscoveryOptions) (i : Item) (w : Walk) (st : FileStatus)
      → IsBounded w
      → IsBounded (visit to_lower true o i st w)
  unfolding visit
  visit-IsBounded o i w unreadable h = add_issue-IsBounded i.path (codes "Cannot stat entry") w h
  visit-IsBounded o i w link h = add_issue-IsBounded i.path (codes "Symlink skipped") w h
  visit-IsBounded o i w directory h = h
  visit-IsBounded o i w regular h = visit_file-IsBounded o i w h
  visit-IsBounded o i w other h = h
