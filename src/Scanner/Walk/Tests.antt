-- ===== src/Scanner/Walk/Tests.antt =====
-- src/catalogue/SourceScanner.cpp: an enumeration of a small tree.
use scrub_tub.Base.{true, false, none, some, [], ◌∷◌, Text, codes, pos, refl}
use scrub_tub.Scanner.{FileStatus, Item, Forest, nil, node, DiscoveryOptions, path_suffix}
use scrub_tub.Scanner.Walk.{
  Listing, enumerate_root, enumerate_entries, walk, step, visit, visit_file, take_file, descends,
  file_of,
}
use scrub_tub.Scanner.Walk.Complete.{Gives}
use scrub_tub.Scanner.Walk.Whole.{enumerate_root-Gives}

abbrev item : Text → FileStatus → Item
item path status = record {
  path = path;
  status = status;
  size = some 7;
  mtime = some (pos 3);
  failure = none;
  cancelled = false;
}

abbrev options : DiscoveryOptions
options = record { root_path = codes "/v"; include_hidden = false; extensions = codes "mp4" ∷ [] }

-- A video, a link, a text, and a hidden directory with a video.
abbrev tree : Forest
tree = node (item (codes "/v/a.mp4") FileStatus.regular) nil (
    node (item (codes "/v/l.mp4") FileStatus.link) nil (
      node (item (codes "/v/b.txt") FileStatus.regular) nil (
        node (item (codes "/v/.h") FileStatus.directory)
          (node (item (codes "/v/.h/c.mp4") FileStatus.regular) nil nil) nil)))

abbrev listing : Listing
listing = record { open_error = none; entries = tree; cancelled_at_end = false }

enumerate_root-Gives_example :
    Gives
      (file_of (item (codes "/v/a.mp4") FileStatus.regular) 7 ∷ [])
      (enumerate_root (λ t. t) true options listing FileStatus.directory)
unfolding enumerate_root enumerate_entries walk step visit visit_file take_file descends path_suffix
enumerate_root-Gives_example =
    enumerate_root-Gives (λ t. t) options listing FileStatus.directory refl
