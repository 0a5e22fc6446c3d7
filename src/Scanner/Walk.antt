-- ===== src/Scanner/Walk.antt =====
-- src/catalogue/SourceScanner.cpp: the loop over the entries (enumerateRoot).
pub mod Sound
pub mod Bounds
pub mod Complete
pub mod Whole
pub mod Tests
use scrub_tub.Base.{
  ℕ, ◌+◌, Bool, true, false, ◌&&◌, ◌||◌, not, Option, none, some, List, [], ◌∷◌, ◌++◌, map, ◌==◌,
  leb, if◌then◌else◌, any, length, drop, ℤ, pos, minus_one, Text, codes, is_some, List-cases,
}
use scrub_tub.Scanner.{
  FileStatus, unreadable, link, directory, regular, other, Item, Forest, nil, node,
  DiscoveryOptions, DiscoveredFile, DiscoveryIssue, DiscoveryResult, batch_size,
  native_path_round_trips, is_hidden_name, path_name, is_known_suffix,
}

-- The local variables of the loop; `is_stopped` behind an early return.
pub record Walk : Type 0 where
  pub result : DiscoveryResult
  pub pending : List DiscoveredFile
  pub is_stopped : Bool

abbrev pub add_issue : Text → Text → Walk → Walk
add_issue path message w = record w {
  result = record w.result {
    issues = w.result.issues ++ (record { path = path; message = message }) ∷ [];
  };
}

abbrev pub deliver : Bool → Walk → Walk
deliver has_sink w = record w {
  pending = [];
  result = record w.result {
    batches =
        if has_sink && not (leb (length w.pending) 0)
        then w.result.batches ++ w.pending ∷ []
        else w.result.batches;
  };
}

-- A file that passed the filters, with what `mtimeMs` gave.
abbrev pub file_of : Item → ℕ → DiscoveredFile
file_of i size = record {
  absolute_path = i.path;
  size_bytes = size;
  mtime_ms = elim i.mtime [ none ↦ minus_one | some t ↦ t ];
}

pub take_file : Bool → DiscoveredFile → Walk → Walk
take_file true f w =
    let q = record w { pending = w.pending ++ f ∷ [] } in
    if leb batch_size (length q.pending) then deliver true q else q
take_file false f w = record w { result = record w.result { files = w.result.files ++ f ∷ [] } }

module _ (to_lower : Text → Text) where
  -- A regular file.
  pub visit_file : Bool → DiscoveryOptions → Item → Walk → Walk
  visit_file has_sink o i w =
      if not (native_path_round_trips i.path)
      then add_issue i.path (codes "Filename encoding is not supported; skipped") w
      else (if not (is_known_suffix to_lower o i.path) then w else (elim i.size [
        | none ↦ add_issue i.path (codes "Cannot stat file size") w
        | some n ↦
            take_file has_sink (file_of i n)
              (if is_some i.mtime then w else add_issue i.path (codes "Cannot stat file mtime") w)
      ]))

  -- The body of the loop.
  pub visit : Bool → DiscoveryOptions → Item → FileStatus → Walk → Walk
  visit has_sink o i unreadable w = add_issue i.path (codes "Cannot stat entry") w
  visit has_sink o i link w = add_issue i.path (codes "Symlink skipped") w
  visit has_sink o i directory w = w
  visit has_sink o i regular w = visit_file has_sink o i w
  visit has_sink o i other w = w

-- The iterator goes below an entry.
pub descends : DiscoveryOptions → Item → FileStatus → Bool
descends o i directory = o.include_hidden || not (is_hidden_name (path_name i.path))
descends o i _ = false

-- The handler of `filesystem_error`.
pub fail_walk : Bool → DiscoveryOptions → Text → Walk → Walk
fail_walk has_sink o message w =
    record (deliver has_sink (add_issue o.root_path (codes "Enumeration stopped: " ++ message) w)) {
      is_stopped = true;
    }

module _ (to_lower : Text → Text) where
  pub step : Bool → DiscoveryOptions → Item → Walk → Walk
  step has_sink o i w = if w.is_stopped then w else (elim i.failure [
    | some message ↦ fail_walk has_sink o message w
    | none ↦
        if i.cancelled
        then record w { is_stopped = true }
        else visit to_lower has_sink o i i.status w
  ])

  pub walk : Bool → DiscoveryOptions → Forest → Walk → Walk
  walk has_sink o nil w = w
  walk has_sink o (node i below rest) w =
      let seen = step has_sink o i w in
      let inside = walk has_sink o below seen in
      walk has_sink o rest (if descends o i i.status then inside else seen)

-- What the file system answers about a root that is a directory.
pub record Listing : Type 0 where
  pub open_error : Option Text
  pub entries : Forest
  pub cancelled_at_end : Bool

abbrev pub empty_result : DiscoveryResult
empty_result = record {
  files = [];
  issues = [];
  batches = [];
  root_accepted = false;
  completed = false;
}

abbrev pub refused : DiscoveryOptions → Text → DiscoveryResult
refused o message = record empty_result {
  issues = (record { path = o.root_path; message = message }) ∷ [];
}

module _ (to_lower : Text → Text) where
  -- The loop and what follows it.
  pub enumerate_entries : Bool → DiscoveryOptions → Listing → DiscoveryResult
  enumerate_entries has_sink o l =
      let w = walk to_lower has_sink o l.entries (record {
        result = record empty_result { root_accepted = true };
        pending = [];
        is_stopped = false;
      }) in
      if w.is_stopped
      then w.result
      else record (deliver has_sink w).result { completed = not l.cancelled_at_end }

  pub enumerate_root : Bool → DiscoveryOptions → Listing → FileStatus → DiscoveryResult
  enumerate_root has_sink o l unreadable =
      refused o (codes "Root path does not exist or cannot be accessed")
  enumerate_root has_sink o l link =
      refused o (codes "Root is a symlink; add the real directory instead")
  enumerate_root has_sink o l directory = elim l.open_error [
    | none ↦ enumerate_entries has_sink o l
    | some message ↦ record (refused o (codes "Cannot enumerate root: " ++ message)) {
      root_accepted = true;
    }
  ]
  enumerate_root has_sink o l _ = refused o (codes "Root is not a directory")
