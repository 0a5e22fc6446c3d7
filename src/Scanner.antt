-- ===== src/Scanner.antt =====
-- src/catalogue/SourceScanner.{h,cpp}: the enumeration of a root. What the file system answers is an
-- argument: the tree that the iterator walks, each entry with its status and the state of the
-- cancel flag at its turn. The case of letters is a parameter.
pub mod Walk
use scrub_tub.Base.{
  ℕ, zero, suc, ◌+◌, Bool, true, false, ◌&&◌, ◌||◌, not, Option, none, some, List, [], ◌∷◌, ◌++◌,
  map, ◌==◌, leb, if◌then◌else◌, any, length, drop, ℤ, pos, minus_one, Text, codes, elem_text,
  is_some,
}

pub data FileStatus : Type 0 where
  unreadable link directory regular other : FileStatus

-- `fs::directory_entry`; `failure` is what the step of the iterator to this entry throws.
pub record Item : Type 0 where
  pub path : Text
  pub status : FileStatus
  pub size : Option ℕ
  pub mtime : Option ℤ
  pub failure : Option Text
  pub cancelled : Bool

-- Entries in the iterator's order, each with those below it.
pub data Forest : Type 0 where
  nil : Forest
  node : Item → Forest → Forest → Forest

pub record DiscoveryOptions : Type 0 where
  pub root_path : Text
  pub include_hidden : Bool
  pub extensions : List Text

pub record DiscoveredFile : Type 0 where
  pub absolute_path : Text
  pub size_bytes : ℕ
  pub mtime_ms : ℤ

pub record DiscoveryIssue : Type 0 where
  pub path : Text
  pub message : Text

-- `DiscoveryResult`, with the batches that the sink was given.
pub record DiscoveryResult : Type 0 where
  pub files : List DiscoveredFile
  pub issues : List DiscoveryIssue
  pub batches : List (List DiscoveredFile)
  pub root_accepted : Bool
  pub completed : Bool

abbrev pub batch_size : ℕ
batch_size = 500

abbrev pub replacement_character : ℕ
replacement_character = 65533

-- `nativePathRoundTrips`, for a system whose names are bytes.
abbrev pub native_path_round_trips : Text → Bool
native_path_round_trips path = not (any (λ c. c == replacement_character) path)

abbrev pub is_hidden_name : Text → Bool
is_hidden_name [] = false
is_hidden_name (c ∷ cs) = c == 46

-- `lastIndexOf`, plus one; 0 where the character is absent.
abbrev pub behind_last : ℕ → Text → ℕ
behind_last c [] = 0
behind_last c (x ∷ xs) = elim (behind_last c xs) [
  | zero ↦ if x == c then 1 else 0
  | suc n ↦ suc (suc n)
]

abbrev pub path_name : Text → Text
path_name path = drop (behind_last 47 path) path

module _ (to_lower : Text → Text) where
  pub path_suffix : Text → Text
  path_suffix path =
      let slash = behind_last 47 path in
      let dot = behind_last 46 path in
      if leb dot (slash + 1) || dot == length path then [] else to_lower (drop dot path)

  abbrev pub is_known_suffix : DiscoveryOptions → Text → Bool
  is_known_suffix o path = elem_text (path_suffix path) (map to_lower o.extensions)
