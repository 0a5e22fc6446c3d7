-- ===== src/Scanner/Walk/Sound.antt =====
-- src/catalogue/SourceScanner.cpp: the files that a complete enumeration delivers.
use scrub_tub.Base.{
  ◌≤◌, ◌<◌, ◌≡◌, refl, sym, ap, ◌∙◌, true, ◌&&◌, none, some, List, [], ◌∷◌, ◌++◌, leb,
  if◌then◌else◌, length, length-append, All, arith, Text, codes, is_some, Bool-cases, inl, inr,
  Option-cases,
}
use scrub_tub.Scanner.{
  FileStatus, unreadable, link, directory, regular, other, Item, Forest, nil, node,
  DiscoveryOptions, DiscoveredFile, batch_size, native_path_round_trips, is_known_suffix,
}
use scrub_tub.Scanner.Walk.{
  Walk, add_issue, deliver, file_of, take_file, visit_file, visit, descends,
}

abbrev pub all_batches : List (List DiscoveredFile) → List DiscoveredFile
all_batches [] = []
all_batches (b ∷ bs) = b ++ all_batches bs

module _ (to_lower : Text → Text) where
  -- The file that an entry stands for: a regular file with a name in Unicode, a known suffix and a size.
  abbrev pub found_file : DiscoveryOptions → Item → FileStatus → List DiscoveredFile
  found_file o i regular = elim i.size [
    | none ↦ []
    | some n ↦
        if native_path_round_trips i.path && is_known_suffix to_lower o i.path
        then file_of i n ∷ []
        else []
  ]
  found_file o i _ = []

  -- The files of a tree, but for those in hidden directories that are not to be shown.
  abbrev pub admissible : DiscoveryOptions → Forest → List DiscoveredFile
  admissible o nil = []
  admissible o (node i below rest) =
      found_file o i i.status
      ++ ((if descends o i i.status then admissible o below else []) ++ admissible o rest)

abbrev pub delivered : Walk → List DiscoveredFile
delivered w = all_batches w.result.batches ++ w.pending

pub append_assoc : (xs ys zs : List DiscoveredFile) → (xs ++ ys) ++ zs ≡ xs ++ (ys ++ zs)
append_assoc [] ys zs = refl
append_assoc (x ∷ xs) ys zs = ap (λ l. x ∷ l) (append_assoc xs ys zs)

pub append_nil : (xs : List DiscoveredFile) → xs ++ [] ≡ xs
append_nil [] = refl
append_nil (x ∷ xs) = ap (λ l. x ∷ l) (append_nil xs)

all_batches-append_one :
    (bs : List (List DiscoveredFile)) (b : List DiscoveredFile)
    → all_batches (bs ++ b ∷ []) ≡ all_batches bs ++ b
all_batches-append_one [] b = append_nil b
all_batches-append_one (c ∷ bs) b =
    ap (λ l. c ++ l) (all_batches-append_one bs b) ∙ sym (append_assoc c (all_batches bs) b)

empty_pending : (l : List DiscoveredFile) → leb (length l) 0 ≡ true → l ≡ []
empty_pending [] h = refl
empty_pending (x ∷ l) h = ground arith

pub deliver-delivered : (w : Walk) → delivered (deliver true w) ≡ delivered w
deliver-delivered w = elim (Bool-cases (leb (length w.pending) 0)) [
  | inl e ↦ ground (arith, e, empty_pending w.pending e, append_nil (all_batches w.result.batches))
  | inr e ↦ ground (
    arith,
    e,
    append_nil (all_batches (w.result.batches ++ w.pending ∷ [])),
    all_batches-append_one w.result.batches w.pending,
  )
]

take_file-delivered :
    (f : DiscoveredFile) (w : Walk) → delivered (take_file true f w) ≡ delivered w ++ f ∷ []
unfolding take_file
take_file-delivered f w =
    let q = record w { pending = w.pending ++ f ∷ [] } in
    elim (Bool-cases (leb batch_size (length q.pending))) [
      | inl e ↦ rw e (
          deliver-delivered q
          ∙ sym (append_assoc (all_batches w.result.batches) w.pending (f ∷ [])))
      | inr e ↦ rw e (sym (append_assoc (all_batches w.result.batches) w.pending (f ∷ [])))
    ]

-- Batches within their bounds, and room for one more file.
pub record IsBounded (w : Walk) : Type 0 where
  pub batches : All (λ b. (1 ≤ length b) × (length b ≤ 500)) w.result.batches
  pub room : length w.pending < 500
  pub no_files : w.result.files ≡ []

All-append_one :
    (bs : List (List DiscoveredFile)) (b : List DiscoveredFile)
    → All (λ c. (1 ≤ length c) × (length c ≤ 500)) bs
    → 1 ≤ length b
    → length b ≤ 500
    → All (λ c. (1 ≤ length c) × (length c ≤ 500)) (bs ++ b ∷ [])
All-append_one [] b h p q = ((p, q), tt)
All-append_one (c ∷ bs) b h p q = (h.0, All-append_one bs b h.1 p q)

pub deliver-bounded :
    (w : Walk)
    → All (λ c. (1 ≤ length c) × (length c ≤ 500)) w.result.batches
    → length w.pending ≤ 500
    → All (λ c. (1 ≤ length c) × (length c ≤ 500)) (deliver true w).result.batches
deliver-bounded w h p = elim (Bool-cases (leb (length w.pending) 0)) [
  | inl e ↦ rw e h
  | inr e ↦ rw e (All-append_one w.result.batches w.pending h (ground arith) p)
]

pub take_file-IsBounded :
    (f : DiscoveredFile) (w : Walk) → IsBounded w → IsBounded (take_file true f w)
unfolding take_file
take_file-IsBounded f w h =
    let q = record w { pending = w.pending ++ f ∷ [] } in
    let more = length-append w.pending (f ∷ []) in
    elim (Bool-cases (leb batch_size (length q.pending))) [
      | inl e ↦ rw e (record {
        batches = deliver-bounded q h.batches (omega (arith, more, h.room));
        room = omega arith;
        no_files = h.no_files;
      })
      | inr e ↦
          rw e (record { batches = h.batches; room = ground (arith, e); no_files = h.no_files })
    ]

-- What a step adds to the files that it was given.
module _ (to_lower : Text → Text) where
  timed : Item → Walk → Walk
  timed i w = if is_some i.mtime then w else add_issue i.path (codes "Cannot stat file mtime") w

  visit_file-delivered :
      (o : DiscoveryOptions) (i : Item) (w : Walk)
      → delivered (visit_file to_lower true o i w) ≡ delivered w ++ found_file to_lower o i regular
  unfolding visit_file timed
  visit_file-delivered o i w = elim (Option-cases i.size) [
    | inl n ↦ ground (arith, n, append_nil (delivered w))
    | inr (n, s) ↦
        let t = timed i w in
        ground (arith, s, append_nil (delivered w), take_file-delivered (file_of i n) t)
  ]

  pub visit-delivered :
      (o : DiscoveryOptions) (i : Item) (w : Walk) (st : FileStatus)
      → delivered (visit to_lower true o i st w) ≡ delivered w ++ found_file to_lower o i st
  unfolding visit
  visit-delivered o i w unreadable = sym (append_nil (delivered w))
  visit-delivered o i w link = sym (append_nil (delivered w))
  visit-delivered o i w directory = sym (append_nil (delivered w))
  visit-delivered o i w regular = visit_file-delivered o i w
  visit-delivered o i w other = sym (append_nil (delivered w))
