-- ===== src/Scanner/Walk/Whole.antt =====
-- src/catalogue/SourceScanner.cpp: a complete enumeration as a whole (enumerateRoot).
use scrub_tub.Base.{
  ◌≡◌, refl, sym, ap, ◌∙◌, subst, Bool, true, false, [], if◌then◌else◌, arith, Text, codes,
  Bool-cases, inl, inr, Option-cases,
}
use scrub_tub.Scanner.{
  FileStatus, unreadable, link, directory, regular, other, Item, Forest, nil, node,
  DiscoveryOptions, DiscoveredFile, DiscoveryResult,
}
use scrub_tub.Scanner.Walk.{
  add_issue, file_of, take_file, visit_file, Walk, deliver, visit, descends, fail_walk, step, walk,
  Listing, enumerate_entries, enumerate_root, empty_result,
}
use scrub_tub.Scanner.Walk.Sound.{
  all_batches, admissible, append_nil, deliver-delivered, deliver-bounded,
}
use scrub_tub.Scanner.Walk.Complete.{Gives, walk-Ran}

take_file-completed :
    (f : DiscoveredFile) (w : Walk) → (take_file true f w).result.completed ≡ w.result.completed
unfolding take_file
take_file-completed f w = ground arith

either_completed :
    (t : Bool) (a b w : Walk)
    → a.result.completed ≡ w.result.completed
    → b.result.completed ≡ w.result.completed
    → (if t then a else b).result.completed ≡ w.result.completed
either_completed true a b w h k = h
either_completed false a b w h k = k

abbrev begin : Walk
begin = record {
  result = record empty_result { root_accepted = true };
  pending = [];
  is_stopped = false;
}

module _ (to_lower : Text → Text) where
  visit_file-completed :
      (o : DiscoveryOptions) (i : Item) (w : Walk)
      → (visit_file to_lower true o i w).result.completed ≡ w.result.completed
  unfolding visit_file
  visit_file-completed o i w = elim (Option-cases i.size) [
    | inl e ↦ ground (arith, e)
    | inr (n, e) ↦
        let late = add_issue i.path (codes "Cannot stat file mtime") w in
        ground
          (arith, e, take_file-completed (file_of i n) w, take_file-completed (file_of i n) late)
  ]

  visit-completed :
      (o : DiscoveryOptions) (i : Item) (w : Walk) (st : FileStatus)
      → (visit to_lower true o i st w).result.completed ≡ w.result.completed
  unfolding visit
  visit-completed o i w unreadable = refl
  visit-completed o i w link = refl
  visit-completed o i w directory = refl
  visit-completed o i w regular = visit_file-completed o i w
  visit-completed o i w other = refl

  step-completed :
      (o : DiscoveryOptions) (i : Item) (w : Walk)
      → (step to_lower true o i w).result.completed ≡ w.result.completed
  unfolding step fail_walk
  step-completed o i w = ground (arith, visit-completed o i w i.status)

  walk-completed :
      (o : DiscoveryOptions) (t : Forest) (w : Walk)
      → (walk to_lower true o t w).result.completed ≡ w.result.completed
  unfolding walk
  walk-completed o nil w = refl
  walk-completed o (node i below rest) w =
      let seen = step to_lower true o i w in
      let inside = walk to_lower true o below seen in
      let t = descends o i i.status in
      walk-completed o rest (if t then inside else seen)
      ∙ either_completed t inside seen w (walk-completed o below seen ∙ step-completed o i w)
          (step-completed o i w)

  enumerate_entries-Gives :
      (o : DiscoveryOptions) (l : Listing)
      → (enumerate_entries to_lower true o l).completed ≡ true
      → Gives (admissible to_lower o l.entries) (enumerate_entries to_lower true o l)
  unfolding enumerate_entries
  enumerate_entries-Gives o l h =
      let w = walk to_lower true o l.entries begin in
      elim (Bool-cases w.is_stopped) [
        | inl e ↦ absurd (ground (arith, e, walk-completed o l.entries begin))
        | inr e ↦
            let ran = walk-Ran to_lower o l.entries begin e in
            let b = ran.bounded (record { batches = tt; room = omega arith; no_files = refl }) in
            rw e (
              sym (append_nil (all_batches (deliver true w).result.batches))
                  ∙ deliver-delivered w
                  ∙ ran.files,
              b.no_files,
              deliver-bounded w b.batches (omega (arith, b.room)),
            )
      ]

  -- An enumeration that completes gives its sink, in the iterator's order and in batches of 1 to 500,
  -- the regular files with a name in Unicode, a known suffix and a size, those in hidden directories
  -- only where they are asked for; it leaves no other list of files.
  pub enumerate_root-Gives :
      (o : DiscoveryOptions) (l : Listing) (st : FileStatus)
      → (enumerate_root to_lower true o l st).completed ≡ true
      → Gives (admissible to_lower o l.entries) (enumerate_root to_lower true o l st)
  unfolding enumerate_root
  enumerate_root-Gives o l unreadable h = absurd (ground arith)
  enumerate_root-Gives o l link h = absurd (ground arith)
  enumerate_root-Gives o l regular h = absurd (ground arith)
  enumerate_root-Gives o l other h = absurd (ground arith)
  enumerate_root-Gives o l directory h = elim (Option-cases l.open_error) [
    | inl e ↦
        let same : enumerate_root to_lower true o l directory
            ≡ enumerate_entries to_lower true o l =
          ground (arith, e) in
        subst (Gives (admissible to_lower o l.entries)) (sym same)
          (enumerate_entries-Gives o l (ap DiscoveryResult.completed (sym same) ∙ h))
    | inr (m, e) ↦ absurd (ground (arith, e))
  ]
