-- ===== src/Catalogue/Scan/Retained.antt =====
-- src/catalogue/Catalogue.cpp: what a rescan keeps of the rows of `videos`, also when it is refused,
-- cancelled or loses batches (rescanRoot).
use scrub_tub.Base.{
  ℕ, ◌+◌, ◌≡◌, sym, subst, Bool, true, false, Option, some, List, if◌then◌else◌, Distinct, inl, inr,
  Bool-cases, Option-cases, Text,
}
use scrub_tub.Catalogue.{State, Entry, Root, RowIds, find_row, find_root, video_ids}
use scrub_tub.Catalogue.Scan.{mark_missing, mark_all, Enumeration, context_of, rescan_root}
use scrub_tub.Catalogue.Scan.Files.{AreFresh, Retains, Retains-refl, Retains-trans}
use scrub_tub.Catalogue.Scan.Reconcile.{videos_of, videos_of-Retains, taken_files}
use scrub_tub.Catalogue.Scan.Complete.{
  context_at, first_pass, rescan_root-videos, find_row-mark_all, mark_missing-Retains,
}

scanned-Retains :
    (t : Bool) (root g root' : ℕ) (key : Text) (o : Option Entry) (ws : List Entry)
    → Retains o (find_row root' key ws)
    → Retains o (find_row root' key (if t then mark_all (mark_missing root g) ws else ws))
scanned-Retains true root g root' key o ws h =
    Retains-trans o (find_row root' key ws) (find_row root' key (mark_all (mark_missing root g) ws))
      h
      (subst (Retains (find_row root' key ws)) (sym (find_row-mark_all root' key root g ws))
        (mark_missing-Retains root g (find_row root' key ws)))
scanned-Retains false root g root' key o ws h = h

started-Retains :
    (ids : RowIds) (root : ℕ) (force : Bool) (e : Enumeration) (s : State) (r : Root) (root' : ℕ)
    (key : Text)
    → AreFresh ids
    → Distinct (video_ids s.videos)
    → s.scan_active ≡ false
    → find_root root s.roots ≡ some r
    → Retains
        (find_row root' key s.videos)
        (find_row root' key (rescan_root ids root force true e s).videos)
unfolding context_of
started-Retains ids root force e s r root' key fresh d idle h =
    let c = context_at ids force r in
    let fs = taken_files c e.batches (first_pass root force s) in
    subst (λ vs. Retains (find_row root' key s.videos) (find_row root' key vs))
      (sym (rescan_root-videos ids root force e s r idle h))
      (scanned-Retains e.is_completed root (r.scan_generation + 1) root' key
        (find_row root' key s.videos) (videos_of c fs s.videos)
        (videos_of-Retains c root' key fs s.videos fresh d))

-- A rescan, started or refused, complete, cancelled or with dropped batches, keeps each row of every
-- root with its id, and the rating, the views and the times that belong to the user.
pub rescan_root-Retains :
    (ids : RowIds) (root : ℕ) (force : Bool) (is_directory : Bool) (e : Enumeration) (s : State)
    (root' : ℕ) (key : Text)
    → AreFresh ids
    → Distinct (video_ids s.videos)
    → Retains
        (find_row root' key s.videos)
        (find_row root' key (rescan_root ids root force is_directory e s).videos)
unfolding rescan_root
rescan_root-Retains ids root force is_directory e s root' key fresh d =
    elim (Bool-cases s.scan_active) [
      | inl busy ↦ rw (busy, rescan_root) (Retains-refl (find_row root' key s.videos))
      | inr idle ↦ elim (Option-cases (find_root root s.roots)) [
        | inl e' ↦ rw (idle, e', rescan_root) (Retains-refl (find_row root' key s.videos))
        | inr (r, h) ↦ elim (Bool-cases is_directory) [
          | inl dir ↦
              subst
                (λ t.
                  Retains (find_row root' key s.videos)
                    (find_row root' key (rescan_root ids root force t e s).videos))
                (sym dir) (started-Retains ids root force e s r root' key fresh d idle h)
          | inr gone ↦ rw (idle, h, gone, rescan_root) (Retains-refl (find_row root' key s.videos))
        ]
      ]
    ]
