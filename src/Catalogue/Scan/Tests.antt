-- ===== src/Catalogue/Scan/Tests.antt =====
-- src/catalogue/Catalogue.cpp: the theorems on a rescan at concrete catalogues.
use scrub_tub.Base.{
  ℕ, ◌≡◌, refl, true, false, some, List, [], ◌∷◌, arith, elem, Text, codes, pos, ◌≤◌,
}
use scrub_tub.Catalogue.{Availability, find_row, video_ids}
use scrub_tub.Catalogue.Fixtures.{counting, next_id, idle, films, clip}
use scrub_tub.Catalogue.Scan.{
  File, Batch, Enumeration, rescan_root, start_scan, context_of, scan_files, scan_file, scan_known,
  mark, judged, verdict,
}
use scrub_tub.Catalogue.Scan.Files.{AreFresh, Retains, Shows}
use scrub_tub.Catalogue.Scan.Sound.{rescan_root-reconciles, rescan_root-loses}
use scrub_tub.Catalogue.Scan.Retained.{rescan_root-Retains}

next_id-bound : (n : ℕ) (l : List ℕ) → next_id l ≤ n → elem n l ≡ false
next_id-bound n [] h = refl
next_id-bound n (x ∷ l) h = ground (arith, next_id-bound n l (omega arith))

counting-AreFresh : AreFresh counting
counting-AreFresh vs = next_id-bound (next_id (video_ids vs)) (video_ids vs) (omega arith)

abbrev film : Text → ℕ → File
film path size = record { absolute_path = path; size_bytes = size; mtime_ms = pos 5; now = 77 }

abbrev batch : List File → ℕ → Batch
batch fs elapsed = record { files = fs; cancelled = false; elapsed = elapsed }

abbrev complete : List Batch → Enumeration
complete bs = record { batches = bs; is_completed = true; issues = 0; now = 99 }

-- `a.mp4` has grown.
abbrev grown : Enumeration
grown = complete (batch (film (codes "/films/a.mp4") 10 ∷ []) 7 ∷ [])

rescan_root-reconciles_example :
    Shows 4
      (film (codes "/films/a.mp4") 10)
      (find_row 1 (codes "a.mp4") (rescan_root counting 1 false true grown idle).videos)
unfolding context_of start_scan
rescan_root-reconciles_example =
    rescan_root-reconciles counting 1 false grown idle films (codes "a.mp4") counting-AreFresh
      (refl, (refl, tt)) refl refl refl (λ v h. ground arith) refl

-- Two batches that find both videos as they were.
abbrev two_batches : Enumeration
two_batches = complete (
    batch (film (codes "/films/a.mp4") 9 ∷ []) 7
    ∷ batch (film (codes "/films/b.mp4") 9 ∷ []) 200
    ∷ [])

rescan_root-loses_example :
    find_row 1 (codes "b.mp4") (rescan_root counting 1 false true two_batches idle).videos
    ≡ some (record (clip 2 (codes "b.mp4")) { availability = Availability.missing })
unfolding context_of start_scan scan_files scan_file scan_known verdict mark judged
rescan_root-loses_example =
    rescan_root-loses counting 1 false two_batches idle films (codes "b.mp4")
      (batch (film (codes "/films/a.mp4") 9 ∷ []) 7)
      (batch (film (codes "/films/b.mp4") 9 ∷ []) 200 ∷ []) (clip 2 (codes "b.mp4"))
      counting-AreFresh (refl, (refl, tt)) refl refl refl refl refl refl refl refl refl refl

rescan_root-Retains_example :
    Retains
      (some (clip 2 (codes "b.mp4")))
      (find_row 1 (codes "b.mp4") (rescan_root counting 1 true true grown idle).videos)
rescan_root-Retains_example =
    rescan_root-Retains counting 1 true true grown idle 1 (codes "b.mp4") counting-AreFresh
      (refl, (refl, tt))
