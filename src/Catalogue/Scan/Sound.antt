-- ===== src/Catalogue/Scan/Sound.antt =====
-- src/catalogue/Catalogue.cpp: the rows that a complete rescan leaves (rescanRoot, startScan,
-- runEnumerationLocked).
use scrub_tub.Base.{
  ℕ, ◌+◌, ◌≡◌, refl, sym, subst, ◌∙◌, ap, Bool, true, false, not, ◌&&◌, none, some, List, [], ◌∷◌,
  ◌++◌, arith, Distinct, inl, inr, Bool-cases, Option-cases, Text, leb, length,
}
use scrub_tub.Catalogue.{State, Entry, Root, Availability, RowIds, find_row, find_root, video_ids}
use scrub_tub.Catalogue.Scan.{
  File, Batch, Context, Pass, is_older, ask, scan_batch, scan_files, commit_if_due, Verdict, seen,
  revived, revived_probed, changed, key_of, verdict, mark, insert_video, scan_new, scan_known,
  scan_file, ensure_probe_job, requeue_probe, drop_extracted, start_scan, Enumeration, rescan_root,
}
use scrub_tub.Catalogue.Scan.Files.{AreFresh}
use scrub_tub.Catalogue.Scan.Reconcile.{last_file, taken_files, is_dropped}
use scrub_tub.Catalogue.Scan.Complete.{context_at, first_pass, Settled, rescan_root-Settled}

abbrev pub all_files : List Batch → List File
all_files [] = []
all_files (b ∷ bs) = b.files ++ all_files bs

-- No batch meets a cancelled scan or an open transaction.
abbrev pub are_taken : Context → List Batch → Pass → Bool
are_taken c [] p = true
are_taken c (b ∷ bs) p = not (is_dropped (ask b p)) && are_taken c bs (scan_batch c b (ask b p))

taken_files_all :
    (c : Context) (bs : List Batch) (p : Pass)
    → are_taken c bs p ≡ true
    → taken_files c bs p ≡ all_files bs
taken_files_all c [] p h = refl
taken_files_all c (b ∷ bs) p h = elim (Bool-cases (is_dropped (ask b p))) [
  | inl e ↦ ground (arith, e)
  | inr e ↦ ground (arith, e, taken_files_all c bs (scan_batch c b (ask b p)))
]

-- Let a scan that is started on a root run to completion with no batch dropped, where no row of the
-- key has been seen by this scan before. Then a key that a batch lists has a row which shows the
-- size and time of the last such file, was seen by this scan and is not missing; a row of any other
-- key of the root is as before and missing; and a key with neither row nor file has no row.
pub rescan_root-reconciles :
    (ids : RowIds) (root : ℕ) (force : Bool) (e : Enumeration) (s : State) (r : Root) (key : Text)
    → AreFresh ids
    → Distinct (video_ids s.videos)
    → s.scan_active ≡ false
    → find_root root s.roots ≡ some r
    → e.is_completed ≡ true
    → ((v : Entry)
        → find_row root key s.videos ≡ some v
        → is_older (r.scan_generation + 1) v.seen_generation ≡ true)
    → are_taken (context_at ids force r) e.batches (first_pass root force s) ≡ true
    → Settled
        (r.scan_generation + 1)
        (last_file (context_at ids force r) key (all_files e.batches))
        (find_row root key s.videos)
        (find_row root key (rescan_root ids root force true e s).videos)
rescan_root-reconciles ids root force e s r key fresh d idle h t older taken =
    subst
      (λ fs.
        Settled (r.scan_generation + 1) (last_file (context_at ids force r) key fs)
          (find_row root key s.videos)
          (find_row root key (rescan_root ids root force true e s).videos))
      (taken_files_all (context_at ids force r) e.batches (first_pass root force s) taken)
      (rescan_root-Settled ids root force e s r key fresh d idle h t older)

open_transaction-drops :
    (c : Context) (bs : List Batch) (p : Pass)
    → p.state.in_transaction ≡ true
    → taken_files c bs p ≡ []
unfolding scan_batch
open_transaction-drops c [] p h = refl
open_transaction-drops c (b ∷ bs) p h =
    ground (arith, h, open_transaction-drops c bs (scan_batch c b (ask b p)))

scan_known-in_transaction :
    (c : Context) (f : File) (v : Entry) (w : Verdict) (p : Pass)
    → (scan_known c f v w p).state.in_transaction ≡ p.state.in_transaction
unfolding scan_known mark ensure_probe_job requeue_probe drop_extracted
scan_known-in_transaction c f v seen p = ground arith
scan_known-in_transaction c f v revived p = refl
scan_known-in_transaction c f v revived_probed p = refl
scan_known-in_transaction c f v changed p = refl

scan_file-in_transaction :
    (c : Context) (f : File) (p : Pass)
    → (scan_file c f p).state.in_transaction ≡ p.state.in_transaction
unfolding scan_file scan_new insert_video ensure_probe_job
scan_file-in_transaction c f p =
    elim (Option-cases (find_row c.root_id (key_of c f) p.state.videos)) [
      | inl e ↦ rw (e, scan_file) refl
      | inr (v, e) ↦ rw (e, scan_file) (scan_known-in_transaction c f v (verdict c.force v f) p)
    ]

scan_files-in_transaction :
    (c : Context) (fs : List File) (p : Pass)
    → (scan_files c fs p).state.in_transaction ≡ p.state.in_transaction
unfolding scan_files
scan_files-in_transaction c [] p = refl
scan_files-in_transaction c (f ∷ fs) p =
    scan_files-in_transaction c fs (scan_file c f p) ∙ scan_file-in_transaction c f p

-- A batch inside its transaction.
abbrev pub opened : Batch → Pass → Pass
opened b p = record p {
  state = record p.state {
    discovered = p.state.discovered + length b.files;
    in_transaction = true;
  };
}

-- The batch is too small and too fast for a commit.
abbrev pub is_uncommitted : Context → Batch → Pass → Bool
is_uncommitted c b p =
    not (leb 250 (scan_files c b.files (opened b p)).rows_since_commit) && not (leb 100 b.elapsed)

uncommitted_open :
    (c : Context) (b : Batch) (p : Pass)
    → p.state.cancel_requested ≡ false
    → p.state.in_transaction ≡ false
    → is_uncommitted c b p ≡ true
    → (scan_batch c b p).state.in_transaction ≡ true
unfolding scan_batch commit_if_due
uncommitted_open c b p free closed h =
    ground (arith, free, closed, scan_files-in_transaction c b.files (opened b p))

taken_files_first :
    (c : Context) (b : Batch) (bs : List Batch) (p : Pass)
    → b.cancelled ≡ false
    → p.state.cancel_requested ≡ false
    → p.state.in_transaction ≡ false
    → is_uncommitted c b p ≡ true
    → taken_files c (b ∷ bs) p ≡ b.files ++ []
taken_files_first c b bs p kept free closed h = ground (
  arith,
  kept,
  free,
  closed,
  open_transaction-drops c bs (scan_batch c b p) (uncommitted_open c b p free closed h),
)

some_inj : (v w : Entry) → some v ≡ some w → v ≡ w
some_inj v w h = cc

append_nil : (fs : List File) → fs ++ [] ≡ fs
append_nil [] = refl
append_nil (f ∷ fs) = ap (λ gs. f ∷ gs) (append_nil fs)

-- Let a scan that is started on a root with no open transaction run to completion, where its first
-- batch ends within 100 ms and with fewer than 250 new or changed rows. Then a row of the root that
-- this batch does not list and that this scan has not seen before is missing at the end, whatever
-- the later batches list.
pub rescan_root-loses :
    (ids : RowIds) (root : ℕ) (force : Bool) (e : Enumeration) (s : State) (r : Root) (key : Text)
    (b : Batch) (bs : List Batch) (v : Entry)
    → AreFresh ids
    → Distinct (video_ids s.videos)
    → s.scan_active ≡ false
    → s.in_transaction ≡ false
    → find_root root s.roots ≡ some r
    → e.is_completed ≡ true
    → e.batches ≡ b ∷ bs
    → b.cancelled ≡ false
    → is_uncommitted (context_at ids force r) b (first_pass root force s) ≡ true
    → last_file (context_at ids force r) key b.files ≡ none
    → find_row root key s.videos ≡ some v
    → is_older (r.scan_generation + 1) v.seen_generation ≡ true
    → find_row root key (rescan_root ids root force true e s).videos
      ≡ some (record v { availability = Availability.missing })
unfolding start_scan
rescan_root-loses ids root force e s r key b bs v fresh d idle closed h t first kept small unlisted
      row older =
    let c = context_at ids force r in
    let g = r.scan_generation + 1 in
    let p = first_pass root force s in
    let only_first : taken_files c e.batches p ≡ b.files =
      ap (λ l. taken_files c l p) first
      ∙ taken_files_first c b bs p kept refl closed small
      ∙ append_nil b.files in
    let none_listed : last_file c key (taken_files c e.batches p) ≡ none =
      ap (last_file c key) only_first ∙ unlisted in
    let is_old : (w : Entry)
        → find_row root key s.videos ≡ some w
        → is_older g w.seen_generation ≡ true =
      λ w q. subst (λ z. is_older g z.seen_generation ≡ true) (some_inj v w (sym row ∙ q)) older in
    let new = find_row root key (rescan_root ids root force true e s).videos in
    subst (λ o. Settled g none o new) row
      (subst (λ o. Settled g o (find_row root key s.videos) new) none_listed
        (rescan_root-Settled ids root force e s r key fresh d idle h t is_old))
