-- ===== src/Catalogue/Scan/Complete.antt =====
-- src/catalogue/Catalogue.cpp: a scan from `rescanRoot` to its last transaction.
use scrub_tub.Base.{
  ℕ, ◌+◌, ◌≡◌, refl, sym, subst, ◌∙◌, ap, Bool, true, false, Option, none, some, List, [], ◌∷◌,
  arith, ◌==◌, if◌then◌else◌, map, Distinct, inl, inr, Bool-cases, Text, codes,
}
use scrub_tub.Catalogue.{
  State, Entry, Root, Availability, RowIds, find_row, find_root, video_ids, emit_progress,
}
use scrub_tub.Catalogue.Rows.{is_at, find_row-is_at}
use scrub_tub.Catalogue.Scan.{
  File, Context, Pass, scan_batches, mark_missing, mark_all, is_older, finish_enumeration,
  start_scan, Enumeration, end_enumeration, context_of, run_enumeration, rescan_root,
}
use scrub_tub.Catalogue.Scan.Files.{Shows, AreFresh, Retains}
use scrub_tub.Catalogue.Scan.Reconcile.{
  last_file, videos_of, videos_of-Reconciled, Reconciled, taken_files, flush_rows-videos,
  scan_batches-videos,
}

mark_missing-is_at :
    (root : ℕ) (key : Text) (r g : ℕ) (v : Entry)
    → is_at root key (mark_missing r g v) ≡ is_at root key v
unfolding mark_missing
mark_missing-is_at root key r g v = ground arith

abbrev pub marked : ℕ → ℕ → Option Entry → Option Entry
marked r g none = none
marked r g (some v) = some (mark_missing r g v)

pub find_row-mark_all :
    (root : ℕ) (key : Text) (r g : ℕ) (vs : List Entry)
    → find_row root key (mark_all (mark_missing r g) vs) ≡ marked r g (find_row root key vs)
find_row-mark_all root key r g [] = refl
find_row-mark_all root key r g (v ∷ vs) = elim (Bool-cases (is_at root key v)) [
  | inl e ↦ ground (arith, e, mark_missing-is_at root key r g v)
  | inr e ↦ ground (arith, e, mark_missing-is_at root key r g v, find_row-mark_all root key r g vs)
]

pub mark_missing-Retains : (r g : ℕ) (o : Option Entry) → Retains o (marked r g o)
unfolding mark_missing
mark_missing-Retains r g none = tt
mark_missing-Retains r g (some v) = (mark_missing r g v, refl, ground arith, ground arith)

-- The scan's context and the catalogue at its first batch.
abbrev pub context_at : RowIds → Bool → Root → Context
context_at ids force r =
    context_of ids force (record r { scan_generation = r.scan_generation + 1; is_missing = false })

abbrev pub first_pass : ℕ → Bool → State → Pass
first_pass root force s = record {
  state = emit_progress (codes "enumerating") (start_scan root force s);
  rows_since_commit = 0;
  pending = [];
}

find_root-bump :
    (root : ℕ) (rs : List Root) (r : Root)
    → find_root root rs ≡ some r
    → find_root root (
        map
          (λ (q : Root).
            if q.id == root
            then record q { scan_generation = q.scan_generation + 1; is_missing = false }
            else q)
          rs)
      ≡ some (record r { scan_generation = r.scan_generation + 1; is_missing = false })
find_root-bump root [] r h = cc
find_root-bump root (q ∷ rs) r h = elim (Bool-cases (q.id == root)) [
  | inl e ↦ ground (arith, e)
  | inr e ↦ ground (arith, e, find_root-bump root rs r)
]

end_enumeration-videos :
    (root g : ℕ) (e : Enumeration) (p : Pass)
    → (end_enumeration root g e p).videos
      ≡ (if e.is_completed then mark_all (mark_missing root g) p.state.videos else p.state.videos)
unfolding end_enumeration finish_enumeration
end_enumeration-videos root g e p = elim (Bool-cases e.is_completed) [
  | inl t ↦
      ground (
        arith,
        t,
        flush_rows-videos (record p { state = record p.state { in_transaction = false } }),
      )
  | inr t ↦
      ground (
        arith,
        t,
        flush_rows-videos (record p { state = record p.state { in_transaction = false } }),
      )
]

find_root-id : (root : ℕ) (rs : List Root) (r : Root) → find_root root rs ≡ some r → r.id ≡ root
find_root-id root [] r h = cc
find_root-id root (q ∷ rs) r h = elim (Bool-cases (q.id == root)) [
  | inl e ↦ ground (arith, e)
  | inr e ↦ ground (arith, e, find_root-id root rs r)
]

-- The rows behind the batches of a scan.
abbrev pub scanned : RowIds → ℕ → Bool → Enumeration → State → Root → List Entry
scanned ids root force e s r =
    let c = context_at ids force r in
    videos_of c (taken_files c e.batches (first_pass root force s)) s.videos

pub run_enumeration-videos :
    (ids : RowIds) (root : ℕ) (force : Bool) (e : Enumeration) (s : State) (r : Root)
    → find_root root s.roots ≡ some r
    → (run_enumeration ids root force e (start_scan root force s)).videos ≡ (
        if e.is_completed
        then mark_all (mark_missing root (r.scan_generation + 1)) (scanned ids root force e s r)
        else scanned ids root force e s r)
unfolding run_enumeration start_scan context_of
run_enumeration-videos ids root force e s r h =
    let c = context_at ids force r in
    let p = first_pass root force s in
    rw (find_root-bump root s.roots r h, run_enumeration)
      (end_enumeration-videos root (r.scan_generation + 1) e (scan_batches c e.batches p)
        ∙ ap
            (λ vs.
              if e.is_completed
              then mark_all (mark_missing root (r.scan_generation + 1)) vs
              else vs)
            (scan_batches-videos c e.batches p))

pub rescan_root-videos :
    (ids : RowIds) (root : ℕ) (force : Bool) (e : Enumeration) (s : State) (r : Root)
    → s.scan_active ≡ false
    → find_root root s.roots ≡ some r
    → (rescan_root ids root force true e s).videos ≡ (
        if e.is_completed
        then mark_all (mark_missing root (r.scan_generation + 1)) (scanned ids root force e s r)
        else scanned ids root force e s r)
unfolding rescan_root start_scan
rescan_root-videos ids root force e s r idle h =
    rw (idle, h, rescan_root) (run_enumeration-videos ids root force e s r h)

-- What a complete scan leaves: the row of a listed file, or the old row as missing.
abbrev pub Settled : ℕ → Option File → Option Entry → Option Entry → Type 0
Settled g none none new = new ≡ none
Settled g none (some v) new = new ≡ some (record v { availability = Availability.missing })
Settled g (some f) old new = Shows g f new

mark_missing-older :
    (root g : ℕ) (v : Entry)
    → (v.root_id == root) ≡ true
    → is_older g v.seen_generation ≡ true
    → mark_missing root g v ≡ record v { availability = Availability.missing }
unfolding mark_missing
mark_missing-older root g v h o = ground arith

mark_missing-seen :
    (root g : ℕ) (v : Entry) → v.seen_generation ≡ some g → mark_missing root g v ≡ v
unfolding mark_missing
mark_missing-seen root g v h = ground arith

settle_unlisted :
    (root g : ℕ) (old new : Option Entry)
    → ((v : Entry) → old ≡ some v → is_older g v.seen_generation ≡ true)
    → ((v : Entry) → old ≡ some v → (v.root_id == root) ≡ true)
    → new ≡ old
    → Settled g none old (marked root g new)
settle_unlisted root g none new older here h = rw h refl
settle_unlisted root g (some v) new older here h =
    rw h (ap some (mark_missing-older root g v (here v refl) (older v refl)))

row_root :
    (root : ℕ) (key : Text) (vs : List Entry) (v : Entry)
    → find_row root key vs ≡ some v
    → (v.root_id == root) ≡ true
row_root root key vs v h = ground (arith, find_row-is_at root key vs v h)

-- From the rows behind the batches to the rows behind the last transaction.
settle_key :
    (root g : ℕ) (key : Text) (o : Option File) (vs ws : List Entry)
    → ((v : Entry) → find_row root key vs ≡ some v → is_older g v.seen_generation ≡ true)
    → Reconciled g o (find_row root key vs) (find_row root key ws)
    → Settled g o (find_row root key vs) (marked root g (find_row root key ws))
settle_key root g key none vs ws older h =
    settle_unlisted root g (find_row root key vs) (find_row root key ws) older
      (row_root root key vs) h
settle_key root g key (some f) vs ws older (v, e, shown) =
    (v, rw e (ap some (mark_missing-seen root g v shown.generation)), shown)

-- The rows of a complete scan, by the files of the batches that were not dropped.
pub rescan_root-Settled :
    (ids : RowIds) (root : ℕ) (force : Bool) (e : Enumeration) (s : State) (r : Root) (key : Text)
    → AreFresh ids
    → Distinct (video_ids s.videos)
    → s.scan_active ≡ false
    → find_root root s.roots ≡ some r
    → e.is_completed ≡ true
    → ((v : Entry)
        → find_row root key s.videos ≡ some v
        → is_older (r.scan_generation + 1) v.seen_generation ≡ true)
    → Settled
        (r.scan_generation + 1)
        (last_file
          (context_at ids force r)
          key
          (taken_files (context_at ids force r) e.batches (first_pass root force s)))
        (find_row root key s.videos)
        (find_row root key (rescan_root ids root force true e s).videos)
unfolding context_of
rescan_root-Settled ids root force e s r key fresh d idle h t older =
    let c = context_at ids force r in
    let fs = taken_files c e.batches (first_pass root force s) in
    let g = r.scan_generation + 1 in
    let ws = videos_of c fs s.videos in
    let same : r.id ≡ root = find_root-id root s.roots r h in
    let end : find_row root key (rescan_root ids root force true e s).videos
        ≡ marked root g (find_row root key ws) =
      ap (find_row root key) (rescan_root-videos ids root force e s r idle h)
      ∙ ap (λ b. find_row root key (if b then mark_all (mark_missing root g) ws else ws)) t
      ∙ find_row-mark_all root key root g ws in
    subst (Settled g (last_file c key fs) (find_row root key s.videos)) (sym end) (
      settle_key root g key (last_file c key fs) s.videos ws older (
        subst (λ z. Reconciled g (last_file c key fs) (find_row z key s.videos) (find_row z key ws))
          same (videos_of-Reconciled c key fs s.videos fresh d)))
