-- ===== src/Catalogue/Scan/Roots.antt =====
-- src/catalogue/Catalogue.cpp: a scan keeps the paths of the roots (startScan, runEnumerationLocked).
use scrub_tub.Base.{
  ℕ, ◌+◌, ◌≡◌, refl, ◌∙◌, Bool, false, some, List, [], ◌∷◌, map, ◌==◌, if◌then◌else◌, arith,
  Bool-cases, inl, inr, Option-cases, Text, codes,
}
use scrub_tub.Catalogue.{State, Entry, Root, RowIds, find_row, find_root, emit_progress}
use scrub_tub.Catalogue.Scan.{
  File, Batch, Context, Pass, Verdict, seen, revived, revived_probed, changed, key_of, verdict,
  mark, insert_video, scan_new, scan_known, scan_file, scan_files, ensure_probe_job, requeue_probe,
  drop_extracted, flush_rows, commit_if_due, ask, scan_batch, scan_batches, finish_enumeration,
  start_scan, Enumeration, end_enumeration, context_of, run_enumeration,
}
use scrub_tub.Catalogue.Scan.Sound.{opened}

abbrev pub root_keys : List Root → List Text
root_keys [] = []
root_keys (r ∷ rs) = r.cmp_key ∷ root_keys rs

root_keys-map :
    (f : Root → Root) (rs : List Root)
    → ((r : Root) → (f r).cmp_key ≡ r.cmp_key)
    → root_keys (map f rs) ≡ root_keys rs
root_keys-map f [] h = refl
root_keys-map f (r ∷ rs) h = ground (arith, h r, root_keys-map f rs h)

scan_known-roots :
    (c : Context) (f : File) (v : Entry) (w : Verdict) (p : Pass)
    → (scan_known c f v w p).state.roots ≡ p.state.roots
unfolding scan_known mark ensure_probe_job requeue_probe drop_extracted
scan_known-roots c f v seen p = ground arith
scan_known-roots c f v revived p = refl
scan_known-roots c f v revived_probed p = refl
scan_known-roots c f v changed p = refl

scan_file-roots :
    (c : Context) (f : File) (p : Pass) → (scan_file c f p).state.roots ≡ p.state.roots
unfolding scan_file scan_new insert_video ensure_probe_job
scan_file-roots c f p = elim (Option-cases (find_row c.root_id (key_of c f) p.state.videos)) [
  | inl e ↦ rw (e, scan_file) refl
  | inr (v, e) ↦ rw (e, scan_file) (scan_known-roots c f v (verdict c.force v f) p)
]

scan_files-roots :
    (c : Context) (fs : List File) (p : Pass) → (scan_files c fs p).state.roots ≡ p.state.roots
unfolding scan_files
scan_files-roots c [] p = refl
scan_files-roots c (f ∷ fs) p = scan_files-roots c fs (scan_file c f p) ∙ scan_file-roots c f p

flush_rows-roots : (p : Pass) → (flush_rows p).state.roots ≡ p.state.roots
unfolding flush_rows
flush_rows-roots p = ground arith

commit_if_due-roots : (n : ℕ) (p : Pass) → (commit_if_due n p).state.roots ≡ p.state.roots
unfolding commit_if_due flush_rows
commit_if_due-roots n p = ground arith

scan_batch-roots :
    (c : Context) (b : Batch) (p : Pass) → (scan_batch c b p).state.roots ≡ p.state.roots
unfolding scan_batch
scan_batch-roots c b p = ground (
  arith,
  commit_if_due-roots b.elapsed (scan_files c b.files (opened b p)),
  scan_files-roots c b.files (opened b p),
)

ask-roots : (b : Batch) (p : Pass) → (ask b p).state.roots ≡ p.state.roots
ask-roots b p = ground arith

scan_batches-roots :
    (c : Context) (bs : List Batch) (p : Pass) → (scan_batches c bs p).state.roots ≡ p.state.roots
unfolding scan_batches
scan_batches-roots c [] p = refl
scan_batches-roots c (b ∷ bs) p =
    scan_batches-roots c bs (scan_batch c b (ask b p))
    ∙ scan_batch-roots c b (ask b p)
    ∙ ask-roots b p

end_enumeration-root_keys :
    (root g : ℕ) (e : Enumeration) (p : Pass)
    → root_keys (end_enumeration root g e p).roots ≡ root_keys p.state.roots
unfolding end_enumeration finish_enumeration
end_enumeration-root_keys root g e p =
    let q = record p { state = record p.state { in_transaction = false } } in
    let touch =
      λ (r : Root). if r.id == root then record r { last_complete_scan_ms = some e.now } else r in
    elim (Bool-cases e.is_completed) [
      | inl t ↦ ground (
        arith,
        t,
        root_keys-map touch (flush_rows q).state.roots (λ r. ground arith),
        flush_rows-roots q,
      )
      | inr t ↦ ground (arith, t, flush_rows-roots q)
    ]

pub start_scan-root_keys :
    (root : ℕ) (force : Bool) (s : State)
    → root_keys (start_scan root force s).roots ≡ root_keys s.roots
unfolding start_scan
start_scan-root_keys root force s =
    root_keys-map
      (λ r.
        if r.id == root
        then record r { scan_generation = r.scan_generation + 1; is_missing = false }
        else r)
      s.roots (λ r. ground arith)

pub run_enumeration-root_keys :
    (ids : RowIds) (root : ℕ) (force : Bool) (e : Enumeration) (s : State)
    → root_keys (run_enumeration ids root force e s).roots ≡ root_keys s.roots
unfolding run_enumeration
run_enumeration-root_keys ids root force e s = elim (Option-cases (find_root root s.roots)) [
  | inl n ↦ ground (arith, n)
  | inr (r, f) ↦
      let p : Pass = record {
        state = emit_progress (codes "enumerating") s;
        rows_since_commit = 0;
        pending = [];
      } in
      let c = context_of ids force r in
      let q = scan_batches c e.batches p in
      ground (
        arith,
        f,
        end_enumeration-root_keys root r.scan_generation e q,
        scan_batches-roots c e.batches p,
      )
]
